-- ===== src/SocketTricks/Passing.antt =====
-- The descriptors that a worker gets.
use rest_technosphere_cpp_se.Base.{
  ℕ, ◌≡◌, refl, sym, ap, ◌∙◌, inl, inr, some, List, [], ◌∷◌, ◌++◌, map, pos, length, ==_refl,
  Bool-cases,
}
use mathlib.Core.List.{append-nil, append_assoc}
use rest_technosphere_cpp_se.SocketTricks.{
  Msghdr, is_negative, Constants, rights, message, descriptor_of, read_received, Transport,
  map_content, sock_fd_write, sock_fd_read, pass_on, take_over,
}

module _ {Socket : Type 0} (k : Constants) (t : Transport Socket) where
  -- the messages of descriptors
  messages : List ℕ → List Msghdr
  messages [] = []
  messages (fd ∷ fds) = message k (b'1' ∷ []) (pos fd) ∷ messages fds

  pending-pass_on :
      (fds : List ℕ) (s : Socket)
      → t.pending (pass_on k t s fds).1 ≡ t.pending s ++ messages (pass_on k t s fds).0
  unfolding pass_on sock_fd_write messages
  pending-pass_on [] s = sym (append-nil (t.pending s))
  pending-pass_on (fd ∷ fds) s =
      let m = message k (b'1' ∷ []) (pos fd) in
      let ih = pending-pass_on fds (t.sendmsg s m).1 in
      let sent = t.pending-sendmsg s m in
      elim (Bool-cases (is_negative (t.sendmsg s m).0)) [
        | inl e ↦ rw e (ih ∙ rw (sent, e))
        | inr e ↦ rw e (
            ih
            ∙ rw (sent, e)
                (append_assoc (t.pending s) (m ∷ [])
                  (messages (pass_on k t (t.sendmsg s m).1 fds).0)))
      ]

  descriptor_of-message :
      (n : ℕ)
      → descriptor_of k (map_content t.number (message k (b'1' ∷ []) (pos n)).msg_control)
        ≡ some (t.number (pos n))
  unfolding descriptor_of message rights
  descriptor_of-message n = rw (==_refl k.len_of_int, ==_refl k.sol_socket, ==_refl k.scm_rights)

  -- a message with a descriptor that has arrived
  read_received-message :
      (fd : ℕ) (s : Socket) (rest : List Msghdr)
      → t.pending s ≡ message k (b'1' ∷ []) (pos fd) ∷ rest
      → read_received k (t.recvmsg s).0 ≡ some ((t.recvmsg s).0.size, t.number (pos fd))
  unfolding read_received
  read_received-message fd s rest e =
      let (after, size, cmsg) = t.pending-recvmsg s (message k (b'1' ∷ []) (pos fd)) rest e in
      let found : descriptor_of k (t.recvmsg s).0.cmsg ≡ some (t.number (pos fd)) =
        ap (descriptor_of k) cmsg ∙ descriptor_of-message fd in
      rw (size, found)

  take_over-messages :
      (fds : List ℕ) (s : Socket)
      → t.pending s ≡ messages fds
      → take_over k t s (length fds) ≡ map (λ fd. some (t.number (pos fd))) fds
  unfolding take_over sock_fd_read messages
  take_over-messages [] s e = refl
  take_over-messages (fd ∷ fds) s e =
      let m = message k (b'1' ∷ []) (pos fd) in
      let first = read_received-message fd s (messages fds) e in
      let (after, size, cmsg) = t.pending-recvmsg s m (messages fds) e in
      rw (first, take_over)
        (ap (λ l. some (t.number (pos fd)) ∷ l) (take_over-messages fds (t.recvmsg s).1 after))

  -- The master writes descriptors to a worker's socket that has nothing to read yet. Each round of the
  -- worker then reads one of those that could be written, in the same order and under the numbers
  -- that they have in the worker; none of its reads ends the process.
  pub take_over-pass_on :
      (fds : List ℕ) (s : Socket)
      → t.pending s ≡ []
      → let (passed, after) = pass_on k t s fds in
        take_over k t after (length passed) ≡ map (λ fd. some (t.number (pos fd))) passed
  take_over-pass_on fds s e =
      take_over-messages (pass_on k t s fds).0 (pass_on k t s fds).1 (pending-pass_on fds s ∙ rw e)
