-- ===== src/Examples/Passing.antt =====
-- The passing of three descriptors over a socket that holds two messages.
use rest_technosphere_cpp_se.Base.{
  ℕ, ◌+◌, ◌≡◌, refl, true, false, some, none, List, [], ◌∷◌, ◌++◌, map, length, ℤ, pos, negsuc,
  if◌then◌else◌,
}
use rest_technosphere_cpp_se.SocketTricks.{
  Msghdr, Received, Constants, Transport, is_negative, map_content, sock_fd_write, pass_on,
  take_over,
}
use rest_technosphere_cpp_se.SocketTricks.Passing.{take_over-pass_on}

abbrev linux : Constants
linux = record { len_of_int = 20; sol_socket = 1; scm_rights = 1 }

-- a descriptor has a number higher by 10 in the worker
abbrev shifted : ℤ → ℤ
shifted (pos n) = pos (n + 10)
shifted (negsuc n) = negsuc n

abbrev send : List Msghdr → Msghdr → ℤ × List Msghdr
send [] m = (pos 1, m ∷ [])
send (a ∷ []) m = (pos 1, a ∷ m ∷ [])
send (a ∷ b ∷ rest) m = (negsuc 0, a ∷ b ∷ rest)

abbrev receive : List Msghdr → Received × List Msghdr
receive [] = (record { size = negsuc 0; again = true; cmsg = none }, [])
receive (m ∷ rest) =
    (record { size = pos 1; again = false; cmsg = map_content shifted m.msg_control }, rest)

send_lem :
    (s : List Msghdr) (m : Msghdr)
    → (send s m).1 ≡ (if is_negative (send s m).0 then s else s ++ (m ∷ []))
send_lem [] m = refl
send_lem (a ∷ []) m = refl
send_lem (a ∷ b ∷ rest) m = refl

receive_lem :
    (s : List Msghdr) (m : Msghdr) (rest : List Msghdr)
    → s ≡ m ∷ rest
    → ((receive s).1 ≡ rest)
      × (is_negative (receive s).0.size ≡ false)
      × ((receive s).0.cmsg ≡ map_content shifted m.msg_control)
receive_lem s m rest e = rw e (refl, refl, refl)

abbrev two_places : Transport (List Msghdr)
two_places = record {
  pending = λ s. s;
  number = shifted;
  sendmsg = send;
  recvmsg = receive;
  pending-sendmsg = send_lem;
  pending-recvmsg = receive_lem;
}

abbrev accepted : List ℕ
accepted = 7 ∷ 8 ∷ 9 ∷ []

-- the third is lost
two_passed : (pass_on linux two_places [] accepted).0 ≡ 7 ∷ 8 ∷ []
unfolding pass_on sock_fd_write
two_passed = refl

take_over-pass_on_example :
    let (passed, after) = pass_on linux two_places [] accepted in
    take_over linux two_places after (length passed) ≡ map (λ fd. some (shifted (pos fd))) passed
take_over-pass_on_example = take_over-pass_on linux two_places accepted [] refl
