-- ===== src/SocketTricks.antt =====
-- The passing of descriptors from the master of server 2.0 to a worker, p6/src/SocketTricks.cpp. The socket
-- pair is the system's, and so are the constants of `cmsghdr`: a Transport says what is used of them.
pub mod Passing
use rest_technosphere_cpp_se.Base.{
  ℕ, zero, suc, ◌≡◌, Bool, true, false, not, ◌&&◌, Option, none, some, List, [], ◌∷◌, ◌++◌, Bytes,
  ℤ, pos, negsuc, length, ◌==◌, if◌then◌else◌,
}

-- A control message with one `int`.
pub record Cmsghdr : Type 0 where
  pub cmsg_len : ℕ
  pub cmsg_level : ℕ
  pub cmsg_type : ℕ
  pub content : ℤ

pub record Msghdr : Type 0 where
  pub iov_base : Bytes
  pub iov_len : ℕ
  pub msg_control : Option Cmsghdr

-- What `recvmsg` leaves: its result, whether `errno` is EAGAIN, and the first control message, if any.
pub record Received : Type 0 where
  pub size : ℤ
  pub again : Bool
  pub cmsg : Option Cmsghdr

abbrev pub is_negative : ℤ → Bool
is_negative (pos n) = false
is_negative (negsuc n) = true

-- CMSG_LEN(sizeof(int)), SOL_SOCKET and SCM_RIGHTS
pub record Constants : Type 0 where
  pub len_of_int : ℕ
  pub sol_socket : ℕ
  pub scm_rights : ℕ

module _ (k : Constants) where
  -- the message of `sock_fd_write`; there is no control message for the descriptor -1
  unfoldable pub rights : ℤ → Option Cmsghdr
  rights (pos fd) = some (record {
    cmsg_len = k.len_of_int;
    cmsg_level = k.sol_socket;
    cmsg_type = k.scm_rights;
    content = pos fd;
  })
  rights (negsuc zero) = none
  rights (negsuc (suc n)) = some (record {
    cmsg_len = k.len_of_int;
    cmsg_level = k.sol_socket;
    cmsg_type = k.scm_rights;
    content = negsuc (suc n);
  })

  unfoldable pub message : Bytes → ℤ → Msghdr
  unfolding rights
  message buf fd = record { iov_base = buf; iov_len = length buf; msg_control = rights fd }

  -- `*fd` of `sock_fd_read` after `recvmsg`; `none` is `exit(1)`
  unfoldable pub descriptor_of : Option Cmsghdr → Option ℤ
  descriptor_of none = some (negsuc 0)
  descriptor_of (some c) =
      if c.cmsg_len == k.len_of_int
      then (if not (c.cmsg_level == k.sol_socket)
          then none
          else if not (c.cmsg_type == k.scm_rights)
          then none
          else some c.content)
      else some (negsuc 0)

  -- the result and `*fd` of `sock_fd_read`, where `fd` is no null pointer
  unfoldable pub read_received : Received → Option (ℤ × ℤ)
  unfolding descriptor_of
  read_received r =
      if is_negative r.size && not r.again
      then none
      else elim (descriptor_of r.cmsg) [ none ↦ none | some fd ↦ some (r.size, fd) ]

-- the result of `sock_fd_read` for a null pointer, after `read` has returned `size`
unfoldable pub plain_read : ℤ → Bool → Option ℤ
plain_read size again = if is_negative size && not again then none else some size

abbrev pub map_content : (ℤ → ℤ) → Option Cmsghdr → Option Cmsghdr
map_content f none = none
map_content f (some c) = some (record c { content = f c.content })

-- One direction of a socket pair. `pending` is what was sent and not received yet. A message that arrives
-- carries the number that its descriptor has in the receiver.
pub record Transport (Socket : Type 0) : Type 0 where
  pub pending : Socket → List Msghdr
  pub number : ℤ → ℤ
  pub sendmsg : Socket → Msghdr → ℤ × Socket
  pub recvmsg : Socket → Received × Socket
  pub pending-sendmsg :
      (s : Socket) (m : Msghdr)
      → pending (sendmsg s m).1
        ≡ (if is_negative (sendmsg s m).0 then pending s else pending s ++ (m ∷ []))
  pub pending-recvmsg :
      (s : Socket) (m : Msghdr) (rest : List Msghdr)
      → pending s ≡ m ∷ rest
      → (pending (recvmsg s).1 ≡ rest)
        × (is_negative (recvmsg s).0.size ≡ false)
        × ((recvmsg s).0.cmsg ≡ map_content number m.msg_control)

module _ {Socket : Type 0} (k : Constants) (t : Transport Socket) where
  unfoldable pub sock_fd_write : Socket → Bytes → ℤ → ℤ × Socket
  unfolding message
  sock_fd_write s buf fd = t.sendmsg s (message k buf fd)

  unfoldable pub sock_fd_read : Socket → Option (ℤ × ℤ) × Socket
  unfolding read_received
  sock_fd_read s = (read_received k (t.recvmsg s).0, (t.recvmsg s).1)

  -- the descriptors that `listener_cb` writes, and those of which the write has succeeded
  unfoldable pub pass_on : Socket → List ℕ → List ℕ × Socket
  unfolding sock_fd_write
  pass_on s [] = ([], s)
  pass_on s (fd ∷ fds) =
      let (size, after) = sock_fd_write s (b'1' ∷ []) (pos fd) in
      let (passed, end) = pass_on after fds in
      (if is_negative size then passed else fd ∷ passed, end)

  -- what the worker's `fd_channel_callback` reads in some rounds
  unfoldable pub take_over : Socket → ℕ → List (Option ℤ)
  unfolding sock_fd_read
  take_over s zero = []
  take_over s (suc n) =
      let (result, after) = sock_fd_read s in
      let rest = take_over after n in
      elim result [ none ↦ none ∷ [] | some (size, fd) ↦ some fd ∷ rest ]
