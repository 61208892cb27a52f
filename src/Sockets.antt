-- ===== src/Sockets.antt =====
-- src/utilities/utils_sockets.c: sockets, and the results of system calls as the program reads them.
-- What a system call gives is an argument; what is done to descriptors is a list of calls.
pub mod Receive
pub mod Open
pub mod Tests
use av3_fc.Base.Int.{ℤ, pos, negsuc}
use av3_fc.Base.{
  ℕ, zero, suc, ◌+◌, Bool, true, false, ◌&&◌, List, [], ◌∷◌, ◌++◌, ◌==◌, if◌then◌else◌,
}
use av3_fc.Base.Bytes.{Bytes}
use av3_fc.Time.{Timespec}

-- What `recv`, `recvfrom` and `recvmsg` give: a number of bytes, or -1 with an `errno`.
pub data Received : Type 0 where
  count : ℕ → Received
  would_block : Received
  error : Received

-- `ETH_MTU`
abbrev pub eth_mtu : ℕ
eth_mtu = 1500

-- The tests on `rc` that the three functions share.
unfoldable pub classify : Received → ℤ
classify error = negsuc 1
classify would_block = pos 0
classify (count zero) = negsuc 0
classify (count (suc n)) = pos (suc n)

-- With what `recv` gives.
unfoldable pub readsocket : Received → ℤ
unfolding classify
readsocket rc = classify rc

-- With what `recvfrom` gives, and the sender's address as it left it.
unfoldable pub readsocketfrom {ℓ} : {A : Type ℓ} → Received → A → ℤ × A
unfolding classify
readsocketfrom rc sender = (classify rc, sender)

-- A control message: `cmsg_level`, `cmsg_type`, and its data read as a `struct timespec`.
pub record ControlMessage : Type 0 where
  pub cmsg_level : ℕ
  pub cmsg_type : ℕ
  pub time : Timespec

-- The numbers of the platform's headers.
pub record SocketConstants : Type 0 where
  pub sol_socket : ℕ
  pub so_timestampns : ℕ

-- What `recvmsg` gives: its result, the buffer as it left it, the port of the sender in host order,
-- and the control messages.
pub record ReceivedMessage : Type 0 where
  pub rc : Received
  pub buffer : Bytes
  pub port : ℕ
  pub control : List ControlMessage

-- The loop over the control messages, with `*ts`.
unfoldable pub read_timestamps : SocketConstants → List ControlMessage → Timespec → Timespec
read_timestamps k [] ts = ts
read_timestamps k (c ∷ cs) ts =
    read_timestamps k cs
      (if c.cmsg_level == k.sol_socket && c.cmsg_type == k.so_timestampns then c.time else ts)

-- With what `recvmsg` gives: the result, and `*ts`, which is as it was where the function returns
-- early.
unfoldable pub readsocketfromts : SocketConstants → ReceivedMessage → Timespec → ℤ × Timespec
unfolding read_timestamps
readsocketfromts k m ts = elim m.rc [
  | error ↦ (negsuc 1, ts)
  | would_block ↦ (pos 0, ts)
  | count n ↦ elim n [
    | zero ↦ (negsuc 0, ts)
    | suc j ↦ (pos (suc j), read_timestamps k m.control ts)
  ]
]

-- What is done to descriptors, in order, each with what the call gave.
pub data Call : Type 0 where
  socket : ℤ → Call
  bind : ℤ → ℕ → ℤ → Call
  setsockopt : ℤ → ℤ → Call
  connect : ℤ → ℤ → Call
  close : ℤ → Call
  -- `fcf_add_fd` and `fcf_remove_fd` of the event loop.
  add_fd : ℤ → Call
  remove_fd : ℤ → Call

abbrev pub failed : ℤ → Bool
failed (pos n) = false
failed (negsuc n) = true

-- With what `socket` gives.
unfoldable pub udp_socket : ℤ → ℤ × List Call
udp_socket created = (created, socket created ∷ [])

-- With what `socket` and `bind` give.
unfoldable pub bound_udp_socket : ℤ → ℤ → ℕ → ℤ × List Call
unfolding udp_socket
bound_udp_socket created bound port =
    let (s, calls) = udp_socket created in
    if failed s
    then (s, calls)
    else if failed bound
    then (negsuc 0, calls ++ bind s port bound ∷ close s ∷ [])
    else (s, calls ++ bind s port bound ∷ [])

-- With what `socket`, `bind` and `setsockopt` give.
unfoldable pub timestamped_bound_udp_socket : ℤ → ℤ → ℤ → ℕ → ℤ × List Call
unfolding bound_udp_socket
timestamped_bound_udp_socket created bound set port =
    let (s, calls) = bound_udp_socket created bound port in
    if failed s
    then (s, calls)
    else if failed set
    then (negsuc 0, calls ++ setsockopt s set ∷ close s ∷ [])
    else (s, calls ++ setsockopt s set ∷ [])
