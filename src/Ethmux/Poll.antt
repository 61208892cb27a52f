-- ===== src/Ethmux/Poll.antt =====
-- `demux` as the event loop calls it, and the socket that it reads.
use av3_fc.Base.Int.{ℤ, pos, negsuc}
use av3_fc.Base.{ℕ, List, [], ◌∷◌, ◌++◌, ◌≡◌, refl, length, if◌then◌else◌}
use av3_fc.Ethmux.{Read}
use av3_fc.Ethmux.Demux.{IsRead}
use av3_fc.NetAddrs.{fc_listen_port}
use av3_fc.Sockets.{
  Call, close, add_fd, remove_fd, failed, ReceivedMessage, SocketConstants,
  timestamped_bound_udp_socket, readsocketfromts, eth_mtu,
}
use av3_fc.Sockets.Open.{open_after, polled_after, returned, without_self}
use av3_fc.Sockets.Receive.{IsReceived, readsocketfromts_count}
use av3_fc.Time.{Timespec, to_psas_time, length-to_psas_time}

-- The first lines of `demux`, with what `recvmsg` gives and what is in `ts` before.
unfoldable pub read_packet : SocketConstants → Timespec → Timespec → ReceivedMessage → Read
read_packet k starttime ts m =
    let (bytes, ts') = readsocketfromts k m ts in
    record {
      bytes = bytes;
      buffer = m.buffer;
      port = m.port;
      timestamp = to_psas_time starttime ts';
    }

-- With what `socket`, `bind` and `setsockopt` give: `fd`, and what is done to descriptors.
unfoldable pub ethmux_init : ℤ → ℤ → ℤ → ℤ × List Call
ethmux_init created bound set =
    let (fd, calls) = timestamped_bound_udp_socket created bound set fc_listen_port in
    if failed fd then (fd, calls) else (fd, calls ++ add_fd fd ∷ [])

unfoldable pub ethmux_final : ℤ → List Call
ethmux_final fd = remove_fd fd ∷ close fd ∷ []

-- What `recvmsg` writes into the buffer of `ETH_MTU` bytes is read as such, with a time of six bytes.
pub read_packet-IsRead :
    (k : SocketConstants) (starttime ts : Timespec) (m : ReceivedMessage)
    → IsReceived eth_mtu m
    → IsRead (read_packet k starttime ts m) × (length (read_packet k starttime ts m).timestamp ≡ 6)
unfolding read_packet
read_packet-IsRead k starttime ts m h = (
  record { mtu = h.size_lem; in_buffer = λ n e. readsocketfromts_count k eth_mtu m ts n h e },
  length-to_psas_time starttime _,
)

-- Whatever the system calls give, `ethmux_init` polls the descriptor that it leaves open, if it
-- opened one, and after `ethmux_final` the descriptors that are open and those that are polled are
-- those from before.
pub ethmux_init-ethmux_final :
    (created bound set : ℤ) (fds polled : List ℕ)
    → let (fd, calls) = ethmux_init created bound set in
      (open_after calls fds ≡ returned fd fds)
      × (polled_after calls polled ≡ returned fd polled)
      × (open_after (calls ++ ethmux_final fd) fds ≡ fds)
      × (polled_after (calls ++ ethmux_final fd) polled ≡ polled)
unfolding ethmux_init ethmux_final timestamped_bound_udp_socket
ethmux_init-ethmux_final (negsuc n) bound set fds polled = (refl, refl, refl, refl)
ethmux_init-ethmux_final (pos n) (negsuc b) set fds polled =
    (without_self n fds, refl, without_self n fds, refl)
ethmux_init-ethmux_final (pos n) (pos b) (negsuc e) fds polled =
    (without_self n fds, refl, without_self n fds, refl)
ethmux_init-ethmux_final (pos n) (pos b) (pos e) fds polled =
    (refl, refl, without_self n fds, without_self n polled)
