-- ===== src/Sockets/Tests.antt =====
-- Runs of the socket functions.
use av3_fc.Base.Int.{pos, negsuc}
use av3_fc.Base.{◌||◌, [], ◌∷◌, ◌≡◌}
use av3_fc.Sockets.{failed, timestamped_bound_udp_socket}
use av3_fc.Sockets.Open.{open_after, returned, timestamped_bound_udp_socket_lem}

-- `setsockopt` fails.
timestamped_bound_udp_socket_lem_example :
    let (r, calls) = timestamped_bound_udp_socket (pos 5) (pos 0) (negsuc 0) 36000 in
    (open_after calls (3 ∷ 4 ∷ []) ≡ returned r (3 ∷ 4 ∷ []))
    × (failed r ≡ (failed (pos 5) || failed (pos 0) || failed (negsuc 0)))
timestamped_bound_udp_socket_lem_example =
    timestamped_bound_udp_socket_lem (pos 5) (pos 0) (negsuc 0) 36000 (3 ∷ 4 ∷ [])
