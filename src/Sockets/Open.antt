-- ===== src/Sockets/Open.antt =====
-- What the functions that open a socket leave open.
use av3_fc.Base.Int.{ℤ, pos, negsuc}
use av3_fc.Base.{ℕ, ◌||◌, List, [], ◌∷◌, ◌≡◌, refl, arith, ◌==◌, if◌then◌else◌}
use av3_fc.Sockets.{
  Call, socket, bind, setsockopt, connect, close, add_fd, remove_fd, failed,
  timestamped_bound_udp_socket,
}

-- A descriptor less.
abbrev pub without : ℕ → List ℕ → List ℕ
without n [] = []
without n (x ∷ xs) = if x == n then xs else x ∷ without n xs

-- The descriptors that are open after some calls, of those open before and those that `socket` gave.
abbrev pub open_after : List Call → List ℕ → List ℕ
open_after [] fds = fds
open_after (socket (pos n) ∷ cs) fds = open_after cs (n ∷ fds)
open_after (socket (negsuc n) ∷ cs) fds = open_after cs fds
open_after (close (pos n) ∷ cs) fds = open_after cs (without n fds)
open_after (close (negsuc n) ∷ cs) fds = open_after cs fds
open_after (bind fd port r ∷ cs) fds = open_after cs fds
open_after (setsockopt fd r ∷ cs) fds = open_after cs fds
open_after (connect fd r ∷ cs) fds = open_after cs fds
open_after (add_fd fd ∷ cs) fds = open_after cs fds
open_after (remove_fd fd ∷ cs) fds = open_after cs fds

-- The descriptors that the event loop polls, in the same way.
abbrev pub polled_after : List Call → List ℕ → List ℕ
polled_after [] fds = fds
polled_after (add_fd (pos n) ∷ cs) fds = polled_after cs (n ∷ fds)
polled_after (add_fd (negsuc n) ∷ cs) fds = polled_after cs fds
polled_after (remove_fd (pos n) ∷ cs) fds = polled_after cs (without n fds)
polled_after (remove_fd (negsuc n) ∷ cs) fds = polled_after cs fds
polled_after (socket r ∷ cs) fds = polled_after cs fds
polled_after (close fd ∷ cs) fds = polled_after cs fds
polled_after (bind fd port r ∷ cs) fds = polled_after cs fds
polled_after (setsockopt fd r ∷ cs) fds = polled_after cs fds
polled_after (connect fd r ∷ cs) fds = polled_after cs fds

-- The descriptor that a function returns, if it is one.
abbrev pub returned : ℤ → List ℕ → List ℕ
returned (pos n) fds = n ∷ fds
returned (negsuc n) fds = fds

pub without_self : (n : ℕ) (fds : List ℕ) → without n (n ∷ fds) ≡ fds
without_self n fds = ground arith

-- Whatever `socket`, `bind` and `setsockopt` give, and whatever is open before,
-- `timestamped_bound_udp_socket` leaves open what was, and the descriptor that it returns, if it
-- returns one: no failure leaks a descriptor, and none closes one that is used. It returns a
-- descriptor exactly if none of the three failed.
pub timestamped_bound_udp_socket_lem :
    (created bound set : ℤ) (port : ℕ) (fds : List ℕ)
    → let (r, calls) = timestamped_bound_udp_socket created bound set port in
      (open_after calls fds ≡ returned r fds)
      × (failed r ≡ (failed created || failed bound || failed set))
unfolding timestamped_bound_udp_socket
timestamped_bound_udp_socket_lem (negsuc n) bound set port fds = (refl, refl)
timestamped_bound_udp_socket_lem (pos n) (negsuc b) set port fds = (without_self n fds, refl)
timestamped_bound_udp_socket_lem (pos n) (pos b) (negsuc e) port fds = (without_self n fds, refl)
timestamped_bound_udp_socket_lem (pos n) (pos b) (pos e) port fds = (refl, refl)
