-- ===== src/Rnh/Version.antt =====
-- The one answer of the hub: the descriptor's life, and what is logged.
use av3_fc.Base.Int.{ℤ, pos, negsuc}
use av3_fc.Base.{ℕ, List, [], ◌∷◌, ◌++◌, ◌≡◌, ◌⊎◌, inl, inr, refl, length}
use av3_fc.Base.Bytes.{Bytes}
use av3_fc.Rnh.{Output, call, rnh_version_out, write, version_callback, rnh_init}
use av3_fc.Sockets.{Call}
use av3_fc.Sockets.Open.{open_after, polled_after, returned, without_self}

-- The calls on descriptors among the outputs.
abbrev pub calls : List Output → List Call
calls [] = []
calls (call c ∷ os) = c ∷ calls os
calls (rnh_version_out buffer length ∷ os) = calls os
calls (write fd text ∷ os) = calls os

-- Whatever the system calls give, `rnh_init` polls the descriptor that it leaves open, if there is
-- one, and after the first answer, an error included, the descriptors that are open and those that
-- are polled are those from before.
pub rnh_init-version_callback :
    (s connected read : ℤ) (buffer : Bytes) (fds polled : List ℕ)
    → let started = calls (rnh_init s connected) in
      let ended = calls (version_callback s read buffer) in
      ((open_after started fds ≡ fds) × (polled_after started polled ≡ polled))
      ⊎ ((open_after started fds ≡ returned s fds)
          × (polled_after started polled ≡ returned s polled)
          × (open_after (started ++ ended) fds ≡ fds)
          × (polled_after (started ++ ended) polled ≡ polled))
unfolding rnh_init version_callback
rnh_init-version_callback (negsuc n) connected read buffer fds polled = inl (refl, refl)
rnh_init-version_callback (pos n) (negsuc c) read buffer fds polled = inl (without_self n fds, refl)
rnh_init-version_callback (pos n) (pos c) (pos k) buffer fds polled =
    inr (refl, refl, without_self n fds, without_self n polled)
rnh_init-version_callback (pos n) (pos c) (negsuc k) buffer fds polled =
    inr (refl, refl, without_self n fds, without_self n polled)
