-- ===== src/Rnh/Tests.antt =====
-- A run of the request for the version.
use av3_fc.Base.Int.{pos}
use av3_fc.Base.{[], ◌∷◌, ◌++◌, ◌≡◌, ◌⊎◌}
use av3_fc.Rnh.{rnh_init, version_callback}
use av3_fc.Rnh.Version.{calls, rnh_init-version_callback}
use av3_fc.Sockets.Open.{open_after, polled_after, returned}

rnh_init-version_callback_example :
    let started = calls (rnh_init (pos 6) (pos 0)) in
    let ended = calls (version_callback (pos 6) (pos 2) (49 ∷ 50 ∷ [])) in
    ((open_after started (3 ∷ []) ≡ 3 ∷ []) × (polled_after started (3 ∷ []) ≡ 3 ∷ []))
    ⊎ ((open_after started (3 ∷ []) ≡ returned (pos 6) (3 ∷ []))
        × (polled_after started (3 ∷ []) ≡ returned (pos 6) (3 ∷ []))
        × (open_after (started ++ ended) (3 ∷ []) ≡ 3 ∷ [])
        × (polled_after (started ++ ended) (3 ∷ []) ≡ 3 ∷ []))
rnh_init-version_callback_example =
    rnh_init-version_callback (pos 6) (pos 0) (pos 2) (49 ∷ 50 ∷ []) (3 ∷ []) (3 ∷ [])
