-- ===== src/Logger/Overruns.antt =====
-- Which requests overrun the buffers of src/logger.c.
use av3_fc.Base.{
  Bool, false, true, ◌||◌, ltb, List, [], ◌∷◌, none, ◌≡◌, ◌↔◌, refl, arith, length, Bool-cases, inl,
  inr,
}
use av3_fc.Base.Bytes.{Bytes}
use av3_fc.Logger.{State, p_limit, disk_log_buffer_max, message_len, log_write_disk_only, initial}
use av3_fc.Logger.Limits.{IsValid, IsMessage}
use av3_fc.Logger.Run.{
  Request, write, write_disk_only, timeout, apply, run, Fits, apply_lem, initial-IsValid,
}
use av3_fc.Logger.Write.{log_write_overruns}

-- The message of a request is whole in memory, whatever its length.
abbrev pub IsWhole : Request → Type 0
IsWhole (write m) = IsMessage m
IsWhole (write_disk_only m) = IsMessage m
IsWhole timeout = Unit {0}

abbrev pub AllWhole : List (Bytes × Request) → Type 0
AllWhole [] = Unit {0}
AllWhole ((now, q) ∷ qs) = (length now ≡ 6) × IsWhole q × AllWhole qs

-- Whether the message, with its header, is longer than an empty buffer.
abbrev pub too_long : Request → Bool
too_long (write m) = ltb p_limit (message_len m)
too_long (write_disk_only m) = ltb disk_log_buffer_max (message_len m)
too_long timeout = false

abbrev pub any_too_long : List (Bytes × Request) → Bool
any_too_long [] = false
any_too_long ((now, q) ∷ qs) = too_long q || any_too_long qs

apply_overruns : (now : Bytes) (q : Request) (s : State) → too_long q ≡ true → apply now q s ≡ none
unfolding log_write_disk_only
apply_overruns now (write m) s h = log_write_overruns now m s (ground arith)
apply_overruns now (write_disk_only m) s h = ground arith
apply_overruns now timeout s h = cc h

whole-Fits : (q : Request) → IsWhole q → too_long q ≡ false → Fits q
whole-Fits (write m) i h = (i, ground arith)
whole-Fits (write_disk_only m) i h = (i, ground arith)
whole-Fits timeout i h = tt

run_overruns_from :
    (qs : List (Bytes × Request)) (s : State)
    → AllWhole qs
    → IsValid s
    → (run qs s ≡ none) ↔ (any_too_long qs ≡ true)
unfolding run
run_overruns_from [] s w v = ground arith
run_overruns_from ((now, q) ∷ qs) s (six, w, ws) v = elim (Bool-cases (too_long q)) [
  | inl long ↦ rw (long, apply_overruns now q s long, run) (λ _. refl, λ _. refl)
  | inr short ↦
      let (t, e, a) = apply_lem now q s six (whole-Fits q w short) v in
      rw (short, e, run) (run_overruns_from qs t ws a.valid)
]

-- From `logger_init` on, any requests whose messages are whole in memory, at times of six bytes,
-- overrun a buffer of the logger exactly if one of them is for `log_write` and has, with its header,
-- more than 1,428 bytes, or is for `log_write_disk_only` and has more than 65,536.
pub run_overruns :
    (qs : List (Bytes × Request)) → AllWhole qs → (run qs initial ≡ none) ↔ (any_too_long qs ≡ true)
run_overruns qs w = run_overruns_from qs initial w initial-IsValid
