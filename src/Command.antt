-- ===== src/Command.antt =====
-- The command strings of the ground station: the macro `COMPARE_BUFFER_TO_CMD`, which src/arm.c and
-- src/rollcontrol.c both define.
use mathlib.Core.Path.{subst}
use av3_fc.Base.{
  ℕ, zero, suc, ◌≤◌, Bool, true, false, ◌&&◌, ◌||◌, [], ◌∷◌, ◌++◌, ◌≡◌, ◌≢◌, ◌↔◌, refl, arith, ltb,
  ◌==◌, if◌then◌else◌, length, take, All, min, length-append, take-append,
}
use av3_fc.Base.Bytes.{Bytes}

-- `strncmp(a, b, n) == 0`. A byte that is not there equals none.
unfoldable pub strncmp_eq : ℕ → Bytes → Bytes → Bool
strncmp_eq zero a b = true
strncmp_eq (suc n) (x ∷ a) (y ∷ b) = x == y && (x == 0 || strncmp_eq n a b)
strncmp_eq (suc n) _ _ = false

-- A string literal in memory, with its NUL.
abbrev pub c_string : Bytes → Bytes
c_string cmd = cmd ++ 0 ∷ []

-- `COMPARE_BUFFER_TO_CMD(a, b, len)`; `sizeof(b)` counts the NUL.
unfoldable pub compare_buffer_to_cmd : Bytes → Bytes → ℕ → Bool
unfolding strncmp_eq
compare_buffer_to_cmd a cmd len =
    let size = length (c_string cmd) in
    strncmp_eq (if ltb len size then len else size) a (c_string cmd)

-- No byte of the command is NUL.
abbrev pub IsText : Bytes → Type 0
IsText cmd = All (λ x. x ≢ 0) cmd

strncmp_eq_lem :
    (n : ℕ) (a cmd : Bytes)
    → IsText cmd
    → n ≤ length a
    → n ≤ length (c_string cmd)
    → (strncmp_eq n a (c_string cmd) ≡ true) ↔ (take n a ≡ take n (c_string cmd))
unfolding strncmp_eq
strncmp_eq_lem zero a cmd t h g = (λ _. refl, λ _. refl)
strncmp_eq_lem (suc n) [] cmd t h g = absurd (omega arith)
strncmp_eq_lem (suc zero) (x ∷ a) [] t h g = ground arith
strncmp_eq_lem (suc (suc n)) (x ∷ a) [] t h g = absurd (omega arith)
strncmp_eq_lem (suc n) (x ∷ a) (y ∷ cmd) (ne, t) h g =
    ground (arith, strncmp_eq_lem n a cmd t (omega arith) (omega arith))

-- For a command without a NUL, and a length that the packet has, the macro accepts the packet
-- exactly when the packet and the command, with its closing NUL, agree as far as the shorter of
-- the two goes.
pub compare_lem :
    (a cmd : Bytes) (len : ℕ)
    → IsText cmd
    → len ≤ length a
    → (compare_buffer_to_cmd a cmd len ≡ true) ↔ (
        take (min len (length (c_string cmd))) a
        ≡ take (min len (length (c_string cmd))) (c_string cmd))
unfolding compare_buffer_to_cmd
compare_lem a cmd len t h =
    let size = length (c_string cmd) in
    let e : min len size ≡ (if ltb len size then len else size) = ground arith in
    subst
      (λ n.
        (strncmp_eq n a (c_string cmd) ≡ true)
        ↔ (take (min len size) a ≡ take (min len size) (c_string cmd)))
      e (strncmp_eq_lem (min len size) a cmd t (omega arith) (omega arith))

-- A packet that is a beginning of the command is accepted, down to its first byte.
pub prefix_accepted :
    (a cmd : Bytes) (len : ℕ)
    → IsText cmd
    → len ≤ length a
    → len ≤ length cmd
    → take len a ≡ take len cmd
    → compare_buffer_to_cmd a cmd len ≡ true
prefix_accepted a cmd len t h g e =
    let size : min len (length (c_string cmd)) ≡ len =
      omega (arith, length-append {0} cmd (0 ∷ [])) in
    (compare_lem a cmd len t h).1 (rw (size, take-append len cmd (0 ∷ []) g) e)
