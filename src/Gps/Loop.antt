-- ===== src/Gps/Loop.antt =====
-- The loop of `send_venus_messages` to its end: enough fuel, and buffers that grow.
use av3_fc.Base.{ℕ, zero, suc, ◌≤◌, ◌<◌, List, [], ◌∷◌, ◌≡◌, refl, sym, arith, length}
use av3_fc.Base.Bytes.{Bytes}
use av3_fc.Message.{Message}
use av3_fc.Gps.{Round, wait, skip, emit, round, venus_loop, send_venus_messages}
use av3_fc.Gps.Scan.{rest_of, round_shrinks}

-- More fuel than bytes changes nothing.
venus_loop_fuel :
    (k l : ℕ) (ts b : Bytes) → length b ≤ k → length b ≤ l → venus_loop k ts b ≡ venus_loop l ts b
unfolding venus_loop
venus_loop_fuel zero zero ts b h g = refl
venus_loop_fuel zero (suc l) ts [] h g = refl
venus_loop_fuel zero (suc l) ts (x ∷ xs) h g = absurd (omega arith)
venus_loop_fuel (suc k) zero ts [] h g = refl
venus_loop_fuel (suc k) zero ts (x ∷ xs) h g = absurd (omega arith)
venus_loop_fuel (suc k) (suc l) ts [] h g = refl
venus_loop_fuel (suc k) (suc l) ts (x ∷ xs) h g =
    let r = rest_of (round ts (x ∷ xs)) in
    ground (arith, round_shrinks ts (x ∷ xs), venus_loop_fuel k l ts r)

-- One round of the loop, by what the round answers.
abbrev pub send_step : Bytes → Round → List Message × Bytes
send_step ts (wait r) = ([], r)
send_step ts (skip r) = send_venus_messages ts r
send_step ts (emit m r) = let (ms, kept) = send_venus_messages ts r in (m ∷ ms, kept)

enough : (k : ℕ) (ts b : Bytes) → length b ≤ k → venus_loop k ts b ≡ send_venus_messages ts b
unfolding send_venus_messages
enough k ts b h = venus_loop_fuel k (length b) ts b h (omega arith)

send_rounds_at :
    (ts : Bytes) (x : ℕ) (xs : Bytes) (q : Round)
    → round ts (x ∷ xs) ≡ q
    → send_venus_messages ts (x ∷ xs) ≡ send_step ts q
send_rounds_at ts x xs (wait r) e =
    unfold venus_loop in
    rw (sym (enough (suc (length xs)) ts (x ∷ xs) (omega arith)), e, venus_loop)
send_rounds_at ts x xs (skip r) e =
    let shrinks : length r < length (x ∷ xs) = ground (arith, round_shrinks ts (x ∷ xs)) in
    let loop = enough (length xs) ts r (omega arith) in
    unfold venus_loop in
    rw (sym (enough (suc (length xs)) ts (x ∷ xs) (omega arith)), e, venus_loop, loop)
send_rounds_at ts x xs (emit m r) e =
    let shrinks : length r < length (x ∷ xs) = ground (arith, round_shrinks ts (x ∷ xs)) in
    let loop = enough (length xs) ts r (omega arith) in
    unfold venus_loop in
    rw (sym (enough (suc (length xs)) ts (x ∷ xs) (omega arith)), e, venus_loop, loop)

-- The function is one round, and itself on what the round leaves.
pub send_rounds :
    (ts : Bytes) (x : ℕ) (xs : Bytes)
    → send_venus_messages ts (x ∷ xs) ≡ send_step ts (round ts (x ∷ xs))
send_rounds ts x xs = send_rounds_at ts x xs (round ts (x ∷ xs)) refl

pub send_nil : (ts : Bytes) → send_venus_messages ts [] ≡ ([], [])
unfolding send_venus_messages venus_loop
send_nil ts = refl
