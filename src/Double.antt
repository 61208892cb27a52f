-- ===== src/Double.antt =====
-- The C type `double`, as a parameter: the operations that the flight computer uses, and the facts
-- about them that the proofs need, each of which holds of IEEE 754 arithmetic with a single NaN.
pub mod Whole
use av3_fc.Base.{length, ℕ, suc, Bool, true, false, ◌+◌, ◌≡◌, ◌≤◌, ◌^◌}
use av3_fc.Base.Int.{ℤ, pos, pos_part, neg_part, ltb_ℤ}
use av3_fc.Base.Bytes.{Bytes}

-- The operations. `lit m k` is the literal m · 10^-k.
pub record DoubleOps (D : Type 0) : Type 0 where
  pub lit : ℕ → ℕ → D
  pub of_int : ℤ → D
  pub neg : D → D
  pub fabs : D → D
  pub sqrt : D → D
  pub exp : D → D
  pub add : D → D → D
  pub sub : D → D → D
  pub mul : D → D → D
  pub div : D → D → D
  pub lt : D → D → Bool
  pub le : D → D → Bool
  -- The conversion to `uint16_t`.
  pub to_u16 : D → ℕ
  -- The eight bytes of the representation, in host order.
  pub bytes_of : D → Bytes
  pub of_bytes : Bytes → D

module _ {D : Type 0} (F : DoubleOps D) where
  open F use {lit, of_int, neg, fabs, mul, div, lt, bytes_of}

  -- The facts.
  pub record DoubleLaws : Type 0 where
    pub lt_irrefl : (a : D) → lt a a ≡ false
    -- Whole numbers below 2^53 are exact.
    pub lt_of_int :
        (a b : ℤ)
        → pos_part a + neg_part a ≤ 2 ^ 53
        → pos_part b + neg_part b ≤ 2 ^ 53
        → lt (of_int a) (of_int b) ≡ ltb_ℤ a b
    pub lit_pos : (m k : ℕ) → k ≤ 300 → lt (of_int (pos 0)) (lit (suc m) k) ≡ true
    -- Division by a positive number keeps the order.
    pub div_mono :
        (a b c : D) → lt (of_int (pos 0)) c ≡ true → lt a b ≡ false → lt (div a c) (div b c) ≡ false
    -- Negation changes the sign and nothing else.
    pub lt_neg : (a : D) → lt (neg a) (of_int (pos 0)) ≡ lt (of_int (pos 0)) a
    pub lt_asym : (a b : D) → lt a b ≡ true → lt b a ≡ false
    pub fabs-neg : (a : D) → fabs (neg a) ≡ fabs a
    pub mul-neg : (a b : D) → mul (neg a) b ≡ neg (mul a b)
    pub div-neg : (a b : D) → div (neg a) b ≡ neg (div a b)
    -- A `double` is eight bytes long.
    pub length-bytes_of : (a : D) → length (bytes_of a) ≡ 8
