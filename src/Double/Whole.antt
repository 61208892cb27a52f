-- ===== src/Double/Whole.antt =====
-- Numbers that meet the facts about `double`: whole numbers, with a literal m · 10^-k read as m and a
-- quotient read as its numerator. It shows that the facts can hold together.
use av3_fc.Base.Int.{ℤ, pos, negsuc, ltb_ℤ, pos_part, sub_ℕ, neg_part}
use av3_fc.Base.Bytes.{Bytes}
use av3_fc.Base.{
  zero, suc, ◌+◌, ◌*◌, ◌%◌, ◌^◌, not, [], ◌∷◌, ◌≡◌, refl, arith, if◌then◌else◌, ◌==◌, get_or,
  length,
}
use av3_fc.Double.{DoubleOps, DoubleLaws}

abbrev pub negated : ℤ → ℤ
negated (pos zero) = pos 0
negated (pos (suc n)) = negsuc n
negated (negsuc n) = pos (suc n)

abbrev pub magnitude : ℤ → ℤ
magnitude (pos n) = pos n
magnitude (negsuc n) = pos (suc n)

-- The first factor, as often as the second one is large.
abbrev pub times : ℤ → ℤ → ℤ
times (pos m) b = pos (m * (pos_part b + neg_part b))
times (negsuc m) b = negated (pos (suc m * (pos_part b + neg_part b)))

abbrev pub to_bytes : ℤ → Bytes
to_bytes (pos n) = 0 ∷ n ∷ 0 ∷ 0 ∷ 0 ∷ 0 ∷ 0 ∷ 0 ∷ []
to_bytes (negsuc n) = 1 ∷ n ∷ 0 ∷ 0 ∷ 0 ∷ 0 ∷ 0 ∷ 0 ∷ []

abbrev pub from_bytes : Bytes → ℤ
from_bytes b = if get_or b 0 0 == 0 then pos (get_or b 1 0) else negsuc (get_or b 1 0)

abbrev pub whole : DoubleOps ℤ
whole = record {
  lit = λ m k. pos m;
  of_int = λ a. a;
  neg = negated;
  fabs = magnitude;
  sqrt = λ a. a;
  exp = λ a. a;
  add = λ a b. sub_ℕ (pos_part a + pos_part b) (neg_part a + neg_part b);
  sub = λ a b. sub_ℕ (pos_part a + neg_part b) (neg_part a + pos_part b);
  mul = times;
  div = λ a b. a;
  lt = ltb_ℤ;
  le = λ a b. not (ltb_ℤ b a);
  to_u16 = λ a. pos_part a % 2 ^ 16;
  bytes_of = to_bytes;
  of_bytes = from_bytes;
}

negated-negated : (a : ℤ) → negated (negated a) ≡ a
negated-negated (pos zero) = refl
negated-negated (pos (suc n)) = refl
negated-negated (negsuc n) = refl

lt-negated : (a : ℤ) → ltb_ℤ (negated a) (pos 0) ≡ ltb_ℤ (pos 0) a
lt-negated (pos zero) = refl
lt-negated (pos (suc n)) = ground arith
lt-negated (negsuc n) = ground arith

magnitude-negated : (a : ℤ) → magnitude (negated a) ≡ magnitude a
magnitude-negated (pos zero) = refl
magnitude-negated (pos (suc n)) = refl
magnitude-negated (negsuc n) = refl

length-to_bytes : (a : ℤ) → length (to_bytes a) ≡ 8
length-to_bytes (pos n) = refl
length-to_bytes (negsuc n) = refl

times-negated : (a b : ℤ) → times (negated a) b ≡ negated (times a b)
times-negated (pos zero) b = ground arith
times-negated (pos (suc n)) b = refl
times-negated (negsuc n) b = rw negated-negated

pub whole-laws : DoubleLaws whole
whole-laws = record {
  lt_irrefl = λ a. ground arith;
  lt_of_int = λ a b h g. refl;
  lit_pos = λ m k h. ground arith;
  div_mono = λ a b c h g. g;
  lt_neg = lt-negated;
  lt_asym = λ a b h. ground arith;
  fabs-neg = magnitude-negated;
  mul-neg = times-negated;
  div-neg = λ a b. refl;
  length-bytes_of = length-to_bytes;
}
