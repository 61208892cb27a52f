-- ===== src/Packet/Fields.antt =====
-- Where the fields of a packed structure lie.
use Prim.Native.String.{String}
use text.Mathlib.Text.{◌==◌}
use av3_fc.Base.{ℕ, ◌+◌, ◌≤◌, [], ◌∷◌, Option, none, some, inl, inr, Bool-cases, arith}
use av3_fc.Packet.{CType, Layout, width, sizeof, field, behind}

-- A field, if there is one, ends before byte `n`.
abbrev pub Within : ℕ → Option (ℕ × CType) → Type 0
Within n none = Unit {0}
Within n (some (i, t)) = i + width t ≤ n

pub Within_le : (m n : ℕ) (x : Option (ℕ × CType)) → m ≤ n → Within m x → Within n x
Within_le m n none h w = tt
Within_le m n (some (i, t)) h w = omega (arith, w)

behind-Within : (k n : ℕ) (x : Option (ℕ × CType)) → Within n x → Within (k + n) (behind k x)
behind-Within k n none w = tt
behind-Within k n (some (i, t)) w = omega (arith, w)

pub field-Within : (l : Layout) (name : String) → Within (sizeof l) (field l name)
field-Within [] name = tt
field-Within ((name', t) ∷ fs) name = elim (Bool-cases (name' == name)) [
  | inl here ↦ rw here (omega arith)
  | inr there ↦
      rw there (behind-Within (width t) (sizeof fs) (field fs name) (field-Within fs name))
]
