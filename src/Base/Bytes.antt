-- ===== src/Base/Bytes.antt =====
-- Bytes in memory and on the wire: big-endian numbers (`htons`, `htonl` and the shifts of the
-- source), host loads on the little-endian flight computer, `memcmp` and `strncmp`.
use Prim.Native.Char.{code}
use Prim.Native.String.{String}
use Prim.Native.Nat.{ℕ, zero, suc, ◌+◌, ◌*◌, ◌/◌, ◌%◌, ◌^◌, ◌<◌}
use mathlib.Core.Path.{◌≡◌}
use mathlib.Core.Bool.{Bool, true, false, ◌&&◌}
use mathlib.Core.List.{List, [], ◌∷◌}
use native.Mathlib.Omega.{arith}
use av3_fc.Base.Tests.{◌==◌}
use av3_fc.Base.Lists.{get_or}

abbrev pub Bytes : Type 0
Bytes = List ℕ

-- The bytes of an ASCII literal, without the closing NUL.
abbrev pub codes : String → Bytes
codes String.[] = []
codes (String.◌∷◌ c s) = code c ∷ codes s

abbrev pub be16 : ℕ → Bytes
be16 n = (n / 256 % 256) ∷ (n % 256) ∷ []

abbrev pub be32 : ℕ → Bytes
be32 n = (n / 2 ^ 24 % 256) ∷ (n / 2 ^ 16 % 256) ∷ (n / 2 ^ 8 % 256) ∷ (n % 256) ∷ []

-- The number that stands big-endian at offset `i`: `ntohs` or `ntohl` of a load.
abbrev pub load_be16 : Bytes → ℕ → ℕ
load_be16 b i = get_or b i 0 * 256 + get_or b (i + 1) 0

abbrev pub load_be32 : Bytes → ℕ → ℕ
load_be32 b i =
    get_or b i 0 * 2 ^ 24
    + get_or b (i + 1) 0 * 2 ^ 16
    + get_or b (i + 2) 0 * 2 ^ 8
    + get_or b (i + 3) 0

-- A `uint16_t` as the host loads it.
abbrev pub load_le16 : Bytes → ℕ → ℕ
load_le16 b i = get_or b i 0 + get_or b (i + 1) 0 * 256

-- `memcmp(a, b, n) == 0`. A byte that is not there equals none.
unfoldable pub memeq : ℕ → Bytes → Bytes → Bool
memeq zero a b = true
memeq (suc n) (x ∷ a) (y ∷ b) = x == y && memeq n a b
memeq (suc n) _ _ = false

pub be16_word : (n : ℕ) → n < 2 ^ 16 → (n / 256 % 256) * 256 + n % 256 ≡ n
be16_word n h = omega arith

pub be32_word :
    (n : ℕ)
    → n < 2 ^ 32
    → n / 2 ^ 24 % 256 * 2 ^ 24 + n / 2 ^ 16 % 256 * 2 ^ 16 + n / 2 ^ 8 % 256 * 2 ^ 8 + n % 256 ≡ n
be32_word n h = omega arith
