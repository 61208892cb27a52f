-- ===== src/Gps/Scan.antt =====
-- The loop of `send_venus_messages`, one round at a time.
use av3_fc.Base.{
  ℕ, zero, suc, ◌+◌, ◌*◌, ◌≤◌, ◌<◌, [], ◌∷◌, ◌++◌, ◌≡◌, refl, ◌≢◌, arith, length, get_or, drop,
  length-append, length-drop, get_or-append, take-append, drop-append,
}
use av3_fc.Base.Bytes.{Bytes, memeq}
use av3_fc.Gps.{Round, wait, skip, emit, at_a0, found, round, memchr_a0}

-- How a round's answer carries over when the bytes `c` arrive behind the buffer.
abbrev pub Extends : Bytes → Round → Round → Type 0
Extends c (wait r) q = Unit {0}
Extends c (skip r) q = q ≡ skip (r ++ c)
Extends c (emit m r) q = q ≡ emit m (r ++ c)

memeq-append : (n : ℕ) (a c b : Bytes) → n ≤ length a → memeq n (a ++ c) b ≡ memeq n a b
unfolding memeq
memeq-append zero a c b h = refl
memeq-append (suc n) [] c b h = absurd (omega arith)
memeq-append (suc n) (x ∷ a) c [] h = refl
memeq-append (suc n) (x ∷ a) c (y ∷ b) h = rw (memeq-append n a c b (omega arith))

at_a0-append : (ts f c : Bytes) → Extends c (at_a0 ts f) (at_a0 ts (f ++ c))
unfolding at_a0
at_a0-append ts f c =
    let p = get_or f 2 0 * 256 + get_or f 3 0 in
    ground (
      arith,
      length-append f c,
      length-drop 4 f,
      length-drop 5 f,
      length-drop (5 + p) f,
      get_or-append f c 1 0,
      get_or-append f c 2 0,
      get_or-append f c 3 0,
      get_or-append f c 4 0,
      get_or-append f c (4 + p) 0,
      drop-append 1 f c,
      drop-append 2 f c,
      drop-append 4 f c,
      drop-append 5 f c,
      drop-append (5 + p) f c,
      drop-append (p + 7) f c,
      take-append p (drop 4 f) c,
      take-append (p + 2) (drop 5 f) c,
      memeq-append 2 (drop (5 + p) f) c,
    )

-- An `A0` round that waits keeps the bytes as they are; any other leaves fewer.
abbrev pub rest_of : Round → Bytes
rest_of (wait r) = r
rest_of (skip r) = r
rest_of (emit m r) = r

-- The bytes left are those before the round if it waits, and fewer if it goes on.
abbrev Leaves : Bytes → Round → Type 0
Leaves f (wait r) = r ≡ f
Leaves f (skip r) = length r < length f
Leaves f (emit m r) = length r < length f

at_a0-Leaves : (ts f : Bytes) → Leaves f (at_a0 ts f)
unfolding at_a0
at_a0-Leaves ts f =
    let p = get_or f 2 0 * 256 + get_or f 3 0 in
    ground (arith, length-drop 1 f, length-drop 2 f, length-drop (p + 7) f)

found-Leaves : (ts f : Bytes) → Leaves f (found ts f)
unfolding found
found-Leaves ts [] = refl
found-Leaves ts (x ∷ xs) = at_a0-Leaves ts (x ∷ xs)

length-memchr_a0 : (b : Bytes) → length (memchr_a0 b) ≤ length b
unfolding memchr_a0
length-memchr_a0 [] = omega arith
length-memchr_a0 (x ∷ xs) = ground (arith, length-memchr_a0 xs)

memchr_a0-append_nil : (b c : Bytes) → memchr_a0 b ≡ [] → memchr_a0 (b ++ c) ≡ memchr_a0 c
unfolding memchr_a0
memchr_a0-append_nil [] c h = refl
memchr_a0-append_nil (x ∷ xs) c h = ground (arith, memchr_a0-append_nil xs c)

memchr_a0-append_cons : (b c : Bytes) → memchr_a0 b ≢ [] → memchr_a0 (b ++ c) ≡ memchr_a0 b ++ c
unfolding memchr_a0
memchr_a0-append_cons [] c h = absurd (h refl)
memchr_a0-append_cons (x ∷ xs) c h = ground (arith, memchr_a0-append_cons xs c)

-- Searching again from where the search stopped finds the same byte.
memchr_a0-memchr_a0 : (b c : Bytes) → memchr_a0 (memchr_a0 b ++ c) ≡ memchr_a0 (b ++ c)
unfolding memchr_a0
memchr_a0-memchr_a0 [] c = refl
memchr_a0-memchr_a0 (x ∷ xs) c = ground (arith, memchr_a0-memchr_a0 xs c)

-- A round that goes on makes the bytes fewer; one that waits keeps the bytes from the first `A0`.
pub round_shrinks :
    (ts b : Bytes) → ((r : Bytes) → round ts b ≢ wait r) → length (rest_of (round ts b)) < length b
unfolding round
round_shrinks ts b h =
    ground (
      arith,
      h (rest_of (found ts (memchr_a0 b))),
      found-Leaves ts (memchr_a0 b),
      length-memchr_a0 b,
    )

pub round_wait : (ts b r : Bytes) → round ts b ≡ wait r → r ≡ memchr_a0 b
unfolding round
round_wait ts b r h = ground (arith, found-Leaves ts (memchr_a0 b))

-- A round that waits can be made again on what it kept, with more bytes behind.
pub round_again : (ts b r c : Bytes) → round ts b ≡ wait r → round ts (r ++ c) ≡ round ts (b ++ c)
unfolding round
round_again ts b r c h = rw (round_wait ts b r h, memchr_a0-memchr_a0)

found-append : (ts f c : Bytes) → f ≢ [] → Extends c (found ts f) (found ts (f ++ c))
unfolding found
found-append ts [] c h = absurd (h refl)
found-append ts (x ∷ xs) c h = at_a0-append ts (x ∷ xs) c

round-append_memchr :
    (ts b c f : Bytes) → memchr_a0 b ≡ f → Extends c (found ts f) (round ts (b ++ c))
unfolding round
round-append_memchr ts b c [] e = unfold found in tt
round-append_memchr ts b c (x ∷ xs) e =
    rw (memchr_a0-append_cons b c (ground arith), e) (found-append ts (x ∷ xs) c (ground arith))

-- A round that skips bytes or finds a frame does so whatever arrives behind.
pub round-append : (ts b c : Bytes) → Extends c (round ts b) (round ts (b ++ c))
unfolding round
round-append ts b c = round-append_memchr ts b c (memchr_a0 b) refl
