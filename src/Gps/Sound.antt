-- ===== src/Gps/Sound.antt =====
-- What `send_venus_messages` sends of any bytes at all.
use av3_fc.Base.{
  ℕ, zero, suc, ◌+◌, ◌*◌, ◌≤◌, ◌<◌, [], ◌∷◌, ◌++◌, ◌≡◌, ◌⊎◌, inl, inr, refl, true, sym, ap, ap₂,
  ◌∙◌, arith, length, get_or, take, drop, All, length-take, length-drop,
}
use mathlib.Core.Path.{subst}
use av3_fc.Base.Bytes.{Bytes, memeq}
use av3_fc.Message.{Message}
use av3_fc.Gps.{
  Round, wait, skip, emit, round, at_a0, found, memchr_a0, venus_loop, send_venus_messages, chexxor,
  venus_id, frame_message,
}
use av3_fc.Gps.Frames.{Packet, Fits, packet_bytes, packet_message, trailer}

-- The message of a packet with the right checksum and trailer, or one for a frame of length 0.
abbrev pub Sent : Bytes → Message → Type 0
Sent ts m = ((p : Packet) × Fits p × (m ≡ packet_message ts p)) ⊎ (m.data_length ≡ 65535)

abbrev packet_len : Bytes → ℕ
packet_len f = get_or f 2 0 * 256 + get_or f 3 0

-- What a round that sends a message has tested.
abbrev Emits : Bytes → Bytes → Round → Type 0
Emits ts f (emit m r) =
    (packet_len f ≤ 256)
    × (7 + packet_len f ≤ length f)
    × (memeq 2 (drop (5 + packet_len f) f) (b'\r' ∷ b'\n' ∷ []) ≡ true)
    × (chexxor (take (packet_len f) (drop 4 f)) ≡ get_or f (4 + packet_len f) 0)
    × (m ≡ frame_message ts f (packet_len f))
Emits ts f (wait r) = Unit {0}
Emits ts f (skip r) = Unit {0}

at_a0-Emits : (ts f : Bytes) → Emits ts f (at_a0 ts f)
unfolding at_a0
at_a0-Emits ts f = ground arith

-- The bytes at an offset, one by one.
drop_cons : (i k : ℕ) (b : Bytes) → k ≡ suc i → i < length b → drop i b ≡ get_or b i 0 ∷ drop k b
drop_cons i k [] e h = absurd (omega arith)
drop_cons i zero (x ∷ b) e h = absurd (omega arith)
drop_cons zero (suc k) (x ∷ b) e h = let z : k ≡ 0 = omega arith in rw z
drop_cons (suc i) (suc k) (x ∷ b) e h = drop_cons i k b (omega arith) (omega arith)

take_split : (n k j : ℕ) (b : Bytes) → n ≡ k + j → take n b ≡ take k b ++ take j (drop k b)
take_split n zero j b e = ap (λ x. take x b) (omega arith)
take_split zero (suc k) j b e = absurd (omega arith)
take_split (suc n) (suc k) zero [] e = refl
take_split (suc n) (suc k) (suc j) [] e = refl
take_split (suc n) (suc k) j (x ∷ b) e = ap (◌∷◌ x) (take_split n k j b (omega arith))

drop-drop : (n k j : ℕ) (b : Bytes) → n ≡ j + k → drop k (drop j b) ≡ drop n b
drop-drop n k zero b e = ap (λ x. drop x b) (omega arith)
drop-drop zero k (suc j) b e = absurd (omega arith)
drop-drop (suc n) zero (suc j) [] e = refl
drop-drop (suc n) (suc k) (suc j) [] e = refl
drop-drop (suc n) k (suc j) (x ∷ b) e = drop-drop n k j b (omega arith)

memeq_two : (b : Bytes) (x y : ℕ) → memeq 2 b (x ∷ y ∷ []) ≡ true → take 2 b ≡ x ∷ y ∷ []
unfolding memeq
memeq_two [] x y h = absurd (ground arith)
memeq_two (c ∷ []) x y h = absurd (ground arith)
memeq_two (c ∷ d ∷ b) x y h = ground arith

-- A frame that has passed the tests, with `k` bytes of data.
module _ (ts f : Bytes) (k : ℕ) (short : suc k ≤ 256) (whole : 8 + k ≤ length f)
    (ends : memeq 2 (drop (6 + k) f) (b'\r' ∷ b'\n' ∷ []) ≡ true)
    (checked : chexxor (take (suc k) (drop 4 f)) ≡ get_or f (5 + k) 0) where
  abbrev packet : Packet
  packet = record { packet_id = get_or f 4 0; contents = take k (drop 5 f) }

  checksum_lem : get_or f (5 + k) 0 ≡ chexxor (packet_bytes packet)
  checksum_lem =
      sym checked ∙ ap (λ b. chexxor (take (suc k) b)) (drop_cons 4 5 f refl (omega arith))

  trailer_lem : take 3 (drop k (drop 5 f)) ≡ trailer packet
  trailer_lem =
      ap (take 3)
        (drop-drop (5 + k) k 5 f refl ∙ drop_cons (5 + k) (6 + k) f (omega arith) (omega arith))
      ∙ ap₂ ◌∷◌ checksum_lem (memeq_two (drop (6 + k) f) b'\r' b'\n' ends)

  length_lem : length (packet.contents) ≡ k
  length_lem = omega (arith, length-take {0} k (drop 5 f), length-drop {0} 5 f)

  frame_message_lem : frame_message ts f (suc k) ≡ packet_message ts packet
  frame_message_lem =
      ap₂
        (λ l b. record { id = venus_id (get_or f 4 0); timestamp = ts; data_length = l; body = b })
        (omega (arith, length_lem))
        (take_split (suc k + 2) k 3 (drop 5 f) (omega arith)
          ∙ ap (λ t. take k (drop 5 f) ++ t) trailer_lem)

  frame-Sent : Sent ts (frame_message ts f (suc k))
  frame-Sent = inl (packet, omega (arith, length_lem), frame_message_lem)

frame-Sent_at :
    (ts f : Bytes) (n : ℕ)
    → n ≤ 256
    → 7 + n ≤ length f
    → memeq 2 (drop (5 + n) f) (b'\r' ∷ b'\n' ∷ []) ≡ true
    → chexxor (take n (drop 4 f)) ≡ get_or f (4 + n) 0
    → Sent ts (frame_message ts f n)
frame-Sent_at ts f zero h g t c = inr (omega arith)
frame-Sent_at ts f (suc k) h g t c =
    frame-Sent ts f k h (omega arith) (rw six t) (c ∙ ap (λ i. get_or f i 0) (omega arith))
  where
    six : 6 + k ≡ 5 + suc k
    six = omega arith

-- What a round sends, if it sends something, is such a message.
abbrev SendsSound : Bytes → Round → Type 0
SendsSound ts (emit m r) = Sent ts m
SendsSound ts (wait r) = Unit {0}
SendsSound ts (skip r) = Unit {0}

Emits-SendsSound : (ts f : Bytes) (q : Round) → Emits ts f q → SendsSound ts q
Emits-SendsSound ts f (wait r) e = tt
Emits-SendsSound ts f (skip r) e = tt
Emits-SendsSound ts f (emit m r) (h, g, t, c, e) =
    subst (Sent ts) (sym e) (frame-Sent_at ts f (packet_len f) h g t c)

found-SendsSound : (ts f : Bytes) → SendsSound ts (found ts f)
unfolding found
found-SendsSound ts [] = tt
found-SendsSound ts (x ∷ xs) = Emits-SendsSound ts (x ∷ xs) _ (at_a0-Emits ts (x ∷ xs))

round-SendsSound : (ts b : Bytes) → SendsSound ts (round ts b)
unfolding round
round-SendsSound ts b = found-SendsSound ts (memchr_a0 b)

loop-Sent-round :
    (k : ℕ) (ts : Bytes) (x : ℕ) (xs : Bytes) (q : Round)
    → round ts (x ∷ xs) ≡ q
    → SendsSound ts q
    → ((b : Bytes) → All (Sent ts) (venus_loop k ts b).0)
    → All (Sent ts) (venus_loop (suc k) ts (x ∷ xs)).0
unfolding venus_loop
loop-Sent-round k ts x xs (wait r) e h ih = rw (e, venus_loop) tt
loop-Sent-round k ts x xs (skip r) e h ih = rw (e, venus_loop) (ih r)
loop-Sent-round k ts x xs (emit m r) e h ih = rw (e, venus_loop) (h, ih r)

loop-Sent : (k : ℕ) (ts b : Bytes) → All (Sent ts) (venus_loop k ts b).0
unfolding venus_loop
loop-Sent zero ts b = tt
loop-Sent (suc k) ts [] = tt
loop-Sent (suc k) ts (x ∷ xs) =
    loop-Sent-round k ts x xs (round ts (x ∷ xs)) refl (round-SendsSound ts (x ∷ xs))
      (loop-Sent k ts)

-- Whatever bytes are in the buffer, each message sent is that of a packet of at most 256 bytes whose
-- checksum and \r\n stand behind its data, with the ID, the length and the data of that packet, or
-- it comes from a frame of length 0 and has 65,535 bytes of data.
pub send-Sent : (ts b : Bytes) → All (Sent ts) (send_venus_messages ts b).0
unfolding send_venus_messages
send-Sent ts b = loop-Sent (length b) ts b
