-- ===== src/Gps/Frames.antt =====
-- Venus frames as the comment over `send_venus_messages` describes them, and the scan of a stream
-- of them.
use av3_fc.Base.{
  ℕ, suc, ◌+◌, ◌*◌, ◌/◌, ◌%◌, ◌≤◌, List, [], ◌∷◌, ◌++◌, ◌≡◌, refl, true, ap₂, ap, ◌∙◌, arith,
  length, map, get_or, take, drop, All, concat, length-append, take-length, drop_past, append_assoc,
}
use av3_fc.Base.Bytes.{Bytes, be16, be16_word, memeq}
use av3_fc.Message.{Message}
use av3_fc.Gps.{
  emit, round, at_a0, found, memchr_a0, send_venus_messages, chexxor, venus_id, frame_message,
}
use av3_fc.Gps.Loop.{send_rounds, send_nil}

-- What stands between the length and the checksum: an ID byte and data.
pub record Packet : Type 0 where
  pub packet_id : ℕ
  pub contents : Bytes

abbrev pub packet_bytes : Packet → Bytes
packet_bytes p = p.packet_id ∷ p.contents

-- What stands behind the length in a frame: the packet, its checksum, and \r\n.
abbrev pub trailer : Packet → Bytes
trailer p = chexxor (packet_bytes p) ∷ b'\r' ∷ b'\n' ∷ []

abbrev pub frame_of : Packet → Bytes
frame_of p = 0xA0 ∷ 0xA1 ∷ (be16 (length (packet_bytes p)) ++ (packet_bytes p ++ trailer p))

-- A packet of at most half the buffer.
abbrev pub Fits : Packet → Type 0
Fits p = length (packet_bytes p) ≤ 256

-- The message that a packet is to give: its data, with the trailer behind the pointer.
abbrev pub packet_message : Bytes → Packet → Message
packet_message ts p = record {
  id = venus_id p.packet_id;
  timestamp = ts;
  data_length = length p.contents;
  body = p.contents ++ trailer p;
}

-- The tests of the source that a frame passes.
at_a0_valid :
    (ts f : Bytes) (n : ℕ)
    → get_or f 1 0 ≡ 0xA1
    → get_or f 2 0 * 256 + get_or f 3 0 ≡ n
    → n ≤ 256
    → 7 + n ≤ length f
    → memeq 2 (drop (5 + n) f) (b'\r' ∷ b'\n' ∷ []) ≡ true
    → chexxor (take n (drop 4 f)) ≡ get_or f (4 + n) 0
    → at_a0 ts f ≡ emit (frame_message ts f n) (drop (n + 7) f)
unfolding at_a0
at_a0_valid ts f n h1 h2 h3 h4 h5 h6 = ground arith

-- Behind the four bytes of the header.
module _ (w x y z : ℕ) (xs : Bytes) where
  drop_header : (n : ℕ) → drop (4 + n) (w ∷ x ∷ y ∷ z ∷ xs) ≡ drop n xs
  drop_header n = let e : 4 + n ≡ suc (suc (suc (suc n))) = omega arith in rw e

  get_or_header : (n : ℕ) → get_or (w ∷ x ∷ y ∷ z ∷ xs) (4 + n) 0 ≡ get_or xs n 0
  get_or_header n = let e : 4 + n ≡ suc (suc (suc (suc n))) = omega arith in rw e

get_or-length : (xs : Bytes) (y : ℕ) (ys : Bytes) → get_or (xs ++ y ∷ ys) (length xs) 0 ≡ y
get_or-length [] y ys = refl
get_or-length (x ∷ xs) y ys = get_or-length xs y ys

-- A frame, with whatever is behind it, gives its packet's message.
module _ (ts : Bytes) (p : Packet) (c : Bytes) (fits : Fits p) where
  abbrev n : ℕ
  n = length (packet_bytes p)

  abbrev behind : Bytes
  behind = (packet_bytes p ++ trailer p) ++ c

  behind_lem : behind ≡ packet_bytes p ++ (trailer p ++ c)
  behind_lem = append_assoc (packet_bytes p) (trailer p) c

  drop-frame_of : (k m : ℕ) → m ≡ 4 + (n + k) → drop m (frame_of p ++ c) ≡ drop k (trailer p ++ c)
  drop-frame_of k m e =
      rw (e, drop_header 0xA0 0xA1 (n / 256 % 256) (n % 256) behind (n + k), behind_lem)
        (drop_past (packet_bytes p) (trailer p ++ c) (n + k) k refl)

  length-frame_of : length (frame_of p ++ c) ≡ n + 7 + length c
  length-frame_of = omega (
    arith,
    length-append {0} behind [],
    length-append {0} (packet_bytes p ++ trailer p) c,
    length-append {0} (packet_bytes p) (trailer p),
  )

  checksum : get_or (frame_of p ++ c) (4 + n) 0 ≡ chexxor (packet_bytes p)
  checksum =
      get_or_header 0xA0 0xA1 (n / 256 % 256) (n % 256) behind n
      ∙ ap (λ b. get_or b n 0) behind_lem
      ∙ get_or-length (packet_bytes p) (chexxor (packet_bytes p)) (b'\r' ∷ b'\n' ∷ c)

  covered : take n behind ≡ packet_bytes p
  covered = ap (take n) behind_lem ∙ take-length n (packet_bytes p) (trailer p ++ c) refl

  message_lem : frame_message ts (frame_of p ++ c) n ≡ packet_message ts p
  message_lem =
      ap₂ (λ l b. record { id = venus_id p.packet_id; timestamp = ts; data_length = l; body = b })
        (omega arith)
        (take-length (n + 2) (p.contents ++ trailer p) c
          (omega (arith, length-append {0} p.contents (trailer p))))

  at_a0-frame_of : at_a0 ts (frame_of p ++ c) ≡ emit (packet_message ts p) c
  at_a0-frame_of =
      at_a0_valid ts (frame_of p ++ c) n refl (be16_word n (omega arith)) fits
        (omega (arith, length-frame_of))
        (rw (drop-frame_of 1 (5 + n) (omega arith)) (unfold memeq in refl)) (rw (checksum, covered))
      ∙ ap₂ emit message_lem (drop-frame_of 3 (n + 7) (omega arith))

  round-frame_of : round ts (frame_of p ++ c) ≡ emit (packet_message ts p) c
  unfolding round found memchr_a0
  round-frame_of = at_a0-frame_of

-- A stream of frames gives the messages of its packets, and leaves nothing in the buffer.
pub send-frames :
    (ts : Bytes) (ps : List Packet)
    → All Fits ps
    → send_venus_messages ts (concat (map frame_of ps)) ≡ (map (packet_message ts) ps, [])
send-frames ts [] h = send_nil ts
send-frames ts (p ∷ ps) (f, h) =
    rw
      (send_rounds ts 0xA0 _, round-frame_of ts p (concat (map frame_of ps)) f, send-frames ts ps h)
