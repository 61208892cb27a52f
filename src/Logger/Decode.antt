-- ===== src/Logger/Decode.antt =====
-- A reader of the log that src/logger.c writes: entries, by the lengths in their headers.
use mathlib.Core.Path.{subst}
use av3_fc.Base.{
  true, false, ℕ, zero, suc, ◌+◌, ◌*◌, ◌^◌, ◌≤◌, ◌<◌, List, [], ◌∷◌, ◌++◌, Option, none, some, ◌≡◌,
  refl, sym, ap, ◌∙◌, arith, length, drop, map, take, ltb, length-append, append_assoc, All,
  take_all, take-length, drop-length, drop_past, get_or_past, ap₂, length-take,
}
use av3_fc.Base.Bytes.{Bytes, be16, load_be16, be16_word}
use av3_fc.Message.{Message}
use av3_fc.Logger.{encode}
use av3_fc.Logger.Limits.{IsMessage, length-encode}
use av3_fc.Logger.Run.{encode_all}

-- A record of the log: ID, timestamp and data.
pub record Entry : Type 0 where
  pub id : Bytes
  pub timestamp : Bytes
  pub contents : Bytes

-- The entries of a log, with fuel: `none` where the bytes end inside an entry.
pub read_log : ℕ → Bytes → Option (List Entry)
read_log fuel [] = some []
read_log zero (x ∷ xs) = none
read_log (suc fuel) (x ∷ xs) =
    let b : Bytes = x ∷ xs in
    let len = load_be16 b 10 in
    let rest = read_log fuel (drop (12 + len) b) in
    elim (ltb (length b) (12 + len)) [
      | true ↦ none
      | false ↦ elim rest [
        | none ↦ none
        | some es ↦ some (
            (record {
              id = take 4 b;
              timestamp = take 6 (drop 4 b);
              contents = take len (drop 12 b);
            })
            ∷ es)
      ]
    ]

-- The entry of a message.
abbrev pub entry_of : Message → Entry
entry_of m = record { id = m.id; timestamp = m.timestamp; contents = take m.data_length m.body }

-- The entry at the start of the bytes, for a length of its data.
abbrev entry_at : Bytes → ℕ → Entry
entry_at b len = record {
  id = take 4 b;
  timestamp = take 6 (drop 4 b);
  contents = take len (drop 12 b);
}

read_log-cons_self :
    (fuel : ℕ) (b : Bytes) (es : List Entry)
    → 12 + load_be16 b 10 ≤ length b
    → read_log fuel (drop (12 + load_be16 b 10) b) ≡ some es
    → read_log (suc fuel) b ≡ some (entry_at b (load_be16 b 10) ∷ es)
unfolding read_log
read_log-cons_self fuel [] es h g = absurd (omega arith)
read_log-cons_self fuel (x ∷ xs) es h g = ground (arith, g, h)

read_log-cons :
    (fuel : ℕ) (b : Bytes) (len : ℕ) (es : List Entry)
    → load_be16 b 10 ≡ len
    → 12 + len ≤ length b
    → read_log fuel (drop (12 + len) b) ≡ some es
    → read_log (suc fuel) b ≡ some (entry_at b len ∷ es)
read_log-cons fuel b len es e =
    subst
      (λ l.
        12 + l ≤ length b
        → read_log fuel (drop (12 + l) b) ≡ some es
        → read_log (suc fuel) b ≡ some (entry_at b l ∷ es))
      e (read_log-cons_self fuel b es)

-- One message, with whatever is behind it.
module _ (m : Message) (rest : Bytes) (i : IsMessage m) (small : m.data_length < 2 ^ 16) where
  abbrev contents : Bytes
  contents = take m.data_length m.body

  abbrev behind : Bytes
  behind = be16 m.data_length ++ (contents ++ rest)

  abbrev bytes : Bytes
  bytes = encode m ++ rest

  bytes_lem : bytes ≡ m.id ++ (m.timestamp ++ behind)
  bytes_lem =
      rw
        (
          take_all 4 m.id (omega (arith, i.id_length)),
          take_all 6 m.timestamp (omega (arith, i.timestamp_length)),
        )
        (append_assoc m.id _ rest
          ∙ ap (λ z. m.id ++ z) (append_assoc m.timestamp (be16 m.data_length ++ contents) rest))

  take_id : take 4 bytes ≡ m.id
  take_id = ap (take 4) bytes_lem ∙ take-length 4 m.id _ (sym i.id_length)

  drop_id : drop 4 bytes ≡ m.timestamp ++ behind
  drop_id = ap (drop 4) bytes_lem ∙ drop-length 4 m.id _ (sym i.id_length)

  take_timestamp : take 6 (drop 4 bytes) ≡ m.timestamp
  take_timestamp = ap (take 6) drop_id ∙ take-length 6 m.timestamp behind (sym i.timestamp_length)

  regroup : bytes ≡ (m.id ++ m.timestamp) ++ behind
  regroup = bytes_lem ∙ sym (append_assoc m.id m.timestamp behind)

  header_length : length (m.id ++ m.timestamp) ≡ 10
  header_length = omega (arith, length-append {0} m.id m.timestamp, i.id_length, i.timestamp_length)

  drop_header : (k n : ℕ) → n ≡ 10 + k → drop n bytes ≡ drop k behind
  drop_header k n e =
      ap (drop n) regroup
      ∙ drop_past (m.id ++ m.timestamp) behind n k (omega (arith, header_length))

  length_field : load_be16 bytes 10 ≡ m.data_length
  length_field =
      ap (λ b. load_be16 b 10) regroup
      ∙ ap₂ (λ x y. x * 256 + y)
          (get_or_past (m.id ++ m.timestamp) behind 10 0 0 (omega (arith, header_length)))
          (get_or_past (m.id ++ m.timestamp) behind (10 + 1) 1 0 (omega (arith, header_length)))
      ∙ be16_word m.data_length small

  length_contents : length contents ≡ m.data_length
  length_contents = omega (arith, length-take {0} m.data_length m.body, i.in_memory)

  take_contents : take m.data_length (drop 12 bytes) ≡ contents
  take_contents =
      ap (take m.data_length) (drop_header 2 12 refl)
      ∙ take-length m.data_length contents rest (sym length_contents)

  drop_message : drop (12 + m.data_length) bytes ≡ rest
  drop_message =
      drop_header (2 + m.data_length) (12 + m.data_length) (omega arith)
      ∙ drop_past (be16 m.data_length ++ contents) rest (2 + m.data_length) 0
          (omega (arith, length_contents))

  read_log-message :
      (fuel : ℕ) (es : List Entry)
      → read_log fuel rest ≡ some es
      → read_log (suc fuel) bytes ≡ some (entry_of m ∷ es)
  read_log-message fuel es g =
      read_log-cons fuel bytes m.data_length es length_field
        (omega (arith, length-append {0} (encode m) rest, length-encode m i)) (rw drop_message g)
      ∙ (λ j. some (
          (record { id = take_id j; timestamp = take_timestamp j; contents = take_contents j })
          ∷ es))

-- For messages with an ID of four bytes, a timestamp of six and fewer than 2^16 bytes of data,
-- whole in memory, the IDs, timestamps and data can be read back from the bytes: a reader that
-- goes by the lengths, with fuel for each message, finds exactly those messages, in order.
pub read_log-encode_all :
    (fuel : ℕ) (ms : List Message)
    → length ms ≤ fuel
    → All IsMessage ms
    → All (λ m. m.data_length < 2 ^ 16) ms
    → read_log fuel (encode_all ms) ≡ some (map entry_of ms)
read_log-encode_all fuel [] h i s = unfold read_log in refl
read_log-encode_all zero (m ∷ ms) h i s = absurd (omega arith)
read_log-encode_all (suc fuel) (m ∷ ms) h (i, is) (s, ss) =
    read_log-message m (encode_all ms) i s fuel (map entry_of ms)
      (read_log-encode_all fuel ms (omega arith) is ss)
