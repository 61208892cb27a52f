-- ===== src/Ethmux/Sequence.antt =====
-- `sequenced_receive` over the packets of one sender.
use av3_fc.Base.{
  ℕ, ◌+◌, ◌-◌, ◌%◌, ◌^◌, ◌≤◌, ◌<◌, Bool, true, false, List, [], ◌∷◌, ◌++◌, ◌≡◌, refl, arith,
  if◌then◌else◌, length, map, All, ap, ap₂, ◌∙◌,
}
use native.Mathlib.Decide.{ℕ_discrete}
use av3_fc.Base.Bytes.{Bytes, load_be32, be32_word}
use av3_fc.Ethmux.{
  Output, handled, sequenced_error, DemuxType, is_expected_length, format_sequenced_error, hand_on,
  sequenced_receive,
}

-- A packet as it arrives on a port.
pub record Arrival : Type 0 where
  pub buffer : Bytes
  pub len : ℕ
  pub timestamp : Bytes

abbrev pub rcvseq : Arrival → ℕ
rcvseq a = load_be32 a.buffer 0

-- What the handler is to get of a packet.
abbrev pub passed : DemuxType → Arrival → Output
passed type a = hand_on type a.buffer a.len a.timestamp

-- The calls of `sequenced_receive` for the packets of one port.
unfoldable pub receive_stream : ℕ → List Arrival → DemuxType → DemuxType × List Output
receive_stream port [] type = (type, [])
receive_stream port (a ∷ as') type =
    let (t, outs) = sequenced_receive port a.buffer a.len a.timestamp type in
    let (t', outs') = receive_stream port as' t in (t', outs ++ outs')

abbrev pub HasLength : DemuxType → Arrival → Type 0
HasLength type a = is_expected_length type a.len ≡ true

-- The packets are numbered one after the other from `n` on, going round at 2^32.
abbrev pub IsConsecutive : ℕ → List Arrival → Type 0
IsConsecutive n [] = Unit {0}
IsConsecutive n (a ∷ as') = (rcvseq a ≡ n) × IsConsecutive ((n + 1) % 2 ^ 32) as'

-- One packet of the expected length, by its number.
module _ (port : ℕ) (a : Arrival) (type : DemuxType) (h : HasLength type a) where
  abbrev after : DemuxType
  after = record type { next_sequence = (rcvseq a + 1) % 2 ^ 32 }

  abbrev error_of : Output
  error_of = format_sequenced_error port a.timestamp type.next_sequence (rcvseq a)

  receive_next :
      rcvseq a ≡ type.next_sequence
      → sequenced_receive port a.buffer a.len a.timestamp type ≡ (after, passed type a ∷ [])
  unfolding sequenced_receive
  receive_next e = ground arith

  receive_late :
      rcvseq a < type.next_sequence
      → sequenced_receive port a.buffer a.len a.timestamp type ≡ (after, error_of ∷ [])
  unfolding sequenced_receive
  receive_late e = ground arith

  receive_gap :
      type.next_sequence < rcvseq a
      → sequenced_receive port a.buffer a.len a.timestamp type
        ≡ (after, error_of ∷ passed type a ∷ [])
  unfolding sequenced_receive
  receive_gap e = ground arith

-- If the packets of a port have the expected length and are numbered one after the other from the
-- expected number on, which is below 2^32, going round at 2^32, each is handed on, in order, no
-- error is sent, and the number expected next is the one after the last.
pub stream_in_order :
    (port : ℕ) (as' : List Arrival) (type : DemuxType)
    → type.next_sequence < 2 ^ 32
    → All (HasLength type) as'
    → IsConsecutive type.next_sequence as'
    → receive_stream port as' type ≡ (
      record type { next_sequence = (type.next_sequence + length as') % 2 ^ 32 },
      map (passed type) as',
    )
unfolding receive_stream is_expected_length
stream_in_order port [] type b h c = ap (λ n. (record type { next_sequence = n }, [])) (omega arith)
stream_in_order port (a ∷ as') type b (h, hs) (c, cs) =
    let t : DemuxType = record type { next_sequence = (type.next_sequence + 1) % 2 ^ 32 } in
    let step : sequenced_receive port a.buffer a.len a.timestamp type ≡ (t, passed type a ∷ []) =
      receive_next port a type h c
      ∙ ap (λ n. (record type { next_sequence = (n + 1) % 2 ^ 32 }, passed type a ∷ [])) c in
    rw (step, stream_in_order port as' t (omega arith) hs cs)
      (ap (λ n. (record type { next_sequence = n }, passed type a ∷ map (passed type) as'))
        (omega arith))

-- Numbered upwards from `n` on, with gaps, and not going round.
abbrev pub IsIncreasing : ℕ → List Arrival → Type 0
IsIncreasing n [] = Unit {0}
IsIncreasing n (a ∷ as') = (n ≤ rcvseq a) × (rcvseq a < 2 ^ 32) × IsIncreasing (rcvseq a + 1) as'

-- The number that is expected after such packets.
abbrev pub expected_after : ℕ → List Arrival → ℕ
expected_after n [] = n
expected_after n (a ∷ as') = expected_after (rcvseq a + 1) as'

abbrev pub is_handled : Output → Bool
is_handled (handled s m) = true
is_handled _ = false

-- The messages handed on, without the errors.
abbrev pub deliveries : List Output → List Output
deliveries [] = []
deliveries (o ∷ os) = if is_handled o then o ∷ deliveries os else deliveries os

-- How many numbers a sequence error says were left out.
abbrev pub reported : Output → ℕ
reported (sequenced_error m) = load_be32 m.body 6 - load_be32 m.body 2
reported _ = 0

abbrev pub total_reported : List Output → ℕ
total_reported [] = 0
total_reported (o ∷ os) = reported o + total_reported os

-- A sequence error's two numbers can be read back from it.
reported_error :
    (port expected received : ℕ) (timestamp : Bytes)
    → expected < 2 ^ 32
    → received < 2 ^ 32
    → reported (format_sequenced_error port timestamp expected received) ≡ received - expected
unfolding format_sequenced_error
reported_error port expected received timestamp h g =
    ap₂ (λ r e. r - e) (be32_word received g) (be32_word expected h)

-- What a lossy stream leads to: every packet that arrived is handed on, in order, and the errors
-- account for exactly the numbers that did not arrive.
pub record Accounted (type : DemuxType) (as' : List Arrival) (out : DemuxType × List Output)
    : Type 0 where
  pub delivered : deliveries out.1 ≡ map (passed type) as'
  pub counted :
      type.next_sequence + length as' + total_reported out.1 ≡ expected_after type.next_sequence as'

module _ (port : ℕ) (a : Arrival) (as' : List Arrival) (type : DemuxType) where
  abbrev first : DemuxType × List Output
  first = sequenced_receive port a.buffer a.len a.timestamp type

  lossy_cons :
      (later : DemuxType × List Output)
      → HasLength type a
      → type.next_sequence < 2 ^ 32
      → type.next_sequence ≤ rcvseq a
      → rcvseq a < 2 ^ 32
      → deliveries later.1 ≡ map (passed type) as'
      → rcvseq a + 1 + length as' + total_reported later.1 ≡ expected_after (rcvseq a + 1) as'
      → Accounted type (a ∷ as') (later.0, first.1 ++ later.1)
  unfolding format_sequenced_error
  lossy_cons later h b lo hi d k = elim (ℕ_discrete (rcvseq a) type.next_sequence) [
    | yes same ↦
        rw (receive_next port a type h same)
          (record { delivered = ap (◌∷◌ (passed type a)) d; counted = omega arith })
    | no gap ↦ rw (receive_gap port a type h (omega arith)) (record {
      delivered = ap (◌∷◌ (passed type a)) d;
      counted = omega (arith, reported_error port type.next_sequence (rcvseq a) a.timestamp b hi);
    })
  ]

  next_lem :
      HasLength type a
      → type.next_sequence < 2 ^ 32
      → type.next_sequence ≤ rcvseq a
      → first.0 ≡ record type { next_sequence = (rcvseq a + 1) % 2 ^ 32 }
  next_lem h b lo = elim (ℕ_discrete (rcvseq a) type.next_sequence) [
    | yes same ↦ rw (receive_next port a type h same)
    | no gap ↦ rw (receive_gap port a type h (omega arith))
  ]

-- If the packets that arrive on a port have the expected length and are numbered upwards from the
-- expected number on, below 2^32, with any gaps but without going round, then each is handed on,
-- in order, and the errors account for exactly the packets lost: the expected number, the packets
-- that arrived and the numbers that the errors report as left out add up to the number expected
-- afterwards.
pub lossy_stream :
    (port : ℕ) (as' : List Arrival) (type : DemuxType)
    → type.next_sequence < 2 ^ 32
    → All (HasLength type) as'
    → IsIncreasing type.next_sequence as'
    → Accounted type as' (receive_stream port as' type)
unfolding receive_stream is_expected_length
lossy_stream port [] type b h c = record { delivered = refl; counted = omega arith }
lossy_stream port (a ∷ []) type b (h, hs) (lo, hi, c) =
    lossy_cons port a [] type _ h b lo hi refl (omega arith)
lossy_stream port (a ∷ a' ∷ as') type b (h, hs) (lo, hi, c) =
    let t : DemuxType = record type { next_sequence = rcvseq a + 1 } in
    let step : (first port a (a' ∷ as') type).0 ≡ t =
      next_lem port a (a' ∷ as') type h b lo
      ∙ ap (λ n. record type { next_sequence = n }) (omega arith) in
    let later = lossy_stream port (a' ∷ as') t (omega arith) hs c in
    rw step (
      lossy_cons port a (a' ∷ as') type (receive_stream port (a' ∷ as') t) h b lo hi later.delivered
        later.counted)

-- If a sender starts again at a number below the expected one, and its packets have the expected
-- length and are numbered on from there, the first packet alone is lost: it gives one error, and
-- all later ones are handed on in order with no error.
pub restart_stream :
    (port : ℕ) (a : Arrival) (as' : List Arrival) (type : DemuxType)
    → type.next_sequence < 2 ^ 32
    → All (HasLength type) (a ∷ as')
    → rcvseq a < type.next_sequence
    → IsConsecutive (rcvseq a + 1) as'
    → (receive_stream port (a ∷ as') type).1
      ≡ format_sequenced_error port a.timestamp type.next_sequence (rcvseq a)
        ∷ map (passed type) as'
unfolding receive_stream is_expected_length
restart_stream port a as' type b (h, hs) late c =
    let t : DemuxType = record type { next_sequence = rcvseq a + 1 } in
    let step : sequenced_receive port a.buffer a.len a.timestamp type
        ≡ (t, format_sequenced_error port a.timestamp type.next_sequence (rcvseq a) ∷ []) =
      receive_late port a type h late
      ∙ ap
          (λ n. (
            record type { next_sequence = n },
            format_sequenced_error port a.timestamp type.next_sequence (rcvseq a) ∷ [],
          ))
          (omega arith) in
    rw (step, stream_in_order port as' t (omega arith) hs c)
