-- ===== src/Ethmux/Accept.antt =====
-- `sequenced_receive` over any packets of one sender: lost, late, repeated, of any length.
use mathlib.Core.Path.{subst}
use av3_fc.Base.{
  ℕ, suc, ◌+◌, ◌%◌, ◌^◌, Bool, true, false, List, [], ◌∷◌, ◌++◌, ◌≡◌, refl, sym, arith,
  if◌then◌else◌, map, ap, ap₂, ◌∙◌, ltb, ◌==◌, Bool-cases, inl, inr,
}
use av3_fc.Ethmux.{
  Output, sequenced_error, handled, DemuxType, is_expected_length, format_sequenced_error,
  sequenced_receive,
}
use av3_fc.Ethmux.Sequence.{Arrival, rcvseq, passed, receive_stream, deliveries}

-- The number after a packet's.
abbrev pub following : Arrival → ℕ
following a = (rcvseq a + 1) % 2 ^ 32

-- The packets that are to be handed on, where `n` is expected: those of the expected length whose
-- number is not below that after the packet before, among the packets of the expected length.
abbrev pub accepted : (Arrival → Bool) → ℕ → List Arrival → List Arrival
accepted fits n [] = []
accepted fits n (a ∷ as') =
    if fits a
    then (let rest = accepted fits (following a) as' in if ltb (rcvseq a) n then rest else a ∷ rest)
    else accepted fits n as'

-- How many packets have not the expected length, or not the number after the one before.
abbrev pub unexpected : (Arrival → Bool) → ℕ → List Arrival → ℕ
unexpected fits n [] = 0
unexpected fits n (a ∷ as') =
    if fits a
    then (if rcvseq a == n then 0 else 1) + unexpected fits (following a) as'
    else 1 + unexpected fits n as'

-- How many of some calls are sequence errors.
abbrev pub errors : List Output → ℕ
errors [] = 0
errors (sequenced_error m ∷ os) = suc (errors os)
errors (_ ∷ os) = errors os

abbrev pub fits : DemuxType → Arrival → Bool
fits type a = is_expected_length type a.len

deliveries-append : (xs ys : List Output) → deliveries (xs ++ ys) ≡ deliveries xs ++ deliveries ys
deliveries-append [] ys = refl
deliveries-append (x ∷ xs) ys = ground (arith, deliveries-append xs ys)

errors-append : (xs ys : List Output) → errors (xs ++ ys) ≡ errors xs + errors ys
errors-append [] ys = omega arith
errors-append (sequenced_error m ∷ xs) ys = omega (arith, errors-append xs ys)
errors-append (handled s m ∷ xs) ys = errors-append xs ys
errors-append (Output.demuxed_arm b l t ∷ xs) ys = errors-append xs ys
errors-append (Output.demuxed_rc b l t ∷ xs) ys = errors-append xs ys

-- What one packet leads to.
module _ (port : ℕ) (a : Arrival) (type : DemuxType) where
  abbrev first : DemuxType × List Output
  first = sequenced_receive port a.buffer a.len a.timestamp type

  first_right :
      fits type a ≡ true
      → (first.0 ≡ record type { next_sequence = following a })
        × (deliveries first.1
            ≡ (if ltb (rcvseq a) type.next_sequence then [] else passed type a ∷ []))
        × (errors first.1 ≡ (if rcvseq a == type.next_sequence then 0 else 1))
  unfolding sequenced_receive format_sequenced_error
  first_right h = ground arith

  first_wrong :
      fits type a ≡ false → (first.0 ≡ type) × (deliveries first.1 ≡ []) × (errors first.1 ≡ 1)
  unfolding sequenced_receive format_sequenced_error
  first_wrong h = ground arith

-- What some packets lead to.
abbrev Accepts : ℕ → List Arrival → DemuxType → Type 0
Accepts port as' type =
    (deliveries (receive_stream port as' type).1
      ≡ map (passed type) (accepted (fits type) type.next_sequence as'))
    × (errors (receive_stream port as' type).1 ≡ unexpected (fits type) type.next_sequence as')

Accepts-right :
    (port : ℕ) (a : Arrival) (as' : List Arrival) (type : DemuxType)
    → fits type a ≡ true
    → Accepts port as' (record type { next_sequence = following a })
    → Accepts port (a ∷ as') type
unfolding receive_stream is_expected_length
Accepts-right port a as' type h (d, e) =
    let (t, d1, e1) = first_right port a type h in
    let both : List Output = (first port a type).1 in
    let rest : List Output = (receive_stream port as' (first port a type).0).1 in
    let d' =
      subst
        (λ (x : DemuxType).
          deliveries (receive_stream port as' x).1
          ≡ map (passed type) (accepted (fits type) (following a) as'))
        (sym t) d in
    let e' =
      subst
        (λ (x : DemuxType).
          errors (receive_stream port as' x).1 ≡ unexpected (fits type) (following a) as')
        (sym t) e in
    let late = ltb (rcvseq a) type.next_sequence in
    (
      deliveries-append both rest
          ∙ ap₂ ◌++◌ d1 d'
          ∙ elim (Bool-cases late) [ inl l ↦ rw (h, l) | inr g ↦ rw (h, g) ],
      errors-append both rest ∙ ap₂ ◌+◌ e1 e' ∙ rw h,
    )

Accepts-wrong :
    (port : ℕ) (a : Arrival) (as' : List Arrival) (type : DemuxType)
    → fits type a ≡ false
    → Accepts port as' type
    → Accepts port (a ∷ as') type
unfolding receive_stream
Accepts-wrong port a as' type h (d, e) =
    let (t, d1, e1) = first_wrong port a type h in
    let both : List Output = (first port a type).1 in
    let rest : List Output = (receive_stream port as' (first port a type).0).1 in
    let again = λ (x : DemuxType). (receive_stream port as' x).1 in
    (
      deliveries-append both rest ∙ ap₂ ◌++◌ d1 (ap (λ x. deliveries (again x)) t ∙ d) ∙ rw h,
      errors-append both rest ∙ ap₂ ◌+◌ e1 (ap (λ x. errors (again x)) t ∙ e) ∙ rw h,
    )

-- Whatever packets arrive from a sender, in whatever order, lost, late, repeated or of a wrong
-- length: the packets handed on are, in order, those of the expected length whose number is not
-- below the one expected after the last packet of that length, and there is exactly one sequence
-- error for each packet of another length or with another number than the one expected.
pub receive_stream-accepted :
    (port : ℕ) (as' : List Arrival) (type : DemuxType)
    → (deliveries (receive_stream port as' type).1
        ≡ map (passed type) (accepted (fits type) type.next_sequence as'))
      × (errors (receive_stream port as' type).1 ≡ unexpected (fits type) type.next_sequence as')
unfolding receive_stream is_expected_length
receive_stream-accepted port [] type = (refl, refl)
receive_stream-accepted port (a ∷ as') type = elim (Bool-cases (fits type a)) [
  | inl right ↦
      Accepts-right port a as' type right
        (receive_stream-accepted port as' (record type { next_sequence = following a }))
  | inr wrong ↦ Accepts-wrong port a as' type wrong (receive_stream-accepted port as' type)
]
