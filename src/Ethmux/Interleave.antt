-- ===== src/Ethmux/Interleave.antt =====
-- `demux` over the packets of any senders, in any interleaving.
use av3_fc.Base.Int.{ℤ, pos, negsuc}
use av3_fc.Base.{
  ℕ, zero, suc, true, false, List, [], ◌∷◌, ◌++◌, ◌≡◌, ◌≢◌, refl, sym, arith, map, ap, ◌∙◌, ◌==◌,
  if◌then◌else◌, Bool-cases, inl, inr,
}
use mathlib.Core.List.{append-nil, append_assoc}
use av3_fc.Ethmux.{
  Output, DemuxType, Channel, sequenced, route, Statics, Read, demux, demux_bytes, dispatch,
  sequenced_receive,
}
use av3_fc.Ethmux.Demux.{route_injective, demux_bytes_other, update_same}
use av3_fc.Ethmux.Sequence.{Arrival, passed, receive_stream, deliveries}
use av3_fc.Ethmux.Accept.{accepted, unexpected, errors, fits, receive_stream-accepted}

-- The calls of `demux`, one for each read: the statics after them, and what each packet led to,
-- beside the port of its sender.
unfoldable pub demux_all : List Read → Statics → Statics × List (ℕ × List Output)
demux_all [] s = (s, [])
demux_all (r ∷ rs) s =
    let (t, outs) = demux r s in let (t', rest) = demux_all rs t in (t', (r.port, outs) ∷ rest)

-- What the packets of one port led to.
abbrev pub sent_for : ℕ → List (ℕ × List Output) → List Output
sent_for p [] = []
sent_for p ((q, outs) ∷ rest) = if q == p then outs ++ sent_for p rest else sent_for p rest

-- A read as a packet, if it has any bytes.
abbrev pub arrival : ℤ → Read → List Arrival
arrival (pos zero) r = []
arrival (pos (suc n)) r = record { buffer = r.buffer; len = suc n; timestamp = r.timestamp } ∷ []
arrival (negsuc n) r = []

-- The packets of one port, in order.
abbrev pub arrivals : ℕ → List Read → List Arrival
arrivals p [] = []
arrivals p (r ∷ rs) = if r.port == p then arrival r.bytes r ++ arrivals p rs else arrivals p rs

receive_stream-append :
    (port : ℕ) (as' bs : List Arrival) (type : DemuxType)
    → let first = receive_stream port as' type in
      let later = receive_stream port bs first.0 in
      receive_stream port (as' ++ bs) type ≡ (later.0, first.1 ++ later.1)
unfolding receive_stream
receive_stream-append port [] bs type = refl
receive_stream-append port (a ∷ as') bs type =
    let t = (sequenced_receive port a.buffer a.len a.timestamp type).0 in
    rw (receive_stream-append port as' bs t, append_assoc)

-- What the calls of `demux` do to the static that is fed from port `p`, and what they lead to for
-- that port.
module _ (p : ℕ) (c : Channel) (h : route p ≡ sequenced c) where
  AsStream : List Arrival → Statics → Statics × List Output → Type 0
  AsStream as' s out =
      let stream = receive_stream p as' (s c) in (out.0 c ≡ stream.0) × (out.1 ≡ stream.1)

  dispatch_stream :
      (r : Read) (s : Statics) (n : ℕ)
      → r.port ≡ p
      → AsStream (arrival (pos (suc n)) r) s (dispatch (sequenced c) r (suc n) s)
  unfolding dispatch receive_stream AsStream
  dispatch_stream r s n e = rw e (update_same s c c _ refl, sym (append-nil _))

  demux_bytes_stream :
      (r : Read) (s : Statics) → r.port ≡ p → (b : ℤ) → AsStream (arrival b r) s (demux_bytes b r s)
  unfolding demux_bytes receive_stream AsStream
  demux_bytes_stream r s e (pos zero) = (refl, refl)
  demux_bytes_stream r s e (pos (suc n)) =
      rw (ap route e ∙ h) (unfold AsStream in dispatch_stream r s n e)
  demux_bytes_stream r s e (negsuc n) = (refl, refl)

  Projects : List Read → Statics → Type 0
  Projects rs s =
      let stream = receive_stream p (arrivals p rs) (s c) in
      ((demux_all rs s).0 c ≡ stream.0) × (sent_for p (demux_all rs s).1 ≡ stream.1)

  Projects-own :
      (r : Read) (rs : List Read) (s : Statics)
      → (r.port == p) ≡ true
      → Projects rs (demux r s).0
      → Projects (r ∷ rs) s
  unfolding Projects demux_all demux AsStream
  Projects-own r rs s own (t, outs) =
      let (t1, outs1) = demux_bytes_stream r s (ground arith) r.bytes in
      rw (own, receive_stream-append, ← t1, ← outs1) (t, ap (◌++◌ _) outs)

  Projects-other :
      (r : Read) (rs : List Read) (s : Statics)
      → (r.port == p) ≡ false
      → Projects rs (demux r s).0
      → Projects (r ∷ rs) s
  unfolding Projects demux_all demux
  Projects-other r rs s other (t, outs) =
      let apart : route r.port ≢ sequenced c =
        λ q. absurd (ground (arith, route_injective r.port p c q h)) in
      let same = demux_bytes_other r.bytes r s c apart in rw (other, ← same) (t, outs)

  demux_all-Projects : (rs : List Read) (s : Statics) → Projects rs s
  unfolding Projects demux_all receive_stream
  demux_all-Projects [] s = (refl, refl)
  demux_all-Projects (r ∷ rs) s = elim (Bool-cases (r.port == p)) [
    | inl own ↦ Projects-own r rs s own (demux_all-Projects rs (demux r s).0)
    | inr other ↦ Projects-other r rs s other (demux_all-Projects rs (demux r s).0)
  ]

-- Packets of all senders, in any interleaving, and from any statics: for a port `p` that feeds a
-- static `c`, the static afterwards and all that was sent for the port are those that
-- `sequenced_receive` gives for the packets of that port alone, in their order. No packet of
-- another sender, whatever it is, changes either.
pub demux_all-receive_stream :
    (p : ℕ) (c : Channel) (rs : List Read) (s : Statics)
    → route p ≡ sequenced c
    → let stream = receive_stream p (arrivals p rs) (s c) in
      let out = demux_all rs s in (out.0 c ≡ stream.0) × (sent_for p out.1 ≡ stream.1)
unfolding Projects
demux_all-receive_stream p c rs s h = demux_all-Projects p c h rs s

-- Packets of all senders, in any interleaving, and from any statics: what is handed on for a port
-- `p` that feeds a static is, in order, its packets of the expected length whose number is not
-- below the one expected after the packet of that length before it, and each packet of `p` that
-- has another length, or another number than the one expected, gives exactly one sequence error.
pub demux_all-accepted :
    (p : ℕ) (c : Channel) (rs : List Read) (s : Statics)
    → route p ≡ sequenced c
    → let out = sent_for p (demux_all rs s).1 in
      (deliveries out
        ≡ map (passed (s c)) (accepted (fits (s c)) (s c).next_sequence (arrivals p rs)))
      × (errors out ≡ unexpected (fits (s c)) (s c).next_sequence (arrivals p rs))
demux_all-accepted p c rs s h =
    rw ((demux_all-receive_stream p c rs s h).1) (receive_stream-accepted p (arrivals p rs) (s c))
