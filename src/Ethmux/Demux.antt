-- ===== src/Ethmux/Demux.antt =====
-- `demux`: what a packet of any sender leads to.
use mathlib.Core.Logic.{if_pos, if_neg}
use av3_fc.Base.Int.{ℤ, pos, negsuc}
use av3_fc.Base.{
  ℕ, zero, suc, ◌-◌, ◌^◌, ◌≤◌, ◌<◌, false, [], ◌∷◌, ◌≡◌, ◌≢◌, refl, arith, length, ap, ◌∙◌, All,
  length-drop,
}
use av3_fc.Base.Bytes.{Bytes}
use av3_fc.NetAddrs.{mpu_port}
use av3_fc.Ethmux.{
  Output, handled, sequenced_error, demuxed_arm, demuxed_rc, DemuxType, is_expected_length,
  format_sequenced_error, sequenced_receive, Channel, seq_mpu, Statics, statics, Read, demux,
  demux_bytes, dispatch, route, Route, sequenced, to_arm, to_rc, unknown, update, Channel-discrete,
}

-- `readsocketfromts` wrote `bytes` bytes, if any, into the static buffer of `ETH_MTU` bytes.
pub record IsRead (r : Read) : Type 0 where
  pub mtu : length r.buffer ≡ 1500
  pub in_buffer : (n : ℕ) → r.bytes ≡ pos n → n ≤ 1500

-- The numbers of the statics fit 32 bits, and their lengths, IDs and handlers are the initial ones.
pub record IsValid (s : Statics) : Type 0 where
  pub next_lt : (c : Channel) → (s c).next_sequence < 2 ^ 32
  pub length_is : (c : Channel) → (s c).data_length ≡ (statics c).data_length
  pub id_is : (c : Channel) → (s c).id ≡ (statics c).id
  pub handler_is : (c : Channel) → (s c).handler ≡ (statics c).handler

-- What is handed on lies in the buffer, behind the sequence number.
abbrev pub InBounds : Output → Type 0
InBounds (handled sender m) = m.data_length ≤ length m.body
InBounds (sequenced_error m) = m.data_length ≤ length m.body
InBounds (demuxed_arm buffer len timestamp) = len ≤ length buffer
InBounds (demuxed_rc buffer len timestamp) = len ≤ length buffer

sequenced_receive-InBounds :
    (port : ℕ) (buffer : Bytes) (len : ℕ) (timestamp : Bytes) (type : DemuxType)
    → len ≤ length buffer
    → All InBounds (sequenced_receive port buffer len timestamp type).1
unfolding sequenced_receive format_sequenced_error
sequenced_receive-InBounds port buffer len timestamp type h = ground (arith, length-drop 4 buffer)

dispatch-InBounds :
    (q : Route) (r : Read) (len : ℕ) (s : Statics)
    → len ≤ length r.buffer
    → All InBounds (dispatch q r len s).1
unfolding dispatch
dispatch-InBounds (sequenced c) r len s h =
    sequenced_receive-InBounds r.port r.buffer len r.timestamp (s c) h
dispatch-InBounds to_arm r len s h = (h, tt)
dispatch-InBounds to_rc r len s h = (h, tt)
dispatch-InBounds unknown r len s h = tt

demux_bytes-InBounds :
    (b : ℤ) (r : Read) (s : Statics)
    → ((n : ℕ) → b ≡ pos n → n ≤ length r.buffer)
    → All InBounds (demux_bytes b r s).1
unfolding demux_bytes
demux_bytes-InBounds (pos zero) r s h = tt
demux_bytes-InBounds (pos (suc n)) r s h =
    dispatch-InBounds (route r.port) r (suc n) s (h (suc n) refl)
demux_bytes-InBounds (negsuc n) r s h = tt

-- For a read that wrote at most 1,500 bytes into the buffer of 1,500 bytes, what `demux` hands
-- on, errors and raw commands included, lies in memory that it may read: no handler is given a
-- length that reaches past the buffer.
pub demux-InBounds : (r : Read) (s : Statics) → IsRead r → All InBounds (demux r s).1
unfolding demux
demux-InBounds r s h =
    demux_bytes-InBounds r.bytes r s (λ n e. omega (arith, h.in_buffer n e, h.mtu))

sequenced_receive_keeps :
    (port : ℕ) (buffer : Bytes) (len : ℕ) (timestamp : Bytes) (type : DemuxType)
    → type.next_sequence < 2 ^ 32
    → let t = (sequenced_receive port buffer len timestamp type).0 in
      (t.next_sequence < 2 ^ 32)
      × (t.data_length ≡ type.data_length)
      × (t.id ≡ type.id)
      × (t.handler ≡ type.handler)
unfolding sequenced_receive
sequenced_receive_keeps port buffer len timestamp type h = ground arith

-- An assignment read back.
module _ (s : Statics) (c d : Channel) (t : DemuxType) where
  pub update_same : c ≡ d → update s c t d ≡ t
  update_same e = if_pos (Channel-discrete c d) e t (s d)

  update_other : c ≢ d → update s c t d ≡ s d
  update_other e = if_neg (Channel-discrete c d) e t (s d)

update-IsValid :
    (s : Statics) (c : Channel) (t : DemuxType)
    → IsValid s
    → t.next_sequence < 2 ^ 32
    → t.data_length ≡ (s c).data_length
    → t.id ≡ (s c).id
    → t.handler ≡ (s c).handler
    → IsValid (update s c t)
update-IsValid s c t v lt e ei eh = record {
  next_lt = λ d. elim (Channel-discrete c d) [
    | yes same ↦ rw (update_same s c d t same) lt
    | no other ↦ rw (update_other s c d t other) (v.next_lt d)
  ];
  length_is = λ d. elim (Channel-discrete c d) [
    | yes same ↦
        rw (update_same s c d t same) (e ∙ v.length_is c ∙ ap (λ x. (statics x).data_length) same)
    | no other ↦ rw (update_other s c d t other) (v.length_is d)
  ];
  id_is = λ d. elim (Channel-discrete c d) [
    | yes same ↦ rw (update_same s c d t same) (ei ∙ v.id_is c ∙ ap (λ x. (statics x).id) same)
    | no other ↦ rw (update_other s c d t other) (v.id_is d)
  ];
  handler_is = λ d. elim (Channel-discrete c d) [
    | yes same ↦
        rw (update_same s c d t same) (eh ∙ v.handler_is c ∙ ap (λ x. (statics x).handler) same)
    | no other ↦ rw (update_other s c d t other) (v.handler_is d)
  ];
}

dispatch-IsValid :
    (q : Route) (r : Read) (len : ℕ) (s : Statics) → IsValid s → IsValid (dispatch q r len s).0
unfolding dispatch
dispatch-IsValid (sequenced c) r len s v =
    let keeps = sequenced_receive_keeps r.port r.buffer len r.timestamp (s c) (v.next_lt c) in
    update-IsValid s c _ v keeps.0 keeps.1 keeps.2 keeps.3
dispatch-IsValid to_arm r len s v = v
dispatch-IsValid to_rc r len s v = v
dispatch-IsValid unknown r len s v = v

-- A packet changes the record of its own sender alone.
dispatch_other :
    (q : Route) (r : Read) (len : ℕ) (s : Statics) (d : Channel)
    → q ≢ sequenced d
    → (dispatch q r len s).0 d ≡ s d
unfolding dispatch
dispatch_other (sequenced c) r len s d h = update_other s c d _ (λ (e : c ≡ d). h (ap sequenced e))
dispatch_other to_arm r len s d h = refl
dispatch_other to_rc r len s d h = refl
dispatch_other unknown r len s d h = refl

demux_bytes-IsValid : (b : ℤ) (r : Read) (s : Statics) → IsValid s → IsValid (demux_bytes b r s).0
unfolding demux_bytes
demux_bytes-IsValid (pos zero) r s v = v
demux_bytes-IsValid (pos (suc n)) r s v = dispatch-IsValid (route r.port) r (suc n) s v
demux_bytes-IsValid (negsuc n) r s v = v

pub demux_bytes_other :
    (b : ℤ) (r : Read) (s : Statics) (d : Channel)
    → route r.port ≢ sequenced d
    → (demux_bytes b r s).0 d ≡ s d
unfolding demux_bytes
demux_bytes_other (pos zero) r s d h = refl
demux_bytes_other (pos (suc n)) r s d h = dispatch_other (route r.port) r (suc n) s d h
demux_bytes_other (negsuc n) r s d h = refl

-- From valid statics every packet leaves valid ones (numbers below 2^32; lengths, IDs and
-- handlers unchanged), and leaves alone what belongs to the other senders.
pub demux-IsValid :
    (r : Read) (s : Statics)
    → IsValid s
    → IsValid (demux r s).0 × ((d : Channel) → route r.port ≢ sequenced d → (demux r s).0 d ≡ s d)
unfolding demux
demux-IsValid r s v = (demux_bytes-IsValid r.bytes r s v, demux_bytes_other r.bytes r s)

sequenced_receive_wrong :
    (port : ℕ) (buffer : Bytes) (len : ℕ) (timestamp : Bytes) (type : DemuxType)
    → is_expected_length type len ≡ false
    → sequenced_receive port buffer len timestamp type
      ≡ (type, format_sequenced_error port timestamp 0 0 ∷ [])
unfolding sequenced_receive
sequenced_receive_wrong port buffer len timestamp type h = ground arith

mpu_refused :
    (type : DemuxType) (len : ℕ)
    → type.data_length ≡ 2 ^ 16 - 1
    → len ≤ 1500
    → is_expected_length type len ≡ false
unfolding is_expected_length
mpu_refused type len e h = ground arith

demux_bytes_mpu :
    (n : ℕ) (r : Read) (s : Statics)
    → route r.port ≡ sequenced seq_mpu
    → suc n ≤ 1500
    → (s seq_mpu).data_length ≡ 2 ^ 16 - 1
    → (demux_bytes (pos (suc n)) r s).1 ≡ format_sequenced_error r.port r.timestamp 0 0 ∷ []
unfolding demux_bytes dispatch
demux_bytes_mpu n r s q h e = rw (
  q,
  sequenced_receive_wrong r.port r.buffer (suc n) r.timestamp (s seq_mpu)
      (mpu_refused (s seq_mpu) (suc n) e h),
)

route_mpu : (port : ℕ) → port ≡ mpu_port → route port ≡ sequenced seq_mpu
unfolding route
route_mpu port e = rw e

-- From valid statics no packet of the MPU is ever handed on: a read of at least one byte from its
-- port, into the buffer of 1,500 bytes, leads to exactly one sequence error with both numbers 0.
pub mpu_never_handled :
    (r : Read) (s : Statics) (n : ℕ)
    → IsRead r
    → IsValid s
    → r.port ≡ mpu_port
    → r.bytes ≡ pos (suc n)
    → (demux r s).1 ≡ format_sequenced_error mpu_port r.timestamp 0 0 ∷ []
unfolding demux
mpu_never_handled r s n i v p b =
    ap (λ k. (demux_bytes k r s).1) b
    ∙ demux_bytes_mpu n r s (route_mpu r.port p) (i.in_buffer (suc n) b)
        (unfold statics in v.length_is seq_mpu)
    ∙ ap (λ k. format_sequenced_error k r.timestamp 0 0 ∷ []) p

-- Every static is fed from one port: two ports that lead to it are the same.
pub route_injective :
    (p q : ℕ) (c : Channel) → route p ≡ sequenced c → route q ≡ sequenced c → p ≡ q
unfolding route
route_injective p q c h g = ground arith
