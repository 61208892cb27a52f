-- ===== src/System/Packets.antt =====
-- What `demux` hands on, and what is asked of it where main.miml sends it.
use av3_fc.Base.Int.{ℤ, pos, negsuc}
use av3_fc.Base.{
  ℕ, zero, suc, ◌-◌, ◌%◌, ◌^◌, ◌≤◌, Bool, ◌&&◌, not, true, false, List, [], ◌∷◌, ◌≡◌, refl, sym, ap,
  ◌∙◌, arith, length, All, Bool-cases, inl, inr, ltb, ◌==◌, length-drop,
}
use av3_fc.Base.Bytes.{Bytes, codes, load_be32}
use av3_fc.Ethmux.{
  Sender, demuxed_adis, demuxed_mpu, demuxed_mpl, demuxed_bmp, demuxed_rnh, demuxed_rnhumb,
  demuxed_fcfh, demuxed_jgps, demuxed_cots, Output, handled, sequenced_error, demuxed_arm,
  demuxed_rc, DemuxType, is_expected_length, format_sequenced_error, hand_on, sequenced_receive,
  Channel, seq_adis, seq_mpu, seq_mpl, seq_bmp, seq_rnh, seq_rnhport, seq_rnhalarm, seq_rnhumbdet,
  seq_fcfh, seq_jgps, seq_gps_cots, statics, Statics, Route, sequenced, to_arm, to_rc, unknown,
  Read, demux, demux_bytes, dispatch, route,
}
use av3_fc.Ethmux.Demux.{IsRead, IsValid}
use av3_fc.Logger.{p_limit, disk_log_buffer_max, message_len}
use av3_fc.Logger.Limits.{IsMessage}
use av3_fc.Message.{Message}

-- What is asked of a message for where it goes: the log for both, the filter, the frame scan.
abbrev pub SenderFits : Sender → Message → Type 0
SenderFits demuxed_jgps m = (m.id ≡ codes "JGPS") × (message_len m ≤ disk_log_buffer_max)
SenderFits demuxed_cots m = Unit {0}
SenderFits demuxed_adis m = message_len m ≤ p_limit
SenderFits demuxed_mpu m = message_len m ≤ p_limit
SenderFits demuxed_mpl m = message_len m ≤ p_limit
SenderFits demuxed_bmp m = message_len m ≤ p_limit
SenderFits demuxed_rnh m = message_len m ≤ p_limit
SenderFits demuxed_rnhumb m = message_len m ≤ p_limit
SenderFits demuxed_fcfh m = message_len m ≤ p_limit

abbrev pub OutputFits : Output → Type 0
OutputFits (handled sender m) = IsMessage m × SenderFits sender m
OutputFits (sequenced_error m) = IsMessage m × (message_len m ≤ p_limit)
OutputFits (demuxed_arm buffer len timestamp) = Unit {0}
OutputFits (demuxed_rc buffer len timestamp) = Unit {0}

-- A packet that is handed on.
abbrev pub is_accepted : DemuxType → Bytes → ℕ → Bool
is_accepted t buffer len =
    is_expected_length t len && not (ltb (load_be32 buffer 0) t.next_sequence)

-- The calls of a sequenced packet: an error, or the handler, or both in this order.
pub sequenced_receive_calls :
    (Q : List Output → Type 0) (port : ℕ) (buffer : Bytes) (len : ℕ) (timestamp : Bytes)
    (t : DemuxType)
    → ((e r : ℕ)
        → is_accepted t buffer len ≡ false
        → Q (format_sequenced_error port timestamp e r ∷ []))
    → (is_expected_length t len ≡ true → Q (hand_on t buffer len timestamp ∷ []))
    → ((e r : ℕ)
        → is_expected_length t len ≡ true
        → Q (format_sequenced_error port timestamp e r ∷ hand_on t buffer len timestamp ∷ []))
    → Q (sequenced_receive port buffer len timestamp t).1
unfolding sequenced_receive
sequenced_receive_calls Q port buffer len timestamp t err pass both =
    let n = load_be32 buffer 0 in
    elim (Bool-cases (is_expected_length t len)) [
      | inr wrong ↦ rw wrong (err 0 0 (rw wrong refl))
      | inl right ↦ elim (Bool-cases (ltb n t.next_sequence)) [
        | inl late ↦
            let no_gap : ltb t.next_sequence n ≡ false = ground (arith, late) in
            let not_next : (n == t.next_sequence) ≡ false = ground (arith, late) in
            rw (right, late, no_gap, not_next) (err _ _ (rw (right, late) refl))
        | inr on_time ↦ elim (Bool-cases (ltb t.next_sequence n)) [
          | inl gap ↦
              let not_next : (n == t.next_sequence) ≡ false = ground (arith, gap) in
              rw (right, on_time, gap, not_next) (both _ _ right)
          | inr no_gap ↦
              let next : (n == t.next_sequence) ≡ true = ground (arith, on_time, no_gap) in
              rw (right, on_time, no_gap, next) (pass right)
        ]
      ]
    ]

-- Errors, and at most one other call behind them.
abbrev pub OneCall : List Output → Type 0
OneCall [] = Unit {0}
OneCall (sequenced_error m ∷ os) = OneCall os
OneCall (o ∷ []) = Unit {0}
OneCall (o ∷ _ ∷ _) = ⊥

dispatch-OneCall : (q : Route) (r : Read) (len : ℕ) (s : Statics) → OneCall (dispatch q r len s).1
unfolding dispatch format_sequenced_error
dispatch-OneCall (sequenced c) r len s =
    sequenced_receive_calls OneCall r.port r.buffer len r.timestamp (s c) (λ e n h. tt) (λ h. tt)
      (λ e n h. tt)
dispatch-OneCall to_arm r len s = tt
dispatch-OneCall to_rc r len s = tt
dispatch-OneCall unknown r len s = tt

demux_bytes-OneCall : (b : ℤ) (r : Read) (s : Statics) → OneCall (demux_bytes b r s).1
unfolding demux_bytes
demux_bytes-OneCall (pos zero) r s = tt
demux_bytes-OneCall (pos (suc n)) r s = dispatch-OneCall (route r.port) r (suc n) s
demux_bytes-OneCall (negsuc n) r s = tt

pub demux-OneCall : (r : Read) (s : Statics) → OneCall (demux r s).1
unfolding demux
demux-OneCall r s = demux_bytes-OneCall r.bytes r s

error_fits :
    (port : ℕ) (timestamp : Bytes) (e r : ℕ)
    → length timestamp ≡ 6
    → OutputFits (format_sequenced_error port timestamp e r)
unfolding format_sequenced_error
error_fits port timestamp e r h =
    (record { id_length = refl; timestamp_length = h; in_memory = omega arith }, omega arith)

-- The data of a static fit, each where its handler sends it.
static_fits :
    (c : Channel) (len : ℕ) (m : Message)
    → len ≤ 1500
    → m.id ≡ (statics c).id
    → m.data_length ≡ (len - 4) % 2 ^ 16
    → is_expected_length (statics c) len ≡ true
    → SenderFits (statics c).handler m
unfolding statics is_expected_length
static_fits seq_jgps len m h i d e = (i, omega arith)
static_fits seq_gps_cots len m h i d e = tt
static_fits seq_adis len m h i d e = ground arith
static_fits seq_mpu len m h i d e = ground arith
static_fits seq_mpl len m h i d e = ground arith
static_fits seq_bmp len m h i d e = ground arith
static_fits seq_rnh len m h i d e = ground arith
static_fits seq_rnhport len m h i d e = ground arith
static_fits seq_rnhalarm len m h i d e = ground arith
static_fits seq_rnhumbdet len m h i d e = ground arith
static_fits seq_fcfh len m h i d e = ground arith

length-static_id : (c : Channel) → length (statics c).id ≡ 4
unfolding statics
length-static_id c = ground arith

pub same_length :
    (t u : DemuxType) (len : ℕ)
    → t.data_length ≡ u.data_length
    → is_expected_length t len ≡ is_expected_length u len
unfolding is_expected_length
same_length t u len e = rw e

hand_on_fits :
    (s : Statics) (c : Channel) (buffer : Bytes) (len : ℕ) (timestamp : Bytes)
    → IsValid s
    → len ≤ 1500
    → len ≤ length buffer
    → length timestamp ≡ 6
    → is_expected_length (s c) len ≡ true
    → OutputFits (hand_on (s c) buffer len timestamp)
hand_on_fits s c buffer len timestamp v h g t e = (
  record {
    id_length = ap length (v.id_is c) ∙ length-static_id c;
    timestamp_length = t;
    in_memory = omega (arith, length-drop {0} 4 buffer);
  },
  rw (v.handler_is c) (
      static_fits c len _ h (v.id_is c) refl
        (sym (same_length (s c) (statics c) len (v.length_is c)) ∙ e)),
)

dispatch_fits :
    (q : Route) (r : Read) (len : ℕ) (s : Statics)
    → IsValid s
    → len ≤ 1500
    → len ≤ length r.buffer
    → length r.timestamp ≡ 6
    → All OutputFits (dispatch q r len s).1
unfolding dispatch
dispatch_fits (sequenced c) r len s v h g t =
    let err = λ (e n : ℕ). error_fits r.port r.timestamp e n t in
    let pass = hand_on_fits s c r.buffer len r.timestamp v h g t in
    sequenced_receive_calls (All OutputFits) r.port r.buffer len r.timestamp (s c)
      (λ e n x. (err e n, tt)) (λ x. (pass x, tt)) (λ e n x. (err e n, (pass x, tt)))
dispatch_fits to_arm r len s v h g t = (tt, tt)
dispatch_fits to_rc r len s v h g t = (tt, tt)
dispatch_fits unknown r len s v h g t = tt

demux_bytes_fits :
    (b : ℤ) (r : Read) (s : Statics)
    → IsValid s
    → ((n : ℕ) → b ≡ pos n → n ≤ 1500)
    → length r.buffer ≡ 1500
    → length r.timestamp ≡ 6
    → All OutputFits (demux_bytes b r s).1
unfolding demux_bytes
demux_bytes_fits (pos zero) r s v h g t = tt
demux_bytes_fits (pos (suc n)) r s v h g t =
    dispatch_fits (route r.port) r (suc n) s v (h (suc n) refl) (omega (arith, h (suc n) refl)) t
demux_bytes_fits (negsuc n) r s v h g t = tt

-- Whatever packet arrives, whatever `demux` hands on fits the log, or is for the frame scan.
pub demux-OutputFits :
    (r : Read) (s : Statics)
    → IsRead r
    → length r.timestamp ≡ 6
    → IsValid s
    → All OutputFits (demux r s).1
unfolding demux
demux-OutputFits r s i t v = demux_bytes_fits r.bytes r s v i.in_buffer i.mtu t
