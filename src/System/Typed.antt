-- ===== src/System/Typed.antt =====
-- The structures that the handlers of `demux` read a message's data as.
use Prim.Native.String.{String}
use av3_fc.Base.{
  ℕ, zero, suc, ◌-◌, ◌%◌, ◌^◌, ◌≤◌, true, ◌++◌, Option, none, some, ◌≡◌, refl, sym, ◌∙◌, arith,
  length, All, length-drop,
}
use av3_fc.Base.Int.{ℤ, pos, negsuc}
use av3_fc.Base.Bytes.{Bytes, codes, be16, be32}
use av3_fc.Ethmux.{
  Sender, Output, handled, sequenced_error, demuxed_arm, demuxed_rc, is_expected_length,
  format_sequenced_error, hand_on, Channel, seq_adis, seq_mpu, seq_mpl, seq_bmp, seq_rnh,
  seq_rnhport, seq_rnhalarm, seq_rnhumbdet, seq_fcfh, seq_jgps, seq_gps_cots, statics, Statics,
  Route, sequenced, to_arm, to_rc, unknown, Read, demux, demux_bytes, dispatch, route,
}
use av3_fc.Ethmux.Demux.{IsRead, IsValid}
use av3_fc.Message.{Message}
use av3_fc.Packet.{
  Layout, sizeof, field, adis16405_data, mpl_data, bmp180_data, rnh_health_data, rnh_power_data,
  rnh_alarms, rnh_umbdet, fcf_health_data, sequence_error_data,
}
use av3_fc.Packet.Fields.{Within, Within_le, field-Within}
use av3_fc.System.Packets.{sequenced_receive_calls, same_length}

-- The structure of a sender's data; those of the MPU and of both GPS receivers have no fixed length.
abbrev pub struct_of : Channel → Option Layout
struct_of seq_adis = some adis16405_data
struct_of seq_mpu = none
struct_of seq_mpl = some mpl_data
struct_of seq_bmp = some bmp180_data
struct_of seq_rnh = some rnh_health_data
struct_of seq_rnhport = some rnh_power_data
struct_of seq_rnhalarm = some rnh_alarms
struct_of seq_rnhumbdet = some rnh_umbdet
struct_of seq_fcfh = some fcf_health_data
struct_of seq_jgps = none
struct_of seq_gps_cots = none

-- The data has the structure's length, and every field lies in memory that can be read.
abbrev pub HasShape : Option Layout → Message → Type 0
HasShape none m = m.data_length ≤ length m.body
HasShape (some l) m =
    (m.data_length ≡ sizeof l) × ((name : String) → Within (length m.body) (field l name))

-- A message for a handler is that of a static which has this handler.
pub record IsTyped (sender : Sender) (m : Message) : Type 0 where
  pub channel : Channel
  pub sender_is : sender ≡ (statics channel).handler
  pub id_is : m.id ≡ (statics channel).id
  pub shaped : HasShape (struct_of channel) m

abbrev pub Typed : Output → Type 0
Typed (handled sender m) = IsTyped sender m
Typed (sequenced_error m) = HasShape (some sequence_error_data) m
Typed (demuxed_arm buffer len timestamp) = len ≤ length buffer
Typed (demuxed_rc buffer len timestamp) = len ≤ length buffer

some-HasShape :
    (l : Layout) (m : Message)
    → m.data_length ≡ sizeof l
    → m.data_length ≤ length m.body
    → HasShape (some l) m
some-HasShape l m e h = (
  e,
  λ name.
      Within_le (sizeof l) (length m.body) (field l name) (omega (arith, e, h))
        (field-Within l name),
)

static-HasShape :
    (c : Channel) (len : ℕ) (m : Message)
    → len ≤ 1500
    → m.data_length ≡ (len - 4) % 2 ^ 16
    → m.data_length ≤ length m.body
    → is_expected_length (statics c) len ≡ true
    → HasShape (struct_of c) m
unfolding statics is_expected_length
static-HasShape seq_jgps len m h d b e = b
static-HasShape seq_gps_cots len m h d b e = b
static-HasShape seq_mpu len m h d b e = b
static-HasShape seq_adis len m h d b e = some-HasShape adis16405_data m (ground arith) b
static-HasShape seq_mpl len m h d b e = some-HasShape mpl_data m (ground arith) b
static-HasShape seq_bmp len m h d b e = some-HasShape bmp180_data m (ground arith) b
static-HasShape seq_rnh len m h d b e = some-HasShape rnh_health_data m (ground arith) b
static-HasShape seq_rnhport len m h d b e = some-HasShape rnh_power_data m (ground arith) b
static-HasShape seq_rnhalarm len m h d b e = some-HasShape rnh_alarms m (ground arith) b
static-HasShape seq_rnhumbdet len m h d b e = some-HasShape rnh_umbdet m (ground arith) b
static-HasShape seq_fcfh len m h d b e = some-HasShape fcf_health_data m (ground arith) b

error-HasShape :
    (port : ℕ) (timestamp : Bytes) (e r : ℕ) → Typed (format_sequenced_error port timestamp e r)
unfolding format_sequenced_error
error-HasShape port timestamp e r =
    some-HasShape sequence_error_data
      (record {
        id = codes "SEQE";
        timestamp = timestamp;
        data_length = sizeof sequence_error_data;
        body = be16 port ++ (be32 e ++ be32 r);
      })
      refl (omega arith)

module _ (r : Read) (s : Statics) (v : IsValid s) where
  hand_on-IsTyped :
      (c : Channel) (len : ℕ)
      → len ≤ 1500
      → len ≤ length r.buffer
      → is_expected_length (s c) len ≡ true
      → Typed (hand_on (s c) r.buffer len r.timestamp)
  hand_on-IsTyped c len h g e = record {
    channel = c;
    sender_is = v.handler_is c;
    id_is = v.id_is c;
    shaped =
        static-HasShape c len _ h refl (omega (arith, length-drop {0} 4 r.buffer))
          (sym (same_length (s c) (statics c) len (v.length_is c)) ∙ e);
  }

  dispatch-Typed :
      (q : Route) (len : ℕ) → len ≤ 1500 → len ≤ length r.buffer → All Typed (dispatch q r len s).1
  unfolding dispatch
  dispatch-Typed (sequenced c) len h g =
      let err = error-HasShape r.port r.timestamp in
      let pass = hand_on-IsTyped c len h g in
      sequenced_receive_calls (All Typed) r.port r.buffer len r.timestamp (s c)
        (λ e n x. (err e n, tt)) (λ x. (pass x, tt)) (λ e n x. (err e n, (pass x, tt)))
  dispatch-Typed to_arm len h g = (g, tt)
  dispatch-Typed to_rc len h g = (g, tt)
  dispatch-Typed unknown len h g = tt

  demux_bytes-Typed :
      (b : ℤ)
      → ((n : ℕ) → b ≡ pos n → n ≤ 1500)
      → length r.buffer ≡ 1500
      → All Typed (demux_bytes b r s).1
  unfolding demux_bytes
  demux_bytes-Typed (pos zero) h g = tt
  demux_bytes-Typed (pos (suc n)) h g =
      dispatch-Typed (route r.port) (suc n) (h (suc n) refl) (omega (arith, h (suc n) refl))
  demux_bytes-Typed (negsuc n) h g = tt

-- From valid statics, and for a read of at most 1,500 bytes into the buffer of 1,500 bytes: every
-- message handed on is of one of the statics, with its handler and its ID, and where that static
-- has a structure of fixed length, the data is exactly as long as the structure, and each field of
-- it lies in memory that the handler may read; other data, and raw commands, lie in the buffer; a
-- sequence error has the length and the fields of its structure.
pub demux-Typed : (r : Read) (s : Statics) → IsRead r → IsValid s → All Typed (demux r s).1
unfolding demux
demux-Typed r s i v = demux_bytes-Typed r s v r.bytes i.in_buffer i.mtu
