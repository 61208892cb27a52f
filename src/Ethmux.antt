-- ===== src/Ethmux.antt =====
-- src/ethmux.c: packets from the listen port, told apart by the port of their sender, checked for
-- their length and their sequence number, and handed on.
pub mod Sequence
pub mod Demux
pub mod Poll
pub mod Accept
pub mod Interleave
pub mod Tests
use mathlib.Core.Logic.{ite}
use av3_fc.Base.Int.{ℤ, pos, negsuc}
use av3_fc.Base.{
  ℕ, zero, suc, ◌+◌, ◌-◌, ◌%◌, ◌^◌, Bool, true, false, ◌&&◌, not, List, [], ◌∷◌, ◌++◌, ltb, leb,
  ◌==◌, if◌then◌else◌, drop, Option, none, some,
}
use av3_fc.Base.Bytes.{Bytes, codes, be16, be32, load_be32}
use av3_fc.Message.{Message}
use av3_fc.NetAddrs.{
  adis_port, arm_port, mpu_port, mpl_port, bmp_port, rc_servo_enable_port, rnh_battery, rnh_port,
  rnh_alarm, fcf_health_port, jgps_port, gps_cots,
}
use av3_fc.NetAddrs
use av3_fc.Packet.{
  sizeof, adis16405_data, mpl_data, bmp180_data, rnh_health_data, rnh_power_data, rnh_alarms,
  rnh_umbdet, fcf_health_data, sequence_error_data,
}

-- The senders of ethmux.h that take a message.
pub data Sender : Type 0 where
  demuxed_adis demuxed_mpu demuxed_mpl demuxed_bmp demuxed_rnh demuxed_rnhumb : Sender
  demuxed_fcfh demuxed_jgps demuxed_cots : Sender

-- The calls of senders that a packet causes, in order.
pub data Output : Type 0 where
  handled : Sender → Message → Output
  sequenced_error : Message → Output
  demuxed_arm : Bytes → ℕ → Bytes → Output
  demuxed_rc : Bytes → ℕ → Bytes → Output

-- `struct demux_type`
pub record DemuxType : Type 0 where
  pub id : Bytes
  pub data_length : ℕ
  pub handler : Sender
  pub next_sequence : ℕ

abbrev pub uint16_max : ℕ
uint16_max = 2 ^ 16 - 1

unfoldable pub is_expected_length : DemuxType → ℕ → Bool
is_expected_length type len =
    if not (type.data_length == 0)
    then len == 4 + type.data_length
    else leb 4 len && leb len (uint16_max - 4)

unfoldable pub format_sequenced_error : ℕ → Bytes → ℕ → ℕ → Output
format_sequenced_error port timestamp expected received = sequenced_error (record {
  id = codes "SEQE";
  timestamp = timestamp;
  data_length = sizeof sequence_error_data;
  body = be16 port ++ (be32 expected ++ be32 received);
})

-- The call of `type->handler`, on the buffer and the length behind the sequence number.
abbrev pub hand_on : DemuxType → Bytes → ℕ → Bytes → Output
hand_on type buffer len timestamp = handled type.handler (record {
  id = type.id;
  timestamp = timestamp;
  data_length = (len - 4) % 2 ^ 16;
  body = drop 4 buffer;
})

-- `type->next_sequence` after the call, with what was sent.
unfoldable pub sequenced_receive : ℕ → Bytes → ℕ → Bytes → DemuxType → DemuxType × List Output
unfolding is_expected_length
sequenced_receive port buffer len timestamp type =
    let rcvseq = load_be32 buffer 0 in
    let err = format_sequenced_error port timestamp type.next_sequence rcvseq in
    let pass = hand_on type buffer len timestamp in
    if not (is_expected_length type len)
    then (type, format_sequenced_error port timestamp 0 0 ∷ [])
    else (
      record type { next_sequence = (rcvseq + 1) % 2 ^ 32 },
      (if ltb rcvseq type.next_sequence then err ∷ [] else [])
          ++ ((if ltb type.next_sequence rcvseq then err ∷ pass ∷ [] else [])
              ++ (if rcvseq == type.next_sequence then pass ∷ [] else [])),
    )

-- The static `demux_type`s of `demux`.
pub data Channel : Type 0 where
  seq_adis seq_mpu seq_mpl seq_bmp seq_rnh seq_rnhport seq_rnhalarm : Channel
  seq_rnhumbdet seq_fcfh seq_jgps seq_gps_cots : Channel

abbrev demux_type : Bytes → ℕ → Sender → DemuxType
demux_type id data_length handler = record {
  id = id;
  data_length = data_length;
  handler = handler;
  next_sequence = 0;
}

-- Their initial values.
unfoldable pub statics : Channel → DemuxType
statics seq_adis = demux_type (codes "ADIS") (sizeof adis16405_data) demuxed_adis
statics seq_mpu = demux_type (codes "MPU9") uint16_max demuxed_mpu
statics seq_mpl = demux_type (codes "MPL3") (sizeof mpl_data) demuxed_mpl
statics seq_bmp = demux_type (codes "BMP1") (sizeof bmp180_data) demuxed_bmp
statics seq_rnh = demux_type (codes "RNHH") (sizeof rnh_health_data) demuxed_rnh
statics seq_rnhport = demux_type (codes "RNHP") (sizeof rnh_power_data) demuxed_rnh
statics seq_rnhalarm = demux_type (codes "RNHA") (sizeof rnh_alarms) demuxed_rnh
statics seq_rnhumbdet = demux_type (codes "RNHU") (sizeof rnh_umbdet) demuxed_rnhumb
statics seq_fcfh = demux_type (codes "FCFH") (sizeof fcf_health_data) demuxed_fcfh
statics seq_jgps = demux_type (codes "JGPS") 0 demuxed_jgps
statics seq_gps_cots = demux_type (codes "V8BS") 0 demuxed_cots

-- The cases of the `switch`.
pub data Route : Type 0 where
  sequenced : Channel → Route
  to_arm to_rc unknown : Route

unfoldable pub route : ℕ → Route
route port =
    if port == adis_port
    then sequenced seq_adis
    else if port == arm_port
    then to_arm
    else if port == mpu_port
    then sequenced seq_mpu
    else if port == mpl_port
    then sequenced seq_mpl
    else if port == bmp_port
    then sequenced seq_bmp
    else if port == rc_servo_enable_port
    then to_rc
    else if port == rnh_battery
    then sequenced seq_rnh
    else if port == rnh_port
    then sequenced seq_rnhport
    else if port == rnh_alarm
    then sequenced seq_rnhalarm
    else if port == NetAddrs.rnh_umbdet
    then sequenced seq_rnhumbdet
    else if port == fcf_health_port
    then sequenced seq_fcfh
    else if port == jgps_port
    then sequenced seq_jgps
    else if port == gps_cots
    then sequenced seq_gps_cots
    else unknown

-- What `readsocketfromts` gives: its result, the static buffer, the sender's port in host order and
-- the arrival time in the PSAS format.
pub record Read : Type 0 where
  pub bytes : ℤ
  pub buffer : Bytes
  pub port : ℕ
  pub timestamp : Bytes

abbrev pub Statics : Type 0
Statics = Channel → DemuxType

unfoldable pub Channel-discrete : Discrete Channel
Channel-discrete = hlevel

-- An assignment to one of the statics.
abbrev pub update : Statics → Channel → DemuxType → Statics
update s c t d = ite (Channel-discrete c d) t (s d)

unfoldable pub dispatch : Route → Read → ℕ → Statics → Statics × List Output
unfolding sequenced_receive
dispatch (sequenced c) r len s =
    let (t, outs) = sequenced_receive r.port r.buffer len r.timestamp (s c) in (update s c t, outs)
dispatch to_arm r len s = (s, demuxed_arm r.buffer len r.timestamp ∷ [])
dispatch to_rc r len s = (s, demuxed_rc r.buffer len r.timestamp ∷ [])
dispatch unknown r len s = (s, [])

-- `if(bytes > 0)`, and the `switch`.
unfoldable pub demux_bytes : ℤ → Read → Statics → Statics × List Output
unfolding dispatch route
demux_bytes (pos zero) r s = (s, [])
demux_bytes (pos (suc n)) r s = dispatch (route r.port) r (suc n) s
demux_bytes (negsuc n) r s = (s, [])

unfoldable pub demux : Read → Statics → Statics × List Output
unfolding demux_bytes
demux r s = demux_bytes r.bytes r s
