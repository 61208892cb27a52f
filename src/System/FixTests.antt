-- ===== src/System/FixTests.antt =====
-- Runs of the whole program with frames of the GPS that are cut into packets, with whole numbers for
-- `double`.
use av3_fc.Base.Int.{ℤ}
use av3_fc.Base.{
  ℕ, ◌+◌, length, List, [], ◌∷◌, ◌++◌, ◌≡◌, Option, none, some, refl, true, false, arith, All,
  concat, map,
}
use av3_fc.Base.Bytes.{Bytes, be32, memeq}
use av3_fc.Double.Whole.{whole, whole-laws}
use av3_fc.Ethmux.{
  Channel-discrete, statics, demux, demux_bytes, dispatch, route, sequenced_receive,
  is_expected_length,
}
use av3_fc.Ethmux.Poll.{read_packet}
use av3_fc.Gps.{
  cots_raw_in, send_venus_messages, venus_loop, round, found, memchr_a0, at_a0, chexxor,
  chexxor_from,
}
use av3_fc.Gps.Stream.{IsChunk, payload}
use av3_fc.Arm.{arm_receive_gps}
use av3_fc.Filter.{filter_receive}
use av3_fc.Logger.{log_write, log_write_disk_only, ensure_disk_log_space, ensure_net_log_space}
use av3_fc.NetAddrs.{gps_cots}
use av3_fc.Sockets.{readsocketfromts, ReceivedMessage, count}
use av3_fc.System.{State, receive, output, outputs, handle, gps_sent, filtered}
use av3_fc.System.EventTests.{answers, ready, boots, constants}
use av3_fc.System.Events.{Event, packet, handle_event, run}
use av3_fc.System.Fixes.{gps_packets, last_fix}
use av3_fc.Gps.Frames.{Packet, frame_of}
use av3_fc.System.FrameLock.{lock_after, boot-run-lock_after}
use av3_fc.System.FixRuns.{boot-run-last_fix}
use av3_fc.Logger.{logger_final}
use av3_fc.Logger.History.{ReadBack}
use av3_fc.Sockets.{eth_mtu}
use av3_fc.Sockets.Receive.{IsReceived}
use av3_fc.System.Handlers.{Returns}
use av3_fc.System.KeptTests.{pressure, pressure-IsReceived}
use av3_fc.System.Measured.{measured}
use av3_fc.System.Servo.{Gives}
use av3_fc.System.Streamed.{HasFrame}
use av3_fc.System.StreamedRuns.{IsEvent, scanned, streamed-Returns, streamed-ReadBack}
use av3_fc.System.Tests.{now, zeros, length-zeros}
use av3_fc.Time.{at, to_psas_time}

-- A packet from the GPS with a number and some data, in a buffer of 1,500 bytes.
abbrev gps_packet : ℕ → Bytes → ℕ → ReceivedMessage
gps_packet n bytes space = record {
  rc = count (4 + length bytes);
  buffer = be32 n ++ (bytes ++ zeros space);
  port = gps_cots;
  control = [];
}

abbrev first_half : ReceivedMessage
first_half = gps_packet 0 (0xA0 ∷ 0xA1 ∷ 0 ∷ 2 ∷ []) 1492

abbrev second_half : ReceivedMessage
second_half = gps_packet 1 (0xA8 ∷ 2 ∷ 0xAA ∷ b'\r' ∷ b'\n' ∷ []) 1491

first_half-IsReceived : IsReceived eth_mtu first_half
first_half-IsReceived = record {
  size_lem = omega (arith, length-zeros 1492);
  in_buffer = λ n e. ground arith;
}

second_half-IsReceived : IsReceived eth_mtu second_half
second_half-IsReceived = record {
  size_lem = omega (arith, length-zeros 1491);
  in_buffer = λ n e. ground arith;
}

-- A V8A8 frame whose one byte of data is 2, a 3D fix, and a pressure between its two halves.
abbrev events : List (Bytes × Event)
events =
    (now, packet (at 7 0) first_half)
    ∷ (now, packet (at 7 0) pressure)
    ∷ (now, packet (at 8 0) second_half)
    ∷ []

events-IsEvent : All IsEvent events
events-IsEvent = (
  (refl, first_half-IsReceived),
  ((refl, pressure-IsReceived), ((refl, second_half-IsReceived), tt)),
)

abbrev or_ready : Option (State ℤ) → State ℤ
or_ready none = ready
or_ready (some s) = s

abbrev located : State ℤ
located = or_ready (run whole constants (at 5 0) events ready)

events_end : run whole constants (at 5 0) events ready ≡ some located
unfolding run handle_event receive read_packet readsocketfromts demux demux_bytes dispatch route
    sequenced_receive is_expected_length statics Channel-discrete outputs output handle cots_raw_in
    send_venus_messages venus_loop round found memchr_a0 at_a0 chexxor gps_sent filtered
    filter_receive log_write log_write_disk_only ensure_disk_log_space ensure_net_log_space
    to_psas_time
events_end = refl

located_lem : located.arm.gps_locked ≡ true
unfolding run handle_event receive read_packet readsocketfromts demux demux_bytes dispatch route
    sequenced_receive is_expected_length statics Channel-discrete outputs output handle cots_raw_in
    send_venus_messages venus_loop round found memchr_a0 at_a0 chexxor gps_sent filtered
    arm_receive_gps memeq filter_receive log_write log_write_disk_only ensure_disk_log_space
    ensure_net_log_space to_psas_time
located_lem = refl

chunks : All IsChunk (gps_packets constants (at 5 0) events statics)
unfolding gps_packets read_packet readsocketfromts demux demux_bytes dispatch route
    sequenced_receive is_expected_length statics Channel-discrete
chunks = (
  record { small = omega arith; whole = omega arith },
  (record { small = omega arith; whole = omega arith }, tt),
)

boot-run-last_fix_example :
    let scan =
      send_venus_messages []
        (concat (map payload (gps_packets constants (at 5 0) events statics))) in
    (located.buf ≡ scan.1) × (located.arm.gps_locked ≡ last_fix scan.0 false)
boot-run-last_fix_example =
    boot-run-last_fix whole constants (at 5 0) answers events ready located boots events_end chunks

whole_frames : All HasFrame (scanned whole constants (at 5 0) events)
unfolding gps_packets read_packet readsocketfromts demux demux_bytes dispatch route
    sequenced_receive is_expected_length statics Channel-discrete send_venus_messages venus_loop
    round found memchr_a0 at_a0 chexxor
whole_frames = (λ e. absurd (omega arith), tt)

streamed-Returns_example : Returns (run whole constants (at 5 0) events ready)
streamed-Returns_example =
    streamed-Returns whole constants (at 5 0) whole-laws answers events ready boots events-IsEvent
      chunks whole_frames

streamed-ReadBack_example :
    Gives
      (λ u. ReadBack (measured constants (at 5 0) events statics) (logger_final now u.log))
      (run whole constants (at 5 0) events ready)
streamed-ReadBack_example =
    streamed-ReadBack whole constants (at 5 0) whole-laws answers events now ready boots
      events-IsEvent chunks whole_frames refl

-- A navigation frame with a 2D fix and one without data, in two packets.
abbrev navigation : List Packet
navigation =
    record { packet_id = 0xA8; contents = 1 ∷ [] } ∷ record { packet_id = 0xA8; contents = [] } ∷ []

abbrev with_start : ReceivedMessage
with_start =
    gps_packet 0 (0xA0 ∷ 0xA1 ∷ 0 ∷ 2 ∷ 0xA8 ∷ 1 ∷ 0xA9 ∷ b'\r' ∷ b'\n' ∷ 0xA0 ∷ 0xA1 ∷ 0 ∷ 1 ∷ [])
      1483

abbrev with_end : ReceivedMessage
with_end = gps_packet 1 (0xA8 ∷ 0xA8 ∷ b'\r' ∷ b'\n' ∷ []) 1492

with_start-IsReceived : IsReceived eth_mtu with_start
with_start-IsReceived = record {
  size_lem = omega (arith, length-zeros 1483);
  in_buffer = λ n e. ground arith;
}

with_end-IsReceived : IsReceived eth_mtu with_end
with_end-IsReceived = record {
  size_lem = omega (arith, length-zeros 1492);
  in_buffer = λ n e. ground arith;
}

abbrev bare_events : List (Bytes × Event)
bare_events = (now, packet (at 7 0) with_start) ∷ (now, packet (at 8 0) with_end) ∷ []

bare_chunks : All IsChunk (gps_packets constants (at 5 0) bare_events statics)
unfolding gps_packets read_packet readsocketfromts demux demux_bytes dispatch route
    sequenced_receive is_expected_length statics Channel-discrete
bare_chunks = (
  record { small = omega arith; whole = omega arith },
  (record { small = omega arith; whole = omega arith }, tt),
)

bare_frames :
    concat (map payload (gps_packets constants (at 5 0) bare_events statics))
    ≡ concat (map frame_of navigation)
unfolding gps_packets read_packet readsocketfromts demux demux_bytes dispatch route
    sequenced_receive is_expected_length statics Channel-discrete chexxor chexxor_from
bare_frames = refl

-- The frame without data locks the GPS after a frame that does not.
bare_lock : lock_after navigation false ≡ true
bare_lock = refl

boot-run-lock_after_example :
    Gives
      (λ t. (t.buf ≡ []) × (t.arm.gps_locked ≡ lock_after navigation false))
      (run whole constants (at 5 0) bare_events ready)
boot-run-lock_after_example =
    boot-run-lock_after whole constants (at 5 0) whole-laws answers bare_events navigation ready
      boots ((refl, with_start-IsReceived), ((refl, with_end-IsReceived), tt)) bare_chunks
      (omega arith, (omega arith, tt)) bare_frames
