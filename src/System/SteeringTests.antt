-- ===== src/System/SteeringTests.antt =====
-- Runs of the whole program in which packets steer the arming module and the roll control, with whole
-- numbers for `double`.
use av3_fc.Base.Int.{ℤ, pos}
use av3_fc.Base.{List, [], ◌∷◌, ◌≡◌, Option, none, some, refl, true, false, arith, All, length}
use av3_fc.Base.Bytes.{Bytes, codes, memeq}
use av3_fc.Arm.{arm_raw_in, arm_init}
use av3_fc.Arm.Lock.{after}
use av3_fc.Command.{compare_buffer_to_cmd, strncmp_eq}
use av3_fc.Double.Whole.{whole}
use av3_fc.Ethmux.{
  Channel-discrete, statics, demux, demux_bytes, dispatch, route, sequenced_receive,
  is_expected_length,
}
use av3_fc.Ethmux.Poll.{read_packet}
use av3_fc.Logger.{
  log_receive_arm, log_receive_rc, log_write, log_write_disk_only, ensure_net_log_space,
  ensure_disk_log_space,
}
use av3_fc.NetAddrs.{adis_port, rnh_umbdet, rc_servo_enable_port}
use av3_fc.RollControl.{
  rc_receive_arm, rc_receive_state, rc_raw_umb, check_timeout, control, streq, rollcontrol_init,
  rc_raw_testrc, test, vste,
}
use av3_fc.RollServo.{rs_receive_adj}
use av3_fc.Sockets.{readsocketfromts, ReceivedMessage, count}
use av3_fc.StateEstimate.{state_receive_imu, is_strong, state_init}
use av3_fc.System.{
  arm_outputs, signal_sent, State, receive, output, outputs, handle, log_message, imu_received,
  rc_outputs,
}
use av3_fc.System.Armament.{silence, lock_allows, boot-run-Hears, boot-run-Armament}
use av3_fc.System.Causes.{SetBy}
use av3_fc.System.EventTests.{
  answers, order, ready, boots, constants, orders, ordered, orders_end, ordered_armed,
}
use av3_fc.System.Events.{Event, zeroed_estimate, packet, handle_event, run}
use av3_fc.System.Gates.{armed_gate}
use av3_fc.System.Heard.{hear}
use av3_fc.System.Inputs.{put_events}
use av3_fc.System.Served.{served, IsOff}
use av3_fc.RollControl.Enable.{is_enabling}
use av3_fc.System.Steering.{
  boot-run-IsOff, bridge_of, rc_of, TimesOut, boot-run-Steers, boot-run-TimesOut,
}
use av3_fc.System.Tests.{zeros, now}
use av3_fc.Time.{at, from_psas_time, to_psas_time}
use av3_fc.RollControl

-- The events that switch the lock off and arm the rocket.
boot-run-Hears_example :
    ordered.arm ≡ after whole (pos 6) (pos 0) (hear constants (at 5 0) orders silence).inputs
boot-run-Hears_example =
    boot-run-Hears whole constants (at 5 0) answers orders ready ordered boots orders_end

boot-run-Armament_example :
    (c : SetBy whole (armed_gate whole) constants (at 5 0) orders ready) × (lock_allows whole
        (hear constants (at 5 0) c.before silence).inputs
      ≡ true)
boot-run-Armament_example =
    boot-run-Armament whole constants (at 5 0) answers orders ready ordered boots orders_end
      ordered_armed

boot-run-Steers_example :
    (ordered.rc, (ordered.seq, ordered.servo))
    ≡ served whole
        (put_events whole constants (at 5 0) orders (bridge_of whole answers)).inputs
        (rc_of whole answers)
        (0, [])
boot-run-Steers_example =
    boot-run-Steers whole constants (at 5 0) answers orders ready ordered boots orders_end

abbrev or_ready : Option (State ℤ) → State ℤ
or_ready none = ready
or_ready (some s) = s

-- A packet that disarms.
abbrev safing : List (Bytes × Event)
safing = order (codes "#SAFE") ∷ []

abbrev safed : State ℤ
safed = or_ready (run whole constants (at 5 0) safing ready)

safing_end : run whole constants (at 5 0) safing ready ≡ some safed
unfolding run handle_event receive read_packet readsocketfromts demux dispatch route outputs output
    arm_raw_in arm_outputs signal_sent rc_receive_arm rc_outputs compare_buffer_to_cmd strncmp_eq
    streq log_receive_arm log_write log_write_disk_only ensure_net_log_space ensure_disk_log_space
    arm_init RollControl.set_canard_angle log_receive_rc
safing_end = refl

-- It leads to one packet for the servo board.
one_packet : length safed.servo ≡ 1
unfolding run handle_event receive read_packet readsocketfromts demux dispatch route outputs output
    arm_raw_in arm_outputs signal_sent rc_receive_arm rc_outputs compare_buffer_to_cmd strncmp_eq
    streq log_receive_arm log_write log_write_disk_only ensure_net_log_space ensure_disk_log_space
    arm_init RollControl.set_canard_angle log_receive_rc rs_receive_adj
one_packet = refl

safing_quiet :
    All
      (λ i. is_enabling i ≡ false)
      (put_events whole constants (at 5 0) safing (bridge_of whole answers)).inputs
unfolding put_events read_packet readsocketfromts demux demux_bytes dispatch route arm_raw_in
    compare_buffer_to_cmd strncmp_eq streq
safing_quiet = (refl, tt)

boot-run-IsOff_example : (safed.rc.enable_servo ≡ false) × All IsOff safed.servo
boot-run-IsOff_example =
    boot-run-IsOff whole constants (at 5 0) answers safing ready safed boots safing_end safing_quiet

-- The servos are enabled for a test, the umbilical is disconnected two seconds after the start, and a sample comes at 195 seconds.
abbrev disconnection : ReceivedMessage
disconnection = record { rc = count 5; buffer = zeros 1500; port = rnh_umbdet; control = [] }

abbrev sample : ReceivedMessage
sample = record { rc = count 28; buffer = zeros 1500; port = adis_port; control = [] }

abbrev enabling : ReceivedMessage
enabling = record {
  rc = count 6;
  buffer = codes "ENABLE";
  port = rc_servo_enable_port;
  control = [];
}

abbrev flight : List (Bytes × Event)
flight =
    (now, packet (at 6 0) enabling)
    ∷ (now, packet (at 7 0) disconnection)
    ∷ (now, packet (at 200 0) sample)
    ∷ []

abbrev landed : State ℤ
landed = or_ready (run whole constants (at 5 0) flight ready)

flight_end : run whole constants (at 5 0) flight ready ≡ some landed
unfolding run handle_event receive read_packet readsocketfromts demux demux_bytes dispatch route
    sequenced_receive is_expected_length statics outputs output handle log_message log_write
    log_write_disk_only ensure_net_log_space ensure_disk_log_space imu_received state_receive_imu
    is_strong rc_receive_state check_timeout control rc_outputs rc_raw_umb Channel-discrete
    to_psas_time rollcontrol_init rc_raw_testrc compare_buffer_to_cmd strncmp_eq from_psas_time
    RollControl.set_canard_angle log_receive_rc
flight_end = refl

flight-TimesOut :
    TimesOut whole
      (rc_of whole answers)
      (put_events whole constants (at 5 0) flight (bridge_of whole answers)).inputs
unfolding put_events read_packet readsocketfromts demux demux_bytes dispatch route sequenced_receive
    is_expected_length statics state_receive_imu is_strong state_init rollcontrol_init
    RollControl.run memeq Channel-discrete to_psas_time from_psas_time rc_raw_testrc
    compare_buffer_to_cmd strncmp_eq RollControl.step
flight-TimesOut = record {
  before = test now (codes "ENABLE") 6 ∷ [];
  id = codes "RNHU";
  t0 = to_psas_time (at 5 0) (at 7 0);
  contents = zeros 1496;
  between = [];
  now = now;
  id' = codes "VSTE";
  t1 = to_psas_time (at 5 0) (at 200 0);
  state = (state_init whole (zeroed_estimate whole)).current;
  later = [];
  split = refl;
  not_launched = refl;
  from_hub = refl;
  disconnects = refl;
  stays_off = tt;
  six_bytes = omega arith;
  late = omega arith;
  not_enabled = tt;
}

boot-run-TimesOut_example : landed.rc.enable_servo ≡ false
boot-run-TimesOut_example =
    boot-run-TimesOut whole constants (at 5 0) answers flight ready landed boots flight_end
      flight-TimesOut
