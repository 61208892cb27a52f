-- ===== src/System/EventTests.antt =====
-- Runs of the whole program from its init functions on, with whole numbers for `double`.
use av3_fc.Base.Int.{ℤ, pos}
use av3_fc.Base.{List, [], ◌∷◌, ◌≡◌, Option, none, some, refl, true, length, if◌then◌else◌}
use av3_fc.Base.Bytes.{Bytes, codes}
use av3_fc.Double.Whole.{whole, whole-laws}
use av3_fc.Arm.{arm_raw_in, arm_init}
use av3_fc.Command.{compare_buffer_to_cmd, strncmp_eq}
use av3_fc.Ethmux.{Read, statics, demux, dispatch, route}
use av3_fc.Ethmux.Poll.{read_packet}
use av3_fc.Logger
use av3_fc.Logger.{
  log_receive_arm, log_write, log_write_disk_only, ensure_net_log_space, ensure_disk_log_space,
}
use av3_fc.RollControl.{rc_receive_arm, streq}
use av3_fc.Logger.Start.{descriptor, went_on, open_logfile, try_names, open_socket, logger_init}
use av3_fc.NetAddrs.{arm_port}
use av3_fc.Sockets.{readsocketfromts, SocketConstants, count}
use av3_fc.System.{State, receive, output, outputs, arm_outputs, signal_sent, rc_outputs}
use av3_fc.System.Causes.{SetBy}
use av3_fc.System.Gates.{enabled_gate, boot-run-EnabledBy}
use av3_fc.System.Events.{Answers, Event, packet, booted, boot, run, handle_event}
use av3_fc.System.Live.{is_late, receive-Sends}
use av3_fc.System.Servo.{Gives, Sends}
use av3_fc.System.Orders.{Obeys, ordered_rc, disarms, receive-Obeys}
use av3_fc.System.Tests.{imu_packet, imu_packet-IsRead, started, started-Ok, now}
use av3_fc.Time.{at}

-- All system calls succeed.
abbrev pub answers : Answers
answers = record {
  open_file = λ name. descriptor 3;
  log_socket = pos 4;
  log_option = pos 0;
  log_connected = pos 0;
  timer = pos 5;
  arm_socket = pos 6;
  arm_connected = pos 0;
  rc_socket = pos 7;
  rc_connected = pos 0;
}

abbrev pub ready : State ℤ
ready = booted whole answers Logger.initial

pub boots : boot whole answers ≡ went_on ready
unfolding boot logger_init open_logfile try_names open_socket
boots = refl

abbrev pub constants : SocketConstants
constants = record { sol_socket = 1; so_timestampns = 35 }

-- The servos are enabled, and the rocket is on the pad.
abbrev enabled : State ℤ
enabled = record started { rc = record started.rc { enable_servo = true; armed = true } }

receive-Sends_example :
    Sends enabled.servo
      (if is_late imu_packet.timestamp enabled.rc then 1 else 0)
      (receive whole now imu_packet enabled)
unfolding statics
receive-Sends_example =
    receive-Sends whole whole-laws now imu_packet enabled refl imu_packet-IsRead refl refl refl refl
      refl (started-Ok.0, started-Ok.1, started-Ok.2, started-Ok.3)

-- A command in a packet from the arming software.
abbrev pub order : Bytes → Bytes × Event
order text = (
  now,
  packet (at 7 0)
      (record { rc = count (length text); buffer = text; port = arm_port; control = [] }),
)

abbrev pub orders : List (Bytes × Event)
orders = order (codes "DI_SLOCK") ∷ order (codes "#YOLO") ∷ []

abbrev or_ready : Option (State ℤ) → State ℤ
or_ready none = ready
or_ready (some s) = s

abbrev pub ordered : State ℤ
ordered = or_ready (run whole constants (at 5 0) orders ready)

pub orders_end : run whole constants (at 5 0) orders ready ≡ some ordered
unfolding run handle_event receive read_packet readsocketfromts demux dispatch route outputs output
    arm_raw_in arm_outputs signal_sent rc_receive_arm rc_outputs compare_buffer_to_cmd strncmp_eq
    streq log_receive_arm log_write log_write_disk_only ensure_net_log_space ensure_disk_log_space
    arm_init
orders_end = refl

pub ordered_armed : ordered.rc.armed ≡ true
unfolding run handle_event receive read_packet readsocketfromts demux dispatch route outputs output
    arm_raw_in arm_outputs signal_sent rc_receive_arm rc_outputs compare_buffer_to_cmd strncmp_eq
    streq log_receive_arm log_write log_write_disk_only ensure_net_log_space ensure_disk_log_space
    arm_init
ordered_armed = refl

ordered_enabled : ordered.rc.enable_servo ≡ true
unfolding run handle_event receive read_packet readsocketfromts demux dispatch route outputs output
    arm_raw_in arm_outputs signal_sent rc_receive_arm rc_outputs compare_buffer_to_cmd strncmp_eq
    streq log_receive_arm log_write log_write_disk_only ensure_net_log_space ensure_disk_log_space
    arm_init
ordered_enabled = refl

boot-run-EnabledBy_example : SetBy whole (enabled_gate whole) constants (at 5 0) orders ready
boot-run-EnabledBy_example =
    boot-run-EnabledBy whole constants (at 5 0) answers orders ready ordered boots orders_end
      ordered_enabled

-- The text is longer than the command.
abbrev safe_packet : Read
safe_packet = record { bytes = pos 7; buffer = codes "#SAFELY"; port = arm_port; timestamp = now }

receive-Obeys_example :
    Gives
      (Obeys whole (ordered_rc whole (codes "#SAFELY") 7 enabled) (disarms (codes "#SAFELY") 7) [])
      (receive whole now safe_packet enabled)
receive-Obeys_example =
    receive-Obeys whole whole-laws now safe_packet enabled 6 refl refl refl
      (started-Ok.0, started-Ok.1, started-Ok.2, started-Ok.3)
