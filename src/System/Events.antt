-- ===== src/System/Events.antt =====
-- The whole program from its init functions on, over what the event loop calls: `demux` for a packet,
-- `log_timeout` for a tick of the logger's timer, `version_callback` for an answer of the hub.
use av3_fc.Base.{ℕ, ◌≤◌, false, List, [], ◌∷◌, Option, none, some, ◌≡◌, refl, arith, length, All}
use av3_fc.Base.Int.{ℤ, pos, negsuc}
use av3_fc.Base.Bytes.{Bytes}
use av3_fc.Arm
use av3_fc.Arm.{arm_init}
use av3_fc.Double.{DoubleOps, DoubleLaws}
use av3_fc.Ethmux.{statics, demux}
use av3_fc.Ethmux.Poll.{read_packet, read_packet-IsRead}
use av3_fc.Logger
use av3_fc.Logger.{flush_log, log_timeout, log_receive_rnh_version}
use av3_fc.Logger.Start.{Opened, Outcome, unless_exited, went_on, Started, logger_init}
use av3_fc.Rnh
use av3_fc.Rnh.{call, rnh_version_out, write, version_callback, buffer_size}
use av3_fc.RollControl
use av3_fc.RollControl.{rollcontrol_init}
use av3_fc.Sockets.{ReceivedMessage, SocketConstants, eth_mtu}
use av3_fc.Sockets.Receive.{IsReceived}
use av3_fc.StateEstimate
use av3_fc.StateEstimate.{state_init}
use av3_fc.System.{State, and_then, with_log, receive}
use av3_fc.System.Calls.{LogInvariant}
use av3_fc.System.Runs.{receive-ReturnsWith}
use av3_fc.System.Handlers.{IsOk, ReturnsWith, OutputGpsFits, and_then_lem, with_log_lem}
use av3_fc.Time.{Timespec}

-- What the system calls of the init functions give.
pub record Answers : Type 0 where
  pub open_file : Bytes → Opened
  pub log_socket : ℤ
  pub log_option : ℤ
  pub log_connected : ℤ
  pub timer : ℤ
  pub arm_socket : ℤ
  pub arm_connected : ℤ
  pub rc_socket : ℤ
  pub rc_connected : ℤ

-- What the event loop waits for, with what `recvmsg` or `read` gives; `ts` is what `demux` finds in
-- its variable of that name.
pub data Event : Type 0 where
  packet : Timespec → ReceivedMessage → Event
  timer : Event
  version : ℤ → ℤ → Bytes → Event

module _ {D : Type 0} (F : DoubleOps D) where
  -- Static variables are zero.
  abbrev pub zeroed_rc : RollControl.State D
  zeroed_rc = record {
    last_error = F.of_int (pos 0);
    integrator = F.of_int (pos 0);
    sd = pos 0;
    enable_servo = false;
    armed = false;
    launched = false;
    timeout = 0;
  }

  abbrev pub zeroed_estimate : StateEstimate.State D
  zeroed_estimate = record {
    current = record {
      time = F.of_int (pos 0);
      acc_up = F.of_int (pos 0);
      vel_up = F.of_int (pos 0);
      altitude = F.of_int (pos 0);
      roll_rate = F.of_int (pos 0);
      roll_angle = F.of_int (pos 0);
    };
    last_time = 0;
    has_launched = false;
    launch_time = 0;
  }

  -- The state after the init functions.
  abbrev pub booted : Answers → Logger.State → State D
  booted a log = record {
    statics = statics;
    buf = [];
    arm = (arm_init a.arm_socket a.arm_connected Arm.zeroed).0;
    estimate = state_init F zeroed_estimate;
    rc = (rollcontrol_init F a.rc_socket a.rc_connected zeroed_rc).0;
    seq = 0;
    servo = [];
    log = log;
  }

  -- The init functions. Only the logger's may call `exit`.
  unfoldable pub boot : Answers → Outcome (State D)
  unfolding logger_init
  boot a =
      unless_exited
        (logger_init a.open_file a.log_socket a.log_option a.log_connected a.timer Logger.initial)
        (λ (started : Started). went_on (booted a started.log))

module _ {D : Type 0} (F : DoubleOps D) (k : SocketConstants) (starttime : Timespec) where
  -- RNH.rnh_version_out
  unfoldable pub version_sent : Bytes → List Rnh.Output → State D → Option (State D)
  version_sent now [] s = some s
  version_sent now (call c ∷ os) s = version_sent now os s
  version_sent now (write fd text ∷ os) s = version_sent now os s
  version_sent now (rnh_version_out buffer len ∷ os) s =
      and_then (with_log F now s (log_receive_rnh_version now now buffer len s.log))
        (version_sent now os)

  -- One event, at the time `now`.
  unfoldable pub handle_event : Bytes → Event → State D → Option (State D)
  unfolding version_sent
  handle_event now (packet ts m) s = receive F now (read_packet k starttime ts m) s
  handle_event now timer s = some (record s { log = log_timeout now s.log })
  handle_event now (version fd read buffer) s = version_sent now (version_callback fd read buffer) s

  -- The events, one after the other, each with its time.
  unfoldable pub run : List (Bytes × Event) → State D → Option (State D)
  unfolding handle_event
  run [] s = some s
  run ((now, e) ∷ es) s = and_then (handle_event now e s) (run es)

  -- What is asked of an event: what the manuals say of `recvmsg` and `read`, and of a packet from the
  -- GPS that it is small and completes no frame of length 0.
  abbrev pub EventFits : Event → State D → Type 0
  EventFits (packet ts m) s =
      IsReceived eth_mtu m
      × All (OutputGpsFits s.buf) (demux (read_packet k starttime ts m) s.statics).1
  EventFits timer s = Unit {0}
  EventFits (version fd read buffer) s =
      (buffer_size ≤ length buffer) × ((n : ℕ) → read ≡ pos n → n ≤ buffer_size)

  -- Of the state that some step gives, if it does.
  abbrev pub Then : Option (State D) → (State D → Type 0) → Type 0
  Then none P = Unit {0}
  Then (some s) P = P s

  -- The same of all events, each at the state in which it is handled, with times of six bytes.
  unfoldable pub AllFit : List (Bytes × Event) → State D → Type 0
  AllFit [] s = Unit {0}
  AllFit ((now, e) ∷ es) s =
      (length now ≡ 6) × EventFits e s × Then (handle_event now e s) (AllFit es)

  version_sent-Returns :
      (I : LogInvariant) (L : DoubleLaws F) (now : Bytes) (fd read : ℤ) (buffer : Bytes)
      (s : State D)
      → length now ≡ 6
      → EventFits (version fd read buffer) s
      → IsOk I s
      → ReturnsWith I (version_sent now (version_callback fd read buffer) s)
  unfolding version_sent version_callback log_receive_rnh_version
  version_sent-Returns I L now fd (negsuc n) buffer s six h o = o
  version_sent-Returns I L now fd (pos n) buffer s six (h, le) (b, v, w, o) =
      and_then_lem I _ _
        (with_log_lem I F L now six s _ (b, v, w, o)
          (I.write now _ s.log six
            (record {
              id_length = refl;
              timestamp_length = six;
              in_memory = omega (arith, h, le n refl);
            })
            (omega (arith, le n refl)) w))
        (λ t j. j)

  pub handle_event-Returns :
      (I : LogInvariant) (L : DoubleLaws F) (now : Bytes) (e : Event) (s : State D)
      → length now ≡ 6
      → EventFits e s
      → IsOk I s
      → ReturnsWith I (handle_event now e s)
  unfolding handle_event
  handle_event-Returns I L now (packet ts m) s six (r, g) o =
      let (i, t) = read_packet-IsRead k starttime ts m r in
      receive-ReturnsWith I F L now six (read_packet k starttime ts m) s i t g o
  handle_event-Returns I L now timer s six h (b, v, w, o) = (b, v, I.flush now s.log six w, o)
  handle_event-Returns I L now (version fd read buffer) s six h o =
      version_sent-Returns I L now fd read buffer s six h o

  next_step :
      (I : LogInvariant) (now : Bytes) (es : List (Bytes × Event)) (x : Option (State D))
      → ReturnsWith I x
      → Then x (AllFit es)
      → ((s : State D) → AllFit es s → IsOk I s → ReturnsWith I (run es s))
      → ReturnsWith I (and_then x (run es))
  next_step I now es none r h f = r
  next_step I now es (some s) r h f = f s h r

  pub run-Returns :
      (I : LogInvariant) (L : DoubleLaws F) (es : List (Bytes × Event)) (s : State D)
      → AllFit es s
      → IsOk I s
      → ReturnsWith I (run es s)
  unfolding run AllFit
  run-Returns I L [] s h o = o
  run-Returns I L ((now, e) ∷ es) s (six, fit, rest) o =
      next_step I now es (handle_event now e s) (handle_event-Returns I L now e s six fit o) rest
        (λ t. run-Returns I L es t)
