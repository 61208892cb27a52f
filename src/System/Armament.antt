-- ===== src/System/Armament.antt =====
-- What was heard before the rocket is armed, over the whole program.
use av3_fc.Base.{
  Bool, true, not, ◌&&◌, ◌||◌, List, [], ◌∷◌, some, ◌≡◌, refl, sym, ap, ◌∙◌, arith, leb,
}
use av3_fc.Base.Int.{ℤ}
use av3_fc.Base.Bytes.{Bytes}
use mathlib.Core.Path.{subst}
use av3_fc.Arm.{sensors_allow_launch}
use av3_fc.Arm.Lock.{Input, after, fix_after, lock_after, streak, after-Reflects, hundred}
use av3_fc.Double.{DoubleOps}
use av3_fc.Ethmux.{statics}
use av3_fc.Ethmux.Poll.{read_packet}
use av3_fc.Logger
use av3_fc.Logger.Start.{went_on}
use av3_fc.Logger.{log_receive_rnh_version}
use av3_fc.Rnh.{version_callback}
use av3_fc.Sockets.{SocketConstants}
use av3_fc.System.{State}
use av3_fc.System.Boot.{boot-booted}
use av3_fc.System.Causes.{SetBy, EventSets}
use av3_fc.System.Events.{Answers, Event, packet, timer, version, booted, boot, handle_event, run}
use av3_fc.System.Frame.{When, and_then-When, version_sent-When, when_some}
use av3_fc.System.Gates.{armed_gate, boot-run-ArmedBy}
use av3_fc.System.Heard.{Ear, hear_event, hear}
use av3_fc.System.Hears.{Hears, Hears-Framed, receive-Hears}
use av3_fc.Time.{Timespec}

-- Before the first event.
abbrev pub silence : Ear
silence = record { statics = statics; buf = []; inputs = [] }

-- The sensor lock lets the rocket be armed after a history, the newest input first: it was switched
-- off last, or the newest V8A8 message has a 3D fix and the last 100 IMU samples are upright.
abbrev pub lock_allows : {D : Type 0} → DoubleOps D → List Input → Bool
lock_allows F h = fix_after h && leb 100 (streak F h) || not (lock_after h)

module _ {D : Type 0} (F : DoubleOps D) (k : SocketConstants) (starttime : Timespec)
    (socket connected : ℤ) where
  pub handle_event-Hears :
      (now : Bytes) (event : Event) (e : Ear) (s : State D)
      → Hears F socket connected e s
      → When
          (Hears F socket connected (hear_event k starttime event e))
          (handle_event F k starttime now event s)
  unfolding handle_event
  handle_event-Hears now (packet ts m) e s h =
      receive-Hears F socket connected now (read_packet k starttime ts m) e s h
  handle_event-Hears now timer e s h = (Hears-Framed F socket connected e).logs s _ h
  handle_event-Hears now (version fd read buffer) e s h =
      version_sent-When F k starttime (Hears F socket connected e)
        (Hears-Framed F socket connected e) now (version_callback fd read buffer) s h

  run-Hears :
      (es : List (Bytes × Event)) (e : Ear) (s : State D)
      → Hears F socket connected e s
      → When (Hears F socket connected (hear k starttime es e)) (run F k starttime es s)
  unfolding run hear
  run-Hears [] e s h = h
  run-Hears ((now, event) ∷ es) e s h =
      and_then-When (Hears F socket connected (hear_event k starttime event e))
        (Hears F socket connected (hear k starttime es (hear_event k starttime event e)))
        (handle_event F k starttime now event s) (run F k starttime es)
        (handle_event-Hears now event e s h) (run-Hears es (hear_event k starttime event e))

  allow_after :
      (h : List Input) → sensors_allow_launch (after F socket connected h) ≡ lock_allows F h
  allow_after h =
      let r = after-Reflects F socket connected h in
      rw (r.lock, r.fix, r.count, hundred F (streak F h))

second_of : (a b : Bool) → (a && b) ≡ true → b ≡ true
second_of a b h = ground (arith, h)

module _ {D : Type 0} (F : DoubleOps D) (k : SocketConstants) (starttime : Timespec) where
  pub booted-Hears :
      (a : Answers) (log : Logger.State)
      → Hears F a.arm_socket a.arm_connected silence (booted F a log)
  unfolding after
  booted-Hears a log = record { same_statics = refl; same_buf = refl; same_arm = refl }

  pub boot-run-heard :
      (a : Answers) (es : List (Bytes × Event)) (s t : State D)
      → boot F a ≡ went_on s
      → run F k starttime es s ≡ some t
      → Hears F a.arm_socket a.arm_connected (hear k starttime es silence) t
  boot-run-heard a es s t b r =
      let P = Hears F a.arm_socket a.arm_connected in
      let start : P silence s =
        subst (P silence) (boot-booted F a s b) (booted-Hears a Logger.initial) in
      when_some (P (hear k starttime es silence)) (run F k starttime es s) t r
        (run-Hears F k starttime a.arm_socket a.arm_connected es silence s start)

  -- Whatever the system calls of the init functions give, and whatever events are handled after them,
  -- as long as the program goes on: the state of the arming module is that which it has on its own
  -- after the samples of the IMU, the GPS messages and the commands that the packets hold for it.
  pub boot-run-Hears :
      (a : Answers) (es : List (Bytes × Event)) (s t : State D)
      → boot F a ≡ went_on s
      → run F k starttime es s ≡ some t
      → t.arm ≡ after F a.arm_socket a.arm_connected (hear k starttime es silence).inputs
  boot-run-Hears a es s t b r = (boot-run-heard a es s t b r).same_arm

  sensors_allowed :
      (a : Answers) (event : Event) (es : List (Bytes × Event)) (s t : State D)
      → boot F a ≡ went_on s
      → run F k starttime es s ≡ some t
      → EventSets F (armed_gate F) k starttime event t
      → lock_allows F (hear k starttime es silence).inputs ≡ true
  sensors_allowed a (packet ts m) es s t b r (n, bytes, port, y) =
      sym (allow_after F k starttime a.arm_socket a.arm_connected _)
      ∙ ap sensors_allow_launch (sym (boot-run-Hears a es s t b r))
      ∙ second_of _ _ y
  sensors_allowed a timer es s t b r h = absurd h
  sensors_allowed a (version fd read buffer) es s t b r h = absurd h

  -- Whatever the system calls of the init functions give, and whatever events are handled after
  -- them: if the roll control is armed in the end, then one of the events was a packet of at least
  -- one byte from the port of the arming software that was taken for #YOLO, the roll control has been
  -- armed ever since, and in what the packets before that one held for the arming module the sensor
  -- lock was switched off last, or the newest V8A8 message had a 3D fix and at least the last 100
  -- samples of the IMU were upright.
  pub boot-run-Armament :
      (a : Answers) (es : List (Bytes × Event)) (s t : State D)
      → boot F a ≡ went_on s
      → run F k starttime es s ≡ some t
      → t.rc.armed ≡ true
      → (c : SetBy F (armed_gate F) k starttime es s) × (lock_allows F
            (hear k starttime c.before silence).inputs
          ≡ true)
  boot-run-Armament a es s t b r on =
      let c = boot-run-ArmedBy F k starttime a es s t b r on in
      (c, sensors_allowed a c.event c.before s c.here b c.reached c.sets)
