-- ===== src/System/Steering.antt =====
-- The roll control over runs of the whole program from its init functions on.
use mathlib.Core.Path.{subst}
use av3_fc.Base.{
  ◌+◌, ◌^◌, ◌<◌, false, true, List, [], ◌∷◌, ◌++◌, some, ◌≡◌, refl, ap, ◌∙◌, arith, sym, All,
  get_or,
}
use av3_fc.Base.Bytes.{Bytes, codes, memeq}
use av3_fc.Arm
use av3_fc.Arm.{arm_init}
use av3_fc.Double.{DoubleOps}
use av3_fc.Ethmux.{statics}
use av3_fc.Ethmux.Poll.{read_packet}
use av3_fc.Logger
use av3_fc.Logger.Start.{went_on}
use av3_fc.Packet.{StateData}
use av3_fc.Rnh.{version_callback}
use av3_fc.RollControl
use av3_fc.RollControl.{
  Input, vste, umbilical, rollcontrol_init, rc_raw_umb, rc_receive_state, step,
}
use av3_fc.RollControl.Enable.{is_enabling, run-disabled}
use av3_fc.RollControl.Timeout.{is_reconnect, disabled_after_timeout}
use av3_fc.Sockets.{SocketConstants}
use av3_fc.StateEstimate.{state_init}
use av3_fc.System.{State}
use av3_fc.System.Boot.{boot-booted}
use av3_fc.System.Events.{
  Answers, Event, packet, timer, version, booted, boot, handle_event, run, zeroed_rc,
  zeroed_estimate,
}
use av3_fc.System.Frame.{When, when_some, and_then-When, version_sent-When}
use av3_fc.System.Inputs.{Bridge, put_event, put_events}
use av3_fc.System.Steered.{Steers, Steers-Framed}
use av3_fc.System.SteeredCalls.{receive-Steers}
use av3_fc.System.Served.{Wire, served, run-append, IsOff, served-IsOff}
use av3_fc.Time.{Timespec, from_psas_time}

module _ {D : Type 0} (F : DoubleOps D) where
  -- The modules before the roll control after the init functions.
  abbrev pub bridge_of : Answers → Bridge D
  bridge_of a = record {
    statics = statics;
    buf = [];
    arm = (arm_init a.arm_socket a.arm_connected Arm.zeroed).0;
    estimate = state_init F (zeroed_estimate F);
    inputs = [];
  }

  -- The roll control after them.
  abbrev pub rc_of : Answers → RollControl.State D
  rc_of a = (rollcontrol_init F a.rc_socket a.rc_connected (zeroed_rc F)).0

module _ {D : Type 0} (F : DoubleOps D) (k : SocketConstants) (starttime : Timespec)
    (start : RollControl.State D) (wire : Wire) where
  handle_event-Steers :
      (now : Bytes) (event : Event) (b : Bridge D) (s : State D)
      → Steers F start wire b s
      → When
          (Steers F start wire (put_event F k starttime now event b))
          (handle_event F k starttime now event s)
  unfolding handle_event
  handle_event-Steers now (packet ts m) b s h =
      receive-Steers F start wire now (read_packet k starttime ts m) b s h
  handle_event-Steers now timer b s h = (Steers-Framed F start wire b).logs s _ h
  handle_event-Steers now (version fd read buffer) b s h =
      version_sent-When F k starttime (Steers F start wire b) (Steers-Framed F start wire b) now
        (version_callback fd read buffer) s h

  run-Steers :
      (es : List (Bytes × Event)) (b : Bridge D) (s : State D)
      → Steers F start wire b s
      → When (Steers F start wire (put_events F k starttime es b)) (run F k starttime es s)
  unfolding run put_events
  run-Steers [] b s h = h
  run-Steers ((now, event) ∷ es) b s h =
      let b' = put_event F k starttime now event b in
      and_then-When (Steers F start wire b') (Steers F start wire (put_events F k starttime es b'))
        (handle_event F k starttime now event s) (run F k starttime es)
        (handle_event-Steers now event b s h) (run-Steers es b')

-- A disconnection of the umbilical from a rocket that was not launched, after some inputs of the roll
-- control, then inputs none of which says that it is connected again, an estimate more than two minutes
-- later, and inputs none of which may enable the servos.
pub record TimesOut {D : Type 0} (F : DoubleOps D) (start : RollControl.State D)
    (is : List (Input D)) : Type 0 where
  pub before : List (Input D)
  pub id : Bytes
  pub t0 : Bytes
  pub contents : Bytes
  pub between : List (Input D)
  pub now : Bytes
  pub id' : Bytes
  pub t1 : Bytes
  pub state : StateData D
  pub later : List (Input D)
  pub split : is ≡ before ++ (umbilical id t0 contents ∷ (between ++ vste now id' t1 state ∷ later))
  pub not_launched : (RollControl.run F before start).0.launched ≡ false
  pub from_hub : memeq 4 id (codes "RNHU") ≡ true
  pub disconnects : get_or contents 0 0 ≡ 0
  pub stays_off : All (λ i. is_reconnect i ≡ false) between
  pub six_bytes : from_psas_time t0 < 2 ^ 48
  pub late : from_psas_time t0 + 120_000_000_000 < from_psas_time t1
  pub not_enabled : All (λ i. is_enabling i ≡ false) later

run-TimesOut :
    {D : Type 0} (F : DoubleOps D) (start : RollControl.State D) (is : List (Input D))
    → TimesOut F start is
    → (RollControl.run F is start).0.enable_servo ≡ false
unfolding RollControl.run step
run-TimesOut {D = D} F start is o =
    let s = (RollControl.run F o.before start).0 in
    let off =
      disabled_after_timeout F o.id o.t0 o.contents o.between o.now o.id' o.t1 o.state s
        o.not_launched o.from_hub o.disconnects o.stays_off o.six_bytes o.late in
    let estimate = vste o.now o.id' o.t1 o.state in
    let s1 = rc_raw_umb F o.id o.t0 o.contents s in
    let s2 = (RollControl.run F o.between s1).0 in
    let s3 = (rc_receive_state F o.now o.id' o.t1 o.state s2).0 in
    let rest : List (Input D) = estimate ∷ o.later in
    let split1 : (RollControl.run F is start).0
        ≡ (RollControl.run F (umbilical o.id o.t0 o.contents ∷ (o.between ++ rest)) s).0 =
      ap (λ x. (RollControl.run F x start).0) o.split
      ∙ run-append F o.before (umbilical o.id o.t0 o.contents ∷ (o.between ++ rest)) start in
    let split2 : (RollControl.run F (o.between ++ rest) s1).0 ≡ (RollControl.run F rest s2).0 =
      run-append F o.between rest s1 in
    let e : (RollControl.run F is start).0 ≡ (RollControl.run F o.later s3).0 = split1 ∙ split2 in
    ap (λ (rc : RollControl.State D). rc.enable_servo) e
    ∙ (run-disabled F o.later s3 off o.not_enabled).0

module _ {D : Type 0} (F : DoubleOps D) (k : SocketConstants) (starttime : Timespec) where
  booted-Steers :
      (a : Answers) (log : Logger.State)
      → Steers F (rc_of F a) (0, []) (bridge_of F a) (booted F a log)
  unfolding RollControl.run
  booted-Steers a log = record {
    same_statics = refl;
    same_buf = refl;
    same_arm = refl;
    same_estimate = refl;
    steered = refl;
  }

  -- Whatever the system calls of the init functions give, and whatever events are handled after them,
  -- as long as the program goes on: the state of the roll control and what was sent to the servo board,
  -- with the number of the next packet, are those which the roll control and `rs_receive_adj` have and
  -- send on their own for the estimates, signals, messages of the umbilical and test commands that the
  -- modules before them make of the packets.
  pub boot-run-Steers :
      (a : Answers) (es : List (Bytes × Event)) (s t : State D)
      → boot F a ≡ went_on s
      → run F k starttime es s ≡ some t
      → (t.rc, (t.seq, t.servo))
        ≡ served F (put_events F k starttime es (bridge_of F a)).inputs (rc_of F a) (0, [])
  boot-run-Steers a es s t b r =
      let start : Steers F (rc_of F a) (0, []) (bridge_of F a) s =
        subst (Steers F (rc_of F a) (0, []) (bridge_of F a)) (boot-booted F a s b)
          (booted-Steers a Logger.initial) in
      (when_some (Steers F (rc_of F a) (0, []) (put_events F k starttime es (bridge_of F a)))
        (run F k starttime es s) t r
        (run-Steers F k starttime (rc_of F a) (0, []) es (bridge_of F a) s start)).steered

  -- Whatever the system calls of the init functions give, and whatever events are handled after them,
  -- as long as the program goes on: if what the packets give to the roll control holds a disconnection
  -- of the umbilical before a launch, at a time of six bytes, then no message that it is connected
  -- again, then an estimate more than two minutes later, and after it neither a signal to arm nor a
  -- packet taken for the test command ENABLE, the servos are disabled in the end.
  pub boot-run-TimesOut :
      (a : Answers) (es : List (Bytes × Event)) (s t : State D)
      → boot F a ≡ went_on s
      → run F k starttime es s ≡ some t
      → TimesOut F (rc_of F a) (put_events F k starttime es (bridge_of F a)).inputs
      → t.rc.enable_servo ≡ false
  boot-run-TimesOut a es s t b r o =
      ap (λ (o : RollControl.State D × Wire). o.0.enable_servo) (boot-run-Steers a es s t b r)
      ∙ run-TimesOut F (rc_of F a) (put_events F k starttime es (bridge_of F a)).inputs o

  rc_of-disabled : (a : Answers) → (rc_of F a).enable_servo ≡ false
  unfolding rollcontrol_init
  rc_of-disabled a = ground arith

  -- Whatever the system calls of the init functions give, and whatever events are handled after them,
  -- as long as the program goes on: if what the packets give to the roll control holds neither a signal
  -- to arm nor a packet taken for the test command ENABLE, the servos are disabled in the end, and every
  -- packet that was sent to the servo board disables the servo.
  pub boot-run-IsOff :
      (a : Answers) (es : List (Bytes × Event)) (s t : State D)
      → boot F a ≡ went_on s
      → run F k starttime es s ≡ some t
      → All (λ i. is_enabling i ≡ false) (put_events F k starttime es (bridge_of F a)).inputs
      → (t.rc.enable_servo ≡ false) × All IsOff t.servo
  boot-run-IsOff a es s t b r h =
      subst (λ (o : RollControl.State D × Wire). (o.0.enable_servo ≡ false) × All IsOff o.1.1)
        (sym (boot-run-Steers a es s t b r))
        (served-IsOff F (put_events F k starttime es (bridge_of F a)).inputs (rc_of F a) (0, [])
          (rc_of-disabled a) h tt)
