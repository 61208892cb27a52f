-- ===== src/System/Gates.antt =====
-- The variables `armed` and `enable_servo` of src/rollcontrol.c, over the whole program.
use av3_fc.Base.{
  ℕ, suc, Bool, true, false, List, ◌≡◌, refl, sym, ◌∙◌, arith, ◌⊎◌, inl, inr, Bool-cases, some,
}
use av3_fc.Base.Bytes.{Bytes, codes}
use av3_fc.Command.{compare_buffer_to_cmd}
use av3_fc.Double.{DoubleOps}
use av3_fc.Logger
use av3_fc.Logger.Start.{went_on}
use av3_fc.Packet.{StateData}
use av3_fc.RollControl
use av3_fc.RollControl.{
  rollcontrol_init, check_timeout, control, rc_receive_state, rc_receive_arm, rc_raw_testrc,
  rc_raw_umb, streq, pid,
}
use av3_fc.Sockets.{SocketConstants}
use av3_fc.System.{State}
use av3_fc.System.Arming.{ReadArms, ReadEnables}
use av3_fc.System.Causes.{Gate, SetBy, boot-SetBy}
use av3_fc.System.Events.{Answers, Event, booted, boot, run}
use av3_fc.Time.{Timespec}

pub on_and_off : {A : Type 0} (b : Bool) → b ≡ true → b ≡ false → A
on_and_off b h k = absurd (cc (h, k))

module _ {D : Type 0} (F : DoubleOps D) where
  pub rc_receive_state-armed :
      (now id timestamp : Bytes) (state : StateData D) (s : RollControl.State D)
      → (rc_receive_state F now id timestamp state s).0.armed ≡ s.armed
  unfolding rc_receive_state check_timeout control pid
  rc_receive_state-armed now id timestamp state s = ground arith

  -- An estimate may disable the servos, after the timeout, but not enable them.
  pub rc_receive_state-enabled :
      (now id timestamp : Bytes) (state : StateData D) (s : RollControl.State D)
      → (rc_receive_state F now id timestamp state s).0.enable_servo ≡ true
      → s.enable_servo ≡ true
  unfolding rc_receive_state check_timeout control pid
  rc_receive_state-enabled now id timestamp state s h = ground arith

  pub rc_raw_umb-switches :
      (id timestamp contents : Bytes) (s : RollControl.State D)
      → ((rc_raw_umb F id timestamp contents s).armed ≡ s.armed)
        × ((rc_raw_umb F id timestamp contents s).enable_servo ≡ s.enable_servo)
  unfolding rc_raw_umb
  rc_raw_umb-switches id timestamp contents s = ground arith

  pub rc_raw_testrc-armed :
      (now buffer : Bytes) (len : ℕ) (s : RollControl.State D)
      → (rc_raw_testrc F now buffer len s).0.armed ≡ s.armed
  unfolding rc_raw_testrc
  rc_raw_testrc-armed now buffer len s = ground arith

  pub rc_raw_testrc-enabled :
      (now buffer : Bytes) (len : ℕ) (s : RollControl.State D)
      → (rc_raw_testrc F now buffer len s).0.enable_servo ≡ true
      → (s.enable_servo ≡ true)
        ⊎ ((s.armed ≡ false) × (compare_buffer_to_cmd buffer (codes "ENABLE") len ≡ true))
  unfolding rc_raw_testrc
  rc_raw_testrc-enabled now buffer len s h = elim (Bool-cases s.enable_servo) [
    | inl on ↦ inl on
    | inr off ↦ inr (ground (arith, h, off), ground (arith, h, off))
  ]

  pub rc_receive_arm-safe :
      (now code : Bytes) (s : RollControl.State D)
      → code ≡ codes "SAFE"
      → ((rc_receive_arm F now code s).0.armed ≡ false)
        × ((rc_receive_arm F now code s).0.enable_servo ≡ false)
  unfolding rc_receive_arm streq
  rc_receive_arm-safe now code s e = rw e (refl, refl)

  pub booted-off :
      (a : Answers)
      → ((booted F a Logger.initial).rc.armed ≡ false)
        × ((booted F a Logger.initial).rc.enable_servo ≡ false)
  unfolding rollcontrol_init
  booted-off a = ground arith

  abbrev pub armed_gate : Gate F
  armed_gate = record {
    is_on = λ rc. rc.armed;
    Sets = ReadArms;
    invariant = λ A. record {
      estimates = λ now id ts state s h e. h (sym (rc_receive_state-armed now id ts state s) ∙ e);
      umbilical = λ id ts contents s h e. h (sym (rc_raw_umb-switches id ts contents s).0 ∙ e);
      disarming = λ now code s c h e. on_and_off _ e (rc_receive_arm-safe now code s c).0;
    };
    by_arming = λ r s n b p y. (n, b, p, y);
    by_testing = λ now r s n b p e. inl (sym (rc_raw_testrc-armed now r.buffer (suc n) s.rc) ∙ e);
    off_at_start = λ a. (booted-off a).0;
  }

  abbrev pub enabled_gate : Gate F
  enabled_gate = record {
    is_on = λ rc. rc.enable_servo;
    Sets = ReadEnables;
    invariant = λ A. record {
      estimates = λ now id ts state s h e. h (rc_receive_state-enabled now id ts state s e);
      umbilical = λ id ts contents s h e. h (sym (rc_raw_umb-switches id ts contents s).1 ∙ e);
      disarming = λ now code s c h e. on_and_off _ e (rc_receive_arm-safe now code s c).1;
    };
    by_arming = λ r s n b p y. inl (n, b, p, y);
    by_testing = λ now r s n b p e. elim (rc_raw_testrc-enabled now r.buffer (suc n) s.rc e) [
      | inl before ↦ inl before
      | inr (armed, text) ↦ inr (inr (n, b, p, armed, text))
    ];
    off_at_start = λ a. (booted-off a).1;
  }

  module _ (k : SocketConstants) (starttime : Timespec) where
    -- Whatever the system calls of the init functions give, and whatever events are handled after
    -- them: if the roll control is armed in the end, then at some time a packet of at least one byte
    -- arrived from the port of the arming software that was taken for #YOLO, while the state allowed
    -- to arm, and the roll control has been armed ever since.
    pub boot-run-ArmedBy :
        (a : Answers) (es : List (Bytes × Event)) (s t : State D)
        → boot F a ≡ went_on s
        → run F k starttime es s ≡ some t
        → t.rc.armed ≡ true
        → SetBy F armed_gate k starttime es s
    boot-run-ArmedBy = boot-SetBy F armed_gate k starttime

    -- Whatever the system calls of the init functions give, and whatever events are handled after
    -- them: if the servos are enabled in the end, then at some time a packet of at least one byte
    -- arrived either from the port of the arming software and was taken for #YOLO, while the state
    -- allowed to arm, or from the port for tests of the servos and was taken for ENABLE, while the
    -- roll control was not armed, and the servos have been enabled ever since.
    pub boot-run-EnabledBy :
        (a : Answers) (es : List (Bytes × Event)) (s t : State D)
        → boot F a ≡ went_on s
        → run F k starttime es s ≡ some t
        → t.rc.enable_servo ≡ true
        → SetBy F enabled_gate k starttime es s
    boot-run-EnabledBy = boot-SetBy F enabled_gate k starttime
