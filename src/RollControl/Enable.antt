-- ===== src/RollControl/Enable.antt =====
-- What changes `enable_servo` of src/rollcontrol.c.
use av3_fc.Base.{
  ℕ, Bool, true, false, not, List, [], ◌∷◌, ◌≡◌, refl, arith, All, All-append, Bool-cases, inl, inr,
}
use av3_fc.Base.Bytes.{Bytes, codes}
use av3_fc.Command.{compare_buffer_to_cmd}
use av3_fc.Double.{DoubleOps}
use av3_fc.Packet.{StateData}
use av3_fc.RollControl.{
  State, Output, rc_send_servo, send_servo_response, close, Input, vste, signal, umbilical, test,
  set_canard_angle, control, check_timeout, rc_receive_state, rc_receive_arm, rc_raw_testrc,
  rc_raw_umb, step, run, streq,
}

-- An input that may enable the servos.
abbrev pub is_enabling : {D : Type 0} → Input D → Bool
is_enabling (signal now code) = streq code (codes "ARM")
is_enabling (test now buffer len) = compare_buffer_to_cmd buffer (codes "ENABLE") len
is_enabling (vste now id timestamp state) = false
is_enabling (umbilical id timestamp contents) = false

-- A message to the servos that disables them; any other output.
abbrev pub Disables : Output → Type 0
Disables (rc_send_servo m) = m.disable ≡ 1
Disables (send_servo_response text) = Unit {0}
Disables close = Unit {0}

module _ {D : Type 0} (F : DoubleOps D) where
  set_canard_angle-Disables :
      (now : Bytes) (a : D) (s : State D)
      → s.enable_servo ≡ false
      → Disables (set_canard_angle F now a s)
  unfolding set_canard_angle
  set_canard_angle-Disables now a s e = rw e

  rc_receive_state-disabled :
      (now id timestamp : Bytes) (state : StateData D) (s : State D)
      → s.enable_servo ≡ false
      → rc_receive_state F now id timestamp state s ≡ (s, [])
  unfolding rc_receive_state check_timeout control
  rc_receive_state-disabled now id timestamp state s e = ground arith

  -- Servos that are disabled stay so, and are told so, at an input that does not enable them.
  abbrev StaysDisabled : State D × List Output → Type 0
  StaysDisabled (s, outs) = (s.enable_servo ≡ false) × All Disables outs

  rc_receive_arm-disabled :
      (now code : Bytes) (s : State D)
      → s.enable_servo ≡ false
      → streq code (codes "ARM") ≡ false
      → StaysDisabled (rc_receive_arm F now code s)
  unfolding rc_receive_arm
  rc_receive_arm-disabled now code s e h = elim (Bool-cases (streq code (codes "SAFE"))) [
    | inl safe ↦ rw (h, safe) (refl, (set_canard_angle-Disables now _ _ refl, tt))
    | inr other ↦ rw (h, other) (e, tt)
  ]

  rc_raw_testrc-disabled :
      (now buffer : Bytes) (len : ℕ) (s : State D)
      → s.enable_servo ≡ false
      → compare_buffer_to_cmd buffer (codes "ENABLE") len ≡ false
      → StaysDisabled (rc_raw_testrc F now buffer len s)
  unfolding rc_raw_testrc
  rc_raw_testrc-disabled now buffer len s e h = elim (Bool-cases (not s.armed)) [
    | inr armed ↦ rw armed (e, (tt, tt))
    | inl safe ↦ elim (Bool-cases (compare_buffer_to_cmd buffer (codes "DISABLE") len)) [
      | inl off ↦ rw (safe, h, off) (refl, (set_canard_angle-Disables now _ _ refl, (tt, tt)))
      | inr other ↦ rw (safe, h, other) (e, (tt, tt))
    ]
  ]

  step-disabled :
      (i : Input D) (s : State D)
      → s.enable_servo ≡ false
      → is_enabling i ≡ false
      → StaysDisabled (step F i s)
  unfolding step
  step-disabled (vste now id timestamp state) s e h =
      rw (rc_receive_state-disabled now id timestamp state s e) (e, tt)
  step-disabled (signal now code) s e h = rc_receive_arm-disabled now code s e h
  step-disabled (umbilical id timestamp contents) s e h = unfold rc_raw_umb in (ground arith, tt)
  step-disabled (test now buffer len) s e h = rc_raw_testrc-disabled now buffer len s e h

  -- Once the servos are disabled they stay disabled until the signal to arm or a packet taken for
  -- the test command ENABLE arrives: after any other inputs they are still disabled, and every
  -- message sent to them on the way disables them.
  pub run-disabled :
      (is : List (Input D)) (s : State D)
      → s.enable_servo ≡ false
      → All (λ i. is_enabling i ≡ false) is
      → ((run F is s).0.enable_servo ≡ false) × All Disables (run F is s).1
  unfolding run
  run-disabled [] s e h = (e, tt)
  run-disabled (i ∷ is) s e (h, hs) =
      let first = step-disabled i s e h in
      let rest = run-disabled is (step F i s).0 first.0 hs in
      (rest.0, All-append Disables (step F i s).1 (run F is (step F i s).0).1 first.1 rest.1)

  -- While the rocket is armed no test command does anything but send the answer that says so.
  pub armed_ignores_tests :
      (now buffer : Bytes) (len : ℕ) (s : State D)
      → s.armed ≡ true
      → rc_raw_testrc F now buffer len s ≡ (
        s,
        send_servo_response (codes "Roll control servos state not changed due to being armed") ∷ [],
      )
  unfolding rc_raw_testrc
  armed_ignores_tests now buffer len s e = rw e
