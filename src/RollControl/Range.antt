-- ===== src/RollControl/Range.antt =====
-- Bounds: the canard angle, the integrator, and the flag that disables the servos.
use av3_fc.Base.Int.{pos, negsuc}
use av3_fc.Base.{
  ℕ, Bool, false, not, List, ◌≡◌, refl, arith, if◌then◌else◌, All, All-append, Bool-cases, inl, inr,
  ltb, ◌||◌,
}
use av3_fc.Base.Bytes.{Bytes, codes, memeq}
use av3_fc.Double.{DoubleOps, DoubleLaws}
use av3_fc.Packet.{StateData}
use av3_fc.Command.{compare_buffer_to_cmd}
use av3_fc.Time.{from_psas_time}
use av3_fc.RollControl.{
  State, Output, rc_send_servo, send_servo_response, close, Input, vste, signal, umbilical, test,
  clamp, set_canard_angle, min_canard_angle, max_canard_angle, integrator_min, integrator_max, pid,
  control, check_timeout, rc_receive_state, rc_receive_arm, rc_raw_testrc, rc_raw_umb, step, streq,
}

module _ {D : Type 0} (F : DoubleOps D) (L : DoubleLaws F) where
  open F use {lt, bytes_of, of_int, lit, div}

  -- Neither below the one nor above the other.
  abbrev pub Within : D → D → D → Type 0
  Within lower upper a = (lt a lower ≡ false) × (lt upper a ≡ false)

  clamp-Within :
      (lower upper a : D) → lt upper lower ≡ false → Within lower upper (clamp F a lower upper)
  unfolding clamp
  clamp-Within lower upper a h = ground (arith, L.lt_irrefl lower, L.lt_irrefl upper)

  -- A message to the servos has an angle between -15 and 15 degrees, and disables them exactly if
  -- they are not enabled.
  abbrev pub IsSafe : Bool → Output → Type 0
  IsSafe enabled (rc_send_servo m) =
      (a : D) × (m.angle ≡ bytes_of a)
      × Within (min_canard_angle F) (max_canard_angle F) a
      × (m.disable ≡ (if enabled then 0 else 1))
  IsSafe enabled (send_servo_response text) = Unit {0}
  IsSafe enabled close = Unit {0}

  -- What a handler sends agrees with the state that it leaves.
  abbrev pub SendsSafely : State D × List Output → Type 0
  SendsSafely (s, outs) = All (IsSafe s.enable_servo) outs

  set_canard_angle-IsSafe :
      (now : Bytes) (a : D) (s : State D) → IsSafe s.enable_servo (set_canard_angle F now a s)
  unfolding set_canard_angle
  set_canard_angle-IsSafe now a s = (
    clamp F a (min_canard_angle F) (max_canard_angle F),
    refl,
    clamp-Within (min_canard_angle F) (max_canard_angle F) a
        (L.lt_of_int (pos 15) (negsuc 14) (omega arith) (omega arith)),
    refl,
  )

  check_timeout_safe :
      (now timestamp : Bytes) (s : State D) → SendsSafely (check_timeout F now timestamp s)
  unfolding check_timeout
  check_timeout_safe now timestamp s = elim (Bool-cases (not s.launched || not s.enable_servo)) [
    | inl e ↦ rw e tt
    | inr e ↦ elim (Bool-cases (ltb s.timeout (from_psas_time timestamp))) [
      | inl late ↦
          rw (e, late) (set_canard_angle-IsSafe now _ (record s { enable_servo = false }), tt)
      | inr early ↦ rw (e, early) tt
    ]
  ]

  control_safe :
      (now id : Bytes) (state : StateData D) (s : State D) → SendsSafely (control F now id state s)
  unfolding control
  control_safe now id state s = elim (Bool-cases (not s.enable_servo)) [
    | inl e ↦ rw e tt
    | inr e ↦ elim (Bool-cases (not (memeq 4 id (codes "VSTE")))) [
      | inl other ↦ rw (e, other) tt
      | inr same ↦ rw (e, same) (set_canard_angle-IsSafe now _ _, tt)
    ]
  ]

  enable_servo-control :
      (now id : Bytes) (state : StateData D) (s : State D)
      → (control F now id state s).0.enable_servo ≡ s.enable_servo
  unfolding control pid
  enable_servo-control now id state s = ground arith

  rc_receive_state_safe :
      (now id timestamp : Bytes) (state : StateData D) (s : State D)
      → SendsSafely (rc_receive_state F now id timestamp state s)
  unfolding rc_receive_state
  rc_receive_state_safe now id timestamp state s =
      let r = check_timeout F now timestamp s in
      All-append (IsSafe _) r.1 (control F now id state r.0).1
        (rw (enable_servo-control now id state r.0) (check_timeout_safe now timestamp s))
        (control_safe now id state r.0)

  rc_receive_arm_safe : (now code : Bytes) (s : State D) → SendsSafely (rc_receive_arm F now code s)
  unfolding rc_receive_arm
  rc_receive_arm_safe now code s = elim (Bool-cases (streq code (codes "ARM"))) [
    | inl arm ↦ rw arm tt
    | inr other ↦ elim (Bool-cases (streq code (codes "SAFE"))) [
      | inl safe ↦ rw (other, safe) (set_canard_angle-IsSafe now _ _, tt)
      | inr neither ↦ rw (other, neither) tt
    ]
  ]

  rc_raw_testrc_safe :
      (now buffer : Bytes) (len : ℕ) (s : State D) → SendsSafely (rc_raw_testrc F now buffer len s)
  unfolding rc_raw_testrc
  rc_raw_testrc_safe now buffer len s = elim (Bool-cases (not s.armed)) [
    | inr armed ↦ rw armed (tt, tt)
    | inl safe ↦ elim (Bool-cases (compare_buffer_to_cmd buffer (codes "ENABLE") len)) [
      | inl on ↦ rw (safe, on) (tt, tt)
      | inr other ↦ elim (Bool-cases (compare_buffer_to_cmd buffer (codes "DISABLE") len)) [
        | inl off ↦ rw (safe, other, off) (set_canard_angle-IsSafe now _ _, (tt, tt))
        | inr neither ↦ rw (safe, other, neither) (tt, tt)
      ]
    ]
  ]

  -- Under the facts assumed of `double`: whatever the module receives, in any state, every
  -- message to the servos has an angle that is neither below -15 nor above 15 degrees, and
  -- disables the servos exactly if the state in which the handler returns has them disabled.
  pub step_safe : (i : Input D) (s : State D) → SendsSafely (step F i s)
  unfolding step
  step_safe (vste now id timestamp state) s = rc_receive_state_safe now id timestamp state s
  step_safe (signal now code) s = rc_receive_arm_safe now code s
  step_safe (umbilical id timestamp contents) s = tt
  step_safe (test now buffer len) s = rc_raw_testrc_safe now buffer len s

  -- The integrator is between its bounds.
  abbrev pub IsBounded : State D → Type 0
  IsBounded s = Within (integrator_min F) (integrator_max F) s.integrator

  integrator_bounds : lt (integrator_max F) (integrator_min F) ≡ false
  integrator_bounds =
      L.div_mono (of_int (pos 100)) (of_int (negsuc 99)) (lit 1 2) (L.lit_pos 0 2 (omega arith))
        (L.lt_of_int (pos 100) (negsuc 99) (omega arith) (omega arith))

  pid-IsBounded : (roll_rate : D) (s : State D) → IsBounded (pid F roll_rate s).1
  unfolding pid
  pid-IsBounded roll_rate s =
      ground
        (arith, L.lt_irrefl (integrator_max F), L.lt_irrefl (integrator_min F), integrator_bounds)

  -- Under the facts assumed of `double`: whatever the module receives, an integrator between its
  -- bounds stays between them.
  pub step-IsBounded : (i : Input D) (s : State D) → IsBounded s → IsBounded (step F i s).0
  unfolding step rc_receive_state check_timeout control rc_receive_arm rc_raw_testrc rc_raw_umb
  step-IsBounded (vste now id timestamp state) s b =
      ground (arith, pid-IsBounded state.roll_rate (check_timeout F now timestamp s).0)
  step-IsBounded (signal now code) s b = ground arith
  step-IsBounded (umbilical id timestamp contents) s b = ground arith
  step-IsBounded (test now buffer len) s b = ground arith
