-- ===== src/System/Rolls.antt =====
-- What the roll control sends to the servo, handler by handler.
use av3_fc.Base.{ℕ, not, ◌||◌, ◌≡◌, refl, arith, length, All, All-append, Bool-cases, inl, inr, ltb}
use av3_fc.Base.Bytes.{Bytes, codes, memeq}
use av3_fc.Command.{compare_buffer_to_cmd}
use av3_fc.Double.{DoubleOps, DoubleLaws}
use av3_fc.Packet.{StateData}
use av3_fc.RollControl
use av3_fc.RollControl.{
  rc_send_servo, send_servo_response, set_canard_angle, check_timeout, control, rc_receive_state,
  rc_receive_arm, rc_raw_testrc, streq,
}
use av3_fc.Time.{from_psas_time}
use av3_fc.System.Calls.{IsRoll}

-- The messages of the outputs are as the servo and the log want them.
abbrev pub SendsRolls : RollControl.Output → Type 0
SendsRolls (rc_send_servo m) = IsRoll m
SendsRolls (send_servo_response text) = Unit {0}
SendsRolls RollControl.close = Unit {0}

module _ {D : Type 0} (F : DoubleOps D) (L : DoubleLaws F) (now : Bytes)
    (six : length now ≡ 6) where
  set_canard_angle-SendsRolls :
      (a : D) (s : RollControl.State D) → SendsRolls (set_canard_angle F now a s)
  unfolding set_canard_angle
  set_canard_angle-SendsRolls a s = record {
    id_length = refl;
    timestamp_length = six;
    size = refl;
    angle_length = L.length-bytes_of _;
    flag = ground arith;
  }

  check_timeout-SendsRolls :
      (timestamp : Bytes) (s : RollControl.State D)
      → All SendsRolls (check_timeout F now timestamp s).1
  unfolding check_timeout
  check_timeout-SendsRolls timestamp s = elim (Bool-cases (not s.launched || not s.enable_servo)) [
    | inl e ↦ rw e tt
    | inr e ↦ elim (Bool-cases (ltb s.timeout (from_psas_time timestamp))) [
      | inl late ↦ rw (e, late) (set_canard_angle-SendsRolls _ _, tt)
      | inr early ↦ rw (e, early) tt
    ]
  ]

  control-SendsRolls :
      (id : Bytes) (state : StateData D) (s : RollControl.State D)
      → All SendsRolls (control F now id state s).1
  unfolding control
  control-SendsRolls id state s = elim (Bool-cases (not s.enable_servo)) [
    | inl e ↦ rw e tt
    | inr e ↦ elim (Bool-cases (not (memeq 4 id (codes "VSTE")))) [
      | inl other ↦ rw (e, other) tt
      | inr same ↦ rw (e, same) (set_canard_angle-SendsRolls _ _, tt)
    ]
  ]

  pub rc_receive_state-SendsRolls :
      (id timestamp : Bytes) (state : StateData D) (s : RollControl.State D)
      → All SendsRolls (rc_receive_state F now id timestamp state s).1
  unfolding rc_receive_state
  rc_receive_state-SendsRolls id timestamp state s =
      All-append SendsRolls (check_timeout F now timestamp s).1 _
        (check_timeout-SendsRolls timestamp s)
        (control-SendsRolls id state (check_timeout F now timestamp s).0)

  pub rc_receive_arm-SendsRolls :
      (code : Bytes) (s : RollControl.State D) → All SendsRolls (rc_receive_arm F now code s).1
  unfolding rc_receive_arm
  rc_receive_arm-SendsRolls code s = elim (Bool-cases (streq code (codes "ARM"))) [
    | inl arm ↦ rw arm tt
    | inr other ↦ elim (Bool-cases (streq code (codes "SAFE"))) [
      | inl safe ↦ rw (other, safe) (set_canard_angle-SendsRolls _ _, tt)
      | inr neither ↦ rw (other, neither) tt
    ]
  ]

  pub rc_raw_testrc-SendsRolls :
      (buffer : Bytes) (len : ℕ) (s : RollControl.State D)
      → All SendsRolls (rc_raw_testrc F now buffer len s).1
  unfolding rc_raw_testrc
  rc_raw_testrc-SendsRolls buffer len s = elim (Bool-cases (not s.armed)) [
    | inr armed ↦ rw armed (tt, tt)
    | inl safe ↦ elim (Bool-cases (compare_buffer_to_cmd buffer (codes "ENABLE") len)) [
      | inl on ↦ rw (safe, on) (tt, tt)
      | inr other ↦ elim (Bool-cases (compare_buffer_to_cmd buffer (codes "DISABLE") len)) [
        | inl off ↦ rw (safe, other, off) (set_canard_angle-SendsRolls _ _, (tt, tt))
        | inr neither ↦ rw (safe, other, neither) (tt, tt)
      ]
    ]
  ]
