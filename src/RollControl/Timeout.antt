-- ===== src/RollControl/Timeout.antt =====
-- The two minutes after launch.
use av3_fc.Base.{
  ℕ, ◌+◌, ◌%◌, ◌^◌, ◌<◌, Bool, true, false, not, ◌&&◌, List, [], ◌∷◌, ◌≡◌, arith, All, get_or, ◌==◌,
  lt→ltb,
}
use av3_fc.Base.Bytes.{Bytes, codes, memeq}
use av3_fc.Double.{DoubleOps}
use av3_fc.Packet.{StateData}
use av3_fc.Time.{from_psas_time}
use av3_fc.RollControl.{
  State, Input, vste, signal, umbilical, test, timeout_ns, pid, control, check_timeout,
  rc_receive_state, rc_receive_arm, rc_raw_testrc, rc_raw_umb, step, run,
}

-- A message that says that the umbilical is connected.
abbrev pub is_reconnect : {D : Type 0} → Input D → Bool
is_reconnect (umbilical id timestamp contents) =
    memeq 4 id (codes "RNHU") && not (get_or contents 0 0 == 0)
is_reconnect (vste now id timestamp state) = false
is_reconnect (signal now code) = false
is_reconnect (test now buffer len) = false

module _ {D : Type 0} (F : DoubleOps D) where
  -- The rocket has launched, and the servos are to be disabled after `t`.
  abbrev pub Deadline : ℕ → State D → Type 0
  Deadline t s = (s.launched ≡ true) × (s.timeout ≡ t)

  check_timeout-Deadline :
      (t : ℕ) (now timestamp : Bytes) (s : State D)
      → Deadline t s
      → Deadline t (check_timeout F now timestamp s).0
  unfolding check_timeout
  check_timeout-Deadline t now timestamp s d = ground arith

  control-Deadline :
      (t : ℕ) (now id : Bytes) (state : StateData D) (s : State D)
      → Deadline t s
      → Deadline t (control F now id state s).0
  unfolding control pid
  control-Deadline t now id state s d = ground arith

  step-Deadline :
      (t : ℕ) (i : Input D) (s : State D)
      → is_reconnect i ≡ false
      → Deadline t s
      → Deadline t (step F i s).0
  unfolding step rc_receive_state rc_receive_arm rc_raw_testrc rc_raw_umb
  step-Deadline t (vste now id timestamp state) s h d =
      control-Deadline t now id state (check_timeout F now timestamp s).0
        (check_timeout-Deadline t now timestamp s d)
  step-Deadline t (signal now code) s h d = ground arith
  step-Deadline t (umbilical id timestamp contents) s h d = ground arith
  step-Deadline t (test now buffer len) s h d = ground arith

  run-Deadline :
      (t : ℕ) (is : List (Input D)) (s : State D)
      → All (λ i. is_reconnect i ≡ false) is
      → Deadline t s
      → Deadline t (run F is s).0
  unfolding run
  run-Deadline t [] s h d = d
  run-Deadline t (i ∷ is) s (h, hs) d =
      run-Deadline t is (step F i s).0 hs (step-Deadline t i s h d)

  -- The disconnection that counts as the launch sets the deadline.
  launch-Deadline :
      (id timestamp contents : Bytes) (s : State D)
      → s.launched ≡ false
      → memeq 4 id (codes "RNHU") ≡ true
      → get_or contents 0 0 ≡ 0
      → Deadline
          ((from_psas_time timestamp + timeout_ns) % 2 ^ 64)
          (rc_raw_umb F id timestamp contents s)
  unfolding rc_raw_umb
  launch-Deadline id timestamp contents s l i d = ground arith

  late_disables :
      (t : ℕ) (now id timestamp : Bytes) (state : StateData D) (s : State D)
      → Deadline t s
      → t < from_psas_time timestamp
      → (rc_receive_state F now id timestamp state s).0.enable_servo ≡ false
  unfolding rc_receive_state check_timeout control
  late_disables t now id timestamp state s d h =
      ground (arith, lt→ltb s.timeout (from_psas_time timestamp))

  -- If the umbilical is disconnected on a rocket that was not launched, at a time of six bytes,
  -- and is not connected again, then after any other inputs, arming and test commands included, a
  -- state message more than two minutes later than the disconnection leaves the servos disabled.
  pub disabled_after_timeout :
      (id t0 contents : Bytes) (is : List (Input D)) (now id' t1 : Bytes) (state : StateData D)
      (s : State D)
      → s.launched ≡ false
      → memeq 4 id (codes "RNHU") ≡ true
      → get_or contents 0 0 ≡ 0
      → All (λ i. is_reconnect i ≡ false) is
      → from_psas_time t0 < 2 ^ 48
      → from_psas_time t0 + 120_000_000_000 < from_psas_time t1
      → let s1 = rc_raw_umb F id t0 contents s in
        let s2 = (run F is s1).0 in (rc_receive_state F now id' t1 state s2).0.enable_servo ≡ false
  disabled_after_timeout id t0 contents is now id' t1 state s l i d hs b late =
      let t : ℕ = (from_psas_time t0 + timeout_ns) % 2 ^ 64 in
      let s1 = rc_raw_umb F id t0 contents s in
      late_disables t now id' t1 state (run F is s1).0
        (run-Deadline t is s1 hs (launch-Deadline id t0 contents s l i d)) (omega arith)
