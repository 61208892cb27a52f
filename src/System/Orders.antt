-- ===== src/System/Orders.antt =====
-- From the arming software to the servos: what each command leads to.
use av3_fc.Base.{
  ℕ, suc, Bool, true, false, ◌&&◌, not, List, [], ◌∷◌, ◌++◌, Option, none, some, ◌≡◌, refl, ap, ◌∙◌,
  arith, length, get_or, Bool-cases, inl, inr, if◌then◌else◌,
}
use av3_fc.Base.Int.{pos}
use av3_fc.Base.Bytes.{Bytes, codes}
use av3_fc.Arm.{
  arm_raw_in, arm_text, safe_text, en_slock_text, di_slock_text, sensors_allow_launch,
  send_arm_response,
}
use av3_fc.Command.{compare_buffer_to_cmd}
use av3_fc.Double.{DoubleOps, DoubleLaws}
use av3_fc.Ethmux.{demuxed_arm, Read, Statics, demux, demux_bytes, dispatch, route, to_arm}
use av3_fc.Logger.{log_receive_arm}
use av3_fc.NetAddrs.{arm_port}
use av3_fc.RollControl
use av3_fc.RollControl.{rc_send_servo, rc_receive_arm, set_armed, set_canard_angle, streq}
use av3_fc.System.{
  State, and_then, with_log, servo_sent, rc_outputs, signal_sent, arm_outputs, output, outputs,
  receive,
}
use av3_fc.System.Calls.{valid_log, log_receive_arm-LogReturns}
use av3_fc.System.Rolls.{rc_receive_arm-SendsRolls}
use av3_fc.System.Servo.{Gives, Gives-log, Moves, servo_sent-Gives}
use av3_fc.System.Handlers.{Ok}

-- The packets to the servo before and after: one more, which disables it, or the same.
abbrev pub Commanded : Bool → List Bytes → List Bytes → Type 0
Commanded true before after = (p : Bytes) × (after ≡ before ++ p ∷ []) × (get_or p 6 0 ≡ 1)
Commanded false before after = after ≡ before

-- The texts are tried in the order of the source.
abbrev pub disarms : Bytes → ℕ → Bool
disarms buffer len =
    not (compare_buffer_to_cmd buffer arm_text len) && compare_buffer_to_cmd buffer safe_text len

module _ {D : Type 0} (F : DoubleOps D) where
  -- The roll control after a command.
  abbrev pub ordered_rc : Bytes → ℕ → State D → RollControl.State D
  ordered_rc buffer len s =
      if compare_buffer_to_cmd buffer arm_text len
      then (if sensors_allow_launch s.arm
          then record s.rc { armed = true; enable_servo = true }
          else s.rc)
      else if compare_buffer_to_cmd buffer safe_text len
      then record s.rc { armed = false; enable_servo = false }
      else s.rc

  -- What a state must be to have obeyed.
  abbrev pub Obeys : RollControl.State D → Bool → List Bytes → State D → Type 0
  Obeys rc moved before t = Ok t × (t.rc ≡ rc) × Commanded moved before t.servo

module _ {D : Type 0} (F : DoubleOps D) (L : DoubleLaws F) (now : Bytes)
    (six : length now ≡ 6) where
  arm_signal :
      (s : State D)
      → Ok s
      → Gives (Obeys F (set_armed F true s.rc) false s.servo) (signal_sent F now (codes "ARM") s)
  unfolding signal_sent rc_receive_arm streq rc_outputs
  arm_signal s (b, v, w, o) =
      Gives-log F L now six (Obeys F (set_armed F true s.rc) false s.servo)
        (record s { rc = set_armed F true s.rc }) _
        (log_receive_arm-LogReturns valid_log now (codes "ARM") s.log six (omega arith) w)
        (λ l w'. ((b, v, w', o), refl, refl))

  -- The packet to the servo, and then the message in the log.
  then_logged :
      (rc : RollControl.State D) (before : List Bytes) (x : Option (State D))
      → Gives (λ t. Moves before 1 t × (t.rc ≡ rc)) x
      → Gives (Obeys F rc true before) (
          and_then
            (and_then x (rc_outputs F now []))
            (λ (t : State D). with_log F now t (log_receive_arm now now (codes "SAFE") t.log)))
  unfolding rc_outputs
  then_logged rc before none h = h
  then_logged rc before (some t) (((b, v, w, o), p), e) =
      Gives-log F L now six (Obeys F rc true before) t _
        (log_receive_arm-LogReturns valid_log now (codes "SAFE") t.log six (omega arith) w)
        (λ l w'. ((b, v, w', o), e, p))

  safe_signal :
      (s : State D)
      → Ok s
      → Gives (Obeys F (set_armed F false s.rc) true s.servo) (signal_sent F now (codes "SAFE") s)
  unfolding signal_sent rc_receive_arm streq rc_outputs set_canard_angle
  safe_signal s k =
      let s1 : State D = record s { rc = set_armed F false s.rc } in
      then_logged s1.rc s.servo (servo_sent F now _ s1) (
        servo_sent-Gives F L now six _ s1
          (rc_receive_arm-SendsRolls F L now six (codes "SAFE") s.rc).0 k)

  -- Nothing follows but the answer.
  answered :
      (P : State D → Type 0) (x : Option (State D)) (text : Bytes)
      → Gives P x
      → Gives P (
          and_then
            (and_then x (arm_outputs F now (send_arm_response text ∷ [])))
            (outputs F now []))
  unfolding arm_outputs outputs
  answered P none text h = h
  answered P (some t) text h = h

  only_answer :
      (rc : RollControl.State D) (before : List Bytes) (text : Bytes) (s : State D)
      → Obeys F rc false before s
      → Gives
          (Obeys F rc false before)
          (and_then (arm_outputs F now (send_arm_response text ∷ []) s) (outputs F now []))
  unfolding arm_outputs outputs
  only_answer rc before text s h = h

  -- The cases of `arm_raw_in`.
  command-Obeys :
      (buffer : Bytes) (len : ℕ) (ts : Bytes) (s : State D)
      → Ok s
      → Gives
          (Obeys F (ordered_rc F buffer len s) (disarms buffer len) s.servo)
          (outputs F now (demuxed_arm buffer len ts ∷ []) s)
  unfolding outputs output arm_raw_in arm_outputs
  command-Obeys buffer len ts s k = elim (Bool-cases (compare_buffer_to_cmd buffer arm_text len)) [
    | inl yolo ↦ elim (Bool-cases (sensors_allow_launch s.arm)) [
      | inl allowed ↦
          rw (yolo, allowed)
            (answered _ (signal_sent F now (codes "ARM") s) (codes "successful ARM")
              (arm_signal s k))
      | inr locked ↦
          rw (yolo, locked)
            (only_answer s.rc s.servo (codes "ARM failed due to sensor lock") s (k, refl, refl))
    ]
    | inr other ↦ elim (Bool-cases (compare_buffer_to_cmd buffer safe_text len)) [
      | inl safe ↦
          rw (other, safe)
            (answered _ (signal_sent F now (codes "SAFE") s) (codes "successful SAFE")
              (safe_signal s k))
      | inr neither ↦ elim (Bool-cases (compare_buffer_to_cmd buffer en_slock_text len)) [
        | inl on ↦
            rw (other, neither, on)
              (only_answer s.rc s.servo (codes "successful EN_SLOCK") s (k, refl, refl))
        | inr off ↦ elim (Bool-cases (compare_buffer_to_cmd buffer di_slock_text len)) [
          | inl di ↦
              rw (other, neither, off, di)
                (only_answer s.rc s.servo (codes "Sensor Lock Overridden") s (k, refl, refl))
          | inr unknown ↦
              rw (other, neither, off, unknown)
                (only_answer s.rc s.servo (codes "UNKNOWN COMMAND") s (k, refl, refl))
        ]
      ]
    ]
  ]

route_arm : (port : ℕ) → port ≡ arm_port → route port ≡ to_arm
unfolding route
route_arm port e = rw e refl

demux_bytes_arm :
    (r : Read) (s : Statics) (n : ℕ)
    → route r.port ≡ to_arm
    → demux_bytes (pos (suc n)) r s ≡ (s, demuxed_arm r.buffer (suc n) r.timestamp ∷ [])
unfolding demux_bytes dispatch
demux_bytes_arm r s n q = rw q refl

demux_arm :
    (r : Read) (s : Statics) (n : ℕ)
    → r.port ≡ arm_port
    → r.bytes ≡ pos (suc n)
    → demux r s ≡ (s, demuxed_arm r.buffer (suc n) r.timestamp ∷ [])
unfolding demux
demux_arm r s n p b = ap (λ k. demux_bytes k r s) b ∙ demux_bytes_arm r s n (route_arm r.port p)

module _ {D : Type 0} (F : DoubleOps D) (L : DoubleLaws F) where
  -- From a state in order, under the facts assumed of `double`, at a time of six bytes: any packet of
  -- at least one byte from the port of the arming software is handled without overrunning a buffer,
  -- and leaves a state in order. If it is taken for #YOLO, the roll control is armed and the servos
  -- are enabled, where the sensors allow it, and otherwise nothing about the roll control changes.
  -- If it is not taken for that, but for #SAFE, the roll control is disarmed, the servos are disabled,
  -- and exactly one packet goes to the servo board, which disables the servo. Any other packet leaves
  -- the roll control as it is. Only #SAFE sends to the servo board.
  pub receive-Obeys :
      (now : Bytes) (r : Read) (s : State D) (n : ℕ)
      → length now ≡ 6
      → r.port ≡ arm_port
      → r.bytes ≡ pos (suc n)
      → Ok s
      → Gives
          (Obeys F (ordered_rc F r.buffer (suc n) s) (disarms r.buffer (suc n)) s.servo)
          (receive F now r s)
  unfolding receive
  receive-Obeys now r s n six p b k =
      rw (demux_arm r s.statics n p b) (command-Obeys F L now six r.buffer (suc n) r.timestamp s k)
