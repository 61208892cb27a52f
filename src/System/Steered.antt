-- ===== src/System/Steered.antt =====
-- The state of the roll control in a run of the whole program.
use mathlib.Core.Path.{subst}
use av3_fc.Base.{List, [], ◌∷◌, ◌++◌, ◌≡◌, refl, ap, sym, ◌∙◌}
use av3_fc.Base.Bytes.{Bytes}
use av3_fc.Arm
use av3_fc.Arm.{arm_receive_imu, arm_receive_gps, arm_raw_in, arm_send_signal, send_arm_response}
use av3_fc.Double.{DoubleOps}
use av3_fc.Logger.{log_receive_arm}
use av3_fc.Message.{Message, RollMessage}
use av3_fc.RollControl
use av3_fc.RollControl.{
  Input, rc_send_servo, send_servo_response, vste, signal, umbilical, test, rc_receive_state,
  rc_receive_arm, rc_raw_umb, rc_raw_testrc, step, run,
}
use av3_fc.StateEstimate.{state_receive_imu}
use av3_fc.System.{State, with_log, servo_sent, rc_outputs, signal_sent, arm_outputs, imu_received}
use av3_fc.System.Served.{Wire, serve_one, serve, served, served-cons, served-append}
use av3_fc.RollServo.{rs_receive_adj, packets}
use av3_fc.System.Frame.{When, Framed, and_then-When, with_log-When}
use av3_fc.System.Inputs.{Bridge, put_input, put_sample, put_signals}

module _ {D : Type 0} (F : DoubleOps D) where
  -- The modules before the roll control are those of the bridge, and the roll control and what was sent
  -- to the servo board are given.
  pub record Tracks (b : Bridge D) (out : RollControl.State D × Wire) (s : State D) : Type 0 where
    pub same_statics : s.statics ≡ b.statics
    pub same_buf : s.buf ≡ b.buf
    pub same_arm : s.arm ≡ b.arm
    pub same_estimate : s.estimate ≡ b.estimate
    pub steered : (s.rc, (s.seq, s.servo)) ≡ out

  Tracks-Framed : (b : Bridge D) (out : RollControl.State D × Wire) → Framed (Tracks b out)
  Tracks-Framed b out = record {
    logs = λ s l h. record {
      same_statics = h.same_statics;
      same_buf = h.same_buf;
      same_arm = h.same_arm;
      same_estimate = h.same_estimate;
      steered = h.steered;
    };
  }

  module _ (start : RollControl.State D) (wire : Wire) where
    -- They are those after the inputs.
    abbrev pub Steers : Bridge D → State D → Type 0
    Steers b = Tracks b (served F b.inputs start wire)

    pub Steers-Framed : (b : Bridge D) → Framed (Steers b)
    Steers-Framed b = Tracks-Framed b (served F b.inputs start wire)

    pub Steers-input :
        (i : Input D) (b : Bridge D) (s : State D)
        → Steers b s
        → ((step F i s.rc).0, serve F (step F i s.rc).1 (s.seq, s.servo))
          ≡ served F (b.inputs ++ i ∷ []) start wire
    unfolding run
    Steers-input i b s h =
        sym (served-cons F i [] s.rc (s.seq, s.servo))
        ∙ ap (λ (o : RollControl.State D × Wire). served F (i ∷ []) o.0 o.1) h.steered
        ∙ sym (served-append F b.inputs (i ∷ []) start wire)

    module _ (now : Bytes) where
      servo_sent-Tracks :
          (m : RollMessage) (b : Bridge D) (out : RollControl.State D × Wire) (s : State D)
          → Tracks b out s
          → When (Tracks b (out.0, serve_one F m out.1)) (servo_sent F now m s)
      unfolding servo_sent
      servo_sent-Tracks m b out s h =
          let (q, outs) = rs_receive_adj F m s.seq in
          with_log-When F now _ (Tracks-Framed b (out.0, serve_one F m out.1))
            (record s { seq = q; servo = s.servo ++ packets outs }) _
            (record {
              same_statics = h.same_statics;
              same_buf = h.same_buf;
              same_arm = h.same_arm;
              same_estimate = h.same_estimate;
              steered = ap (λ o. (o.0, serve_one F m o.1)) h.steered;
            })

      rc_outputs-Tracks :
          (os : List RollControl.Output) (b : Bridge D) (out : RollControl.State D × Wire)
          (s : State D)
          → Tracks b out s
          → When (Tracks b (out.0, serve F os out.1)) (rc_outputs F now os s)
      unfolding rc_outputs
      rc_outputs-Tracks [] b out s h = h
      rc_outputs-Tracks (rc_send_servo m ∷ os) b out s h =
          let out' : RollControl.State D × Wire = (out.0, serve_one F m out.1) in
          and_then-When (Tracks b out') (Tracks b (out.0, serve F os out'.1)) (servo_sent F now m s)
            (rc_outputs F now os) (servo_sent-Tracks m b out s h) (rc_outputs-Tracks os b out')
      rc_outputs-Tracks (send_servo_response text ∷ os) b out s h = rc_outputs-Tracks os b out s h
      rc_outputs-Tracks (RollControl.close ∷ os) b out s h = rc_outputs-Tracks os b out s h

      -- One more input.
      pub input-Steers :
          (i : Input D) (b : Bridge D) (s : State D)
          → Steers b s
          → When
              (Steers (put_input F i b))
              (rc_outputs F now (step F i s.rc).1 (record s { rc = (step F i s.rc).0 }))
      unfolding run
      input-Steers i b s h =
          let b' = put_input F i b in
          let (rc', outs) = step F i s.rc in
          subst (λ o. When (Tracks b' o) (rc_outputs F now outs (record s { rc = rc' })))
            (Steers-input i b s h)
            (rc_outputs-Tracks outs b' (rc', (s.seq, s.servo)) (record s { rc = rc' })
              (record {
                same_statics = h.same_statics;
                same_buf = h.same_buf;
                same_arm = h.same_arm;
                same_estimate = h.same_estimate;
                steered = refl;
              }))

      pub sample-Steers :
          (m : Message) (b : Bridge D) (s : State D)
          → Steers b s
          → When
              (Steers (put_sample F now m b))
              (imu_received F now m (record s { arm = arm_receive_imu F m s.arm }))
      unfolding imu_received step
      sample-Steers m b s h = rw (← h.same_estimate) (
          let (est, out) = state_receive_imu F m s.estimate in
          input-Steers (vste now out.id out.timestamp out.state)
            (record b { arm = arm_receive_imu F m b.arm; estimate = est })
            (record s { arm = arm_receive_imu F m s.arm; estimate = est })
            (record {
              same_statics = h.same_statics;
              same_buf = h.same_buf;
              same_arm = ap (arm_receive_imu F m) h.same_arm;
              same_estimate = refl;
              steered = h.steered;
            }))

      signal_sent-Steers :
          (code : Bytes) (b : Bridge D) (s : State D)
          → Steers b s
          → When (Steers (put_input F (signal now code) b)) (signal_sent F now code s)
      unfolding signal_sent step
      signal_sent-Steers code b s h =
          let b' = put_input F (signal now code) b in
          let (rc', outs) = rc_receive_arm F now code s.rc in
          and_then-When (Steers b') (Steers b') (rc_outputs F now outs (record s { rc = rc' }))
            (λ (t : State D). with_log F now t (log_receive_arm now now code t.log))
            (input-Steers (signal now code) b s h)
            (λ t g. with_log-When F now (Steers b') (Steers-Framed b') t _ g)

      pub arm_outputs-Steers :
          (os : List Arm.Output) (b : Bridge D) (s : State D)
          → Steers b s
          → When (Steers (put_signals F now os b)) (arm_outputs F now os s)
      unfolding arm_outputs
      arm_outputs-Steers [] b s h = h
      arm_outputs-Steers (arm_send_signal code ∷ os) b s h =
          let b' = put_input F (signal now code) b in
          and_then-When (Steers b') (Steers (put_signals F now os b')) (signal_sent F now code s)
            (arm_outputs F now os) (signal_sent-Steers code b s h) (arm_outputs-Steers os b')
      arm_outputs-Steers (send_arm_response text ∷ os) b s h = arm_outputs-Steers os b s h
      arm_outputs-Steers (Arm.close ∷ os) b s h = arm_outputs-Steers os b s h
