-- ===== src/System/Hears.antt =====
-- The state of the arming module in a run of the whole program.
use av3_fc.Base.{List, [], ◌∷◌, Option, none, some, ◌≡◌, refl, ap}
use av3_fc.Base.Int.{ℤ}
use av3_fc.Base.Bytes.{Bytes}
use av3_fc.Arm.{arm_raw_in, arm_receive_imu, arm_receive_gps}
use av3_fc.Arm.Lock.{imu, gps, command, after, step}
use av3_fc.Double.{DoubleOps}
use av3_fc.Ethmux
use av3_fc.Ethmux.{
  demuxed_adis, demuxed_mpu, demuxed_mpl, demuxed_bmp, demuxed_rnh, demuxed_rnhumb, demuxed_fcfh,
  demuxed_jgps, demuxed_cots, handled, sequenced_error, demuxed_arm, demuxed_rc, Read, demux,
  Statics,
}
use av3_fc.Filter.{filter_receive}
use av3_fc.Gps.{cots_raw_in}
use av3_fc.Message.{Message}
use av3_fc.RollControl.{rc_raw_testrc, rc_raw_umb}
use av3_fc.System.{
  State, and_then, gps_sent, handle, output, filtered, log_message, imu_received, outputs, receive,
}
use av3_fc.System.Frame.{
  When, Framed, Unserved, Uncontrolled, and_then-When, log_message-When, filtered-When,
  rc_outputs-When, imu_received-When, arm_outputs-When,
}
use av3_fc.System.Heard.{Ear, hear_fixes, hear_frames, hear_output, hear_outputs, hear_packet}

module _ {D : Type 0} (F : DoubleOps D) (socket connected : ℤ) where
  -- The arming module is in the state that it has after what was heard.
  pub record Hears (e : Ear) (s : State D) : Type 0 where
    pub same_statics : s.statics ≡ e.statics
    pub same_buf : s.buf ≡ e.buf
    pub same_arm : s.arm ≡ after F socket connected e.inputs

  pub Hears-Framed : (e : Ear) → Framed (Hears e)
  Hears-Framed e = record {
    logs = λ s l h. record {
      same_statics = h.same_statics;
      same_buf = h.same_buf;
      same_arm = h.same_arm;
    };
  }

  Hears-Unserved : (e : Ear) → Unserved (Hears e)
  Hears-Unserved e s q w h = record {
    same_statics = h.same_statics;
    same_buf = h.same_buf;
    same_arm = h.same_arm;
  }

  Hears-Uncontrolled : (e : Ear) → Uncontrolled (Hears e)
  Hears-Uncontrolled e s est rc h = record {
    same_statics = h.same_statics;
    same_buf = h.same_buf;
    same_arm = h.same_arm;
  }

  module _ (now : Bytes) where
    gps_sent-Hears :
        (ms : List Message) (e : Ear) (s : State D)
        → Hears e s
        → When (Hears (record e { inputs = hear_fixes ms e.inputs })) (gps_sent F now ms s)
    unfolding gps_sent after step
    gps_sent-Hears [] e s h = h
    gps_sent-Hears (m ∷ ms) e s h =
        let e' : Ear = record e { inputs = gps m ∷ e.inputs } in
        let s' = record s { arm = arm_receive_gps m s.arm } in
        and_then-When (Hears e') (Hears (record e' { inputs = hear_fixes ms e'.inputs }))
          (filtered F now (filter_receive m) s') (gps_sent F now ms)
          (filtered-When F now (Hears e') (Hears-Framed e') (filter_receive m) s' (record {
            same_statics = h.same_statics;
            same_buf = h.same_buf;
            same_arm = ap (step F (gps m)) h.same_arm;
          }))
          (gps_sent-Hears ms e')

    frames-Hears :
        (x : Option (List Message × Bytes)) (e : Ear) (s : State D)
        → Hears e s
        → When
            (Hears (hear_frames x e))
            (and_then x (λ (r : List Message × Bytes). gps_sent F now r.0 (record s { buf = r.1 })))
    frames-Hears none e s h = tt
    frames-Hears (some (ms, rest)) e s h =
        gps_sent-Hears ms (record e { buf = rest }) (record s { buf = rest })
          (record { same_statics = h.same_statics; same_buf = refl; same_arm = h.same_arm })

    handle-Hears :
        (sender : Ethmux.Sender) (m : Message) (e : Ear) (s : State D)
        → Hears e s
        → When (Hears (hear_output (handled sender m) e)) (handle F now sender m s)
    unfolding handle after step
    handle-Hears demuxed_adis m e s h =
        let e' : Ear = record e { inputs = imu m ∷ e.inputs } in
        and_then-When (Hears e) (Hears e') (log_message F now m s)
          (λ (t : State D). imu_received F now m (record t { arm = arm_receive_imu F m t.arm }))
          (log_message-When F now _ (Hears-Framed e) m s h)
          (λ t g.
            imu_received-When F now (Hears e') (Hears-Framed e') (Hears-Unserved e')
              (Hears-Uncontrolled e') m (record t { arm = arm_receive_imu F m t.arm })
              (record {
                same_statics = g.same_statics;
                same_buf = g.same_buf;
                same_arm = ap (step F (imu m)) g.same_arm;
              }))
    handle-Hears demuxed_mpu m e s h = log_message-When F now _ (Hears-Framed e) m s h
    handle-Hears demuxed_mpl m e s h = log_message-When F now _ (Hears-Framed e) m s h
    handle-Hears demuxed_bmp m e s h = log_message-When F now _ (Hears-Framed e) m s h
    handle-Hears demuxed_rnh m e s h = log_message-When F now _ (Hears-Framed e) m s h
    handle-Hears demuxed_rnhumb m e s h =
        let rc' = rc_raw_umb F m.id m.timestamp m.body s.rc in
        log_message-When F now _ (Hears-Framed e) m (record s { rc = rc' })
          (Hears-Uncontrolled e s s.estimate rc' h)
    handle-Hears demuxed_fcfh m e s h = log_message-When F now _ (Hears-Framed e) m s h
    handle-Hears demuxed_jgps m e s h =
        filtered-When F now _ (Hears-Framed e) (filter_receive m) s h
    handle-Hears demuxed_cots m e s h = rw (← h.same_buf) (
        frames-Hears (cots_raw_in m s.buf) (record e { buf = s.buf }) s
          (record { same_statics = h.same_statics; same_buf = refl; same_arm = h.same_arm }))

    output-Hears :
        (o : Ethmux.Output) (e : Ear) (s : State D)
        → Hears e s
        → When (Hears (hear_output o e)) (output F now o s)
    unfolding output after step
    output-Hears (handled sender m) e s h = handle-Hears sender m e s h
    output-Hears (sequenced_error m) e s h = log_message-When F now _ (Hears-Framed e) m s h
    output-Hears (demuxed_arm buffer len ts) e s h =
        let (arm', outs) = arm_raw_in buffer len s.arm in
        let e' : Ear = record e { inputs = command buffer len ∷ e.inputs } in
        arm_outputs-When F now (Hears e') (Hears-Framed e') (Hears-Unserved e')
          (Hears-Uncontrolled e') outs (record s { arm = arm' })
          (record {
            same_statics = h.same_statics;
            same_buf = h.same_buf;
            same_arm = ap (step F (command buffer len)) h.same_arm;
          })
    output-Hears (demuxed_rc buffer len ts) e s h =
        let (rc', outs) = rc_raw_testrc F now buffer len s.rc in
        rc_outputs-When F now _ (Hears-Framed e) (Hears-Unserved e) outs (record s { rc = rc' })
          (Hears-Uncontrolled e s s.estimate rc' h)

    outputs-Hears :
        (os : List Ethmux.Output) (e : Ear) (s : State D)
        → Hears e s
        → When (Hears (hear_outputs os e)) (outputs F now os s)
    unfolding outputs
    outputs-Hears [] e s h = h
    outputs-Hears (o ∷ os) e s h =
        and_then-When (Hears (hear_output o e)) (Hears (hear_outputs os (hear_output o e)))
          (output F now o s) (outputs F now os) (output-Hears o e s h)
          (outputs-Hears os (hear_output o e))

    pub receive-Hears :
        (r : Read) (e : Ear) (s : State D)
        → Hears e s
        → When (Hears (hear_packet r e)) (receive F now r s)
    unfolding receive
    receive-Hears r e s h = rw (← h.same_statics) (
        let (statics', outs) = demux r s.statics in
        outputs-Hears outs (record e { statics = statics' }) (record s { statics = statics' })
          (record { same_statics = refl; same_buf = h.same_buf; same_arm = h.same_arm }))
