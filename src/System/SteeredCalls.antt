-- ===== src/System/SteeredCalls.antt =====
-- The roll control in the handlers of main.miml.
use av3_fc.Base.{List, [], ◌∷◌, Option, none, some, refl, ap}
use av3_fc.Base.Bytes.{Bytes}
use av3_fc.Arm.{arm_receive_imu, arm_receive_gps, arm_raw_in}
use av3_fc.Double.{DoubleOps}
use av3_fc.Ethmux
use av3_fc.Ethmux.{
  demuxed_adis, demuxed_mpu, demuxed_mpl, demuxed_bmp, demuxed_rnh, demuxed_rnhumb, demuxed_fcfh,
  demuxed_jgps, demuxed_cots, handled, sequenced_error, demuxed_arm, demuxed_rc, Read, demux,
}
use av3_fc.Filter.{filter_receive}
use av3_fc.Gps.{cots_raw_in}
use av3_fc.Message.{Message}
use av3_fc.RollControl
use av3_fc.RollControl.{
  Input, rc_send_servo, send_servo_response, vste, signal, umbilical, test, rc_receive_state,
  rc_receive_arm, rc_raw_umb, rc_raw_testrc, step, run,
}
use av3_fc.System.{
  State, and_then, log_message, filtered, imu_received, gps_sent, handle, output, outputs, receive,
}
use av3_fc.System.Served.{Wire}
use av3_fc.System.Frame.{When, and_then-When, log_message-When, filtered-When}
use av3_fc.System.Inputs.{
  Bridge, fixes, put_frames, put_input, put_sample, put_output, put_outputs, put_packet,
}
use av3_fc.System.Steered.{
  Steers, Steers-Framed, Steers-input, sample-Steers, arm_outputs-Steers, input-Steers,
}

module _ {D : Type 0} (F : DoubleOps D) (start : RollControl.State D) (wire : Wire)
    (now : Bytes) where
  gps_sent-Steers :
      (ms : List Message) (b : Bridge D) (s : State D)
      → Steers F start wire b s
      → When (Steers F start wire (record b { arm = fixes ms b.arm })) (gps_sent F now ms s)
  unfolding gps_sent
  gps_sent-Steers [] b s h = h
  gps_sent-Steers (m ∷ ms) b s h =
      let b' : Bridge D = record b { arm = arm_receive_gps m b.arm } in
      let s' = record s { arm = arm_receive_gps m s.arm } in
      and_then-When (Steers F start wire b')
        (Steers F start wire (record b' { arm = fixes ms b'.arm }))
        (filtered F now (filter_receive m) s') (gps_sent F now ms)
        (filtered-When F now (Steers F start wire b') (Steers-Framed F start wire b')
          (filter_receive m) s'
          (record {
            same_statics = h.same_statics;
            same_buf = h.same_buf;
            same_arm = ap (arm_receive_gps m) h.same_arm;
            same_estimate = h.same_estimate;
            steered = h.steered;
          }))
        (gps_sent-Steers ms b')

  frames-Steers :
      (x : Option (List Message × Bytes)) (b : Bridge D) (s : State D)
      → Steers F start wire b s
      → When
          (Steers F start wire (put_frames F x b))
          (and_then x (λ (r : List Message × Bytes). gps_sent F now r.0 (record s { buf = r.1 })))
  frames-Steers none b s h = tt
  frames-Steers (some (ms, rest)) b s h =
      gps_sent-Steers ms (record b { buf = rest }) (record s { buf = rest })
        (record {
          same_statics = h.same_statics;
          same_buf = refl;
          same_arm = h.same_arm;
          same_estimate = h.same_estimate;
          steered = h.steered;
        })

  handle-Steers :
      (sender : Ethmux.Sender) (m : Message) (b : Bridge D) (s : State D)
      → Steers F start wire b s
      → When (Steers F start wire (put_output F now (handled sender m) b)) (handle F now sender m s)
  unfolding handle step
  handle-Steers demuxed_adis m b s h =
      and_then-When (Steers F start wire b) (Steers F start wire (put_sample F now m b))
        (log_message F now m s)
        (λ (t : State D). imu_received F now m (record t { arm = arm_receive_imu F m t.arm }))
        (log_message-When F now _ (Steers-Framed F start wire b) m s h)
        (sample-Steers F start wire now m b)
  handle-Steers demuxed_mpu m b s h = log_message-When F now _ (Steers-Framed F start wire b) m s h
  handle-Steers demuxed_mpl m b s h = log_message-When F now _ (Steers-Framed F start wire b) m s h
  handle-Steers demuxed_bmp m b s h = log_message-When F now _ (Steers-Framed F start wire b) m s h
  handle-Steers demuxed_rnh m b s h = log_message-When F now _ (Steers-Framed F start wire b) m s h
  handle-Steers demuxed_rnhumb m b s h =
      let i = umbilical m.id m.timestamp m.body in
      log_message-When F now _ (Steers-Framed F start wire (put_input F i b)) m
        (record s { rc = (step F i s.rc).0 })
        (record {
          same_statics = h.same_statics;
          same_buf = h.same_buf;
          same_arm = h.same_arm;
          same_estimate = h.same_estimate;
          steered = Steers-input F start wire i b s h;
        })
  handle-Steers demuxed_fcfh m b s h = log_message-When F now _ (Steers-Framed F start wire b) m s h
  handle-Steers demuxed_jgps m b s h =
      filtered-When F now _ (Steers-Framed F start wire b) (filter_receive m) s h
  handle-Steers demuxed_cots m b s h = rw (← h.same_buf) (
      frames-Steers (cots_raw_in m s.buf) (record b { buf = s.buf }) s
        (record {
          same_statics = h.same_statics;
          same_buf = refl;
          same_arm = h.same_arm;
          same_estimate = h.same_estimate;
          steered = h.steered;
        }))

  output-Steers :
      (o : Ethmux.Output) (b : Bridge D) (s : State D)
      → Steers F start wire b s
      → When (Steers F start wire (put_output F now o b)) (output F now o s)
  unfolding output step
  output-Steers (handled sender m) b s h = handle-Steers sender m b s h
  output-Steers (sequenced_error m) b s h =
      log_message-When F now _ (Steers-Framed F start wire b) m s h
  output-Steers (demuxed_arm buffer len ts) b s h = rw (← h.same_arm) (
      let (arm', outs) = arm_raw_in buffer len s.arm in
      arm_outputs-Steers F start wire now outs (record b { arm = arm' }) (record s { arm = arm' })
        (record {
          same_statics = h.same_statics;
          same_buf = h.same_buf;
          same_arm = refl;
          same_estimate = h.same_estimate;
          steered = h.steered;
        }))
  output-Steers (demuxed_rc buffer len ts) b s h =
      input-Steers F start wire now (test now buffer len) b s h

  outputs-Steers :
      (os : List Ethmux.Output) (b : Bridge D) (s : State D)
      → Steers F start wire b s
      → When (Steers F start wire (put_outputs F now os b)) (outputs F now os s)
  unfolding outputs
  outputs-Steers [] b s h = h
  outputs-Steers (o ∷ os) b s h =
      let b' = put_output F now o b in
      and_then-When (Steers F start wire b') (Steers F start wire (put_outputs F now os b'))
        (output F now o s) (outputs F now os) (output-Steers o b s h) (outputs-Steers os b')

  pub receive-Steers :
      (r : Read) (b : Bridge D) (s : State D)
      → Steers F start wire b s
      → When (Steers F start wire (put_packet F now r b)) (receive F now r s)
  unfolding receive
  receive-Steers r b s h = rw (← h.same_statics) (
      let (statics', outs) = demux r s.statics in
      outputs-Steers outs (record b { statics = statics' }) (record s { statics = statics' })
        (record {
          same_statics = refl;
          same_buf = h.same_buf;
          same_arm = h.same_arm;
          same_estimate = h.same_estimate;
          steered = h.steered;
        }))
