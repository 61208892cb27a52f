-- ===== src/System/Inputs.antt =====
-- What the roll control is given by some events: the program without the roll control, the servo and
-- the logger.
use av3_fc.Base.{ℕ, List, [], ◌∷◌, ◌++◌, Option, none, some}
use av3_fc.Base.Bytes.{Bytes}
use av3_fc.Arm
use av3_fc.Arm.{arm_receive_imu, arm_receive_gps, arm_raw_in, arm_send_signal}
use av3_fc.Double.{DoubleOps}
use av3_fc.Ethmux
use av3_fc.Ethmux.{
  demuxed_adis, demuxed_cots, demuxed_rnhumb, handled, sequenced_error, demuxed_arm, demuxed_rc,
  Statics, Read, demux,
}
use av3_fc.Ethmux.Poll.{read_packet}
use av3_fc.Gps.{cots_raw_in}
use av3_fc.Message.{Message}
use av3_fc.RollControl.{Input, vste, signal, umbilical, test}
use av3_fc.Sockets.{SocketConstants}
use av3_fc.StateEstimate
use av3_fc.StateEstimate.{state_receive_imu}
use av3_fc.System.Events.{Event, packet, timer, version}
use av3_fc.Time.{Timespec}

-- The modules before the roll control, and its inputs, the last one last.
pub record Bridge (D : Type 0) : Type 0 where
  pub statics : Statics
  pub buf : Bytes
  pub arm : Arm.State
  pub estimate : StateEstimate.State D
  pub inputs : List (Input D)

abbrev pub fixes : List Message → Arm.State → Arm.State
fixes [] a = a
fixes (m ∷ ms) a = fixes ms (arm_receive_gps m a)

module _ {D : Type 0} (F : DoubleOps D) where
  abbrev pub put_frames : Option (List Message × Bytes) → Bridge D → Bridge D
  put_frames none b = b
  put_frames (some (ms, rest)) b = record b { buf = rest; arm = fixes ms b.arm }

  abbrev pub put_input : Input D → Bridge D → Bridge D
  put_input i b = record b { inputs = b.inputs ++ i ∷ [] }

  abbrev pub put_sample : Bytes → Message → Bridge D → Bridge D
  put_sample now m b =
      let (est, out) = state_receive_imu F m b.estimate in
      put_input (vste now out.id out.timestamp out.state)
        (record b { arm = arm_receive_imu F m b.arm; estimate = est })

  abbrev pub put_signals : Bytes → List Arm.Output → Bridge D → Bridge D
  put_signals now [] b = b
  put_signals now (arm_send_signal code ∷ os) b = put_signals now os (put_input (signal now code) b)
  put_signals now (_ ∷ os) b = put_signals now os b

  abbrev pub put_command : Bytes → Bytes → ℕ → Bridge D → Bridge D
  put_command now buffer len b =
      let (arm', outs) = arm_raw_in buffer len b.arm in
      put_signals now outs (record b { arm = arm' })

  abbrev pub put_output : Bytes → Ethmux.Output → Bridge D → Bridge D
  put_output now (handled demuxed_adis m) b = put_sample now m b
  put_output now (handled demuxed_cots m) b = put_frames (cots_raw_in m b.buf) b
  put_output now (handled demuxed_rnhumb m) b = put_input (umbilical m.id m.timestamp m.body) b
  put_output now (handled _ m) b = b
  put_output now (sequenced_error m) b = b
  put_output now (demuxed_arm buffer len timestamp) b = put_command now buffer len b
  put_output now (demuxed_rc buffer len timestamp) b = put_input (test now buffer len) b

  abbrev pub put_outputs : Bytes → List Ethmux.Output → Bridge D → Bridge D
  put_outputs now [] b = b
  put_outputs now (o ∷ os) b = put_outputs now os (put_output now o b)

  abbrev pub put_packet : Bytes → Read → Bridge D → Bridge D
  put_packet now r b =
      let (statics', outs) = demux r b.statics in
      put_outputs now outs (record b { statics = statics' })

  module _ (k : SocketConstants) (starttime : Timespec) where
    abbrev pub put_event : Bytes → Event → Bridge D → Bridge D
    put_event now (packet ts m) b = put_packet now (read_packet k starttime ts m) b
    put_event now timer b = b
    put_event now (version fd read buffer) b = b

    unfoldable pub put_events : List (Bytes × Event) → Bridge D → Bridge D
    put_events [] b = b
    put_events ((now, e) ∷ es) b = put_events es (put_event now e b)
