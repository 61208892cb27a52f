-- ===== src/System.antt =====
-- main.miml: which receivers each sender calls, in order. The modules together, from a packet to the
-- log. All calls of `get_psas_time` while one packet is handled give the same time, `now`.
pub mod Calls
pub mod Causes
pub mod Armed
pub mod Arming
pub mod Armament
pub mod Boot
pub mod Events
pub mod Live
pub mod Fixes
pub mod FixRuns
pub mod FrameLock
pub mod FixTests
pub mod Frame
pub mod Gates
pub mod Heard
pub mod Hears
pub mod Handlers
pub mod Inputs
pub mod Kept
pub mod KeptTests
pub mod Logged
pub mod Measured
pub mod MeasuredRuns
pub mod Orders
pub mod Packets
pub mod Rolls
pub mod Runs
pub mod Served
pub mod Servo
pub mod Steered
pub mod SteeredCalls
pub mod Steering
pub mod SteeringTests
pub mod Stream
pub mod Streamed
pub mod StreamedRuns
pub mod Typed
pub mod EventTests
pub mod Tests
use av3_fc.Base.{ℕ, List, [], ◌∷◌, ◌++◌, Option, none, some}
use av3_fc.Base.Bytes.{Bytes}
use av3_fc.Arm
use av3_fc.Arm.{arm_receive_imu, arm_receive_gps, arm_raw_in, arm_send_signal, send_arm_response}
use av3_fc.Double.{DoubleOps}
use av3_fc.Ethmux
use av3_fc.Ethmux.{
  Sender, demuxed_adis, demuxed_mpu, demuxed_mpl, demuxed_bmp, demuxed_rnh, demuxed_rnhumb,
  demuxed_fcfh, demuxed_jgps, demuxed_cots, handled, sequenced_error, demuxed_arm, demuxed_rc,
  Statics, Read, demux,
}
use av3_fc.Filter.{Target, filter_to_ground, filter_to_disk, filter_receive}
use av3_fc.Gps.{cots_raw_in}
use av3_fc.Logger
use av3_fc.Logger.{log_write, log_write_disk_only, log_receive_arm, log_receive_rc}
use av3_fc.Message.{Message, RollMessage}
use av3_fc.RollControl
use av3_fc.RollControl.{
  rc_send_servo, send_servo_response, rc_receive_state, rc_receive_arm, rc_raw_umb, rc_raw_testrc,
}
use av3_fc.RollServo.{rs_receive_adj, packets}
use av3_fc.StateEstimate
use av3_fc.StateEstimate.{state_receive_imu}

-- The static variables of all modules, without the descriptors; `seq` is that of
-- `rs_receive_adj`, and `servo` is what it wrote to the servo board, the last packet last.
pub record State (D : Type 0) : Type 0 where
  pub statics : Statics
  pub buf : Bytes
  pub arm : Arm.State
  pub estimate : StateEstimate.State D
  pub rc : RollControl.State D
  pub seq : ℕ
  pub servo : List Bytes
  pub log : Logger.State

-- One call after the other, as long as none of them overruns a buffer.
abbrev pub and_then : {A B : Type 0} → Option A → (A → Option B) → Option B
and_then none f = none
and_then (some a) f = f a

module _ {D : Type 0} (F : DoubleOps D) (now : Bytes) where
  abbrev pub with_log : State D → Option Logger.State → Option (State D)
  with_log s l = and_then l (λ l. some (record s { log = l }))

  unfoldable pub log_message : Message → State D → Option (State D)
  log_message m s = with_log s (log_write now m s.log)

  -- FILTER.filter_to_ground and FILTER.filter_to_disk
  unfoldable pub filtered : Target → State D → Option (State D)
  unfolding log_message
  filtered (filter_to_ground m) s = log_message m s
  filtered (filter_to_disk m) s = with_log s (log_write_disk_only now m s.log)

  -- RC.rc_send_servo: the servo first, then the log, which swaps the bytes of the angle.
  unfoldable pub servo_sent : RollMessage → State D → Option (State D)
  servo_sent m s =
      let (seq', outs) = rs_receive_adj F m s.seq in
      with_log (record s { seq = seq'; servo = s.servo ++ packets outs })
        (log_receive_rc now m s.log).0

  unfoldable pub rc_outputs : List RollControl.Output → State D → Option (State D)
  unfolding servo_sent
  rc_outputs [] s = some s
  rc_outputs (rc_send_servo m ∷ os) s = and_then (servo_sent m s) (rc_outputs os)
  rc_outputs (send_servo_response text ∷ os) s = rc_outputs os s
  rc_outputs (RollControl.close ∷ os) s = rc_outputs os s

  -- ARM.arm_send_signal
  unfoldable pub signal_sent : Bytes → State D → Option (State D)
  unfolding rc_outputs
  signal_sent code s =
      let (rc', outs) = rc_receive_arm F now code s.rc in
      and_then (rc_outputs outs (record s { rc = rc' }))
        (λ (t : State D). with_log t (log_receive_arm now now code t.log))

  unfoldable pub arm_outputs : List Arm.Output → State D → Option (State D)
  unfolding signal_sent
  arm_outputs [] s = some s
  arm_outputs (arm_send_signal code ∷ os) s = and_then (signal_sent code s) (arm_outputs os)
  arm_outputs (send_arm_response text ∷ os) s = arm_outputs os s
  arm_outputs (Arm.close ∷ os) s = arm_outputs os s

  -- STATE.state_send_message, behind STATE.state_receive_imu
  unfoldable pub imu_received : Message → State D → Option (State D)
  unfolding rc_outputs
  imu_received m s =
      let (est, out) = state_receive_imu F m s.estimate in
      let (rc', outs) = rc_receive_state F now out.id out.timestamp out.state s.rc in
      rc_outputs outs (record s { estimate = est; rc = rc' })

  -- GPS.gps_data_out
  unfoldable pub gps_sent : List Message → State D → Option (State D)
  unfolding filtered
  gps_sent [] s = some s
  gps_sent (m ∷ ms) s =
      and_then (filtered (filter_receive m) (record s { arm = arm_receive_gps m s.arm }))
        (gps_sent ms)

  -- The senders of ETH that take a message.
  unfoldable pub handle : Sender → Message → State D → Option (State D)
  unfolding log_message imu_received gps_sent filtered
  handle demuxed_adis m s =
      and_then (log_message m s)
        (λ (t : State D). imu_received m (record t { arm = arm_receive_imu F m t.arm }))
  handle demuxed_mpu m s = log_message m s
  handle demuxed_mpl m s = log_message m s
  handle demuxed_bmp m s = log_message m s
  handle demuxed_rnh m s = log_message m s
  handle demuxed_rnhumb m s =
      log_message m (record s { rc = rc_raw_umb F m.id m.timestamp m.body s.rc })
  handle demuxed_fcfh m s = log_message m s
  handle demuxed_jgps m s = filtered (filter_receive m) s
  handle demuxed_cots m s =
      and_then (cots_raw_in m s.buf)
        (λ (r : List Message × Bytes). gps_sent r.0 (record s { buf = r.1 }))

  unfoldable pub output : Ethmux.Output → State D → Option (State D)
  unfolding handle log_message arm_outputs rc_outputs
  output (handled sender m) s = handle sender m s
  output (sequenced_error m) s = log_message m s
  output (demuxed_arm buffer len timestamp) s =
      let (arm', outs) = arm_raw_in buffer len s.arm in arm_outputs outs (record s { arm = arm' })
  output (demuxed_rc buffer len timestamp) s =
      let (rc', outs) = rc_raw_testrc F now buffer len s.rc in
      rc_outputs outs (record s { rc = rc' })

  unfoldable pub outputs : List Ethmux.Output → State D → Option (State D)
  unfolding output
  outputs [] s = some s
  outputs (o ∷ os) s = and_then (output o s) (outputs os)

  -- A packet, from `demux` to the log.
  unfoldable pub receive : Read → State D → Option (State D)
  unfolding outputs
  receive r s =
      let (statics', outs) = demux r s.statics in outputs outs (record s { statics = statics' })
