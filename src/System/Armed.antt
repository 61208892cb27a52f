-- ===== src/System/Armed.antt =====
-- What the handlers of main.miml do to the variables of the roll control.
use av3_fc.Base.{ℕ, false, ◌&&◌, List, [], ◌∷◌, Option, none, some, ◌≡◌, arith, All}
use av3_fc.Base.Bytes.{Bytes, codes}
use av3_fc.Arm
use av3_fc.Arm.{
  arm_raw_in, arm_send_signal, send_arm_response, arm_text, safe_text, sensors_allow_launch,
}
use av3_fc.Command.{compare_buffer_to_cmd}
use av3_fc.Double.{DoubleOps}
use av3_fc.Ethmux
use av3_fc.Ethmux.{
  demuxed_adis, demuxed_mpu, demuxed_mpl, demuxed_bmp, demuxed_rnh, demuxed_rnhumb, demuxed_fcfh,
  demuxed_jgps, demuxed_cots,
}
use av3_fc.Filter.{Target}
use av3_fc.Logger
use av3_fc.Message.{Message}
use av3_fc.Packet.{StateData}
use av3_fc.RollControl
use av3_fc.RollControl.{
  rc_send_servo, send_servo_response, check_timeout, control, rc_receive_state, rc_receive_arm,
  rc_raw_testrc, rc_raw_umb, streq, pid,
}
use av3_fc.Gps.{cots_raw_in}
use av3_fc.StateEstimate.{state_receive_imu}
use av3_fc.System.Frame.{
  When, Framed, and_then-When, with_log-When, log_message-When, filtered-When, rc_outputs-When,
}
use av3_fc.System.{
  State, and_then, with_log, log_message, filtered, rc_outputs, signal_sent, arm_outputs,
  imu_received, gps_sent, handle,
}

module _ {D : Type 0} (P : RollControl.State D → Type 0) where
  -- If the program goes on, the roll control has the property.
  abbrev pub Only : Option (State D) → Type 0
  Only = When (λ (s : State D). P s.rc)

  -- The log and the servo do not touch the roll control.
  pub rc-Framed : Framed (λ (s : State D). P s.rc)
  rc-Framed = record { logs = λ s l h. h }

  pub and_then-Only :
      (x : Option (State D)) (f : State D → Option (State D))
      → Only x
      → ((t : State D) → Only (some t) → Only (f t))
      → Only (and_then x f)
  and_then-Only = and_then-When (λ (s : State D). P s.rc) (λ (s : State D). P s.rc)

  any-Only :
      {B : Type 0} (x : Option B) (f : B → Option (State D))
      → ((b : B) → Only (f b))
      → Only (and_then x f)
  any-Only none f g = tt
  any-Only (some b) f g = g b

module _ {D : Type 0} (F : DoubleOps D) (P : RollControl.State D → Type 0) where
  -- The property is kept by estimates, by the umbilical, and by the signal to disarm.
  pub record RcInvariant : Type 0 where
    pub estimates :
        (now id timestamp : Bytes) (state : StateData D) (s : RollControl.State D)
        → P s
        → P (rc_receive_state F now id timestamp state s).0
    pub umbilical :
        (id timestamp contents : Bytes) (s : RollControl.State D)
        → P s
        → P (rc_raw_umb F id timestamp contents s)
    pub disarming :
        (now code : Bytes) (s : RollControl.State D)
        → code ≡ codes "SAFE"
        → P s
        → P (rc_receive_arm F now code s).0

module _ {D : Type 0} (F : DoubleOps D) (P : RollControl.State D → Type 0) (I : RcInvariant F P)
    (now : Bytes) where
  pub with_log-Only :
      (s : State D) (l : Option Logger.State) → Only P (some s) → Only P (with_log F now s l)
  with_log-Only = with_log-When F now (λ s. P s.rc) (rc-Framed P)

  pub log_message-Only :
      (m : Message) (s : State D) → Only P (some s) → Only P (log_message F now m s)
  log_message-Only = log_message-When F now (λ s. P s.rc) (rc-Framed P)

  filtered-Only : (t : Target) (s : State D) → Only P (some s) → Only P (filtered F now t s)
  filtered-Only = filtered-When F now (λ s. P s.rc) (rc-Framed P)

  pub rc_outputs-Only :
      (os : List RollControl.Output) (s : State D)
      → Only P (some s)
      → Only P (rc_outputs F now os s)
  rc_outputs-Only = rc_outputs-When F now (λ s. P s.rc) (rc-Framed P) (λ s q w h. h)

  imu_received-Only :
      (m : Message) (s : State D) → Only P (some s) → Only P (imu_received F now m s)
  unfolding imu_received
  imu_received-Only m s h =
      let (est, out) = state_receive_imu F m s.estimate in
      let (rc', outs) = rc_receive_state F now out.id out.timestamp out.state s.rc in
      rc_outputs-Only outs (record s { estimate = est; rc = rc' })
        (I.estimates now out.id out.timestamp out.state s.rc h)

  gps_sent-Only : (ms : List Message) (s : State D) → Only P (some s) → Only P (gps_sent F now ms s)
  unfolding gps_sent
  gps_sent-Only [] s h = h
  gps_sent-Only (m ∷ ms) s h = and_then-Only P _ _ (filtered-Only _ _ h) (gps_sent-Only ms)

  pub handle-Only :
      (sender : Ethmux.Sender) (m : Message) (s : State D)
      → Only P (some s)
      → Only P (handle F now sender m s)
  unfolding handle
  handle-Only demuxed_adis m s h =
      and_then-Only P _ _ (log_message-Only m s h) (λ t. imu_received-Only m _)
  handle-Only demuxed_mpu m s h = log_message-Only m s h
  handle-Only demuxed_mpl m s h = log_message-Only m s h
  handle-Only demuxed_bmp m s h = log_message-Only m s h
  handle-Only demuxed_rnh m s h = log_message-Only m s h
  handle-Only demuxed_rnhumb m s h =
      log_message-Only m _ (I.umbilical m.id m.timestamp m.body s.rc h)
  handle-Only demuxed_fcfh m s h = log_message-Only m s h
  handle-Only demuxed_jgps m s h = filtered-Only _ s h
  handle-Only demuxed_cots m s h =
      any-Only P (cots_raw_in m s.buf) _ (λ r. gps_sent-Only r.0 (record s { buf = r.1 }) h)

  pub raw_testrc-Only :
      (buffer : Bytes) (len : ℕ) (s : State D)
      → P (rc_raw_testrc F now buffer len s.rc).0
      → let (rc', outs) = rc_raw_testrc F now buffer len s.rc in
        Only P (rc_outputs F now outs (record s { rc = rc' }))
  raw_testrc-Only buffer len s h =
      let (rc', outs) = rc_raw_testrc F now buffer len s.rc in
      rc_outputs-Only outs (record s { rc = rc' }) h

  -- The signals that do not arm.
  abbrev pub KeepsSafe : Arm.Output → Type 0
  KeepsSafe (arm_send_signal code) = code ≡ codes "SAFE"
  KeepsSafe (send_arm_response text) = Unit {0}
  KeepsSafe Arm.close = Unit {0}

  signal_sent-Only :
      (code : Bytes) (s : State D)
      → code ≡ codes "SAFE"
      → Only P (some s)
      → Only P (signal_sent F now code s)
  unfolding signal_sent
  signal_sent-Only code s e k =
      let (rc', outs) = rc_receive_arm F now code s.rc in
      and_then-Only P (rc_outputs F now outs (record s { rc = rc' })) _
        (rc_outputs-Only outs (record s { rc = rc' }) (I.disarming now code s.rc e k))
        (λ t h. with_log-Only t _ h)

  pub arm_outputs-Only :
      (os : List Arm.Output) (s : State D)
      → All KeepsSafe os
      → Only P (some s)
      → Only P (arm_outputs F now os s)
  unfolding arm_outputs
  arm_outputs-Only [] s h k = k
  arm_outputs-Only (arm_send_signal code ∷ os) s (h, hs) k =
      and_then-Only P _ _ (signal_sent-Only code s h k) (λ t. arm_outputs-Only os t hs)
  arm_outputs-Only (send_arm_response text ∷ os) s (h, hs) k = arm_outputs-Only os s hs k
  arm_outputs-Only (Arm.close ∷ os) s (h, hs) k = arm_outputs-Only os s hs k

  pub arm_raw_in-KeepsSafe :
      (buffer : Bytes) (len : ℕ) (s : Arm.State)
      → (compare_buffer_to_cmd buffer arm_text len && sensors_allow_launch s) ≡ false
      → All KeepsSafe (arm_raw_in buffer len s).1
  unfolding arm_raw_in
  arm_raw_in-KeepsSafe buffer len s h = ground arith
