-- ===== src/System/Frame.antt =====
-- Properties of the program's state that do not speak of what the logger and the servo change.
use av3_fc.Base.{ℕ, List, [], ◌∷◌, ◌++◌, Option, none, some, ◌≡◌}
use av3_fc.Base.Bytes.{Bytes}
use av3_fc.Arm
use av3_fc.Arm.{arm_send_signal, send_arm_response}
use av3_fc.Double.{DoubleOps}
use av3_fc.Filter.{Target, filter_to_ground, filter_to_disk}
use av3_fc.Logger
use av3_fc.Logger.{log_receive_arm, log_receive_rnh_version}
use av3_fc.Message.{Message, RollMessage}
use av3_fc.Rnh
use av3_fc.Rnh.{call, rnh_version_out, write}
use av3_fc.RollControl
use av3_fc.RollControl.{rc_send_servo, send_servo_response, rc_receive_arm, rc_receive_state}
use av3_fc.RollServo.{rs_receive_adj, packets}
use av3_fc.StateEstimate
use av3_fc.StateEstimate.{state_receive_imu}
use av3_fc.Sockets.{SocketConstants}
use av3_fc.System.{
  State, and_then, with_log, log_message, filtered, servo_sent, rc_outputs, signal_sent,
  arm_outputs, imu_received,
}
use av3_fc.System.Events.{version_sent}
use av3_fc.Time.{Timespec}

module _ {D : Type 0} (P : State D → Type 0) where
  -- If the program goes on, its state has the property.
  abbrev pub When : Option (State D) → Type 0
  When none = Unit {0}
  When (some t) = P t

  pub record Framed : Type 0 where
    pub logs : (s : State D) (l : Logger.State) → P s → P (record s { log = l })

  -- The same of what is sent to the servo board.
  abbrev pub Unserved : Type 0
  Unserved = (s : State D) (q : ℕ) (w : List Bytes) → P s → P (record s { seq = q; servo = w })

  -- The same of what the estimation and the roll control do to their variables.
  abbrev pub Uncontrolled : Type 0
  Uncontrolled =
      (s : State D) (e : StateEstimate.State D) (rc : RollControl.State D)
      → P s
      → P (record s { estimate = e; rc = rc })

-- In the state that is given.
pub when_some :
    {D : Type 0} (P : State D → Type 0) (x : Option (State D)) (t : State D)
    → x ≡ some t
    → When P x
    → P t
when_some P x t e h = rw e at h

pub and_then-When :
    {D : Type 0} (P Q : State D → Type 0) (x : Option (State D)) (f : State D → Option (State D))
    → When P x
    → ((t : State D) → P t → When Q (f t))
    → When Q (and_then x f)
and_then-When P Q none f h g = tt
and_then-When P Q (some t) f h g = g t h

module _ {D : Type 0} (F : DoubleOps D) (now : Bytes) (P : State D → Type 0) (K : Framed P) where
  pub with_log-When : (s : State D) (l : Option Logger.State) → P s → When P (with_log F now s l)
  with_log-When s none h = tt
  with_log-When s (some l) h = K.logs s l h

  pub log_message-When : (m : Message) (s : State D) → P s → When P (log_message F now m s)
  unfolding log_message
  log_message-When m s h = with_log-When s _ h

  pub filtered-When : (t : Target) (s : State D) → P s → When P (filtered F now t s)
  unfolding filtered
  filtered-When (filter_to_ground m) s h = log_message-When m s h
  filtered-When (filter_to_disk m) s h = with_log-When s _ h

module _ {D : Type 0} (F : DoubleOps D) (now : Bytes) (P : State D → Type 0) (K : Framed P)
    (V : Unserved P) where
  servo_sent-When : (m : RollMessage) (s : State D) → P s → When P (servo_sent F now m s)
  unfolding servo_sent
  servo_sent-When m s h =
      let (q, outs) = rs_receive_adj F m s.seq in
      let w = s.servo ++ packets outs in
      with_log-When F now P K (record s { seq = q; servo = w }) _ (V s q w h)

  pub rc_outputs-When :
      (os : List RollControl.Output) (s : State D) → P s → When P (rc_outputs F now os s)
  unfolding rc_outputs
  rc_outputs-When [] s h = h
  rc_outputs-When (rc_send_servo m ∷ os) s h =
      and_then-When P P _ _ (servo_sent-When m s h) (rc_outputs-When os)
  rc_outputs-When (send_servo_response text ∷ os) s h = rc_outputs-When os s h
  rc_outputs-When (RollControl.close ∷ os) s h = rc_outputs-When os s h

module _ {D : Type 0} (F : DoubleOps D) (now : Bytes) (P : State D → Type 0) (K : Framed P)
    (V : Unserved P) (U : Uncontrolled P) where
  pub imu_received-When : (m : Message) (s : State D) → P s → When P (imu_received F now m s)
  unfolding imu_received
  imu_received-When m s h =
      let (est, out) = state_receive_imu F m s.estimate in
      let (rc', outs) = rc_receive_state F now out.id out.timestamp out.state s.rc in
      rc_outputs-When F now P K V outs (record s { estimate = est; rc = rc' }) (U s est rc' h)

  signal_sent-When : (code : Bytes) (s : State D) → P s → When P (signal_sent F now code s)
  unfolding signal_sent
  signal_sent-When code s h =
      let (rc', outs) = rc_receive_arm F now code s.rc in
      and_then-When P P (rc_outputs F now outs (record s { rc = rc' })) _
        (rc_outputs-When F now P K V outs (record s { rc = rc' }) (U s s.estimate rc' h))
        (λ t h. with_log-When F now P K t _ h)

  pub arm_outputs-When :
      (os : List Arm.Output) (s : State D) → P s → When P (arm_outputs F now os s)
  unfolding arm_outputs
  arm_outputs-When [] s h = h
  arm_outputs-When (arm_send_signal code ∷ os) s h =
      and_then-When P P _ _ (signal_sent-When code s h) (arm_outputs-When os)
  arm_outputs-When (send_arm_response text ∷ os) s h = arm_outputs-When os s h
  arm_outputs-When (Arm.close ∷ os) s h = arm_outputs-When os s h

module _ {D : Type 0} (F : DoubleOps D) (k : SocketConstants) (starttime : Timespec)
    (P : State D → Type 0) (K : Framed P) (now : Bytes) where
  pub version_sent-When :
      (os : List Rnh.Output) (s : State D) → P s → When P (version_sent F k starttime now os s)
  unfolding version_sent
  version_sent-When [] s h = h
  version_sent-When (call c ∷ os) s h = version_sent-When os s h
  version_sent-When (write fd text ∷ os) s h = version_sent-When os s h
  version_sent-When (rnh_version_out buffer len ∷ os) s h =
      and_then-When P P (with_log F now s (log_receive_rnh_version now now buffer len s.log))
        (version_sent F k starttime now os) (with_log-When F now P K s _ h) (version_sent-When os)
