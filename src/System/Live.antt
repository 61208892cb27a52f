-- ===== src/System/Live.antt =====
-- From the IMU to the canards: a sample on its way through main.miml.
use av3_fc.Base.{
  ℕ, ◌≤◌, Bool, true, false, ◌&&◌, List, [], ◌∷◌, Option, none, some, ◌≡◌, refl, sym, ap, ◌∙◌,
  length, All, Bool-cases, inl, inr, if◌then◌else◌, ltb,
}
use mathlib.Core.Path.{subst}
use av3_fc.Base.Int.{pos}
use av3_fc.Base.Bytes.{Bytes, codes, memeq, load_be32}
use av3_fc.Double.{DoubleOps, DoubleLaws}
use av3_fc.Logger
use av3_fc.Logger.{log_receive_rc, p_limit, message_len}
use av3_fc.Logger.Limits.{IsMessage}
use av3_fc.StateEstimate.{state_receive_imu}
use av3_fc.Ethmux
use av3_fc.Ethmux.{
  handled, demuxed_adis, sequenced_error, DemuxType, seq_adis, statics, Statics, Read, demux,
  demux_bytes, dispatch, route, sequenced, hand_on, sequenced_receive, is_expected_length,
  format_sequenced_error,
}
use av3_fc.Ethmux.Demux.{IsRead, demux-IsValid}
use av3_fc.NetAddrs.{adis_port}
use av3_fc.System.Packets.{OutputFits, is_accepted, sequenced_receive_calls, demux-OutputFits}
use av3_fc.Message.{Message, RollMessage}
use av3_fc.Packet.{StateData}
use av3_fc.RollControl
use av3_fc.RollControl.{rc_send_servo, rc_receive_state, check_timeout, control, set_canard_angle}
use av3_fc.System.{
  State, receive, output, outputs, handle, and_then, servo_sent, rc_outputs, imu_received,
}
use av3_fc.System.Calls.{valid_log}
use av3_fc.System.Rolls.{SendsRolls, rc_receive_state-SendsRolls}
use av3_fc.System.Runs.{log_message_keeps}
use av3_fc.System.Handlers.{Ok}
use av3_fc.Time.{from_psas_time}
use av3_fc.System.Servo.{Sends, servo_sent-Sends}

module _ {D : Type 0} where
  -- The sample arrives while `launched` is set, and after the timeout.
  abbrev pub is_late : Bytes → RollControl.State D → Bool
  is_late timestamp s = s.launched && ltb s.timeout (from_psas_time timestamp)

module _ {D : Type 0} (F : DoubleOps D) (L : DoubleLaws F) (now : Bytes)
    (six : length now ≡ 6) where
  -- What the controller sends for a state while the servo is enabled.
  rc_receive_state_one :
      (timestamp : Bytes) (state : StateData D) (s : RollControl.State D)
      → s.enable_servo ≡ true
      → (m : RollMessage) × ((rc_receive_state F now (codes "VSTE") timestamp state s).1
          ≡ rc_send_servo m ∷ [])
        × (m.disable ≡ (if is_late timestamp s then 1 else 0))
  unfolding rc_receive_state check_timeout control set_canard_angle RollControl.pid memeq
  rc_receive_state_one timestamp state s e = elim (Bool-cases s.launched) [
    | inr down ↦ rw (e, down) (_, refl, refl)
    | inl up ↦ elim (Bool-cases (ltb s.timeout (from_psas_time timestamp))) [
      | inl late ↦ rw (e, up, late) (_, refl, refl)
      | inr early ↦ rw (e, up, early) (_, refl, refl)
    ]
  ]

  one_output :
      (m : RollMessage) (outs : List RollControl.Output) (s : State D)
      → outs ≡ rc_send_servo m ∷ []
      → All SendsRolls outs
      → Ok s
      → Sends s.servo m.disable (rc_outputs F now outs s)
  unfolding rc_outputs
  one_output m outs s e h k =
      let (roll, _) = subst (All SendsRolls) e h in
      rw e (alone (servo_sent F now m s) (servo_sent-Sends F L now six m s roll k))
    where
      alone :
          (x : Option (State D))
          → Sends s.servo m.disable x
          → Sends s.servo m.disable (and_then x (rc_outputs F now []))
      alone none h = h
      alone (some t) h = h

  imu_received-Sends :
      (m : Message) (s : State D)
      → s.rc.enable_servo ≡ true
      → Ok s
      → Sends s.servo (if is_late m.timestamp s.rc then 1 else 0) (imu_received F now m s)
  unfolding imu_received state_receive_imu
  imu_received-Sends m s e k =
      let state = (state_receive_imu F m s.estimate).1.state in
      let (roll, sent, flag) = rc_receive_state_one m.timestamp state s.rc e in
      rw (sym flag) (
        one_output roll _ _ sent
          (rc_receive_state-SendsRolls F L now six (codes "VSTE") m.timestamp state s.rc) k)

  -- A sample of the IMU is logged, and then moves the canards.
  adis-Sends :
      (m : Message) (s : State D)
      → IsMessage m
      → message_len m ≤ p_limit
      → s.rc.enable_servo ≡ true
      → Ok s
      → Sends s.servo
          (if is_late m.timestamp s.rc then 1 else 0)
          (outputs F now (handled demuxed_adis m ∷ []) s)
  unfolding outputs output handle
  adis-Sends m s i le e k =
      let (l, logged_as, j) = log_message_keeps valid_log F L now six m s i le k in
      rw logged_as (last (imu_received F now m _) (imu_received-Sends m _ e j))
    where
      d : ℕ
      d = if is_late m.timestamp s.rc then 1 else 0

      last :
          (x : Option (State D))
          → Sends s.servo d x
          → Sends s.servo d (and_then x (outputs F now []))
      last none h = h
      last (some t) h = h

  error-Sends :
      (m : Message) (s : State D) (d : ℕ) (os : List Ethmux.Output)
      → OutputFits (sequenced_error m)
      → Ok s
      → ((l : Logger.State)
          → Ok (record s { log = l })
          → Sends s.servo d (outputs F now os (record s { log = l })))
      → Sends s.servo d (outputs F now (sequenced_error m ∷ os) s)
  unfolding outputs output
  error-Sends m s d os (i, le) k f =
      let (l, e, j) = log_message_keeps valid_log F L now six m s i le k in rw e (f l j)

  -- What `demux` calls for such a sample, an error in front or none.
  passed-Sends :
      (sender : Ethmux.Sender) (m : Message) (s : State D)
      → sender ≡ demuxed_adis
      → s.rc.enable_servo ≡ true
      → Ok s
      → OutputFits (handled sender m)
      → Sends s.servo
          (if is_late m.timestamp s.rc then 1 else 0)
          (outputs F now (handled sender m ∷ []) s)
  passed-Sends sender m s e on k =
      subst
        (λ h.
          OutputFits (handled h m)
          → Sends s.servo (if is_late m.timestamp s.rc then 1 else 0)
              (outputs F now (handled h m ∷ []) s))
        (sym e) (λ f. adis-Sends m s f.0 f.1 on k)

  calls-Sends :
      (r : Read) (len : ℕ) (t : DemuxType) (s : State D)
      → t.handler ≡ demuxed_adis
      → is_accepted t r.buffer len ≡ true
      → s.rc.enable_servo ≡ true
      → Ok s
      → All OutputFits (sequenced_receive r.port r.buffer len r.timestamp t).1
      → Sends s.servo
          (if is_late r.timestamp s.rc then 1 else 0)
          (outputs F now (sequenced_receive r.port r.buffer len r.timestamp t).1 s)
  unfolding format_sequenced_error
  calls-Sends r len t s h a on k =
      sequenced_receive_calls
        (λ os.
          All OutputFits os
          → Sends s.servo (if is_late r.timestamp s.rc then 1 else 0) (outputs F now os s))
        r.port r.buffer len r.timestamp t (λ e n refused. absurd (cc (a, refused)))
        (λ right (f, _). passed-Sends t.handler _ s h on k f)
        (λ e n right (f, (g, _)).
          error-Sends _ s _ (hand_on t r.buffer len r.timestamp ∷ []) f k
            (λ l j. passed-Sends t.handler _ (record s { log = l }) h on j g))

route_adis : (port : ℕ) → port ≡ adis_port → route port ≡ sequenced seq_adis
unfolding route
route_adis port e = rw e refl

demux_bytes_adis :
    (r : Read) (s : Statics)
    → route r.port ≡ sequenced seq_adis
    → (demux_bytes (pos 28) r s).1
      ≡ (sequenced_receive r.port r.buffer 28 r.timestamp (s seq_adis)).1
unfolding demux_bytes dispatch
demux_bytes_adis r s q = rw q refl

demux_adis :
    (r : Read) (s : Statics)
    → r.port ≡ adis_port
    → r.bytes ≡ pos 28
    → (demux r s).1 ≡ (sequenced_receive r.port r.buffer 28 r.timestamp (s seq_adis)).1
unfolding demux
demux_adis r s p b = ap (λ k. (demux_bytes k r s).1) b ∙ demux_bytes_adis r s (route_adis r.port p)

module _ {D : Type 0} (F : DoubleOps D) (L : DoubleLaws F) where
  -- From a state in order in which the servos are enabled, under the facts assumed of `double`: a
  -- packet of 28 bytes from the IMU's port, with times of six bytes, whose number is not below the
  -- expected one, is handled without overrunning a buffer, leaves a state in order, and leads to
  -- exactly one packet to the servo board, whose flag is 1, which disables the servo, if `launched`
  -- is set and the packet came after the timeout, and 0 otherwise.
  pub receive-Sends :
      (now : Bytes) (r : Read) (s : State D)
      → length now ≡ 6
      → IsRead r
      → length r.timestamp ≡ 6
      → r.port ≡ adis_port
      → r.bytes ≡ pos 28
      → ltb (load_be32 r.buffer 0) (s.statics seq_adis).next_sequence ≡ false
      → s.rc.enable_servo ≡ true
      → Ok s
      → Sends s.servo (if is_late r.timestamp s.rc then 1 else 0) (receive F now r s)
  unfolding receive is_expected_length statics
  receive-Sends now r s six i t p b new on (g, v, w, o) =
      let e = demux_adis r s.statics p b in
      let right : is_accepted (s.statics seq_adis) r.buffer 28 ≡ true =
        rw (v.length_is seq_adis, new) refl in
      rw e (
        calls-Sends F L now six r 28 (s.statics seq_adis) _ (v.handler_is seq_adis) right on
          (g, (demux-IsValid r s.statics v).0, w, o)
          (subst (All OutputFits) e (demux-OutputFits r s.statics i t v)))
