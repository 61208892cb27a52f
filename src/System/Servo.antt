-- ===== src/System/Servo.antt =====
-- RC.rc_send_servo of main.miml, step by step: the packet to the servo board, and the log.
use av3_fc.Base.{
  ℕ, ◌+◌, ◌%◌, ◌^◌, List, [], ◌∷◌, ◌++◌, Option, none, some, ◌≡◌, refl, arith, length, get_or,
  length-append,
}
use av3_fc.Base.Bytes.{Bytes}
use av3_fc.Double.{DoubleOps, DoubleLaws}
use av3_fc.Logger
use av3_fc.Logger.Limits
use av3_fc.Logger.{log_receive_rc, p_limit, message_len}
use av3_fc.Logger.Limits.{IsMessage}
use av3_fc.Message.{RollMessage}
use av3_fc.RollServo.Wire.{AreCommands, AreCommands-append, adj_lem}
use av3_fc.System.{State, with_log, servo_sent}
use av3_fc.System.Calls.{IsRoll, valid_log, LogReturns, log_receive_rc-LogReturns}
use av3_fc.System.Handlers.{Ok}

module _ {D : Type 0} where
  -- A state in order, with one more packet to the servo, whose last byte is `disable`.
  abbrev pub Moves : List Bytes → ℕ → State D → Type 0
  Moves before disable t =
      Ok t × ((p : Bytes) × (t.servo ≡ before ++ p ∷ []) × (get_or p 6 0 ≡ disable))

  -- No buffer was overrun, and the state left has a property.
  abbrev pub Gives : (State D → Type 0) → Option (State D) → Type 0
  Gives P none = ⊥
  Gives P (some t) = P t

  -- There is one more packet to the servo.
  abbrev pub Sends : List Bytes → ℕ → Option (State D) → Type 0
  Sends before disable x = Gives (Moves before disable) x

module _ {D : Type 0} (F : DoubleOps D) (L : DoubleLaws F) (now : Bytes)
    (six : length now ≡ 6) where
  pub Gives-log :
      (P : State D → Type 0) (s : State D) (l : Option Logger.State)
      → LogReturns Limits.IsValid l
      → ((l' : Logger.State) → Limits.IsValid l' → P (record s { log = l' }))
      → Gives P (with_log F now s l)
  Gives-log P s none r h = r
  Gives-log P s (some l) r h = h l r

  pub servo_sent-Gives :
      (m : RollMessage) (s : State D)
      → IsRoll m
      → Ok s
      → Gives (λ t. Moves s.servo m.disable t × (t.rc ≡ s.rc)) (servo_sent F now m s)
  unfolding servo_sent
  servo_sent-Gives m s h (b, v, w, o) =
      let (p, e, c) = adj_lem F m s.seq (omega (arith, o.1)) (omega (arith, h.flag)) in
      let more : AreCommands 0 (s.servo ++ p ∷ []) =
        AreCommands-append 0 s.seq m.disable s.servo p (omega arith) (omega (arith, o.1)) h.flag c
          o.0 in
      let counted : (s.seq + 1) % 2 ^ 32 ≡ length (s.servo ++ p ∷ []) % 2 ^ 32 =
        omega (arith, o.1, length-append {0} s.servo (p ∷ [])) in
      rw e (
        Gives-log (λ t. Moves s.servo m.disable t × (t.rc ≡ s.rc))
          (record s { seq = (s.seq + 1) % 2 ^ 32; servo = s.servo ++ p ∷ [] }) _
          (log_receive_rc-LogReturns valid_log now m s.log six h w)
          (λ l' w'. (((b, v, w', (more, counted)), (p, refl, c.flag)), refl)))

  pub servo_sent-Sends :
      (m : RollMessage) (s : State D)
      → IsRoll m
      → Ok s
      → Gives (Moves s.servo m.disable) (servo_sent F now m s)
  servo_sent-Sends m s h k = map_lem (servo_sent F now m s) (servo_sent-Gives m s h k)
    where
      map_lem :
          (x : Option (State D))
          → Gives (λ t. Moves s.servo m.disable t × (t.rc ≡ s.rc)) x
          → Gives (Moves s.servo m.disable) x
      map_lem none h = h
      map_lem (some t) h = h.0
