-- ===== src/RollServo.antt =====
-- src/devices/rollservo.c: a canard angle as a packet for the roll servo board.
pub mod Wire
pub mod Tests
use av3_fc.Base.Int.{ℤ, pos, negsuc}
use av3_fc.Base.{
  ℕ, ◌+◌, ◌-◌, ◌*◌, ◌/◌, ◌%◌, ◌^◌, Bool, true, false, List, [], ◌∷◌, ltb, if◌then◌else◌,
}
use av3_fc.Base.Bytes.{Bytes}
use av3_fc.Double.{DoubleOps}
use av3_fc.Message.{RollMessage}
use av3_fc.RollControl.{max_canard_angle, min_canard_angle}

abbrev pub pwm_ticks_max : ℕ
pwm_ticks_max = 56000

abbrev pub pwm_us_max : ℕ
pwm_us_max = 3333

abbrev pub max_servo_position_ticks : ℕ
max_servo_position_ticks = 1900 * pwm_ticks_max / pwm_us_max

abbrev pub min_servo_position_ticks : ℕ
min_servo_position_ticks = 1100 * pwm_ticks_max / pwm_us_max

-- `CLAMP` on `uint16_t`.
abbrev clamp_ticks : ℕ → ℕ
clamp_ticks ticks =
    if ltb ticks min_servo_position_ticks
    then min_servo_position_ticks
    else if ltb max_servo_position_ticks ticks
    then max_servo_position_ticks
    else ticks

-- A `close` of the socket, or a packet written to it.
pub data Output : Type 0 where
  close : Output
  send : Bytes → Output

abbrev failed : ℤ → Bool
failed (pos n) = false
failed (negsuc n) = true

-- `sd`, with the results of `udp_socket` and `connect`.
unfoldable pub rollservo_init : ℤ → ℤ → ℤ × List Output
rollservo_init socket connected =
    if failed socket
    then (socket, [])
    else if failed connected
    then (socket, close ∷ [])
    else (socket, [])

unfoldable pub rollservo_final : List Output
rollservo_final = close ∷ []

-- The packets among what is done.
abbrev pub packets : List Output → List Bytes
packets [] = []
packets (send b ∷ os) = b ∷ packets os
packets (close ∷ os) = packets os

-- The bytes that are written for a sequence number, a position and the flag.
abbrev pub packet : ℕ → ℕ → ℕ → Bytes
packet seq ticks disable =
    (seq / 2 ^ 24 % 256)
    ∷ (seq / 2 ^ 16 % 256)
    ∷ (seq / 2 ^ 8 % 256)
    ∷ (seq % 256)
    ∷ (ticks / 2 ^ 8 % 256)
    ∷ (ticks % 256)
    ∷ (disable % 256)
    ∷ []

module _ {D : Type 0} (F : DoubleOps D) where
  open F use {of_int, add, sub, mul, div, to_u16, of_bytes}

  abbrev pwm_ticks_per_degree : D
  pwm_ticks_per_degree =
      div (of_int (pos (max_servo_position_ticks - min_servo_position_ticks)))
        (sub (max_canard_angle F) (min_canard_angle F))

  abbrev pwm_ticks_center : D
  pwm_ticks_center =
      sub (of_int (pos min_servo_position_ticks)) (mul pwm_ticks_per_degree (min_canard_angle F))

  -- `rs_receive_adj`, with the static `seq`, which it returns incremented.
  unfoldable pub rs_receive_adj : RollMessage → ℕ → ℕ × List Output
  rs_receive_adj adj seq =
      let ticks = to_u16 (add (mul pwm_ticks_per_degree (of_bytes adj.angle)) pwm_ticks_center) in
      ((seq + 1) % 2 ^ 32, send (packet seq (clamp_ticks ticks) adj.disable) ∷ [])
