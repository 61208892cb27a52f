-- ===== src/Arm.antt =====
-- src/arm.c, the ARM Rocket Manager: whether the rocket may be armed, and the commands that arm it.
pub mod Lock
pub mod Descriptor
pub mod Tests
use av3_fc.Base.Int.{ℤ, pos, negsuc, signed16}
use av3_fc.Base.{
  ℕ, suc, ◌+◌, Bool, true, false, not, ◌&&◌, ◌||◌, List, [], ◌∷◌, ltb, leb, ◌==◌, if◌then◌else◌,
  get_or,
}
use av3_fc.Base.Bytes.{Bytes, codes, memeq, load_le16}
use av3_fc.Command.{compare_buffer_to_cmd}
use av3_fc.Double.{DoubleOps}
use av3_fc.Message.{Message}

-- The static variables.
pub record State : Type 0 where
  pub sd : ℤ
  pub slock_enable : Bool
  pub gps_locked : Bool
  pub upright : ℕ

-- What the module does to the world, in order: a call of `arm_send_signal`, a `write` on `sd`, a
-- `close` of `sd`.
pub data Output : Type 0 where
  arm_send_signal : Bytes → Output
  send_arm_response : Bytes → Output
  close : Output

-- Before `arm_init`: statics are zero.
abbrev pub zeroed : State
zeroed = record { sd = pos 0; slock_enable = false; gps_locked = false; upright = 0 }

-- `r < 0` for the result of a system call.
abbrev pub failed : ℤ → Bool
failed (pos n) = false
failed (negsuc n) = true

-- With the results of `udp_socket` and of `connect`.
unfoldable pub arm_init : ℤ → ℤ → State → State × List Output
arm_init socket connected s =
    let s' = record s { slock_enable = true; sd = socket } in
    if failed socket then (s', []) else if failed connected then (s', close ∷ []) else (s', [])

unfoldable pub arm_final : State → State × List Output
arm_final s = (s, close ∷ [])

module _ {D : Type 0} (F : DoubleOps D) where
  open F use {lit, of_int, neg, fabs, sub, mul, lt}

  abbrev accel_noise_bound : D
  accel_noise_bound = lit 1 1

  unfoldable pub about : D → D → Bool
  about a b = lt (fabs (sub a b)) accel_noise_bound

  -- An `int16_t` of the message at an offset, as the host loads it, in g.
  abbrev pub accel : Message → ℕ → D
  accel m offset = mul (of_int (signed16 (load_le16 m.body offset))) (lit 333 5)

  -- The test of `arm_receive_imu`: `acc_x`, `acc_y` and `acc_z` stand at 8, 10 and 12.
  unfoldable pub is_upright : Message → Bool
  unfolding about
  is_upright m = not (
      not (about (accel m 8) (of_int (negsuc 0)))
      || not (about (accel m 10) (of_int (pos 0)))
      || not (about (accel m 12) (of_int (pos 0))))

  unfoldable pub arm_receive_imu : Message → State → State
  unfolding is_upright
  arm_receive_imu m s =
      if not (is_upright m)
      then record s { upright = 0 }
      else if ltb s.upright 100
      then record s { upright = s.upright + 1 }
      else s

abbrev pub venus_a8_fix_mode_3d : ℕ
venus_a8_fix_mode_3d = 2

-- `fix_mode` is the first byte.
unfoldable pub arm_receive_gps : Message → State → State
unfolding memeq
arm_receive_gps m s =
    if not (memeq 4 (codes "V8A8") m.id)
    then s
    else if leb venus_a8_fix_mode_3d (get_or m.body 0 0)
    then record s { gps_locked = true }
    else record s { gps_locked = false }

abbrev pub arm_text : Bytes
arm_text = codes "#YOLO"

abbrev pub safe_text : Bytes
safe_text = codes "#SAFE"

abbrev pub en_slock_text : Bytes
en_slock_text = codes "EN_SLOCK"

abbrev pub di_slock_text : Bytes
di_slock_text = codes "DI_SLOCK"

-- `sensors_allow_launch`
abbrev pub sensors_allow_launch : State → Bool
sensors_allow_launch s = (s.gps_locked && s.upright == 100) || not s.slock_enable

unfoldable pub arm_raw_in : Bytes → ℕ → State → State × List Output
arm_raw_in buffer len s =
    if compare_buffer_to_cmd buffer arm_text len
    then (if sensors_allow_launch s
        then (s, arm_send_signal (codes "ARM") ∷ send_arm_response (codes "successful ARM") ∷ [])
        else (s, send_arm_response (codes "ARM failed due to sensor lock") ∷ []))
    else if compare_buffer_to_cmd buffer safe_text len
    then (s, arm_send_signal (codes "SAFE") ∷ send_arm_response (codes "successful SAFE") ∷ [])
    else if compare_buffer_to_cmd buffer en_slock_text len
    then (record s { slock_enable = true }, send_arm_response (codes "successful EN_SLOCK") ∷ [])
    else if compare_buffer_to_cmd buffer di_slock_text len
    then (
      record s { slock_enable = false },
      send_arm_response (codes "Sensor Lock Overridden") ∷ [],
    )
    else (s, send_arm_response (codes "UNKNOWN COMMAND") ∷ [])
