-- ===== src/Arm/Lock.antt =====
-- The sensor lock: what the state says about all that was received, and when the rocket is armed.
use av3_fc.Base.Int.{ℤ}
use av3_fc.Base.{
  ℕ, suc, ◌≤◌, Bool, true, false, not, ◌&&◌, ◌||◌, List, [], ◌∷◌, ◌≡◌, arith, leb, ◌==◌,
  if◌then◌else◌, get_or, min, take, length,
}
use av3_fc.Base.Bytes.{Bytes, codes, memeq}
use av3_fc.Command.{compare_buffer_to_cmd, prefix_accepted}
use av3_fc.Double.{DoubleOps}
use av3_fc.Message.{Message}
use av3_fc.Arm.{
  State, Output, arm_send_signal, zeroed, arm_init, is_upright, arm_receive_imu, arm_receive_gps,
  arm_raw_in, arm_text, safe_text, en_slock_text, di_slock_text,
}

-- What the module receives.
pub data Input : Type 0 where
  imu gps : Message → Input
  command : Bytes → ℕ → Input

-- Whether a packet switches the sensor lock: `Option` of the new setting.
pub data Switch : Type 0 where
  on off unchanged : Switch

-- The texts are tried in the order of the source, so a packet that arms or disarms is no switch.
abbrev pub switch_of : Bytes → ℕ → Switch
switch_of buffer len =
    if compare_buffer_to_cmd buffer arm_text len || compare_buffer_to_cmd buffer safe_text len
    then unchanged
    else if compare_buffer_to_cmd buffer en_slock_text len
    then on
    else if compare_buffer_to_cmd buffer di_slock_text len
    then off
    else unchanged

abbrev pub switched : Switch → Bool → Bool
switched on b = true
switched off b = false
switched unchanged b = b

-- Whether a sequence of calls of senders sends the signal to arm.
abbrev pub sends_arm : List Output → Bool
sends_arm [] = false
sends_arm (arm_send_signal code ∷ os) = memeq 3 code (codes "ARM") || sends_arm os
sends_arm (_ ∷ os) = sends_arm os

-- The setting of the lock after a history, the newest input first: on, until a packet turns it off.
abbrev pub lock_after : List Input → Bool
lock_after [] = true
lock_after (command buffer len ∷ older) = switched (switch_of buffer len) (lock_after older)
lock_after (imu m ∷ older) = lock_after older
lock_after (gps m ∷ older) = lock_after older

-- Whether the newest V8A8 message has a 3D fix.
abbrev pub fix_after : List Input → Bool
fix_after [] = false
fix_after (gps m ∷ older) =
    if memeq 4 (codes "V8A8") m.id then leb 2 (get_or m.body 0 0) else fix_after older
fix_after (imu m ∷ older) = fix_after older
fix_after (command buffer len ∷ older) = fix_after older

module _ {D : Type 0} (F : DoubleOps D) where
  -- How many IMU samples in a row, the newest included, show the rocket upright.
  abbrev pub streak : List Input → ℕ
  streak [] = 0
  streak (imu m ∷ older) = if is_upright F m then suc (streak older) else 0
  streak (gps m ∷ older) = streak older
  streak (command buffer len ∷ older) = streak older

  unfoldable pub step : Input → State → State
  step (imu m) s = arm_receive_imu F m s
  step (gps m) s = arm_receive_gps m s
  step (command buffer len) s = (arm_raw_in buffer len s).0

  -- The state after `arm_init` and a history, the newest input first.
  unfoldable pub after : ℤ → ℤ → List Input → State
  after socket connected [] = (arm_init socket connected zeroed).0
  after socket connected (i ∷ older) = step i (after socket connected older)

  -- What the state holds of a history.
  pub record Reflects (h : List Input) (s : State) : Type 0 where
    pub lock : s.slock_enable ≡ lock_after h
    pub fix : s.gps_locked ≡ fix_after h
    pub count : s.upright ≡ min 100 (streak h)

  step-Reflects :
      (i : Input) (h : List Input) (s : State) → Reflects h s → Reflects (i ∷ h) (step i s)
  unfolding step arm_receive_imu arm_receive_gps arm_raw_in
  step-Reflects (imu m) h s r = ground arith
  step-Reflects (gps m) h s r = ground arith
  step-Reflects (command buffer len) h s r = ground arith

  -- After any history the state is what the history says: the lock is the newest switch, the fix
  -- that of the newest V8A8 message, and `upright` counts the upright samples in a row, up to 100.
  pub after-Reflects :
      (socket connected : ℤ) (h : List Input) → Reflects h (after socket connected h)
  unfolding after arm_init
  after-Reflects socket connected [] = ground arith
  after-Reflects socket connected (i ∷ older) =
      step-Reflects i older (after socket connected older) (after-Reflects socket connected older)

  sends_arm-arm_raw_in :
      (buffer : Bytes) (len : ℕ) (s : State)
      → sends_arm (arm_raw_in buffer len s).1 ≡ (
          compare_buffer_to_cmd buffer arm_text len
          && (s.gps_locked && s.upright == 100 || not s.slock_enable))
  unfolding arm_raw_in memeq
  sends_arm-arm_raw_in buffer len s = ground arith

  pub hundred : (n : ℕ) → (min 100 n == 100) ≡ leb 100 n
  hundred n = ground arith

  -- After any history a packet sends the signal to arm exactly when it is taken for #YOLO and
  -- either the sensor lock is off, or the newest V8A8 message had a 3D fix and at least the last 100
  -- IMU samples were upright.
  pub arms_exactly_when :
      (socket connected : ℤ) (h : List Input) (buffer : Bytes) (len : ℕ)
      → sends_arm (arm_raw_in buffer len (after socket connected h)).1 ≡ (
          compare_buffer_to_cmd buffer arm_text len
          && (fix_after h && leb 100 (streak h) || not (lock_after h)))
  arms_exactly_when socket connected h buffer len =
      let r = after-Reflects socket connected h in
      rw (
        sends_arm-arm_raw_in buffer len (after socket connected h),
        r.lock,
        r.fix,
        r.count,
        hundred (streak h),
      )

-- Where the sensor lock is off, any packet of at most five bytes that begins the text #YOLO arms
-- the rocket, a lone # included.
pub prefix_arms :
    (buffer : Bytes) (len : ℕ) (s : State)
    → len ≤ 5
    → len ≤ length buffer
    → take len buffer ≡ take len arm_text
    → s.slock_enable ≡ false
    → sends_arm (arm_raw_in buffer len s).1 ≡ true
unfolding arm_raw_in memeq
prefix_arms buffer len s h g e lock =
    ground (arith, prefix_accepted buffer arm_text len (omega arith) g h e)
