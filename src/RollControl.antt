-- ===== src/RollControl.antt =====
-- src/rollcontrol.c: the PID controller that turns the roll rate into a canard angle, and when the
-- servos are enabled.
pub mod Range
pub mod Enable
pub mod Timeout
pub mod Tests
use av3_fc.Base.Int.{ℤ, pos, negsuc}
use av3_fc.Base.{
  ℕ, suc, ◌+◌, ◌*◌, ◌%◌, ◌^◌, Bool, true, false, not, ◌&&◌, ◌||◌, List, [], ◌∷◌, ◌++◌, ltb, ◌==◌,
  if◌then◌else◌, get_or,
}
use av3_fc.Base.Bytes.{Bytes, codes, memeq}
use av3_fc.Command.{compare_buffer_to_cmd}
use av3_fc.Double.{DoubleOps}
use av3_fc.Fins.{estimate_alpha}
use av3_fc.Message.{RollMessage}
use av3_fc.Packet.{StateData, sizeof, roll_servo_data}
use av3_fc.Time.{from_psas_time}

-- The static variables.
pub record State (D : Type 0) : Type 0 where
  pub last_error : D
  pub integrator : D
  pub sd : ℤ
  pub enable_servo : Bool
  pub armed : Bool
  pub launched : Bool
  pub timeout : ℕ

-- A call of `rc_send_servo`, a `write` on `sd`, a `close` of `sd`.
pub data Output : Type 0 where
  rc_send_servo : RollMessage → Output
  send_servo_response : Bytes → Output
  close : Output

-- The inputs of the module, each with the time of its call where one is taken.
pub data Input (D : Type 0) : Type 0 where
  vste : Bytes → Bytes → Bytes → StateData D → Input D
  signal : Bytes → Bytes → Input D
  umbilical : Bytes → Bytes → Bytes → Input D
  test : Bytes → Bytes → ℕ → Input D

-- `TIMEOUT`, two minutes.
abbrev pub timeout_ns : ℕ
timeout_ns = 120 * 1_000_000_000

-- `strcmp(signal, text) == 0`, for the text without its NUL and the bytes before the signal's NUL.
unfoldable pub streq : Bytes → Bytes → Bool
streq [] [] = true
streq (x ∷ a) (y ∷ b) = x == y && streq a b
streq _ _ = false

abbrev failed : ℤ → Bool
failed (pos n) = false
failed (negsuc n) = true

module _ {D : Type 0} (F : DoubleOps D) where
  open F use {lit, of_int, add, sub, mul, div, lt, bytes_of}

  abbrev pub max_canard_angle : D
  max_canard_angle = of_int (pos 15)

  abbrev pub min_canard_angle : D
  min_canard_angle = of_int (negsuc 14)

  abbrev kp : D
  kp = lit 50 1

  abbrev ki : D
  ki = lit 1 2

  abbrev kd : D
  kd = of_int (pos 0)

  abbrev pid_target : D
  pid_target = of_int (pos 0)

  abbrev pub integrator_max : D
  integrator_max = div (of_int (pos 100)) ki

  abbrev pub integrator_min : D
  integrator_min = div (of_int (negsuc 99)) ki

  -- `CLAMP`
  unfoldable pub clamp : D → D → D → D
  clamp value lower upper =
      if lt value lower then lower else if lt upper value then upper else value

  abbrev pub set_servo_enable : Bool → State D → State D
  set_servo_enable enable s = record s { enable_servo = enable }

  abbrev pub set_armed : Bool → State D → State D
  set_armed arm s = set_servo_enable arm (record s { armed = arm })

  -- With the results of `udp_socket` and `connect`.
  unfoldable pub rollcontrol_init : ℤ → ℤ → State D → State D × List Output
  rollcontrol_init socket connected s =
      let s' = record (set_armed false s) { sd = socket } in
      if failed socket then (s', []) else if failed connected then (s', close ∷ []) else (s', [])

  -- The message of `set_canard_angle`; `now` is what `get_psas_time` gives.
  unfoldable pub set_canard_angle : Bytes → D → State D → Output
  unfolding clamp
  set_canard_angle now degrees s = rc_send_servo (record {
    id = codes "ROLL";
    timestamp = now;
    data_length = sizeof roll_servo_data;
    angle = bytes_of (clamp degrees min_canard_angle max_canard_angle);
    disable = if s.enable_servo then 0 else 1;
  })

  -- `detect` is the first byte of the message.
  unfoldable pub rc_raw_umb : Bytes → Bytes → Bytes → State D → State D
  unfolding memeq
  rc_raw_umb id timestamp contents s =
      if not (memeq 4 id (codes "RNHU"))
      then s
      else (let detect = not (get_or contents 0 0 == 0) in
          let s' =
            if not s.launched && not detect
            then record s { timeout = (from_psas_time timestamp + timeout_ns) % 2 ^ 64 }
            else s in
          record s' { launched = not detect })

  unfoldable pub check_timeout : Bytes → Bytes → State D → State D × List Output
  check_timeout now timestamp s =
      if not s.launched || not s.enable_servo
      then (s, [])
      else if ltb s.timeout (from_psas_time timestamp)
      then (let s' = set_servo_enable false s in
          (s', set_canard_angle now (of_int (pos 0)) s' ∷ []))
      else (s, [])

  -- The controller: the correction for a roll rate, and the new static variables.
  unfoldable pub pid : D → State D → D × State D
  pid roll_rate s =
      let error = sub pid_target roll_rate in
      let proportional = mul kp error in
      let integral = mul ki s.integrator in
      let derivative = mul kd (sub error s.last_error) in
      let correction = add (add proportional integral) derivative in
      let sum = add s.integrator error in
      let integrator' =
        if lt integrator_max sum
        then integrator_max
        else if lt sum integrator_min
        then integrator_min
        else sum in
      (correction, record s { last_error = error; integrator = integrator' })

  -- `rc_receive_state` behind `check_timeout`.
  unfoldable pub control : Bytes → Bytes → StateData D → State D → State D × List Output
  control now id state s =
      if not s.enable_servo
      then (s, [])
      else if not (memeq 4 id (codes "VSTE"))
      then (s, [])
      else (let (correction, s') = pid state.roll_rate s in
          (s', set_canard_angle now (estimate_alpha F correction state) s' ∷ []))

  unfoldable pub rc_receive_state :
      Bytes → Bytes → Bytes → StateData D → State D → State D × List Output
  unfolding check_timeout control
  rc_receive_state now id timestamp state s =
      let (s', outs) = check_timeout now timestamp s in
      let (s'', outs') = control now id state s' in (s'', outs ++ outs')

  unfoldable pub rc_receive_arm : Bytes → Bytes → State D → State D × List Output
  unfolding streq
  rc_receive_arm now code s =
      if streq code (codes "ARM")
      then (set_armed true s, [])
      else if streq code (codes "SAFE")
      then (let s' = set_armed false s in (s', set_canard_angle now (of_int (pos 0)) s' ∷ []))
      else (s, [])

  unfoldable pub rc_raw_testrc : Bytes → Bytes → ℕ → State D → State D × List Output
  rc_raw_testrc now buffer len s =
      if not s.armed
      then (if compare_buffer_to_cmd buffer (codes "ENABLE") len
          then (
            set_servo_enable true s,
            send_servo_response (codes "Roll control servos enabled") ∷ [],
          )
          else if compare_buffer_to_cmd buffer (codes "DISABLE") len
          then (let s' = set_servo_enable false s in
              (
                s',
                set_canard_angle now (of_int (pos 0)) s'
                    ∷ send_servo_response (codes "Roll control servos disabled")
                    ∷ [],
              ))
          else (s, send_servo_response (codes "Unknown servo command") ∷ []))
      else (
        s,
        send_servo_response (codes "Roll control servos state not changed due to being armed") ∷ [],
      )

  -- The handler that an input calls.
  unfoldable pub step : Input D → State D → State D × List Output
  step (vste now id timestamp state) s = rc_receive_state now id timestamp state s
  step (signal now code) s = rc_receive_arm now code s
  step (umbilical id timestamp contents) s = (rc_raw_umb id timestamp contents s, [])
  step (test now buffer len) s = rc_raw_testrc now buffer len s

  -- The handlers for the inputs that arrive, in order.
  unfoldable pub run : List (Input D) → State D → State D × List Output
  run [] s = (s, [])
  run (i ∷ is) s = let (s', outs) = step i s in let (s'', outs') = run is s' in (s'', outs ++ outs')
