-- ===== src/StateEstimate.antt =====
-- src/state.c: the state estimation, which integrates the IMU's samples from launch on.
pub mod Launch
pub mod Tests
use av3_fc.Base.Int.{ℤ, pos, negsuc, signed16}
use av3_fc.Base.{
  ℕ, ◌+◌, ◌-◌, ◌%◌, ◌^◌, Bool, true, false, not, ◌&&◌, ◌==◌, if◌then◌else◌, List, [], ◌∷◌,
}
use av3_fc.Base.Bytes.{Bytes, codes, load_be16}
use av3_fc.Double.{DoubleOps}
use av3_fc.Message.{Message}
use av3_fc.Packet.{StateData}
use av3_fc.Time.{from_psas_time}

-- The static variables.
pub record State (D : Type 0) : Type 0 where
  pub current : StateData D
  pub last_time : ℕ
  pub has_launched : Bool
  pub launch_time : ℕ

-- A call of `state_send_message("VSTE", timestamp, sizeof(StateData), &current_state)`.
pub record Output (D : Type 0) : Type 0 where
  pub id : Bytes
  pub timestamp : Bytes
  pub state : StateData D

module _ {D : Type 0} (F : DoubleOps D) where
  open F use {lit, of_int, neg, fabs, add, sub, mul, div, lt}

  abbrev zero_d : D
  zero_d = of_int (pos 0)

  abbrev pub launch_altitude : D
  launch_altitude = lit 13900 1

  abbrev pub adis_glsb : D
  adis_glsb = mul (lit 333 5) (lit 980665 5)

  abbrev pub adis_rlsb : D
  adis_rlsb = lit 5 2

  unfoldable pub state_init : State D → State D
  state_init s = record s {
    has_launched = false;
    current = record {
      time = zero_d;
      acc_up = zero_d;
      vel_up = zero_d;
      altitude = launch_altitude;
      roll_rate = zero_d;
      roll_angle = zero_d;
    };
  }

  -- A difference of times in nanoseconds, in 64-bit arithmetic, as seconds.
  abbrev pub seconds : ℕ → ℕ → D
  seconds now before = div (of_int (pos ((now + 2 ^ 64 - before) % 2 ^ 64))) (lit 1_000_000_000 0)

  -- `acc_x` stands at offset 8 of the message, `gyro_x` at 2.
  abbrev pub accel : Message → D
  accel m = mul adis_glsb (of_int (signed16 (load_be16 m.body 8)))

  abbrev pub roll_rate : Message → D
  roll_rate m = mul adis_rlsb (of_int (signed16 (load_be16 m.body 2)))

  -- `fabs(accel) > 40`
  unfoldable pub is_strong : Message → Bool
  is_strong m = lt (of_int (pos 40)) (fabs (accel m))

  -- The integration of one sample.
  unfoldable pub integrate : ℕ → Message → State D → StateData D
  integrate now m s =
      let c = s.current in
      let dt = seconds now s.last_time in
      let acc = sub (accel m) (lit 981 2) in
      let vel = add c.vel_up (mul acc dt) in
      record {
        time = seconds now s.launch_time;
        acc_up = acc;
        vel_up = vel;
        altitude = add c.altitude (mul vel dt);
        roll_rate = neg (roll_rate m);
        roll_angle = add c.roll_angle (mul (roll_rate m) dt);
      }

  unfoldable pub state_receive_imu : Message → State D → State D × Output D
  unfolding is_strong integrate
  state_receive_imu m s =
      let now = from_psas_time m.timestamp in
      let s1 =
        if not s.has_launched && is_strong m
        then record s { has_launched = true; launch_time = now }
        else s in
      let s2 = if s1.last_time == 0 then record s1 { last_time = now } else s1 in
      let s3 = if s2.has_launched then record s2 { current = integrate now m s2 } else s2 in
      (
        record s3 { last_time = now },
        record { id = codes "VSTE"; timestamp = m.timestamp; state = s3.current },
      )
