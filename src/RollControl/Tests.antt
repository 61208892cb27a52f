-- ===== src/RollControl/Tests.antt =====
-- Runs of the roll control, with whole numbers for `double`.
use av3_fc.Base.Int.{ℤ, pos}
use av3_fc.Base.{[], ◌∷◌, refl, true, false}
use av3_fc.Base.Bytes.{Bytes, codes}
use av3_fc.Double.Whole.{whole, whole-laws}
use av3_fc.Packet.{StateData}
use av3_fc.RollControl.{State, Input, vste, step}
use av3_fc.RollControl.Range.{SendsSafely, IsBounded, step_safe, step-IsBounded}

-- On the pad, and disarmed.
abbrev idle : State ℤ
idle = record {
  last_error = pos 0;
  integrator = pos 0;
  sd = pos 3;
  enable_servo = false;
  armed = false;
  launched = false;
  timeout = 0;
}

abbrev enabled : State ℤ
enabled = record idle { enable_servo = true; armed = true }

-- In flight, rolling.
abbrev rolling : StateData ℤ
rolling = record {
  time = pos 3;
  acc_up = pos 9;
  vel_up = pos 200;
  altitude = pos 2000;
  roll_rate = pos 40;
  roll_angle = pos 0;
}

abbrev second : Bytes
second = 0 ∷ 0 ∷ 59 ∷ 154 ∷ 202 ∷ 0 ∷ []

abbrev estimate : Input ℤ
estimate = vste second (codes "VSTE") second rolling

step_safe_example : SendsSafely whole whole-laws (step whole estimate enabled)
step_safe_example = step_safe whole whole-laws estimate enabled

step-IsBounded_example : IsBounded whole whole-laws (step whole estimate enabled).0
step-IsBounded_example = step-IsBounded whole whole-laws estimate enabled (refl, refl)
