-- ===== src/StateEstimate/Tests.antt =====
-- A flight of three samples, with whole numbers for `double`.
use av3_fc.Base.Int.{ℤ, pos}
use av3_fc.Base.{ℕ, List, [], ◌∷◌, ◌≡◌, refl, false, map}
use av3_fc.Base.Bytes.{codes}
use av3_fc.Double.Whole.{whole}
use av3_fc.Message.{Message}
use av3_fc.Packet.{StateData}
use av3_fc.StateEstimate.{State, is_strong}
use av3_fc.StateEstimate.Launch.{run, times_since, now_of, whole_flight}

-- A sample at a time, with an acceleration along the rocket.
abbrev sample : ℕ → ℕ → Message
sample t a = record {
  id = codes "ADIS";
  timestamp = 0 ∷ 0 ∷ 0 ∷ 0 ∷ 0 ∷ t ∷ [];
  data_length = 24;
  body = 0 ∷ 0 ∷ 0 ∷ 0 ∷ 0 ∷ 0 ∷ 0 ∷ 0 ∷ 0 ∷ a ∷ [];
}

abbrev on_pad : State ℤ
on_pad = record {
  current = record {
    time = pos 0;
    acc_up = pos 0;
    vel_up = pos 0;
    altitude = pos 1390;
    roll_rate = pos 0;
    roll_angle = pos 0;
  };
  last_time = 0;
  has_launched = false;
  launch_time = 0;
}

whole_flight_example :
    (flight : List (StateData ℤ)) × ((run whole
        (sample 1 0 ∷ sample 2 9 ∷ sample 3 0 ∷ [])
        on_pad).1
      ≡ on_pad.current ∷ flight)
    × (map (λ c. c.time) flight
        ≡ times_since whole (now_of (sample 2 9)) (sample 2 9 ∷ sample 3 0 ∷ []))
unfolding is_strong
whole_flight_example =
    whole_flight whole (sample 1 0 ∷ []) (sample 2 9) (sample 3 0 ∷ []) on_pad refl (refl, tt) refl
