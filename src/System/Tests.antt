-- ===== src/System/Tests.antt =====
-- A packet of the IMU on the whole program, with whole numbers for `double`.
use av3_fc.Base.Int.{ℤ, pos}
use av3_fc.Base.{ℕ, zero, suc, [], ◌∷◌, ◌≡◌, ◌<◌, ◌^◌, refl, true, false, arith, length, All}
use av3_fc.Base.Bytes.{Bytes}
use av3_fc.Arm
use av3_fc.Ethmux.{Read, Channel, statics, demux}
use av3_fc.Ethmux.Demux.{IsRead}
use av3_fc.Logger
use av3_fc.NetAddrs.{adis_port}
use av3_fc.System.{State}
use av3_fc.System.Typed.{Typed, demux-Typed}
use av3_fc.System.Handlers.{Ok}

abbrev pub zeros : ℕ → Bytes
zeros zero = []
zeros (suc n) = 0 ∷ zeros n

pub length-zeros : (n : ℕ) → length (zeros n) ≡ n
length-zeros zero = refl
length-zeros (suc n) = omega (arith, length-zeros n)

-- Number 0, and an ADIS16405Data of zeros.
abbrev pub imu_packet : Read
imu_packet = record {
  bytes = pos 28;
  buffer = zeros 1500;
  port = adis_port;
  timestamp = 0 ∷ 0 ∷ 0 ∷ 0 ∷ 0 ∷ 7 ∷ [];
}

pub imu_packet-IsRead : IsRead imu_packet
imu_packet-IsRead = record { mtu = length-zeros 1500; in_buffer = λ n e. ground arith }

-- All modules as they are after their init functions, with nothing received.
abbrev pub started : State ℤ
started = record {
  statics = statics;
  buf = [];
  arm = record Arm.zeroed { slock_enable = true };
  estimate = record {
    current = record {
      time = pos 0;
      acc_up = pos 0;
      vel_up = pos 0;
      altitude = pos 1390;
      roll_rate = pos 0;
      roll_angle = pos 0;
    };
    last_time = 0;
    has_launched = false;
    launch_time = 0;
  };
  rc = record {
    last_error = pos 0;
    integrator = pos 0;
    sd = pos 3;
    enable_servo = false;
    armed = false;
    launched = false;
    timeout = 0;
  };
  seq = 0;
  servo = [];
  log = Logger.initial;
}

statics_lt : (c : Channel) → (statics c).next_sequence < 2 ^ 32
unfolding statics
statics_lt c = ground arith

pub started-Ok : Ok started
started-Ok = (
  omega arith,
  record { next_lt = statics_lt; length_is = λ c. refl; id_is = λ c. refl; handler_is = λ c. refl },
  record {
    nested = omega arith;
    net_room = omega arith;
    disk_room = omega arith;
    fits_link = tt;
    numbered = tt;
    counted = omega arith;
  },
  (tt, refl),
)

abbrev pub now : Bytes
now = 0 ∷ 0 ∷ 0 ∷ 0 ∷ 0 ∷ 9 ∷ []

demux-Typed_example : All Typed (demux imu_packet started.statics).1
demux-Typed_example = demux-Typed imu_packet started.statics imu_packet-IsRead started-Ok.1
