-- ===== src/Tests.antt =====
-- Runs of the smaller parts, and of the faults, on concrete values.
use av3_fc.Base.Int.{ℤ, pos}
use av3_fc.Base.{[], ◌∷◌, ◌++◌, ◌≡◌, ◌↔◌, refl, true, none, some, take, arith}
use av3_fc.Base.Bytes.{Bytes, codes}
use av3_fc.Command.{compare_buffer_to_cmd, c_string, compare_lem}
use av3_fc.Faults.{empty_frame, empty_frame_message, empty_frame_faults}
use av3_fc.Filter.{filter_receive, filter_to_disk}
use av3_fc.Gps.{round, emit}
use av3_fc.Logger
use av3_fc.Logger.{log_write_disk_only}
use av3_fc.Packet.{
  StateData, sizeof, field, int16_t, uint8_t, double, adis16405_data, venus8_navigation_data,
}
use av3_fc.Packet.Messages.{roll_message}
use av3_fc.Time.{from_psas_time, to_psas_time, at, from_psas_time-to_psas_time}

-- Started at 5.9 s, read at 7.1 s.
from_psas_time-to_psas_time_example :
    from_psas_time (to_psas_time (at 5 900_000_000) (at 7 100_000_000)) ≡ 1_200_000_000
from_psas_time-to_psas_time_example =
    from_psas_time-to_psas_time 5 900_000_000 7 100_000_000 (omega arith) (omega arith)
      (omega arith)

compare_lem_example :
    (compare_buffer_to_cmd (codes "#SAFELY") (codes "#SAFE") 7 ≡ true)
    ↔ (take 6 (codes "#SAFELY") ≡ take 6 (c_string (codes "#SAFE")))
compare_lem_example =
    compare_lem (codes "#SAFELY") (codes "#SAFE") 7
      (ground arith, (ground arith, (ground arith, (ground arith, (ground arith, tt)))))
      (omega arith)

abbrev fast : StateData ℤ
fast = record {
  time = pos 3;
  acc_up = pos 9;
  vel_up = pos 300;
  altitude = pos 2000;
  roll_rate = pos 0;
  roll_angle = pos 0;
}

abbrev now : Bytes
now = 0 ∷ 0 ∷ 0 ∷ 0 ∷ 0 ∷ 9 ∷ []

empty_frame_faults_example :
    (round now (empty_frame ++ 4 ∷ []) ≡ emit (empty_frame_message now) (4 ∷ []))
    × (filter_receive (empty_frame_message now) ≡ filter_to_disk (empty_frame_message now))
    × (log_write_disk_only now (empty_frame_message now) Logger.initial ≡ none)
empty_frame_faults_example = empty_frame_faults now (4 ∷ []) now Logger.initial

-- The offsets at which src/arm.c, src/state.c and src/logger.c read or write.
field_offsets :
    (field adis16405_data "gyro_x" ≡ some (2, int16_t))
    × (field adis16405_data "acc_x" ≡ some (8, int16_t))
    × (field adis16405_data "acc_y" ≡ some (10, int16_t))
    × (field adis16405_data "acc_z" ≡ some (12, int16_t))
    × (field venus8_navigation_data "fix_mode" ≡ some (0, uint8_t))
    × (field roll_message "angle" ≡ some (12, double))
    × (field roll_message "disable" ≡ some (20, uint8_t))
field_offsets = (refl, refl, refl, refl, refl, refl, refl)

-- The data of a navigation message, behind its ID.
venus8_size : sizeof venus8_navigation_data ≡ 58
venus8_size = refl
