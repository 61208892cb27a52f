-- ===== src/Packet/Satellites.antt =====
-- src/utilities/psas_packet.h: the data of the GPS message on the satellites.
use Prim.Native.String.{String, ◌++◌ as ◌<>◌}
use av3_fc.Base.{[], ◌∷◌, ◌++◌}
use av3_fc.Packet.{Layout, double, int16_t, int8_t, uint16_t, uint8_t}

-- The fields of one satellite, whose names end in its number.
abbrev satellite : String → Layout
satellite k =
    (("channel_" <> k, uint8_t)
      ∷ ("tracked_" <> k, uint8_t)
      ∷ ("status_" <> k, uint8_t)
      ∷ ("last_subframe_" <> k, uint8_t)
      ∷ ("ephm_v_flag_" <> k, uint8_t)
      ∷ ("ephm_health_" <> k, uint8_t)
      ∷ [])
    ++ (("alm_v_flag_" <> k, uint8_t)
        ∷ ("alm_health_" <> k, uint8_t)
        ∷ ("elev_angle_" <> k, int8_t)
        ∷ ("azimuth_angle_" <> k, uint8_t)
        ∷ ("ura_" <> k, uint8_t)
        ∷ ("spare_" <> k, uint8_t)
        ∷ [])
    ++ (("cli_for_snr_" <> k, uint16_t)
        ∷ ("diffcorr_" <> k, int16_t)
        ∷ ("pos_resid_" <> k, int16_t)
        ∷ ("vel_resid_" <> k, int16_t)
        ∷ ("dopplr_" <> k, int16_t)
        ∷ ("n_carr_offset_" <> k, int16_t)
        ∷ [])

abbrev pub gps_satellite_data : Layout
gps_satellite_data =
    (("nav_mode_2", uint8_t)
      ∷ ("utc_time_diff", uint8_t)
      ∷ ("gps_week", uint16_t)
      ∷ ("gps_time_of_week", double)
      ∷ [])
    ++ satellite "0"
    ++ satellite "1"
    ++ satellite "2"
    ++ satellite "3"
    ++ satellite "4"
    ++ satellite "5"
    ++ satellite "6"
    ++ satellite "7"
    ++ satellite "8"
    ++ satellite "9"
    ++ satellite "10"
    ++ satellite "11"
    ++ (("clock_err_l1", int16_t) ∷ ("spare", uint16_t) ∷ [])
