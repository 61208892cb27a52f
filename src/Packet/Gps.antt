-- ===== src/Packet/Gps.antt =====
-- src/utilities/psas_packet.h: the data of the messages of the GPS receiver of older flights.
use av3_fc.Base.{[], ◌∷◌, ◌++◌}
use av3_fc.Packet.{Layout, array, char, double, float, int32_t, uint16_t, uint32_t, uint8_t}

abbrev pub gps_fix_data : Layout
gps_fix_data =
    (("age_of_diff", uint8_t)
      ∷ ("num_of_sats", uint8_t)
      ∷ ("gps_week", uint16_t)
      ∷ ("gps_time_of_week", double)
      ∷ ("latitude", double)
      ∷ ("longitude", double)
      ∷ [])
    ++ (("height", float)
        ∷ ("vnorth", float)
        ∷ ("veast", float)
        ∷ ("vup", float)
        ∷ ("std_dev_resid", float)
        ∷ ("nav_mode", uint16_t)
        ∷ [])
    ++ (("extended_age_of_diff", uint16_t) ∷ [])

abbrev pub gps_fix_quality_data : Layout
gps_fix_quality_data =
    ("mask_sats_tracked", uint32_t)
    ∷ ("mask_sats_used", uint32_t)
    ∷ ("gps_utc_diff", uint16_t)
    ∷ ("hdop", uint16_t)
    ∷ ("vdop", uint16_t)
    ∷ ("mask_waas_prn", uint16_t)
    ∷ []

abbrev pub gps_waas_message_data : Layout
gps_waas_message_data =
    ("prn", uint16_t)
    ∷ ("spare", uint16_t)
    ∷ ("msg_sec_of_week", uint32_t)
    ∷ ("waas_msg", array char 32)
    ∷ []

abbrev pub gps_waas_ephemeris_data : Layout
gps_waas_ephemeris_data =
    (("sv", uint16_t)
      ∷ ("spare", uint16_t)
      ∷ ("tow_sec_of_week", uint32_t)
      ∷ ("iode", uint16_t)
      ∷ ("ura", uint16_t)
      ∷ ("t_zero", int32_t)
      ∷ [])
    ++ (("xg", int32_t)
        ∷ ("yg", int32_t)
        ∷ ("zg", int32_t)
        ∷ ("xg_dot", int32_t)
        ∷ ("yg_dot", int32_t)
        ∷ ("zg_dot", int32_t)
        ∷ [])
    ++ (("xg_dotdot", int32_t)
        ∷ ("yg_dotdot", int32_t)
        ∷ ("zg_dotdot", int32_t)
        ∷ ("gf_zero", uint16_t)
        ∷ ("gf_zero_dot", uint16_t)
        ∷ [])

abbrev pub gps_ionosphere_utc_data : Layout
gps_ionosphere_utc_data =
    (("a0", double)
      ∷ ("a1", double)
      ∷ ("a2", double)
      ∷ ("a3", double)
      ∷ ("b0", double)
      ∷ ("b1", double)
      ∷ [])
    ++ (("b2", double)
        ∷ ("b3", double)
        ∷ ("utc_a0", double)
        ∷ ("utc_a1", double)
        ∷ ("tot", uint32_t)
        ∷ ("wnt", uint16_t)
        ∷ [])
    ++ (("wnlsf", uint16_t)
        ∷ ("dn", uint16_t)
        ∷ ("dtls", uint16_t)
        ∷ ("dtlsf", uint16_t)
        ∷ ("space", uint16_t)
        ∷ [])

abbrev pub gps_ephemeris_data : Layout
gps_ephemeris_data =
    ("sv", uint16_t)
    ∷ ("spare", uint16_t)
    ∷ ("sec_of_week", uint32_t)
    ∷ ("sf1_words", array char 40)
    ∷ ("sf2_words", array char 40)
    ∷ ("sf3_words", array char 40)
    ∷ []

abbrev pub gps_psudorange_data : Layout
gps_psudorange_data =
    (("spare", uint16_t)
      ∷ ("week", uint16_t)
      ∷ ("tow", double)
      ∷ ("uics_tt_snr_prn_0", uint32_t)
      ∷ ("uics_tt_snr_prn_1", uint32_t)
      ∷ ("uics_tt_snr_prn_2", uint32_t)
      ∷ [])
    ++ (("uics_tt_snr_prn_3", uint32_t)
        ∷ ("uics_tt_snr_prn_4", uint32_t)
        ∷ ("uics_tt_snr_prn_5", uint32_t)
        ∷ ("uics_tt_snr_prn_6", uint32_t)
        ∷ ("uics_tt_snr_prn_7", uint32_t)
        ∷ ("uics_tt_snr_prn_8", uint32_t)
        ∷ [])
    ++ (("uics_tt_snr_prn_9", uint32_t)
        ∷ ("uics_tt_snr_prn_10", uint32_t)
        ∷ ("uics_tt_snr_prn_11", uint32_t)
        ∷ ("uidoppler_fl_0", uint32_t)
        ∷ ("uidoppler_fl_1", uint32_t)
        ∷ ("uidoppler_fl_2", uint32_t)
        ∷ [])
    ++ (("uidoppler_fl_3", uint32_t)
        ∷ ("uidoppler_fl_4", uint32_t)
        ∷ ("uidoppler_fl_5", uint32_t)
        ∷ ("uidoppler_fl_6", uint32_t)
        ∷ ("uidoppler_fl_7", uint32_t)
        ∷ ("uidoppler_fl_8", uint32_t)
        ∷ [])
    ++ (("uidoppler_fl_9", uint32_t)
        ∷ ("uidoppler_fl_10", uint32_t)
        ∷ ("uidoppler_fl_11", uint32_t)
        ∷ ("pseudorange_0", double)
        ∷ ("pseudorange_1", double)
        ∷ ("pseudorange_2", double)
        ∷ [])
    ++ (("pseudorange_3", double)
        ∷ ("pseudorange_4", double)
        ∷ ("pseudorange_5", double)
        ∷ ("pseudorange_6", double)
        ∷ ("pseudorange_7", double)
        ∷ ("pseudorange_8", double)
        ∷ [])
    ++ (("pseudorange_9", double)
        ∷ ("pseudorange_10", double)
        ∷ ("pseudorange_11", double)
        ∷ ("phase_0", double)
        ∷ ("phase_1", double)
        ∷ ("phase_2", double)
        ∷ [])
    ++ (("phase_3", double)
        ∷ ("phase_4", double)
        ∷ ("phase_5", double)
        ∷ ("phase_6", double)
        ∷ ("phase_7", double)
        ∷ ("phase_8", double)
        ∷ [])
    ++ (("phase_9", double) ∷ ("phase_10", double) ∷ ("phase_11", double) ∷ [])

abbrev pub gps_processor_data : Layout
gps_processor_data =
    (("cpu_availible", uint32_t)
      ∷ ("missed_sub_frames", uint16_t)
      ∷ ("max_subframe_queued", uint16_t)
      ∷ ("missed_accum", uint16_t)
      ∷ ("missed_meas", uint16_t)
      ∷ ("spare1", uint32_t)
      ∷ [])
    ++ (("spare2", uint32_t)
        ∷ ("spare3", uint32_t)
        ∷ ("spare4", uint16_t)
        ∷ ("spare5", uint16_t)
        ∷ [])

abbrev pub gps_almanac_data : Layout
gps_almanac_data =
    ("alman_data", array char 64)
    ∷ ("last_alman", uint8_t)
    ∷ ("ionoutcv_flag", uint8_t)
    ∷ ("spare", uint16_t)
    ∷ []
