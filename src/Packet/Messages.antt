-- ===== src/Packet/Messages.antt =====
-- src/utilities/psas_packet.h and src/devices/rnh.h: the messages, which are the header and data. The
-- fields of the structure `data` stand for it.
use av3_fc.Base.{[], ◌∷◌, ◌++◌}
use av3_fc.Packet.{
  Layout, uint8_t, array, message_header, adis16405_data, fcf_health_data,
  launch_tower_computer_data, mpl3115a2_data, bmp180_data, rnh_health_data, rnh_power_data,
  rnh_umbilical_data, roll_servo_data, sequence_error_data, sequence_no_data,
  venus8_navigation_data, state_data,
}
use av3_fc.Packet.Gps.{
  gps_fix_data, gps_fix_quality_data, gps_waas_message_data, gps_waas_ephemeris_data,
  gps_ionosphere_utc_data, gps_ephemeris_data, gps_psudorange_data, gps_processor_data,
  gps_almanac_data,
}
use av3_fc.Packet.Satellites.{gps_satellite_data}

abbrev pub adis_message : Layout
adis_message = message_header ++ adis16405_data

abbrev pub fcfh_message : Layout
fcfh_message = message_header ++ fcf_health_data

abbrev pub gps1_message : Layout
gps1_message = message_header ++ gps_fix_data

abbrev pub gps2_message : Layout
gps2_message = message_header ++ gps_fix_quality_data

abbrev pub gps80_message : Layout
gps80_message = message_header ++ gps_waas_message_data

abbrev pub gps93_message : Layout
gps93_message = message_header ++ gps_waas_ephemeris_data

abbrev pub gps94_message : Layout
gps94_message = message_header ++ gps_ionosphere_utc_data

abbrev pub gps95_message : Layout
gps95_message = message_header ++ gps_ephemeris_data

abbrev pub gps96_message : Layout
gps96_message = message_header ++ gps_psudorange_data

abbrev pub gps97_message : Layout
gps97_message = message_header ++ gps_processor_data

abbrev pub gps98_message : Layout
gps98_message = message_header ++ gps_almanac_data

abbrev pub gps99_message : Layout
gps99_message = message_header ++ gps_satellite_data

abbrev pub ltch_message : Layout
ltch_message = message_header ++ launch_tower_computer_data

abbrev pub mpl3_message : Layout
mpl3_message = message_header ++ mpl3115a2_data

abbrev pub bmp1_message : Layout
bmp1_message = message_header ++ bmp180_data

abbrev pub rnhh_message : Layout
rnhh_message = message_header ++ rnh_health_data

abbrev pub rnhp_message : Layout
rnhp_message = message_header ++ rnh_power_data

abbrev pub rnhu_message : Layout
rnhu_message = message_header ++ rnh_umbilical_data

abbrev pub roll_message : Layout
roll_message = message_header ++ roll_servo_data

abbrev pub seqe_message : Layout
seqe_message = message_header ++ sequence_error_data

abbrev pub seqn_message : Layout
seqn_message = message_header ++ sequence_no_data

abbrev pub v8a8_message : Layout
v8a8_message = message_header ++ venus8_navigation_data

abbrev pub vste_message : Layout
vste_message = message_header ++ state_data

-- `RNHMessage` of src/devices/rnh.h
abbrev pub rnh_message : Layout
rnh_message = message_header ++ ("raw", array uint8_t 50) ∷ []

-- The types of messages.
pub data MessageType : Type 0 where
  adis fcfh gps1 gps2 gps80 gps93 gps94 gps95 : MessageType
  gps96 gps97 gps98 gps99 ltch mpl3 bmp1 rnhh : MessageType
  rnhp rnhu roll seqe seqn v8a8 vste : MessageType

abbrev pub data_of : MessageType → Layout
data_of adis = adis16405_data
data_of fcfh = fcf_health_data
data_of gps1 = gps_fix_data
data_of gps2 = gps_fix_quality_data
data_of gps80 = gps_waas_message_data
data_of gps93 = gps_waas_ephemeris_data
data_of gps94 = gps_ionosphere_utc_data
data_of gps95 = gps_ephemeris_data
data_of gps96 = gps_psudorange_data
data_of gps97 = gps_processor_data
data_of gps98 = gps_almanac_data
data_of gps99 = gps_satellite_data
data_of ltch = launch_tower_computer_data
data_of mpl3 = mpl3115a2_data
data_of bmp1 = bmp180_data
data_of rnhh = rnh_health_data
data_of rnhp = rnh_power_data
data_of rnhu = rnh_umbilical_data
data_of roll = roll_servo_data
data_of seqe = sequence_error_data
data_of seqn = sequence_no_data
data_of v8a8 = venus8_navigation_data
data_of vste = state_data

abbrev pub layout_of : MessageType → Layout
layout_of adis = adis_message
layout_of fcfh = fcfh_message
layout_of gps1 = gps1_message
layout_of gps2 = gps2_message
layout_of gps80 = gps80_message
layout_of gps93 = gps93_message
layout_of gps94 = gps94_message
layout_of gps95 = gps95_message
layout_of gps96 = gps96_message
layout_of gps97 = gps97_message
layout_of gps98 = gps98_message
layout_of gps99 = gps99_message
layout_of ltch = ltch_message
layout_of mpl3 = mpl3_message
layout_of bmp1 = bmp1_message
layout_of rnhh = rnhh_message
layout_of rnhp = rnhp_message
layout_of rnhu = rnhu_message
layout_of roll = roll_message
layout_of seqe = seqe_message
layout_of seqn = seqn_message
layout_of v8a8 = v8a8_message
layout_of vste = vste_message
