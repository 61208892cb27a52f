-- ===== src/Packet.antt =====
-- src/utilities/psas_packet.h, src/devices/rnh.h and src/devices/mpl.h: the packed structures, as the
-- names and types of their fields in order. `sizeof` of a packed structure is the sum of the widths of
-- its fields.
pub mod Fields
pub mod Gps
pub mod Satellites
pub mod Messages
use av3_fc.Base.{ℕ, ◌+◌, ◌*◌, List, [], ◌∷◌, ◌++◌, Option, none, some, if◌then◌else◌}
use Prim.Native.String.{String}
use text.Mathlib.Text.{◌==◌}

-- The types of fields.
pub data CType : Type 0 where
  char uint8_t int8_t uint16_t int16_t uint32_t int32_t uint64_t float double : CType
  array : CType → ℕ → CType

abbrev pub width : CType → ℕ
width char = 1
width uint8_t = 1
width int8_t = 1
width uint16_t = 2
width int16_t = 2
width uint32_t = 4
width int32_t = 4
width uint64_t = 8
width float = 4
width double = 8
width (array t n) = width t * n

abbrev pub Layout : Type 0
Layout = List (String × CType)

abbrev pub sizeof : Layout → ℕ
sizeof [] = 0
sizeof ((name, t) ∷ fs) = width t + sizeof fs

-- A field behind others of `n` bytes.
abbrev pub behind : ℕ → Option (ℕ × CType) → Option (ℕ × CType)
behind n none = none
behind n (some (i, t)) = some (n + i, t)

-- The offset and the type of a field.
abbrev pub field : Layout → String → Option (ℕ × CType)
field [] name = none
field ((name', t) ∷ fs) name =
    if name' == name then some (0, t) else behind (width t) (field fs name)

abbrev pub adis16405_data : Layout
adis16405_data =
    (("vcc", uint16_t)
      ∷ ("gyro_x", int16_t)
      ∷ ("gyro_y", int16_t)
      ∷ ("gyro_z", int16_t)
      ∷ ("acc_x", int16_t)
      ∷ ("acc_y", int16_t)
      ∷ [])
    ++ (("acc_z", int16_t)
        ∷ ("magn_x", int16_t)
        ∷ ("magn_y", int16_t)
        ∷ ("magn_z", int16_t)
        ∷ ("temp", int16_t)
        ∷ ("aux_adc", uint16_t)
        ∷ [])

abbrev pub fcf_health_data : Layout
fcf_health_data =
    (("cpu_user", float)
      ∷ ("cpu_system", float)
      ∷ ("cpu_nice", float)
      ∷ ("cpu_iowait", float)
      ∷ ("cpu_irq", float)
      ∷ ("cpu_softirq", float)
      ∷ [])
    ++ (("ram_used", uint64_t)
        ∷ ("ram_buffer", uint64_t)
        ∷ ("ram_cached", uint64_t)
        ∷ ("pid", uint16_t)
        ∷ ("disk_used", uint64_t)
        ∷ ("disk_read", uint64_t)
        ∷ [])
    ++ (("disk_write", uint64_t)
        ∷ ("io_lo_bytes_sent", uint32_t)
        ∷ ("io_lo_bytes_recv", uint32_t)
        ∷ ("io_lo_packets_sent", uint32_t)
        ∷ ("io_lo_packets_recv", uint32_t)
        ∷ ("io_eth0_bytes_sent", uint32_t)
        ∷ [])
    ++ (("io_eth0_bytes_recv", uint32_t)
        ∷ ("io_eth0_packets_sent", uint32_t)
        ∷ ("io_eth0_packets_recv", uint32_t)
        ∷ ("io_wlan0_bytes_sent", uint32_t)
        ∷ ("io_wlan0_bytes_recv", uint32_t)
        ∷ ("io_wlan0_packets_sent", uint32_t)
        ∷ [])
    ++ (("io_wlan0_packets_recv", uint32_t) ∷ ("core_temp", uint16_t) ∷ [])

abbrev pub mpl_data : Layout
mpl_data = ("pressure", uint32_t) ∷ ("temperature", int16_t) ∷ []

abbrev pub mpl3115a2_data : Layout
mpl3115a2_data = ("pressure", uint32_t) ∷ ("temp", int16_t) ∷ []

abbrev pub bmp180_data : Layout
bmp180_data = ("pressure", uint32_t) ∷ ("temp", uint16_t) ∷ []

abbrev pub rnh_health_data : Layout
rnh_health_data =
    (("temperature", uint16_t)
      ∷ ("ts1temperature", int16_t)
      ∷ ("ts2temperature", int16_t)
      ∷ ("temprange", uint16_t)
      ∷ ("voltage", uint16_t)
      ∷ ("current", int16_t)
      ∷ [])
    ++ (("averagecurrent", int16_t)
        ∷ ("cellvoltage1", uint16_t)
        ∷ ("cellvoltage2", uint16_t)
        ∷ ("cellvoltage3", uint16_t)
        ∷ ("cellvoltage4", uint16_t)
        ∷ ("packvoltage", uint16_t)
        ∷ [])
    ++ (("averagevoltage", uint16_t) ∷ [])

abbrev pub rnh_power_data : Layout
rnh_power_data =
    (("port1", uint16_t)
      ∷ ("port2", uint16_t)
      ∷ ("port3", uint16_t)
      ∷ ("port4", uint16_t)
      ∷ ("umbilical", uint16_t)
      ∷ ("port6", uint16_t)
      ∷ [])
    ++ (("port7", uint16_t) ∷ ("port8", uint16_t) ∷ [])

abbrev pub rnh_alarms : Layout
rnh_alarms = ("alarm1", uint16_t) ∷ ("alarm2", uint16_t) ∷ ("alarm3", uint16_t) ∷ []

abbrev pub rnh_umbdet : Layout
rnh_umbdet = ("detect", uint8_t) ∷ []

abbrev pub rnh_umbilical_data : Layout
rnh_umbilical_data = ("detect", uint8_t) ∷ []

abbrev pub roll_servo_data : Layout
roll_servo_data = ("angle", double) ∷ ("disable", uint8_t) ∷ []

abbrev pub sequence_error_data : Layout
sequence_error_data = ("port", uint16_t) ∷ ("expected", uint32_t) ∷ ("received", uint32_t) ∷ []

abbrev pub sequence_no_data : Layout
sequence_no_data = ("sequence", uint32_t) ∷ []

abbrev pub venus8_navigation_data : Layout
venus8_navigation_data =
    (("fix_mode", uint8_t)
      ∷ ("num_sv", uint8_t)
      ∷ ("gps_week", uint16_t)
      ∷ ("tow", uint32_t)
      ∷ ("latitude", int32_t)
      ∷ ("longitude", int32_t)
      ∷ [])
    ++ (("ellipsoid_altitude", uint32_t)
        ∷ ("msl_altitude", uint32_t)
        ∷ ("gdop", uint16_t)
        ∷ ("pdop", uint16_t)
        ∷ ("hdop", uint16_t)
        ∷ ("vdop", uint16_t)
        ∷ [])
    ++ (("tdop", uint16_t)
        ∷ ("ecef_x", int32_t)
        ∷ ("ecef_y", int32_t)
        ∷ ("ecef_z", int32_t)
        ∷ ("ecef_vx", int32_t)
        ∷ ("ecef_vy", int32_t)
        ∷ [])
    ++ (("ecef_vz", int32_t) ∷ [])

abbrev pub state_data : Layout
state_data =
    ("time", double)
    ∷ ("acc_up", double)
    ∷ ("vel_up", double)
    ∷ ("altitude", double)
    ∷ ("roll_rate", double)
    ∷ ("roll_angle", double)
    ∷ []

abbrev pub launch_tower_computer_data : Layout
launch_tower_computer_data =
    (("rocket_ready", float)
      ∷ ("iginition_relay", uint8_t)
      ∷ ("ignition_battery", float)
      ∷ ("shore_power_relay", uint8_t)
      ∷ ("shore_power", float)
      ∷ ("solar_voltage", float)
      ∷ [])
    ++ (("system_battery", float)
        ∷ ("internal_temp", float)
        ∷ ("external_temp", float)
        ∷ ("humidity", float)
        ∷ ("wind_speed", float)
        ∷ ("wind_direction", float)
        ∷ [])
    ++ (("barometric_pressure", float) ∷ [])

-- The fields of every message before its data.
abbrev pub message_header : Layout
message_header =
    ("ID", array char 4) ∷ ("timestamp", array uint8_t 6) ∷ ("data_length", uint16_t) ∷ []

-- `StateData`, its fields as numbers of type `double`.
pub record StateData (D : Type 0) : Type 0 where
  pub time : D
  pub acc_up : D
  pub vel_up : D
  pub altitude : D
  pub roll_rate : D
  pub roll_angle : D
