-- ===== src/NetAddrs.antt =====
-- src/utilities/net_addrs.h: the UDP ports of the RocketNet, by which packets are told apart.
pub mod Addresses
use av3_fc.Base.{ℕ}

abbrev pub rnh_battery : ℕ
rnh_battery = 36101

abbrev pub rnh_port : ℕ
rnh_port = 36102

abbrev pub rnh_alarm : ℕ
rnh_alarm = 36103

abbrev pub rnh_umbdet : ℕ
rnh_umbdet = 36104

abbrev pub fcf_health_port : ℕ
fcf_health_port = 36201

abbrev pub adis_port : ℕ
adis_port = 35020

abbrev pub mpu_port : ℕ
mpu_port = 35002

abbrev pub mpl_port : ℕ
mpl_port = 35010

abbrev pub bmp_port : ℕ
bmp_port = 35011

abbrev pub arm_port : ℕ
arm_port = 35666

abbrev pub rc_servo_enable_port : ℕ
rc_servo_enable_port = 35667

abbrev pub jgps_port : ℕ
jgps_port = 35050

abbrev pub gps_cots : ℕ
gps_cots = 35051

abbrev pub fc_listen_port : ℕ
fc_listen_port = 36000

abbrev pub rci_port : ℕ
rci_port = 23

abbrev pub roll_port : ℕ
roll_port = 35003

abbrev pub wifi_port : ℕ
wifi_port = 35001
