-- ===== src/NetAddrs/Addresses.antt =====
-- src/utilities/net_addrs.c: the socket addresses, as they stand in the memory of the little-endian
-- flight computer.
use av3_fc.Base.{
  ℕ, ◌+◌, ◌*◌, ◌/◌, ◌%◌, ◌^◌, ◌<◌, Bool, true, not, ◌&&◌, List, [], ◌∷◌, ◌≡◌, refl, arith, ◌==◌,
}
use av3_fc.Base.Bytes.{Bytes, be16}
use av3_fc.NetAddrs.{
  rnh_battery, rnh_port, rnh_alarm, rnh_umbdet, adis_port, mpu_port, mpl_port, bmp_port, arm_port,
  rc_servo_enable_port, gps_cots, fc_listen_port, rci_port, roll_port, wifi_port,
}

-- `__builtin_bswap16` and `__builtin_bswap32`
unfoldable pub bswap16 : ℕ → ℕ
bswap16 n = n % 256 * 2 ^ 8 + n / 2 ^ 8 % 256

unfoldable pub bswap32 : ℕ → ℕ
bswap32 n =
    n % 256 * 2 ^ 24 + n / 2 ^ 8 % 256 * 2 ^ 16 + n / 2 ^ 16 % 256 * 2 ^ 8 + n / 2 ^ 24 % 256

-- `IPv4`; the four terms have no bit in common, so `|` is a sum.
unfoldable pub ipv4 : ℕ → ℕ → ℕ → ℕ → ℕ
unfolding bswap32
ipv4 a b c d = bswap32 (a % 256 * 2 ^ 24 + b % 256 * 2 ^ 16 + c % 256 * 2 ^ 8 + d % 256)

-- `struct sockaddr_in`, without its padding; `af_inet` is a number of the platform.
pub record SockaddrIn : Type 0 where
  pub sin_family : ℕ
  pub sin_port : ℕ
  pub sin_addr : ℕ

-- Whether `FCF_FC_NETWORK` is defined.
pub data Network : Type 0 where
  flight : Network
  local : Network

abbrev pub choose {ℓ} : {A : Type ℓ} → Network → A → A → A
choose flight a b = a
choose local a b = b

abbrev pub localhost : ℕ
localhost = ipv4 127 0 0 1

abbrev pub rnh_ip : Network → ℕ
rnh_ip n = choose n (ipv4 10 10 10 5) localhost

abbrev pub fc_ip : Network → ℕ
fc_ip n = choose n (ipv4 10 10 10 10) localhost

abbrev pub sensor_ip : Network → ℕ
sensor_ip n = choose n (ipv4 10 10 10 20) localhost

abbrev pub roll_ip : Network → ℕ
roll_ip n = choose n (ipv4 10 10 10 30) localhost

abbrev pub gps_ip : Network → ℕ
gps_ip n = choose n (ipv4 10 10 10 40) localhost

abbrev pub wifi_ip : Network → ℕ
wifi_ip n = choose n (ipv4 172 17 0 2) localhost

abbrev pub arm_ip : ℕ
arm_ip = ipv4 127 0 0 1

abbrev pub rnh_rci_port : Network → ℕ
rnh_rci_port n = choose n rci_port 37001

abbrev pub sensor_rci_port : Network → ℕ
sensor_rci_port n = choose n rci_port 37002

abbrev pub gps_rci_port : Network → ℕ
gps_rci_port n = choose n rci_port 37003

abbrev pub roll_rci_port : Network → ℕ
roll_rci_port n = choose n rci_port 37004

module _ (af_inet : ℕ) where
  unfoldable pub make_addr : ℕ → ℕ → SockaddrIn
  unfolding bswap16
  make_addr addr port = record { sin_family = af_inet; sin_port = bswap16 port; sin_addr = addr }

  -- The constants, from `RCI_ADDR` to `GPS_COTS_ADDR`.
  unfoldable pub addresses : Network → List SockaddrIn
  unfolding make_addr
  addresses n =
      make_addr (fc_ip n) rci_port
      ∷ make_addr (rnh_ip n) (rnh_rci_port n)
      ∷ make_addr (sensor_ip n) (sensor_rci_port n)
      ∷ make_addr (gps_ip n) (gps_rci_port n)
      ∷ make_addr (roll_ip n) (roll_rci_port n)
      ∷ make_addr (rnh_ip n) rnh_battery
      ∷ make_addr (rnh_ip n) rnh_port
      ∷ make_addr (rnh_ip n) rnh_alarm
      ∷ make_addr (rnh_ip n) rnh_umbdet
      ∷ make_addr (fc_ip n) fc_listen_port
      ∷ make_addr (sensor_ip n) adis_port
      ∷ make_addr (sensor_ip n) mpu_port
      ∷ make_addr (sensor_ip n) mpl_port
      ∷ make_addr (sensor_ip n) bmp_port
      ∷ make_addr (roll_ip n) roll_port
      ∷ make_addr (wifi_ip n) wifi_port
      ∷ make_addr arm_ip arm_port
      ∷ make_addr arm_ip rc_servo_enable_port
      ∷ make_addr (gps_ip n) gps_cots
      ∷ []

-- The bytes of a `uint16_t` and of a `uint32_t` in memory.
abbrev pub le16 : ℕ → Bytes
le16 n = (n % 256) ∷ (n / 2 ^ 8 % 256) ∷ []

abbrev pub le32 : ℕ → Bytes
le32 n = (n % 256) ∷ (n / 2 ^ 8 % 256) ∷ (n / 2 ^ 16 % 256) ∷ (n / 2 ^ 24 % 256) ∷ []

-- An address made from four parts and a port stands in memory as the network wants it: the port
-- with its high byte first, and the four parts in their order.
pub make_addr-ipv4 :
    (af_inet a b c d port : ℕ)
    → a < 256
    → b < 256
    → c < 256
    → d < 256
    → let s = make_addr af_inet (ipv4 a b c d) port in
      (le16 s.sin_port ≡ be16 port) × (le32 s.sin_addr ≡ a ∷ b ∷ c ∷ d ∷ [])
unfolding make_addr ipv4
make_addr-ipv4 af_inet a b c d port ha hb hc hd = (ground arith, ground arith)

abbrev same_endpoint : SockaddrIn → SockaddrIn → Bool
same_endpoint s t = s.sin_port == t.sin_port && s.sin_addr == t.sin_addr

abbrev pub none_same : SockaddrIn → List SockaddrIn → Bool
none_same s [] = true
none_same s (t ∷ ts) = not (same_endpoint s t) && none_same s ts

-- No two of some addresses have both the port and the IP address in common.
abbrev pub all_differ : List SockaddrIn → Bool
all_differ [] = true
all_differ (s ∷ ss) = none_same s ss && all_differ ss

-- On the flight network and on a single computer alike, no two of the addresses are the same.
pub addresses_differ : (af_inet : ℕ) (n : Network) → all_differ (addresses af_inet n) ≡ true
unfolding addresses ipv4
addresses_differ af_inet flight = refl
addresses_differ af_inet local = refl
