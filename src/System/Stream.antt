-- ===== src/System/Stream.antt =====
-- The whole program on all the packets that arrive from other senders than the GPS.
use av3_fc.Base.{ℕ, zero, suc, List, [], ◌∷◌, Option, some, ◌≡◌, ◌≢◌, refl, arith, length, All}
use av3_fc.Base.Int.{ℤ, pos, negsuc}
use av3_fc.Base.Bytes.{Bytes}
use av3_fc.Double.{DoubleOps, DoubleLaws}
use av3_fc.Ethmux.{
  Sender, demuxed_adis, demuxed_mpu, demuxed_mpl, demuxed_bmp, demuxed_rnh, demuxed_rnhumb,
  demuxed_fcfh, demuxed_jgps, demuxed_cots, handled, format_sequenced_error, hand_on, Channel,
  seq_adis, seq_mpu, seq_mpl, seq_bmp, seq_rnh, seq_rnhport, seq_rnhalarm, seq_rnhumbdet, seq_fcfh,
  seq_jgps, seq_gps_cots, statics, Statics, Route, sequenced, to_arm, to_rc, unknown, Read, demux,
  demux_bytes, dispatch, route,
}
use av3_fc.Ethmux.Demux.{IsRead, IsValid}
use av3_fc.Message.{Message}
use av3_fc.NetAddrs.{gps_cots}
use av3_fc.System.{State, receive, and_then}
use av3_fc.System.Calls.{valid_log}
use av3_fc.System.Packets.{sequenced_receive_calls}
use av3_fc.System.Runs.{receive-Returns}
use av3_fc.System.Handlers.{Ok, Returns, OutputGpsFits, and_then_lem}

abbrev IsOther : Sender → Type 0
IsOther demuxed_cots = ⊥
IsOther _ = Unit {0}

other_fits : (buf : Bytes) (s : Sender) (m : Message) → IsOther s → OutputGpsFits buf (handled s m)
other_fits buf demuxed_cots m h = absurd h
other_fits buf demuxed_adis m h = tt
other_fits buf demuxed_mpu m h = tt
other_fits buf demuxed_mpl m h = tt
other_fits buf demuxed_bmp m h = tt
other_fits buf demuxed_rnh m h = tt
other_fits buf demuxed_rnhumb m h = tt
other_fits buf demuxed_fcfh m h = tt
other_fits buf demuxed_jgps m h = tt

static-IsOther : (c : Channel) → c ≢ seq_gps_cots → IsOther (statics c).handler
unfolding statics
static-IsOther seq_gps_cots h = absurd (h refl)
static-IsOther seq_adis h = tt
static-IsOther seq_mpu h = tt
static-IsOther seq_mpl h = tt
static-IsOther seq_bmp h = tt
static-IsOther seq_rnh h = tt
static-IsOther seq_rnhport h = tt
static-IsOther seq_rnhalarm h = tt
static-IsOther seq_rnhumbdet h = tt
static-IsOther seq_fcfh h = tt
static-IsOther seq_jgps h = tt

route_other : (port : ℕ) → port ≢ gps_cots → route port ≢ sequenced seq_gps_cots
unfolding route
route_other port h = ground arith

dispatch_gps :
    (q : Route) (r : Read) (len : ℕ) (s : Statics) (buf : Bytes)
    → IsValid s
    → q ≢ sequenced seq_gps_cots
    → All (OutputGpsFits buf) (dispatch q r len s).1
unfolding dispatch format_sequenced_error
dispatch_gps (sequenced c) r len s buf v h =
    let handler : IsOther (s c).handler =
      rw (v.handler_is c) (static-IsOther c (λ e. h (λ i. sequenced (e i)))) in
    let pass : OutputGpsFits buf (hand_on (s c) r.buffer len r.timestamp) =
      other_fits buf (s c).handler _ handler in
    sequenced_receive_calls (All (OutputGpsFits buf)) r.port r.buffer len r.timestamp (s c)
      (λ e n x. (tt, tt)) (λ x. (pass, tt)) (λ e n x. (tt, (pass, tt)))
dispatch_gps to_arm r len s buf v h = (tt, tt)
dispatch_gps to_rc r len s buf v h = (tt, tt)
dispatch_gps unknown r len s buf v h = tt

demux_bytes_gps :
    (b : ℤ) (r : Read) (s : Statics) (buf : Bytes)
    → IsValid s
    → r.port ≢ gps_cots
    → All (OutputGpsFits buf) (demux_bytes b r s).1
unfolding demux_bytes
demux_bytes_gps (pos zero) r s buf v h = tt
demux_bytes_gps (pos (suc n)) r s buf v h =
    dispatch_gps (route r.port) r (suc n) s buf v (route_other r.port h)
demux_bytes_gps (negsuc n) r s buf v h = tt

pub demux_gps :
    (r : Read) (s : Statics) (buf : Bytes)
    → IsValid s
    → r.port ≢ gps_cots
    → All (OutputGpsFits buf) (demux r s).1
unfolding demux
demux_gps r s buf v h = demux_bytes_gps r.bytes r s buf v h

-- What arrives: at most 1,500 bytes, from another port than the GPS's, with times of six bytes.
abbrev pub IsPacket : Bytes × Read → Type 0
IsPacket (now, r) = (length now ≡ 6) × IsRead r × (length r.timestamp ≡ 6) × (r.port ≢ gps_cots)

module _ {D : Type 0} (F : DoubleOps D) where
  -- The packets, each with the time at which it is handled.
  pub receive_all : List (Bytes × Read) → State D → Option (State D)
  receive_all [] s = some s
  receive_all ((now, r) ∷ rs) s = and_then (receive F now r s) (receive_all rs)

  -- However many packets of at most 1,500 bytes arrive from other senders than the GPS, whatever
  -- they hold, and in whatever order: from a state in order, and under the facts assumed of
  -- `double`, the program handles all of them, from `demux` to the log, no write overruns a
  -- buffer of the log, no logged message is read past its end, and the state stays in order.
  pub receive_all-Returns :
      (L : DoubleLaws F) (rs : List (Bytes × Read)) (s : State D)
      → All IsPacket rs
      → Ok s
      → Returns (receive_all rs s)
  unfolding receive_all
  receive_all-Returns L [] s a k = k
  receive_all-Returns L ((now, r) ∷ rs) s ((six, i, ts, p), as') k =
      and_then_lem valid_log (receive F now r s) (receive_all rs)
        (receive-Returns F L now six r s i ts (demux_gps r s.statics s.buf k.1 p) k)
        (λ t j. receive_all-Returns L rs t as' j)
