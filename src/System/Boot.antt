-- ===== src/System/Boot.antt =====
-- The init functions, and runs of the whole program from there.
use av3_fc.Base.{
  ℕ, ◌<◌, ◌≤◌, ◌^◌, List, [], ◌∷◌, Option, none, some, ◌≡◌, ◌≢◌, refl, sym, ap, ◌∙◌, arith, length,
  All,
}
use av3_fc.Base.Int.{ℤ, pos}
use av3_fc.Base.Bytes.{Bytes}
use mathlib.Core.Path.{subst}
use av3_fc.Double.{DoubleOps, DoubleLaws}
use av3_fc.Ethmux.{Channel, statics}
use av3_fc.Ethmux.Poll.{read_packet}
use av3_fc.Logger
use av3_fc.Logger.Start.{
  Opened, Outcome, unless_exited, exited, went_on, Started, logger_init, open_logfile, open_socket,
}
use av3_fc.NetAddrs.{gps_cots}
use av3_fc.Rnh.{buffer_size}
use av3_fc.Sockets.{SocketConstants, eth_mtu}
use av3_fc.Sockets.Receive.{IsReceived}
use av3_fc.System.{State}
use av3_fc.System.Calls.{valid_log}
use av3_fc.System.Handlers.{Ok, Returns}
use av3_fc.System.Stream.{demux_gps}
use av3_fc.System.Events.{
  Answers, Event, packet, timer, version, booted, boot, handle_event, run, EventFits, Then, AllFit,
  handle_event-Returns, run-Returns,
}
use av3_fc.Time.{Timespec}

statics_lt : (c : Channel) → (statics c).next_sequence < 2 ^ 32
unfolding statics
statics_lt c = ground arith

-- The logger starts with empty buffers, at number 0.
abbrev IsFresh : Outcome Started → Type 0
IsFresh exited = Unit {0}
IsFresh (went_on started) = started.log ≡ Logger.initial

unless_exited-IsFresh :
    {A : Type 0} (o : Outcome A) (f : A → Outcome Started)
    → ((a : A) → IsFresh (f a))
    → IsFresh (unless_exited o f)
unless_exited-IsFresh exited f h = tt
unless_exited-IsFresh (went_on a) f h = h a

logger_init-IsFresh :
    (open_file : Bytes → Opened) (created set connected tfd : ℤ)
    → IsFresh (logger_init open_file created set connected tfd Logger.initial)
unfolding logger_init
logger_init-IsFresh open_file created set connected tfd =
    unless_exited-IsFresh (open_logfile open_file) _
      (λ f. unless_exited-IsFresh (open_socket created set connected) _ (λ net. refl))

module _ {D : Type 0} (F : DoubleOps D) where
  pub booted-Ok : (a : Answers) → Ok (booted F a Logger.initial)
  booted-Ok a = (
    omega arith,
    record {
      next_lt = statics_lt;
      length_is = λ c. refl;
      id_is = λ c. refl;
      handler_is = λ c. refl;
    },
    record {
      nested = omega arith;
      net_room = omega arith;
      disk_room = omega arith;
      fits_link = tt;
      numbered = tt;
      counted = omega arith;
    },
    (tt, refl),
  )

  from_fresh :
      (a : Answers) (o : Outcome Started) (s : State D)
      → IsFresh o
      → unless_exited o (λ started. went_on (booted F a started.log)) ≡ went_on s
      → booted F a Logger.initial ≡ s
  from_fresh a exited s h e = cc e
  from_fresh a (went_on started) s h e = ap (booted F a) (sym h) ∙ cc e

  -- The init functions give one state, if they give one.
  pub boot-booted :
      (a : Answers) (s : State D) → boot F a ≡ went_on s → booted F a Logger.initial ≡ s
  unfolding boot
  boot-booted a s e =
      from_fresh a
        (logger_init a.open_file a.log_socket a.log_option a.log_connected a.timer Logger.initial) s
        (logger_init-IsFresh a.open_file a.log_socket a.log_option a.log_connected a.timer) e

  module _ (k : SocketConstants) (starttime : Timespec) where
    -- Whatever the system calls of the init functions give: if the logger's does not call `exit`, the
    -- program, under the facts assumed of `double`, handles any events after it, packets, ticks of
    -- the timer and answers of the hub in any order, each at a time of six bytes, if `recvmsg` and
    -- `read` write no more than the buffers hold, and what comes from the GPS is in packets of at
    -- most 249 bytes that complete no frame of length 0. No buffer is overrun, the datagrams are
    -- numbered one after the other, and the packets to the servo are in order.
    pub boot-run-Returns :
        (L : DoubleLaws F) (a : Answers) (s : State D) (es : List (Bytes × Event))
        → boot F a ≡ went_on s
        → AllFit F k starttime es s
        → Returns (run F k starttime es s)
    boot-run-Returns L a s es e h =
        run-Returns F k starttime valid_log L es s h (subst Ok (boot-booted a s e) (booted-Ok a))

    abbrev pub IsOther : Bytes × Event → Type 0
    IsOther (now, packet ts m) = (length now ≡ 6) × IsReceived eth_mtu m × (m.port ≢ gps_cots)
    IsOther (now, timer) = length now ≡ 6
    IsOther (now, version fd read buffer) =
        (length now ≡ 6)
        × (buffer_size ≤ length buffer)
        × ((n : ℕ) → read ≡ pos n → n ≤ buffer_size)

    other_fits :
        (now : Bytes) (e : Event) (s : State D)
        → IsOther (now, e)
        → Ok s
        → (length now ≡ 6) × EventFits F k starttime e s
    unfolding read_packet
    other_fits now (packet ts m) s (six, r, p) o =
        (six, (r, demux_gps (read_packet k starttime ts m) s.statics s.buf o.1 p))
    other_fits now timer s h o = (h, tt)
    other_fits now (version fd read buffer) s (six, b, l) o = (six, (b, l))

    then_lem :
        (x : Option (State D)) (P : State D → Type 0)
        → Returns x
        → ((s : State D) → Ok s → P s)
        → Then F k starttime x P
    then_lem none P r h = tt
    then_lem (some s) P r h = h s r

    -- Events that are not packets from the GPS fit.
    pub others-AllFit :
        (L : DoubleLaws F) (es : List (Bytes × Event)) (s : State D)
        → All IsOther es
        → Ok s
        → AllFit F k starttime es s
    unfolding AllFit
    others-AllFit L [] s h o = tt
    others-AllFit L ((now, e) ∷ es) s (h, hs) o =
        let (six, fit) = other_fits now e s h o in
        (
          six,
          fit,
          then_lem (handle_event F k starttime now e s) _
              (handle_event-Returns F k starttime valid_log L now e s six fit o)
              (λ t. others-AllFit L es t hs),
        )
