-- ===== src/System/Kept.antt =====
-- The whole program from its init functions to `logger_final`, and what the log holds then.
use av3_fc.Base.{ℕ, suc, List, [], ◌∷◌, Option, none, some, ◌≡◌, length}
use mathlib.Core.Path.{subst}
use av3_fc.Base.Bytes.{Bytes}
use av3_fc.Double.{DoubleOps, DoubleLaws}
use av3_fc.Ethmux.{Channel, statics}
use av3_fc.Ethmux.Poll.{read_packet}
use av3_fc.Logger
use av3_fc.Logger.{logger_final}
use av3_fc.Logger.History.{ReadBack, initial-HasHistory, logger_final-ReadBack}
use av3_fc.Logger.Start.{went_on}
use av3_fc.Message.{Message}
use av3_fc.Sockets.{SocketConstants, ReceivedMessage}
use av3_fc.System.{State}
use av3_fc.System.Boot.{boot-booted, booted-Ok}
use av3_fc.System.Events.{
  Answers, Event, booted, boot, handle_event, packet, run, AllFit, run-Returns,
}
use av3_fc.System.Servo.{Gives}
use av3_fc.System.Logged.{history, message_of, IsLoggedPacket, receive-Logs}
use av3_fc.System.Handlers.{IsOk, ReturnsWith}
use av3_fc.System.Armament.{silence, booted-Hears}
use av3_fc.System.Hears.{Hears}
use av3_fc.System.Measured.{measured}
use av3_fc.System.MeasuredRuns.{run-Measures}
use av3_fc.Time.{Timespec}

module _ {D : Type 0} (F : DoubleOps D) (k : SocketConstants) (starttime : Timespec) where
  booted-history : (a : Answers) → IsOk (history []) (booted F a Logger.initial)
  booted-history a = let (b, v, w, o) = booted-Ok F a in (b, v, initial-HasHistory, o)

  in_the_end :
      (later : Bytes) (must : List Message) (x : Option (State D))
      → length later ≡ 6
      → ReturnsWith (history must) x
      → Gives (λ u. ReadBack must (logger_final later u.log)) x
  in_the_end later must none six h = h
  in_the_end later must (some u) six h = logger_final-ReadBack later must u.log six h.2

  -- Whatever the system calls of the init functions give, under the facts assumed of `double`, and
  -- with times of six bytes: let the init functions give a state, the program handle some events from
  -- there, then a packet of at most 1,500 bytes that its static accepts, from a sensor whose messages
  -- main.miml hands to `log_write` (all but the GPS receivers), and then other events. If `recvmsg` and
  -- `read` write no more than the buffers hold, and what comes from the GPS is in packets of at most
  -- 249 bytes that complete no frame of length 0, then the later events are handled without overrunning
  -- a buffer, and after `logger_final` the log file, behind its SEQN records, can be read back as
  -- records of messages, and so can the datagrams, behind their numbers; the message of that packet is
  -- among both.
  pub boot-run-ReadBack :
      (L : DoubleLaws F) (a : Answers) (before after : List (Bytes × Event)) (now later : Bytes)
      (ts : Timespec) (m : ReceivedMessage) (c : Channel) (n : ℕ) (s0 s t : State D)
      → boot F a ≡ went_on s0
      → AllFit F k starttime before s0
      → run F k starttime before s0 ≡ some s
      → length now ≡ 6
      → IsLoggedPacket (read_packet k starttime ts m) s.statics c n
      → handle_event F k starttime now (packet ts m) s ≡ some t
      → AllFit F k starttime after t
      → length later ≡ 6
      → Gives
          (λ u.
            ReadBack
              (message_of (s.statics c) (read_packet k starttime ts m) (suc n) ∷ [])
              (logger_final later u.log))
          (run F k starttime after t)
  unfolding handle_event
  boot-run-ReadBack L a before after now later ts m c n s0 s t b f1 r1 six p r2 f2 six' =
      let ok0 : IsOk (history []) s0 =
        subst (IsOk (history [])) (boot-booted F a s0 b) (booted-history a) in
      let ok1 : IsOk (history []) s =
        subst (ReturnsWith (history [])) r1
          (run-Returns F k starttime (history []) L before s0 f1 ok0) in
      let must : List Message =
        message_of (s.statics c) (read_packet k starttime ts m) (suc n) ∷ [] in
      let ok2 : IsOk (history must) t =
        subst (ReturnsWith (history must)) r2
          (receive-Logs F L now [] (read_packet k starttime ts m) s c n six p ok1) in
      in_the_end later must (run F k starttime after t) six'
        (run-Returns F k starttime (history must) L after t f2 ok2)

  -- Whatever the system calls of the init functions give, under the facts assumed of `double`, and
  -- with times of six bytes: if the init functions give a state, `recvmsg` and `read` write no more
  -- than the buffers hold, and what comes from the GPS is in packets of at most 249 bytes that complete
  -- no frame of length 0, then any events after the init functions are handled without overrunning a
  -- buffer, and after `logger_final` the log file, behind its SEQN records, can be read back as records
  -- of messages, and so can the datagrams, behind their numbers. The messages of all packets that were
  -- accepted from the sensors whose messages main.miml hands to `log_write` (all but the GPS receivers)
  -- are among both, in the order in which they arrived.
  pub boot-run-Measured :
      (L : DoubleLaws F) (a : Answers) (es : List (Bytes × Event)) (later : Bytes) (s : State D)
      → boot F a ≡ went_on s
      → AllFit F k starttime es s
      → length later ≡ 6
      → Gives
          (λ u. ReadBack (measured k starttime es statics) (logger_final later u.log))
          (run F k starttime es s)
  boot-run-Measured L a es later s b f six =
      let start : IsOk (history []) s × Hears F a.arm_socket a.arm_connected silence s =
        subst (λ x. IsOk (history []) x × Hears F a.arm_socket a.arm_connected silence x)
          (boot-booted F a s b) (booted-history a, booted-Hears F k starttime a Logger.initial) in
      in_the_end later (measured k starttime es statics) (run F k starttime es s) six (
        run-Measures F L k starttime a.arm_socket a.arm_connected es [] silence s start.1 f start.0)
