-- ===== src/System/StreamedRuns.antt =====
-- Runs of the whole program with the GPS.
use av3_fc.Base.{
  ℕ, ◌≤◌, List, [], ◌∷◌, Option, none, some, ◌≡◌, sym, ap, ◌∙◌, All, length, concat, map,
}
use mathlib.Core.Path.{subst}
use av3_fc.Base.Int.{ℤ, pos}
use av3_fc.Base.Bytes.{Bytes}
use av3_fc.Double.{DoubleOps, DoubleLaws}
use av3_fc.Ethmux.{demux, statics}
use av3_fc.Ethmux.Poll.{read_packet}
use av3_fc.Gps.{send_venus_messages}
use av3_fc.Gps.Chunks.{max_kept}
use av3_fc.Gps.Stream.{IsChunk, payload, receive_all, chunked_stream}
use av3_fc.Logger
use av3_fc.Logger.{logger_final}
use av3_fc.Logger.History.{ReadBack}
use av3_fc.Logger.Start.{went_on}
use av3_fc.Message.{Message}
use av3_fc.Rnh.{buffer_size}
use av3_fc.Sockets.{SocketConstants, eth_mtu}
use av3_fc.Sockets.Receive.{IsReceived}
use av3_fc.System.{State}
use av3_fc.System.Armament.{silence, booted-Hears, handle_event-Hears}
use av3_fc.System.Boot.{boot-booted, booted-Ok, boot-run-Returns}
use av3_fc.System.Calls.{valid_log}
use av3_fc.System.Events.{
  Answers, Event, packet, timer, version, boot, handle_event, run, EventFits, AllFit, Then,
  handle_event-Returns,
}
use av3_fc.System.Fixes.{from_gps, gps_packets, outputs-Splits}
use av3_fc.System.Frame.{When}
use av3_fc.System.Handlers.{Ok, Returns}
use av3_fc.System.Heard.{Ear, hear_outputs, hear_event}
use av3_fc.System.Hears.{Hears}
use av3_fc.System.Kept.{boot-run-Measured}
use av3_fc.System.Measured.{measured}
use av3_fc.System.MeasuredRuns.{hear_outputs_statics}
use av3_fc.System.Packets.{demux-OneCall}
use av3_fc.System.Servo.{Gives}
use av3_fc.System.Streamed.{HasFrame, All-left, All-right, HasFrame-untimed, outputs_fit}
use av3_fc.Time.{Timespec}

-- What the manuals say of `recvmsg` and `read`, and a time of six bytes.
abbrev pub IsEvent : Bytes × Event → Type 0
IsEvent (now, packet ts m) = (length now ≡ 6) × IsReceived eth_mtu m
IsEvent (now, timer) = length now ≡ 6
IsEvent (now, version fd read buffer) =
    (length now ≡ 6) × (buffer_size ≤ length buffer) × ((n : ℕ) → read ≡ pos n → n ≤ buffer_size)

module _ {D : Type 0} (F : DoubleOps D) (L : DoubleLaws F) (k : SocketConstants)
    (starttime : Timespec) (socket connected : ℤ) where
  then_both :
      (e : Ear) (x : Option (State D)) (P : State D → Type 0)
      → Returns x
      → When (Hears F socket connected e) x
      → ((s : State D) → Ok s → Hears F socket connected e s → P s)
      → Then F k starttime x P
  then_both e none P r w h = tt
  then_both e (some s) P r w h = h s r w

  -- The packets of the GPS that are to come are small, and hold no frame of length 0.
  pub record Streams (es : List (Bytes × Event)) (e : Ear) : Type 0 where
    pub chunks : All IsChunk (gps_packets k starttime es e.statics)
    pub sent : List Message
    pub rest : Bytes
    pub received : receive_all (gps_packets k starttime es e.statics) e.buf ≡ some (sent, rest)
    pub frames : All HasFrame sent

  event_fits :
      (e : Ear) (s : State D) (now : Bytes) (event : Event) (es : List (Bytes × Event))
      → IsEvent (now, event)
      → Streams ((now, event) ∷ es) e
      → Ok s
      → Hears F socket connected e s
      → (length now ≡ 6) × EventFits F k starttime event s
  unfolding gps_packets
  event_fits e s now (packet ts m) es (six, i) g o h =
      let r = read_packet k starttime ts m in
      let (st, outs) = demux r e.statics in
      let tail = gps_packets k starttime es st in
      let kept : length e.buf ≤ max_kept = subst (λ b. length b ≤ max_kept) h.same_buf o.0 in
      (
        six,
        (
          i,
          rw (h.same_statics, h.same_buf)
              (outputs_fit e.buf g.rest tail g.sent kept g.frames outs (demux-OneCall r e.statics)
                (All-left IsChunk (from_gps outs) tail g.chunks) g.received),
        ),
      )
  event_fits e s now timer es six g o h = (six, tt)
  event_fits e s now (version fd read buffer) es (six, b, l) g o h = (six, (b, l))

  next-Streams :
      (e : Ear) (now : Bytes) (event : Event) (es : List (Bytes × Event))
      → Streams ((now, event) ∷ es) e
      → Streams es (hear_event k starttime event e)
  unfolding gps_packets
  next-Streams e now (packet ts m) es g =
      let (st, outs) = demux (read_packet k starttime ts m) e.statics in
      let e0 : Ear = record e { statics = st } in
      let tail = gps_packets k starttime es st in
      let first = outputs-Splits outs e0 tail g.sent g.rest g.received in
      let same = hear_outputs_statics outs e0 in
      record {
        chunks =
            subst (λ s. All IsChunk (gps_packets k starttime es s)) (sym same)
              (All-right IsChunk (from_gps outs) tail g.chunks);
        sent = first.later;
        rest = g.rest;
        received =
            ap (λ s. receive_all (gps_packets k starttime es s) (hear_outputs outs e0).buf) same
            ∙ first.remaining;
        frames =
            All-right HasFrame first.one first.later (subst (All HasFrame) first.joined g.frames);
      }
  next-Streams e now timer es g = record {
    chunks = g.chunks;
    sent = g.sent;
    rest = g.rest;
    received = g.received;
    frames = g.frames;
  }
  next-Streams e now (version fd read buffer) es g = record {
    chunks = g.chunks;
    sent = g.sent;
    rest = g.rest;
    received = g.received;
    frames = g.frames;
  }

  Streams-AllFit :
      (es : List (Bytes × Event)) (e : Ear) (s : State D)
      → All IsEvent es
      → Streams es e
      → Ok s
      → Hears F socket connected e s
      → AllFit F k starttime es s
  unfolding AllFit
  Streams-AllFit [] e s i g o h = tt
  Streams-AllFit ((now, event) ∷ es) e s (i, is) g o h =
      let (six, fit) = event_fits e s now event es i g o h in
      let e1 = hear_event k starttime event e in
      (
        six,
        fit,
        then_both e1 (handle_event F k starttime now event s) (AllFit F k starttime es)
            (handle_event-Returns F k starttime valid_log L now event s six fit o)
            (handle_event-Hears F k starttime socket connected now event e s h)
            (λ t o' h'. Streams-AllFit es e1 t is (next-Streams e now event es g) o' h'),
      )

module _ {D : Type 0} (F : DoubleOps D) (k : SocketConstants) (starttime : Timespec) where
  -- What one scan of the data of all GPS packets of some events finds.
  abbrev pub scanned : List (Bytes × Event) → List Message
  scanned es =
      (send_venus_messages [] (concat (map payload (gps_packets k starttime es statics)))).0

  streamed-AllFit :
      (L : DoubleLaws F) (a : Answers) (es : List (Bytes × Event)) (s : State D)
      → boot F a ≡ went_on s
      → All IsEvent es
      → All IsChunk (gps_packets k starttime es statics)
      → All HasFrame (scanned es)
      → AllFit F k starttime es s
  streamed-AllFit L a es s b i chunks frames =
      let all = chunked_stream (gps_packets k starttime es statics) chunks in
      let P = λ (x : State D). Ok x × Hears F a.arm_socket a.arm_connected silence x in
      let start : P s =
        subst P (boot-booted F a s b)
          (booted-Ok F a, booted-Hears F k starttime a Logger.initial) in
      Streams-AllFit F L k starttime a.arm_socket a.arm_connected es silence s i
        (record {
          chunks = chunks;
          sent = all.sent;
          rest = all.kept;
          received = all.returns;
          frames =
              HasFrame-untimed all.sent
                (subst (All HasFrame) (ap (λ (p : List Message × Bytes). p.0) all.scanned) frames);
        })
        start.0 start.1

  -- Whatever the system calls of the init functions give: if the logger's does not call `exit`, the
  -- program, under the facts assumed of `double`, handles any events after it, packets, ticks of the
  -- timer and answers of the hub in any order, each at a time of six bytes, if `recvmsg` and `read`
  -- write no more than the buffers hold, the packets that `demux` hands on from the GPS have at most
  -- 249 bytes of data, whole in memory, and one scan of the data of all these packets finds no frame
  -- of length 0. No buffer is overrun, the datagrams are numbered one after the other, and the packets
  -- to the servo are in order.
  pub streamed-Returns :
      (L : DoubleLaws F) (a : Answers) (es : List (Bytes × Event)) (s : State D)
      → boot F a ≡ went_on s
      → All IsEvent es
      → All IsChunk (gps_packets k starttime es statics)
      → All HasFrame (scanned es)
      → Returns (run F k starttime es s)
  streamed-Returns L a es s b i chunks frames =
      boot-run-Returns F k starttime L a s es b (streamed-AllFit L a es s b i chunks frames)

  -- Whatever the system calls of the init functions give, under the facts assumed of `double`: if the
  -- logger's does not call `exit`, each event comes at a time of six bytes, `recvmsg` and `read` write
  -- no more than the buffers hold, the packets that `demux` hands on from the GPS have at most 249
  -- bytes of data, whole in memory, and one scan of the data of all these packets finds no frame of
  -- length 0, then any events after the init functions are handled without overrunning a buffer, and
  -- after `logger_final`, at a time of six bytes, the log file, behind its SEQN records, can be read
  -- back as records of messages, and so can the datagrams, behind their numbers. The messages of all
  -- packets that were accepted from the sensors whose messages main.miml hands to `log_write` (all but
  -- the GPS receivers) are among both, in the order in which they arrived.
  pub streamed-ReadBack :
      (L : DoubleLaws F) (a : Answers) (es : List (Bytes × Event)) (later : Bytes) (s : State D)
      → boot F a ≡ went_on s
      → All IsEvent es
      → All IsChunk (gps_packets k starttime es statics)
      → All HasFrame (scanned es)
      → length later ≡ 6
      → Gives
          (λ u. ReadBack (measured k starttime es statics) (logger_final later u.log))
          (run F k starttime es s)
  streamed-ReadBack L a es later s b i chunks frames six =
      boot-run-Measured F k starttime L a es later s b (streamed-AllFit L a es s b i chunks frames)
        six
