-- ===== src/System/FrameLock.antt =====
-- The GPS lock of src/arm.c after frames from the GPS, in runs of the whole program.
use av3_fc.Base.{
  ℕ, ◌==◌, ==_iff, ◌++◌, get_or, Bool, true, false, List, [], ◌∷◌, Option, none, some, ◌≡◌, refl,
  sym, ap, ◌∙◌, arith, leb, if◌then◌else◌, All, concat, map, Bool-cases, inl, inr,
}
use mathlib.Core.Path.{subst}
use av3_fc.Base.Bytes.{Bytes, memeq, codes}
use av3_fc.Double.{DoubleOps, DoubleLaws}
use av3_fc.Ethmux.{statics}
use av3_fc.Gps.{chexxor, chexxor_from, venus_id, send_venus_messages}
use av3_fc.Gps.Frames.{Packet, frame_of, packet_message, Fits, send-frames}
use av3_fc.Gps.Stream.{IsChunk, payload}
use av3_fc.Logger.Start.{went_on}
use av3_fc.Message.{Message}
use av3_fc.Sockets.{SocketConstants}
use av3_fc.System.{State}
use av3_fc.System.Events.{Answers, Event, boot, run}
use av3_fc.System.Fixes.{gps_packets, fix_of, last_fix}
use av3_fc.System.FixRuns.{boot-run-last_fix}
use av3_fc.System.Handlers.{Returns}
use av3_fc.System.Servo.{Gives}
use av3_fc.System.Streamed.{HasFrame}
use av3_fc.System.StreamedRuns.{IsEvent, scanned, streamed-Returns}
use av3_fc.Time.{Timespec}

-- Whether the data of a navigation packet is taken for a fix: the first byte is the mode of the
-- fix, and where there is none, the checksum behind it is taken for one.
abbrev pub takes_for_fix : Bytes → Bool
takes_for_fix [] = true
takes_for_fix (mode ∷ others) = leb 2 mode

-- Whether the GPS is locked after some packets of the receiver, the last one last.
abbrev pub lock_after : List Packet → Bool → Bool
lock_after [] b = b
lock_after (p ∷ ps) b = lock_after ps (if p.packet_id == 0xA8 then takes_for_fix p.contents else b)

-- The ID V8A8 is that of 0xA8 alone.
venus_id-navigation : (n : ℕ) → memeq 4 (codes "V8A8") (venus_id n) ≡ (n == 0xA8)
unfolding memeq
venus_id-navigation n = ground arith

fix_of-packet :
    (ts : Bytes) (p : Packet) (b : Bool)
    → fix_of (packet_message ts p) b ≡ (if p.packet_id == 0xA8 then takes_for_fix p.contents else b)
fix_of-packet ts p b = elim (Bool-cases (p.packet_id == 0xA8)) [
  | inl e ↦
      rw (venus_id-navigation p.packet_id, e)
        (navigation_mode p.packet_id p.contents ((==_iff p.packet_id 0xA8).0 e))
  | inr e ↦ rw (venus_id-navigation p.packet_id, e)
]
  where
    navigation_mode :
        (n : ℕ) (contents : Bytes)
        → n ≡ 0xA8
        → leb 2 (get_or (contents ++ chexxor (n ∷ contents) ∷ b'\r' ∷ b'\n' ∷ []) 0 0)
          ≡ takes_for_fix contents
    navigation_mode n [] e = unfold chexxor chexxor_from in rw e
    navigation_mode n (mode ∷ others) e = refl

last_fix-packets :
    (ts : Bytes) (ps : List Packet) (b : Bool)
    → last_fix (map (packet_message ts) ps) b ≡ lock_after ps b
last_fix-packets ts [] b = refl
last_fix-packets ts (p ∷ ps) b =
    ap (last_fix (map (packet_message ts) ps)) (fix_of-packet ts p b)
    ∙ last_fix-packets ts ps (if p.packet_id == 0xA8 then takes_for_fix p.contents else b)

packets-HasFrame :
    (ts : Bytes) (ps : List Packet) → All Fits ps → All HasFrame (map (packet_message ts) ps)
packets-HasFrame ts [] f = tt
packets-HasFrame ts (p ∷ ps) (f, fs) = (λ e. omega arith, packets-HasFrame ts ps fs)

module _ {D : Type 0} (F : DoubleOps D) (k : SocketConstants) (starttime : Timespec) where
  Gives-each :
      (P : State D → Type 0) (x : Option (State D))
      → Returns x
      → ((t : State D) → x ≡ some t → P t)
      → Gives P x
  Gives-each P none r h = r
  Gives-each P (some t) r h = h t refl

  -- Whatever the system calls of the init functions give, under the facts assumed of `double`: if the
  -- logger's does not call `exit`, each event comes at a time of six bytes, `recvmsg` and `read` write
  -- no more than the buffers hold, the packets that `demux` hands on from the GPS have at most 249
  -- bytes of data, whole in memory, and all their data together is a sequence of frames with at most
  -- 256 bytes of ID and data each, then any events after the init functions are handled without
  -- overrunning a buffer, no byte waits in the GPS buffer in the end, and the GPS is locked exactly
  -- if there is a frame with the ID 0xA8 and the last one has a fix mode of 2 or more, or no data at
  -- all, wherever the packets cut the frames and whatever else arrives between them.
  pub boot-run-lock_after :
      (L : DoubleLaws F) (a : Answers) (es : List (Bytes × Event)) (ps : List Packet) (s : State D)
      → boot F a ≡ went_on s
      → All IsEvent es
      → All IsChunk (gps_packets k starttime es statics)
      → All Fits ps
      → concat (map payload (gps_packets k starttime es statics)) ≡ concat (map frame_of ps)
      → Gives
          (λ t. (t.buf ≡ []) × (t.arm.gps_locked ≡ lock_after ps false))
          (run F k starttime es s)
  boot-run-lock_after L a es ps s b i chunks fits e =
      let scan : send_venus_messages [] (concat (map payload (gps_packets k starttime es statics)))
          ≡ (map (packet_message []) ps, []) =
        ap (send_venus_messages []) e ∙ send-frames [] ps fits in
      let frames : All HasFrame (scanned F k starttime es) =
        subst (λ (r : List Message × Bytes). All HasFrame r.0) (sym scan)
          (packets-HasFrame [] ps fits) in
      Gives-each _ (run F k starttime es s)
        (streamed-Returns F k starttime L a es s b i chunks frames)
        (λ t r.
          let (rest, fix) = boot-run-last_fix F k starttime a es s t b r chunks in
          (
            rest ∙ ap (λ (r : List Message × Bytes). r.1) scan,
            fix
                ∙ ap (λ (r : List Message × Bytes). last_fix r.0 false) scan
                ∙ last_fix-packets [] ps false,
          ))
