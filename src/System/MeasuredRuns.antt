-- ===== src/System/MeasuredRuns.antt =====
-- Runs of the whole program, with the measurements in their packets.
use av3_fc.Base.{
  List, [], ◌∷◌, ◌++◌, Option, none, some, ◌≡◌, refl, sym, ap, ◌∙◌, length, append-nil,
  append_assoc,
}
use mathlib.Core.Path.{subst}
use av3_fc.Base.Int.{ℤ}
use av3_fc.Base.Bytes.{Bytes}
use av3_fc.Double.{DoubleOps, DoubleLaws}
use av3_fc.Ethmux
use av3_fc.Ethmux.{
  Sender, demuxed_adis, demuxed_mpu, demuxed_mpl, demuxed_bmp, demuxed_rnh, demuxed_rnhumb,
  demuxed_fcfh, demuxed_jgps, demuxed_cots, handled, sequenced_error, demuxed_arm, demuxed_rc,
  Channel, Route, sequenced, to_arm, to_rc, unknown, statics, Statics, Read, route, demux,
}
use av3_fc.Ethmux.Poll.{read_packet, read_packet-IsRead}
use av3_fc.Gps.{cots_raw_in}
use av3_fc.Message.{Message}
use av3_fc.Sockets.{SocketConstants, ReceivedMessage}
use av3_fc.System.{State, and_then, receive}
use av3_fc.System.Events.{
  Event, packet, timer, version, EventFits, AllFit, Then, handle_event, run, handle_event-Returns,
}
use av3_fc.System.Handlers.{IsOk, ReturnsWith}
use av3_fc.System.Armament.{handle_event-Hears}
use av3_fc.System.Frame.{When}
use av3_fc.System.Heard.{Ear, hear_frames, hear_output, hear_outputs, hear_packet}
use av3_fc.System.Hears.{Hears}
use av3_fc.System.Runs.{receive-ReturnsWith}
use av3_fc.System.Logged.{history}
use av3_fc.Time.{Timespec}
use av3_fc.System.Measured.{measured_packet, receive-Adds, same_history, measured}

-- What is heard leaves the statics alone.
hear_frames_statics :
    (x : Option (List Message × Bytes)) (e : Ear) → (hear_frames x e).statics ≡ e.statics
hear_frames_statics none e = refl
hear_frames_statics (some (ms, rest)) e = refl

hear_output_statics : (o : Ethmux.Output) (e : Ear) → (hear_output o e).statics ≡ e.statics
hear_output_statics (handled demuxed_adis m) e = refl
hear_output_statics (handled demuxed_mpu m) e = refl
hear_output_statics (handled demuxed_mpl m) e = refl
hear_output_statics (handled demuxed_bmp m) e = refl
hear_output_statics (handled demuxed_rnh m) e = refl
hear_output_statics (handled demuxed_rnhumb m) e = refl
hear_output_statics (handled demuxed_fcfh m) e = refl
hear_output_statics (handled demuxed_jgps m) e = refl
hear_output_statics (handled demuxed_cots m) e = hear_frames_statics (cots_raw_in m e.buf) e
hear_output_statics (sequenced_error m) e = refl
hear_output_statics (demuxed_arm buffer len ts) e = refl
hear_output_statics (demuxed_rc buffer len ts) e = refl

pub hear_outputs_statics :
    (os : List Ethmux.Output) (e : Ear) → (hear_outputs os e).statics ≡ e.statics
hear_outputs_statics [] e = refl
hear_outputs_statics (o ∷ os) e =
    hear_outputs_statics os (hear_output o e) ∙ hear_output_statics o e

module _ {D : Type 0} (F : DoubleOps D) (L : DoubleLaws F) (k : SocketConstants)
    (starttime : Timespec) (socket connected : ℤ) where
  abbrev Heard : Ear → State D → Type 0
  Heard = Hears F socket connected

  -- After one event, if the measurements in it were logged.
  next_measures :
      (es : List (Bytes × Event)) (must : List Message) (e : Ear) (x : Option (State D))
      (out : List Message)
      → ReturnsWith (history must) x
      → When (Heard e) x
      → Then F k starttime x (AllFit F k starttime es)
      → ((s : State D)
          → Heard e s
          → AllFit F k starttime es s
          → IsOk (history must) s
          → ReturnsWith (history out) (run F k starttime es s))
      → ReturnsWith (history out) (and_then x (run F k starttime es))
  next_measures es must e none out r w h f = r
  next_measures es must e (some s) out r w h f = f s w h r

  packet-Measures :
      (now : Bytes) (ts : Timespec) (m : ReceivedMessage) (must : List Message) (e : Ear)
      (s : State D)
      → length now ≡ 6
      → EventFits F k starttime (packet ts m) s
      → Heard e s
      → IsOk (history must) s
      → ReturnsWith
          (history (must ++ measured_packet (read_packet k starttime ts m) e.statics))
          (handle_event F k starttime now (packet ts m) s)
  unfolding handle_event
  packet-Measures now ts m must e s six (i, g) h o =
      let r = read_packet k starttime ts m in
      let (i', t) = read_packet-IsRead k starttime ts m i in
      subst (λ st. ReturnsWith (history (must ++ measured_packet r st)) (receive F now r s))
        h.same_statics
        (receive-Adds F L now six must r.bytes (route r.port) r s refl refl i' t o
          (receive-ReturnsWith (history must) F L now six r s i' t g o))

  pub run-Measures :
      (es : List (Bytes × Event)) (must : List Message) (e : Ear) (s : State D)
      → Heard e s
      → AllFit F k starttime es s
      → IsOk (history must) s
      → ReturnsWith (history (must ++ measured k starttime es e.statics)) (run F k starttime es s)
  unfolding run AllFit measured
  run-Measures [] must e s h f o = same_history must _ (some s) (sym (append-nil must)) o
  run-Measures ((now, packet ts m) ∷ es) must e s h (six, fit, rest) o =
      let r = read_packet k starttime ts m in
      let ms = measured_packet r e.statics in
      let e' = hear_packet r e in
      let out = must ++ (ms ++ measured k starttime es (demux r e.statics).0) in
      let join : (must ++ ms) ++ measured k starttime es e'.statics ≡ out =
        append_assoc must ms (measured k starttime es e'.statics)
        ∙ ap (λ st. must ++ (ms ++ measured k starttime es st))
            (hear_outputs_statics (demux r e.statics).1
              (record e { statics = (demux r e.statics).0 })) in
      next_measures es (must ++ ms) e' (handle_event F k starttime now (packet ts m) s) out
        (packet-Measures now ts m must e s six fit h o)
        (handle_event-Hears F k starttime socket connected now (packet ts m) e s h) rest
        (λ t w f j.
          same_history _ out (run F k starttime es t) join
            (run-Measures es (must ++ ms) e' t w f j))
  run-Measures ((now, timer) ∷ es) must e s h (six, fit, rest) o =
      next_measures es must e (handle_event F k starttime now timer s) _
        (handle_event-Returns F k starttime (history must) L now timer s six fit o)
        (handle_event-Hears F k starttime socket connected now timer e s h) rest
        (run-Measures es must e)
  run-Measures ((now, version fd read buffer) ∷ es) must e s h (six, fit, rest) o =
      next_measures es must e (handle_event F k starttime now (version fd read buffer) s) _
        (handle_event-Returns F k starttime (history must) L now (version fd read buffer) s six fit
          o)
        (handle_event-Hears F k starttime socket connected now (version fd read buffer) e s h) rest
        (run-Measures es must e)
