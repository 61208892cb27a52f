-- ===== src/System/Heard.antt =====
-- What the arming module hears of some events: the program without the logger, the roll control and
-- the estimation.
use av3_fc.Base.{List, [], ◌∷◌, Option, none, some}
use av3_fc.Base.Bytes.{Bytes}
use av3_fc.Arm.Lock.{Input, imu, gps, command}
use av3_fc.Ethmux
use av3_fc.Ethmux.{
  demuxed_adis, demuxed_cots, handled, sequenced_error, demuxed_arm, demuxed_rc, Statics, Read,
  demux,
}
use av3_fc.Ethmux.Poll.{read_packet}
use av3_fc.Gps.{cots_raw_in}
use av3_fc.Message.{Message}
use av3_fc.Sockets.{SocketConstants}
use av3_fc.System.Events.{Event, packet, timer, version}
use av3_fc.Time.{Timespec}

-- The statics, the bytes of an unfinished GPS frame, and what was heard, the newest first.
pub record Ear : Type 0 where
  pub statics : Statics
  pub buf : Bytes
  pub inputs : List Input

-- The messages of the GPS, one after the other.
abbrev pub hear_fixes : List Message → List Input → List Input
hear_fixes [] h = h
hear_fixes (m ∷ ms) h = hear_fixes ms (gps m ∷ h)

abbrev pub hear_frames : Option (List Message × Bytes) → Ear → Ear
hear_frames none e = e
hear_frames (some (ms, rest)) e = record e { buf = rest; inputs = hear_fixes ms e.inputs }

abbrev pub hear_output : Ethmux.Output → Ear → Ear
hear_output (handled demuxed_adis m) e = record e { inputs = imu m ∷ e.inputs }
hear_output (handled demuxed_cots m) e = hear_frames (cots_raw_in m e.buf) e
hear_output (handled _ m) e = e
hear_output (sequenced_error m) e = e
hear_output (demuxed_arm buffer len timestamp) e = record e {
  inputs = command buffer len ∷ e.inputs;
}
hear_output (demuxed_rc buffer len timestamp) e = e

abbrev pub hear_outputs : List Ethmux.Output → Ear → Ear
hear_outputs [] e = e
hear_outputs (o ∷ os) e = hear_outputs os (hear_output o e)

abbrev pub hear_packet : Read → Ear → Ear
hear_packet r e =
    let (statics', outs) = demux r e.statics in hear_outputs outs (record e { statics = statics' })

module _ (k : SocketConstants) (starttime : Timespec) where
  abbrev pub hear_event : Event → Ear → Ear
  hear_event (packet ts m) e = hear_packet (read_packet k starttime ts m) e
  hear_event timer e = e
  hear_event (version fd read buffer) e = e

  unfoldable pub hear : List (Bytes × Event) → Ear → Ear
  hear [] e = e
  hear ((now, event) ∷ es) e = hear es (hear_event event e)
