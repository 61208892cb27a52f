-- ===== src/System/Fixes.antt =====
-- The GPS fix in a run of the whole program, and the bytes of all GPS packets.
use av3_fc.Base.{
  Bool, List, [], ◌∷◌, ◌++◌, Option, none, some, ◌≡◌, refl, sym, ap, ◌∙◌, map, append_assoc,
  append-nil, if◌then◌else◌, leb, get_or,
}
use av3_fc.Base.Bytes.{Bytes, codes, memeq}
use av3_fc.Arm.Lock.{Input, gps, fix_after}
use av3_fc.Ethmux
use av3_fc.Ethmux.{
  demuxed_adis, demuxed_mpu, demuxed_mpl, demuxed_bmp, demuxed_rnh, demuxed_rnhumb, demuxed_fcfh,
  demuxed_jgps, demuxed_cots, handled, sequenced_error, demuxed_arm, demuxed_rc, Read, Statics,
  demux,
}
use av3_fc.Ethmux.Poll.{read_packet}
use av3_fc.Gps.{cots_raw_in}
use av3_fc.Gps.Stream.{receive_all, sent_before, received_before, untimed}
use av3_fc.Message.{Message}
use av3_fc.Sockets.{SocketConstants}
use av3_fc.System.Events.{Event, packet, timer, version}
use av3_fc.System.Heard.{Ear, hear_fixes, hear_frames, hear_output, hear_outputs}
use av3_fc.Time.{Timespec}

-- The packets of the GPS among what `demux` hands on.
abbrev pub from_gps : List Ethmux.Output → List Message
from_gps [] = []
from_gps (handled demuxed_cots m ∷ os) = m ∷ from_gps os
from_gps (_ ∷ os) = from_gps os

module _ (k : SocketConstants) (starttime : Timespec) where
  -- The packets of the GPS that are handed on in some events.
  unfoldable pub gps_packets : List (Bytes × Event) → Statics → List Message
  gps_packets [] s = []
  gps_packets ((now, packet ts m) ∷ es) s =
      let (s', outs) = demux (read_packet k starttime ts m) s in from_gps outs ++ gps_packets es s'
  gps_packets ((now, timer) ∷ es) s = gps_packets es s
  gps_packets ((now, version fd read buffer) ∷ es) s = gps_packets es s

-- Whether there is a fix after a message: a V8A8 message says so.
abbrev pub fix_of : Message → Bool → Bool
fix_of m b = if memeq 4 (codes "V8A8") m.id then leb 2 (get_or m.body 0 0) else b

-- Whether there is one after some messages, the last one last.
abbrev pub last_fix : List Message → Bool → Bool
last_fix [] b = b
last_fix (m ∷ ms) b = last_fix ms (fix_of m b)

last_fix-append :
    (xs ys : List Message) (b : Bool) → last_fix (xs ++ ys) b ≡ last_fix ys (last_fix xs b)
last_fix-append [] ys b = refl
last_fix-append (x ∷ xs) ys b = last_fix-append xs ys (fix_of x b)

pub last_fix-untimed : (ms : List Message) (b : Bool) → last_fix (map untimed ms) b ≡ last_fix ms b
last_fix-untimed [] b = refl
last_fix-untimed (m ∷ ms) b = last_fix-untimed ms (fix_of m b)

fix_after-hear_fixes :
    (ms : List Message) (h : List Input) → fix_after (hear_fixes ms h) ≡ last_fix ms (fix_after h)
fix_after-hear_fixes [] h = refl
fix_after-hear_fixes (m ∷ ms) h = fix_after-hear_fixes ms (gps m ∷ h)

-- The rest of the packets, after those of some outputs.
pub record Splits (h : List Input) (e' : Ear) (tail sent : List Message) (rest : Bytes)
    : Type 0 where
  pub one : List Message
  pub later : List Message
  pub joined : sent ≡ one ++ later
  pub fixed : fix_after e'.inputs ≡ last_fix one (fix_after h)
  pub remaining : receive_all tail e'.buf ≡ some (later, rest)

module _ (tail sent : List Message) (rest : Bytes) where
  pub later_sent :
      (one : List Message) (y : Option (List Message × Bytes))
      → sent_before one y ≡ some (sent, rest)
      → (later : List Message) × (sent ≡ one ++ later) × (y ≡ some (later, rest))
  later_sent one none h = cc h
  later_sent one (some (later, b)) h = (later, cc h, cc h)

  frames-Splits :
      (e : Ear) (x : Option (List Message × Bytes))
      → received_before x (receive_all tail) ≡ some (sent, rest)
      → Splits e.inputs (hear_frames x e) tail sent rest
  frames-Splits e none h = cc h
  frames-Splits e (some (one, b)) h =
      let (later, j, r) = later_sent one (receive_all tail b) h in
      record {
        one = one;
        later = later;
        joined = j;
        fixed = fix_after-hear_fixes one e.inputs;
        remaining = r;
      }

  -- An output that is not from the GPS.
  pub other-Splits :
      (e e' : Ear)
      → e'.buf ≡ e.buf
      → fix_after e'.inputs ≡ fix_after e.inputs
      → receive_all tail e.buf ≡ some (sent, rest)
      → Splits e.inputs e' tail sent rest
  other-Splits e e' b f r = record {
    one = [];
    later = sent;
    joined = refl;
    fixed = f;
    remaining = ap (receive_all tail) b ∙ r;
  }

output-Splits :
    (o : Ethmux.Output) (e : Ear) (tail sent : List Message) (rest : Bytes)
    → receive_all (from_gps (o ∷ []) ++ tail) e.buf ≡ some (sent, rest)
    → Splits e.inputs (hear_output o e) tail sent rest
unfolding receive_all
output-Splits (handled demuxed_cots m) e tail sent rest r =
    frames-Splits tail sent rest e (cots_raw_in m e.buf) r
output-Splits (handled demuxed_adis m) e tail sent rest r =
    other-Splits tail sent rest e _ refl refl r
output-Splits (handled demuxed_mpu m) e tail sent rest r =
    other-Splits tail sent rest e _ refl refl r
output-Splits (handled demuxed_mpl m) e tail sent rest r =
    other-Splits tail sent rest e _ refl refl r
output-Splits (handled demuxed_bmp m) e tail sent rest r =
    other-Splits tail sent rest e _ refl refl r
output-Splits (handled demuxed_rnh m) e tail sent rest r =
    other-Splits tail sent rest e _ refl refl r
output-Splits (handled demuxed_rnhumb m) e tail sent rest r =
    other-Splits tail sent rest e _ refl refl r
output-Splits (handled demuxed_fcfh m) e tail sent rest r =
    other-Splits tail sent rest e _ refl refl r
output-Splits (handled demuxed_jgps m) e tail sent rest r =
    other-Splits tail sent rest e _ refl refl r
output-Splits (sequenced_error m) e tail sent rest r = other-Splits tail sent rest e _ refl refl r
output-Splits (demuxed_arm b l ts) e tail sent rest r = other-Splits tail sent rest e _ refl refl r
output-Splits (demuxed_rc b l ts) e tail sent rest r = other-Splits tail sent rest e _ refl refl r

pub Splits-trans :
    (h : List Input) (e e' : Ear) (tail tail' sent : List Message) (rest : Bytes)
    (a : Splits h e tail sent rest)
    → Splits e.inputs e' tail' a.later rest
    → Splits h e' tail' sent rest
Splits-trans h e e' tail tail' sent rest a b = record {
  one = a.one ++ b.one;
  later = b.later;
  joined = a.joined ∙ ap (λ ms. a.one ++ ms) b.joined ∙ sym (append_assoc a.one b.one b.later);
  fixed = b.fixed ∙ ap (last_fix b.one) a.fixed ∙ sym (last_fix-append a.one b.one (fix_after h));
  remaining = b.remaining;
}

from_gps-cons :
    (o : Ethmux.Output) (os : List Ethmux.Output) (tail : List Message)
    → from_gps (o ∷ os) ++ tail ≡ from_gps (o ∷ []) ++ (from_gps os ++ tail)
from_gps-cons (handled demuxed_cots m) os tail = refl
from_gps-cons (handled demuxed_adis m) os tail = refl
from_gps-cons (handled demuxed_mpu m) os tail = refl
from_gps-cons (handled demuxed_mpl m) os tail = refl
from_gps-cons (handled demuxed_bmp m) os tail = refl
from_gps-cons (handled demuxed_rnh m) os tail = refl
from_gps-cons (handled demuxed_rnhumb m) os tail = refl
from_gps-cons (handled demuxed_fcfh m) os tail = refl
from_gps-cons (handled demuxed_jgps m) os tail = refl
from_gps-cons (sequenced_error m) os tail = refl
from_gps-cons (demuxed_arm b l ts) os tail = refl
from_gps-cons (demuxed_rc b l ts) os tail = refl

pub outputs-Splits :
    (os : List Ethmux.Output) (e : Ear) (tail sent : List Message) (rest : Bytes)
    → receive_all (from_gps os ++ tail) e.buf ≡ some (sent, rest)
    → Splits e.inputs (hear_outputs os e) tail sent rest
outputs-Splits [] e tail sent rest r = other-Splits tail sent rest e e refl refl r
outputs-Splits (o ∷ os) e tail sent rest r =
    let e1 = hear_output o e in
    let first =
      output-Splits o e (from_gps os ++ tail) sent rest
        (ap (λ ms. receive_all ms e.buf) (sym (from_gps-cons o os tail)) ∙ r) in
    Splits-trans e.inputs e1 (hear_outputs os e1) (from_gps os ++ tail) tail sent rest first
      (outputs-Splits os e1 tail first.later rest first.remaining)

-- Where no packets are left.
pub finished :
    (h : List Input) (e : Ear) (sent : List Message) (rest : Bytes) (a : Splits h e [] sent rest)
    → (sent ≡ a.one) × (e.buf ≡ rest)
unfolding receive_all
finished h e sent rest a =
    let none_left : [] ≡ a.later = cc a.remaining in
    (a.joined ∙ ap (λ ms. a.one ++ ms) (sym none_left) ∙ append-nil a.one, cc a.remaining)
