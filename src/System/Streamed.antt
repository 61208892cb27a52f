-- ===== src/System/Streamed.antt =====
-- Events with packets from the GPS, and what is asked of them.
use av3_fc.Base.{◌≤◌, ◌≢◌, List, [], ◌∷◌, ◌++◌, some, ◌≡◌, All, length, map}
use mathlib.Core.Path.{subst}
use av3_fc.Base.Bytes.{Bytes}
use av3_fc.Ethmux
use av3_fc.Ethmux.{
  demuxed_adis, demuxed_mpu, demuxed_mpl, demuxed_bmp, demuxed_rnh, demuxed_rnhumb, demuxed_fcfh,
  demuxed_jgps, demuxed_cots, handled, sequenced_error, demuxed_arm, demuxed_rc, demux, statics,
}
use av3_fc.Gps.{send_venus_messages}
use av3_fc.Gps.Chunks.{max_kept}
use av3_fc.Gps.Stream.{IsChunk, payload, cots_raw_in-chunk, receive_all, untimed}
use av3_fc.Message.{Message}
use av3_fc.System.Packets.{OneCall}
use av3_fc.System.Handlers.{OutputGpsFits}
use av3_fc.System.Fixes.{from_gps, later_sent}

-- A message that is not that of a frame of length 0.
abbrev pub HasFrame : Message → Type 0
HasFrame m = m.data_length ≢ 65535

pub All-left : (P : Message → Type 0) (xs ys : List Message) → All P (xs ++ ys) → All P xs
All-left P [] ys h = tt
All-left P (x ∷ xs) ys (p, h) = (p, All-left P xs ys h)

pub All-right : (P : Message → Type 0) (xs ys : List Message) → All P (xs ++ ys) → All P ys
All-right P [] ys h = h
All-right P (x ∷ xs) ys (p, h) = All-right P xs ys h

pub HasFrame-untimed : (ms : List Message) → All HasFrame (map untimed ms) → All HasFrame ms
HasFrame-untimed [] h = tt
HasFrame-untimed (m ∷ ms) (p, h) = (p, HasFrame-untimed ms h)

module _ (buf rest : Bytes) (tail sent : List Message) (kept : length buf ≤ max_kept)
    (frames : All HasFrame sent) where
  -- What is asked of the outputs of a packet.
  chunk_fits :
      (m : Message)
      → IsChunk m
      → receive_all (m ∷ tail) buf ≡ some (sent, rest)
      → OutputGpsFits buf (handled demuxed_cots m)
  unfolding receive_all
  chunk_fits m c r =
      let (one, b) = send_venus_messages m.timestamp (buf ++ payload m) in
      let (later, joined, _) =
        later_sent tail sent rest one (receive_all tail b)
          (rw (cots_raw_in-chunk m buf kept c) at r) in
      (c, All-left HasFrame one later (subst (All HasFrame) joined frames))

  pub outputs_fit :
      (os : List Ethmux.Output)
      → OneCall os
      → All IsChunk (from_gps os)
      → receive_all (from_gps os ++ tail) buf ≡ some (sent, rest)
      → All (OutputGpsFits buf) os
  outputs_fit [] one c r = tt
  outputs_fit (sequenced_error m ∷ os) one c r = (tt, outputs_fit os one c r)
  outputs_fit (handled demuxed_cots m ∷ []) one (c, _) r = (chunk_fits m c r, tt)
  outputs_fit (handled demuxed_adis m ∷ []) one c r = (tt, tt)
  outputs_fit (handled demuxed_mpu m ∷ []) one c r = (tt, tt)
  outputs_fit (handled demuxed_mpl m ∷ []) one c r = (tt, tt)
  outputs_fit (handled demuxed_bmp m ∷ []) one c r = (tt, tt)
  outputs_fit (handled demuxed_rnh m ∷ []) one c r = (tt, tt)
  outputs_fit (handled demuxed_rnhumb m ∷ []) one c r = (tt, tt)
  outputs_fit (handled demuxed_fcfh m ∷ []) one c r = (tt, tt)
  outputs_fit (handled demuxed_jgps m ∷ []) one c r = (tt, tt)
  outputs_fit (demuxed_arm b l ts ∷ []) one c r = (tt, tt)
  outputs_fit (demuxed_rc b l ts ∷ []) one c r = (tt, tt)
  outputs_fit (handled sender m ∷ o ∷ os) one c r = absurd one
  outputs_fit (demuxed_arm b l ts ∷ o ∷ os) one c r = absurd one
  outputs_fit (demuxed_rc b l ts ∷ o ∷ os) one c r = absurd one
