-- ===== src/System/FixRuns.antt =====
-- The GPS fix in runs of the whole program.
use av3_fc.Base.{false, List, [], ◌∷◌, some, ◌≡◌, refl, sym, ap, ◌∙◌, All, concat, map}
use av3_fc.Base.Bytes.{Bytes}
use av3_fc.Arm.Lock.{fix_after, after-Reflects}
use av3_fc.Ethmux.{demux}
use av3_fc.Ethmux.Poll.{read_packet}
use av3_fc.Gps.{send_venus_messages}
use av3_fc.Gps.Stream.{IsChunk, payload, chunked_stream, receive_all}
use av3_fc.Message.{Message}
use av3_fc.Sockets.{SocketConstants}
use av3_fc.System.Events.{Event, packet, timer, version}
use av3_fc.System.Heard.{Ear, hear_outputs, hear}
use av3_fc.System.MeasuredRuns.{hear_outputs_statics}
use av3_fc.Time.{Timespec}
use av3_fc.Arm
use av3_fc.Double.{DoubleOps}
use av3_fc.Ethmux.{statics}
use av3_fc.Logger.Start.{went_on}
use av3_fc.System.{State}
use av3_fc.System.Armament.{silence, boot-run-heard}
use av3_fc.System.Events.{Answers, boot, run}
use av3_fc.System.Fixes.{
  gps_packets, last_fix, last_fix-untimed, Splits, Splits-trans, other-Splits, outputs-Splits,
  finished,
}

module _ (k : SocketConstants) (starttime : Timespec) where
  hear-Splits :
      (es : List (Bytes × Event)) (e : Ear) (sent : List Message) (rest : Bytes)
      → receive_all (gps_packets k starttime es e.statics) e.buf ≡ some (sent, rest)
      → Splits e.inputs (hear k starttime es e) [] sent rest
  unfolding hear gps_packets
  hear-Splits [] e sent rest r = other-Splits [] sent rest e e refl refl r
  hear-Splits ((now, packet ts m) ∷ es) e sent rest r =
      let (st, outs) = demux (read_packet k starttime ts m) e.statics in
      let e0 : Ear = record e { statics = st } in
      let e1 = hear_outputs outs e0 in
      let tail = gps_packets k starttime es st in
      let first = outputs-Splits outs e0 tail sent rest r in
      Splits-trans e.inputs e1 (hear k starttime es e1) tail [] sent rest first (
        hear-Splits es e1 first.later rest (
          ap (λ s. receive_all (gps_packets k starttime es s) e1.buf) (hear_outputs_statics outs e0)
          ∙ first.remaining))
  hear-Splits ((now, timer) ∷ es) e sent rest r = hear-Splits es e sent rest r
  hear-Splits ((now, version fd read buffer) ∷ es) e sent rest r = hear-Splits es e sent rest r

  -- What one scan of all the bytes finds is what was heard.
  pub hear-scan :
      (es : List (Bytes × Event)) (e : Ear)
      → e.buf ≡ []
      → All IsChunk (gps_packets k starttime es e.statics)
      → let scan =
          send_venus_messages [] (concat (map payload (gps_packets k starttime es e.statics))) in
        ((hear k starttime es e).buf ≡ scan.1)
        × (fix_after (hear k starttime es e).inputs ≡ last_fix scan.0 (fix_after e.inputs))
  unfolding receive_all
  hear-scan es e empty h =
      let ms = gps_packets k starttime es e.statics in
      let all = chunked_stream ms h in
      let s = hear-Splits es e all.sent all.kept (ap (receive_all ms) empty ∙ all.returns) in
      let ended = finished e.inputs (hear k starttime es e) all.sent all.kept s in
      (
        ended.1 ∙ sym (ap (λ (p : List Message × Bytes). p.1) all.scanned),
        s.fixed
            ∙ ap (λ l. last_fix l (fix_after e.inputs)) (sym ended.0)
            ∙ sym (last_fix-untimed all.sent (fix_after e.inputs))
            ∙ ap (λ (p : List Message × Bytes). last_fix p.0 (fix_after e.inputs))
                (sym all.scanned),
      )

module _ {D : Type 0} (F : DoubleOps D) (k : SocketConstants) (starttime : Timespec) where
  -- Whatever the system calls of the init functions give, and whatever events are handled after them,
  -- as long as the program goes on: if the packets that `demux` hands on from the GPS have at most 249
  -- bytes of data, whole in memory, then the bytes that wait for the rest of a frame are those that one
  -- scan of the data of all these packets, one after the other, leaves, and the GPS is locked exactly if
  -- the last V8A8 message that this scan finds has a 3D fix, however the frames are cut into packets
  -- and whatever else arrives between them.
  pub boot-run-last_fix :
      (a : Answers) (es : List (Bytes × Event)) (s t : State D)
      → boot F a ≡ went_on s
      → run F k starttime es s ≡ some t
      → All IsChunk (gps_packets k starttime es statics)
      → let scan =
          send_venus_messages [] (concat (map payload (gps_packets k starttime es statics))) in
        (t.buf ≡ scan.1) × (t.arm.gps_locked ≡ last_fix scan.0 false)
  boot-run-last_fix a es s t b r h =
      let heard = boot-run-heard F k starttime a es s t b r in
      let (rest, fix) = hear-scan k starttime es silence refl h in
      let state =
        after-Reflects F a.arm_socket a.arm_connected (hear k starttime es silence).inputs in
      (heard.same_buf ∙ rest, ap (λ (x : Arm.State). x.gps_locked) heard.same_arm ∙ state.fix ∙ fix)
