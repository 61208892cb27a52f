-- ===== src/System/Runs.antt =====
-- The whole program on one packet, from `demux` on.
use av3_fc.Base.{◌≤◌, List, [], ◌∷◌, some, ◌≡◌, ap, length, All}
use av3_fc.Base.Bytes.{Bytes}
use av3_fc.Double.{DoubleOps, DoubleLaws}
use av3_fc.Ethmux
use av3_fc.Ethmux.{
  Sender, demuxed_adis, demuxed_mpu, demuxed_mpl, demuxed_bmp, demuxed_rnh, demuxed_rnhumb,
  demuxed_fcfh, demuxed_jgps, demuxed_cots, handled, sequenced_error, demuxed_arm, demuxed_rc, Read,
  demux,
}
use av3_fc.Ethmux.Demux.{IsRead, demux-IsValid}
use av3_fc.Logger
use av3_fc.Logger.{p_limit, message_len}
use av3_fc.Logger.Limits.{IsMessage}
use av3_fc.Message.{Message}
use av3_fc.System.{State, and_then, with_log, log_message, output, outputs, receive}
use av3_fc.System.Calls.{LogReturns_lem, LogInvariant, valid_log, arm_raw_in-IsShort}
use av3_fc.System.Rolls.{rc_raw_testrc-SendsRolls}
use av3_fc.System.Packets.{OutputFits, OneCall, demux-OutputFits, demux-OneCall}
use av3_fc.System.Handlers.{
  OutputGpsFits, IsOk, ReturnsWith, and_then_lem, Ok, Returns, log_message-Returns,
  rc_outputs-Returns, arm_outputs-Returns, handle-Returns,
}

module _ (I : LogInvariant) {D : Type 0} (F : DoubleOps D) (L : DoubleLaws F) (now : Bytes)
    (six : length now ≡ 6) where
  output-Returns :
      (o : Ethmux.Output) (s : State D)
      → OutputFits o
      → OutputGpsFits s.buf o
      → IsOk I s
      → ReturnsWith I (output F now o s)
  unfolding output
  output-Returns (handled sender m) s (i, f) g k = handle-Returns I F L now six sender m s i f g k
  output-Returns (sequenced_error m) s (i, le) g k = log_message-Returns I F L now six m s i le k
  output-Returns (demuxed_arm buffer len timestamp) s f g k =
      arm_outputs-Returns I F L now six _ _ (arm_raw_in-IsShort buffer len s.arm) k
  output-Returns (demuxed_rc buffer len timestamp) s f g k =
      rc_outputs-Returns I F L now six _ _ (rc_raw_testrc-SendsRolls F L now six buffer len s.rc) k

  -- Logging changes nothing but the log.
  pub log_message_keeps :
      (m : Message) (s : State D)
      → IsMessage m
      → message_len m ≤ p_limit
      → IsOk I s
      → (l : Logger.State) × (log_message F now m s ≡ some (record s { log = l }))
        × IsOk I (record s { log = l })
  unfolding log_message
  log_message_keeps m s i le (b, v, w, o) =
      let (l, e, h) = LogReturns_lem I.Holds _ (I.write now m s.log six i le w) in
      (l, ap (with_log F now s) e, (b, v, h, o))

  last_call :
      (o : Ethmux.Output) (s : State D)
      → OutputFits o
      → OutputGpsFits s.buf o
      → IsOk I s
      → ReturnsWith I (and_then (output F now o s) (outputs F now []))
  unfolding outputs
  last_call o s f g k = and_then_lem I (output F now o s) _ (output-Returns o s f g k) (λ t j. j)

  outputs-Returns :
      (os : List Ethmux.Output) (s : State D)
      → OneCall os
      → All OutputFits os
      → All (OutputGpsFits s.buf) os
      → IsOk I s
      → ReturnsWith I (outputs F now os s)
  unfolding outputs output
  outputs-Returns [] s one f g k = k
  outputs-Returns (sequenced_error m ∷ os) s one ((i, le), fs) (g, gs) k =
      let (l, e, j) = log_message_keeps m s i le k in
      rw e (outputs-Returns os (record s { log = l }) one fs gs j)
  outputs-Returns (handled sender m ∷ []) s one (f, fs) (g, gs) k =
      last_call (handled sender m) s f g k
  outputs-Returns (demuxed_arm b l ts ∷ []) s one (f, fs) (g, gs) k =
      last_call (demuxed_arm b l ts) s f g k
  outputs-Returns (demuxed_rc b l ts ∷ []) s one (f, fs) (g, gs) k =
      last_call (demuxed_rc b l ts) s f g k
  outputs-Returns (handled sender m ∷ _ ∷ _) s one f g k = absurd one
  outputs-Returns (demuxed_arm b l ts ∷ _ ∷ _) s one f g k = absurd one
  outputs-Returns (demuxed_rc b l ts ∷ _ ∷ _) s one f g k = absurd one

  -- A packet, from `demux` on.
  pub receive-ReturnsWith :
      (r : Read) (s : State D)
      → IsRead r
      → length r.timestamp ≡ 6
      → All (OutputGpsFits s.buf) (demux r s.statics).1
      → IsOk I s
      → ReturnsWith I (receive F now r s)
  unfolding receive
  receive-ReturnsWith r s i t g (b, v, w, o) =
      outputs-Returns (demux r s.statics).1 _ (demux-OneCall r s.statics)
        (demux-OutputFits r s.statics i t v) g (b, (demux-IsValid r s.statics v).0, w, o)

module _ {D : Type 0} (F : DoubleOps D) (L : DoubleLaws F) (now : Bytes)
    (six : length now ≡ 6) where
  -- From a state in order, under the facts assumed of `double`, a packet of at most 1,500 bytes,
  -- with times of six bytes, is handled from `demux` to the log, and leaves a state in order, if
  -- what it brings from the GPS is at most 249 bytes that complete no frame of length 0: no write
  -- overruns a buffer of the log or of the frame scan, and no logged message is read past its
  -- end.
  pub receive-Returns :
      (r : Read) (s : State D)
      → IsRead r
      → length r.timestamp ≡ 6
      → All (OutputGpsFits s.buf) (demux r s.statics).1
      → Ok s
      → Returns (receive F now r s)
  receive-Returns = receive-ReturnsWith valid_log F L now six
