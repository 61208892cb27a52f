-- ===== src/System/Logged.antt =====
-- From a sensor to the log: an accepted packet, and the history of the log.
use av3_fc.Base.{
  ℕ, suc, ◌-◌, ◌%◌, ◌^◌, ◌≤◌, true, List, [], ◌∷◌, ◌++◌, ◌≡◌, refl, sym, ap, ◌∙◌, length, drop, All,
}
use mathlib.Core.Path.{subst}
use av3_fc.Base.Int.{pos}
use av3_fc.Base.Bytes.{Bytes}
use av3_fc.Double.{DoubleOps, DoubleLaws}
use av3_fc.Ethmux.{
  Sender, demuxed_adis, demuxed_mpu, demuxed_mpl, demuxed_bmp, demuxed_rnh, demuxed_rnhumb,
  demuxed_fcfh, demuxed_jgps, demuxed_cots, handled, sequenced_error, DemuxType,
  format_sequenced_error, sequenced_receive, Channel, statics, Statics, Read, sequenced, route,
  dispatch, demux_bytes, demux,
}
use av3_fc.Ethmux.Demux.{IsRead, demux-IsValid}
use av3_fc.Logger.{p_limit, message_len}
use av3_fc.Logger.History.{HasHistory, apply-HasHistory, log_write-HasHistory}
use av3_fc.Logger.Limits.{IsMessage}
use av3_fc.Logger.Run.{write, write_disk_only, timeout}
use av3_fc.Message.{Message}
use av3_fc.System.{State, log_message, handle, output, outputs, receive}
use av3_fc.System.Calls.{LogReturns, LogInvariant}
use av3_fc.System.Packets.{
  OutputFits, SenderFits, is_accepted, sequenced_receive_calls, demux-OutputFits,
}
use av3_fc.System.Runs.{log_message_keeps}
use av3_fc.System.Handlers.{IsOk, ReturnsWith, and_then_lem, imu_received-Returns}

-- The log has a history, with some messages in it, in their order.
abbrev pub history : List Message → LogInvariant
history must = record {
  Holds = HasHistory must;
  write = λ now m l six i le h.
      let (l', e, k) = apply-HasHistory now (write m) must l six (i, le) h in
      subst (LogReturns (HasHistory must)) (sym e) k;
  write_disk_only = λ now m l six i le h.
      let (l', e, k) = apply-HasHistory now (write_disk_only m) must l six (i, le) h in
      subst (LogReturns (HasHistory must)) (sym e) k;
  flush = λ now l six h.
      let (l', e, k) = apply-HasHistory now timeout must l six tt h in
      subst (LogReturns (HasHistory must)) (sym e) k;
}

-- The senders whose messages main.miml hands to `log_write` directly.
abbrev pub IsLogged : Sender → Type 0
IsLogged demuxed_jgps = ⊥
IsLogged demuxed_cots = ⊥
IsLogged _ = Unit {0}

-- The message that a packet is for its handler.
abbrev pub message_of : DemuxType → Read → ℕ → Message
message_of t r len = record {
  id = t.id;
  timestamp = r.timestamp;
  data_length = (len - 4) % 2 ^ 16;
  body = drop 4 r.buffer;
}

module _ {D : Type 0} (F : DoubleOps D) (L : DoubleLaws F) (now : Bytes) (six : length now ≡ 6)
    (must : List Message) where
  log_message-Logs :
      (m : Message) (s : State D)
      → IsMessage m
      → message_len m ≤ p_limit
      → IsOk (history must) s
      → ReturnsWith (history (must ++ m ∷ [])) (log_message F now m s)
  unfolding log_message
  log_message-Logs m s i le (b, v, h, o) =
      let (l', e, k) = log_write-HasHistory now m must s.log six (i, le) h in rw e (b, v, k, o)

  handle-Logs :
      (sender : Sender) (m : Message) (s : State D)
      → IsLogged sender
      → IsMessage m
      → SenderFits sender m
      → IsOk (history must) s
      → ReturnsWith (history (must ++ m ∷ [])) (handle F now sender m s)
  unfolding handle
  handle-Logs demuxed_adis m s d i le k =
      and_then_lem (history (must ++ m ∷ [])) (log_message F now m s) _
        (log_message-Logs m s i le k)
        (λ t j. imu_received-Returns (history (must ++ m ∷ [])) F L now six m _ j)
  handle-Logs demuxed_mpu m s d i le k = log_message-Logs m s i le k
  handle-Logs demuxed_mpl m s d i le k = log_message-Logs m s i le k
  handle-Logs demuxed_bmp m s d i le k = log_message-Logs m s i le k
  handle-Logs demuxed_rnh m s d i le k = log_message-Logs m s i le k
  handle-Logs demuxed_rnhumb m s d i le k = log_message-Logs m _ i le k
  handle-Logs demuxed_fcfh m s d i le k = log_message-Logs m s i le k
  handle-Logs demuxed_jgps m s d i le k = absurd d
  handle-Logs demuxed_cots m s d i le k = absurd d

  last-Logs :
      (sender : Sender) (m : Message) (s : State D)
      → IsLogged sender
      → OutputFits (handled sender m)
      → IsOk (history must) s
      → ReturnsWith (history (must ++ m ∷ [])) (outputs F now (handled sender m ∷ []) s)
  unfolding outputs output
  last-Logs sender m s d (i, f) k =
      and_then_lem (history (must ++ m ∷ [])) (handle F now sender m s) _
        (handle-Logs sender m s d i f k) (λ t j. j)

  error-Logs :
      (e m : Message) (sender : Sender) (s : State D)
      → IsLogged sender
      → OutputFits (sequenced_error e)
      → OutputFits (handled sender m)
      → IsOk (history must) s
      → ReturnsWith
          (history (must ++ m ∷ []))
          (outputs F now (sequenced_error e ∷ handled sender m ∷ []) s)
  unfolding outputs output
  error-Logs e m sender s d (i, le) f k =
      let (l, same, j) = log_message_keeps (history must) F L now six e s i le k in
      rw same (last-Logs sender m (record s { log = l }) d f j)

  calls-Logs :
      (r : Read) (len : ℕ) (t : DemuxType) (s : State D)
      → IsLogged t.handler
      → is_accepted t r.buffer len ≡ true
      → IsOk (history must) s
      → All OutputFits (sequenced_receive r.port r.buffer len r.timestamp t).1
      → ReturnsWith
          (history (must ++ message_of t r len ∷ []))
          (outputs F now (sequenced_receive r.port r.buffer len r.timestamp t).1 s)
  unfolding format_sequenced_error
  calls-Logs r len t s d a k =
      sequenced_receive_calls
        (λ os.
          All OutputFits os
          → ReturnsWith (history (must ++ message_of t r len ∷ [])) (outputs F now os s))
        r.port r.buffer len r.timestamp t (λ e n refused. absurd (cc (a, refused)))
        (λ right (f, _). last-Logs t.handler (message_of t r len) s d f k)
        (λ e n right (f, (g, _)). error-Logs _ (message_of t r len) t.handler s d f g k)

demux_bytes_sequenced :
    (r : Read) (s : Statics) (n : ℕ) (c : Channel)
    → route r.port ≡ sequenced c
    → (demux_bytes (pos (suc n)) r s).1
      ≡ (sequenced_receive r.port r.buffer (suc n) r.timestamp (s c)).1
unfolding demux_bytes dispatch
demux_bytes_sequenced r s n c q = rw q refl

demux_sequenced :
    (r : Read) (s : Statics) (n : ℕ) (c : Channel)
    → r.bytes ≡ pos (suc n)
    → route r.port ≡ sequenced c
    → (demux r s).1 ≡ (sequenced_receive r.port r.buffer (suc n) r.timestamp (s c)).1
unfolding demux
demux_sequenced r s n c b q = ap (λ k. (demux_bytes k r s).1) b ∙ demux_bytes_sequenced r s n c q

-- A packet that its static accepts, for a sender whose messages are logged.
pub record IsLoggedPacket (r : Read) (s : Statics) (c : Channel) (n : ℕ) : Type 0 where
  pub read : IsRead r
  pub time : length r.timestamp ≡ 6
  pub size : r.bytes ≡ pos (suc n)
  pub from : route r.port ≡ sequenced c
  pub logged : IsLogged (statics c).handler
  pub accepted : is_accepted (s c) r.buffer (suc n) ≡ true

module _ {D : Type 0} (F : DoubleOps D) (L : DoubleLaws F) where
  pub receive-Logs :
      (now : Bytes) (must : List Message) (r : Read) (s : State D) (c : Channel) (n : ℕ)
      → length now ≡ 6
      → IsLoggedPacket r s.statics c n
      → IsOk (history must) s
      → ReturnsWith (history (must ++ message_of (s.statics c) r (suc n) ∷ [])) (receive F now r s)
  unfolding receive
  receive-Logs now must r s c n six h (g, v, w, o) =
      let e = demux_sequenced r s.statics n c h.size h.from in
      rw e (
        calls-Logs F L now six must r (suc n) (s.statics c) _
          (subst IsLogged (sym (v.handler_is c)) h.logged) h.accepted
          (g, (demux-IsValid r s.statics v).0, w, o)
          (subst (All OutputFits) e (demux-OutputFits r s.statics h.read h.time v)))
