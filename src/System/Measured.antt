-- ===== src/System/Measured.antt =====
-- The measurements in the packets of a run, and the log.
use av3_fc.Base.{
  zero, suc, Bool, true, false, ◌&&◌, List, [], ◌∷◌, ◌++◌, Option, ◌≡◌, refl, sym, length,
  if◌then◌else◌, Bool-cases, inl, inr, append-nil, arith,
}
use mathlib.Core.Path.{subst}
use av3_fc.Base.Int.{ℤ, pos, negsuc}
use av3_fc.Base.Bytes.{Bytes}
use av3_fc.Double.{DoubleOps, DoubleLaws}
use av3_fc.Ethmux.{
  Sender, demuxed_jgps, demuxed_cots, Route, sequenced, to_arm, to_rc, unknown, statics, Statics,
  Read, route, demux,
}
use av3_fc.Ethmux.Demux.{IsRead}
use av3_fc.Ethmux.Poll.{read_packet}
use av3_fc.Message.{Message}
use av3_fc.Sockets.{SocketConstants}
use av3_fc.System.{State, receive}
use av3_fc.System.Events.{Event, packet, timer, version}
use av3_fc.System.Handlers.{IsOk, ReturnsWith}
use av3_fc.System.Logged.{history, IsLogged, message_of, receive-Logs}
use av3_fc.System.Packets.{is_accepted}
use av3_fc.Time.{Timespec}

-- Whether main.miml hands the sender's messages to `log_write` directly.
abbrev pub is_logged : Sender → Bool
is_logged demuxed_jgps = false
is_logged demuxed_cots = false
is_logged _ = true

-- The measurement in a packet, if its static accepts it.
abbrev pub measured_by : ℤ → Route → Read → Statics → List Message
measured_by (pos zero) q r s = []
measured_by (pos (suc n)) (sequenced c) r s =
    if is_logged (statics c).handler && is_accepted (s c) r.buffer (suc n)
    then message_of (s c) r (suc n) ∷ []
    else []
measured_by (pos (suc n)) to_arm r s = []
measured_by (pos (suc n)) to_rc r s = []
measured_by (pos (suc n)) unknown r s = []
measured_by (negsuc n) q r s = []

abbrev pub measured_packet : Read → Statics → List Message
measured_packet r s = measured_by r.bytes (route r.port) r s

is_logged-IsLogged : (sender : Sender) → is_logged sender ≡ true → IsLogged sender
is_logged-IsLogged sender h = ground (arith, h)

pub same_history :
    {D : Type 0} (must out : List Message) (x : Option (State D))
    → must ≡ out
    → ReturnsWith (history must) x
    → ReturnsWith (history out) x
same_history must out x e h = subst (λ ms. ReturnsWith (history ms) x) e h

module _ {D : Type 0} (F : DoubleOps D) (L : DoubleLaws F) (now : Bytes) (six : length now ≡ 6)
    (must : List Message) where
  -- Of a list of at most one message.
  abbrev Adds : List Message → Option (State D) → Type 0
  Adds ms x = ReturnsWith (history (must ++ ms)) x

  Adds-none : (x : Option (State D)) → ReturnsWith (history must) x → Adds [] x
  Adds-none x h = same_history must _ x (sym (append-nil must)) h

  Adds-test :
      (x : Option (State D)) (m : Message) (b b' : Bool)
      → b ≡ b'
      → Adds (if b' then m ∷ [] else []) x
      → Adds (if b then m ∷ [] else []) x
  Adds-test x m b b' e h = subst (λ b. Adds (if b then m ∷ [] else []) x) (sym e) h

  pub receive-Adds :
      (b : ℤ) (q : Route) (r : Read) (s : State D)
      → r.bytes ≡ b
      → route r.port ≡ q
      → IsRead r
      → length r.timestamp ≡ 6
      → IsOk (history must) s
      → ReturnsWith (history must) (receive F now r s)
      → Adds (measured_by b q r s.statics) (receive F now r s)
  receive-Adds (pos zero) q r s e p i t6 o k = Adds-none _ k
  receive-Adds (pos (suc n)) (sequenced c) r s e p i t6 o k =
      let t = is_logged (statics c).handler in
      let u = is_accepted (s.statics c) r.buffer (suc n) in
      let x = receive F now r s in
      let m = message_of (s.statics c) r (suc n) in
      elim (Bool-cases t) [
        | inr other ↦ Adds-test x m (t && u) false (rw other refl) (Adds-none x k)
        | inl logged ↦ elim (Bool-cases u) [
          | inr refused ↦ Adds-test x m (t && u) false (rw (logged, refused) refl) (Adds-none x k)
          | inl accepted ↦ Adds-test x m (t && u) true (rw (logged, accepted) refl) (
              receive-Logs F L now must r s c n six
                (record {
                  read = i;
                  time = t6;
                  size = e;
                  from = p;
                  logged = is_logged-IsLogged (statics c).handler logged;
                  accepted = accepted;
                })
                o)
        ]
      ]
  receive-Adds (pos (suc n)) to_arm r s e p i t6 o k = Adds-none _ k
  receive-Adds (pos (suc n)) to_rc r s e p i t6 o k = Adds-none _ k
  receive-Adds (pos (suc n)) unknown r s e p i t6 o k = Adds-none _ k
  receive-Adds (negsuc n) q r s e p i t6 o k = Adds-none _ k

module _ (k : SocketConstants) (starttime : Timespec) where
  -- The measurements in the packets of some events, in order, and the statics on the way.
  unfoldable pub measured : List (Bytes × Event) → Statics → List Message
  measured [] s = []
  measured ((now, packet ts m) ∷ es) s =
      let r = read_packet k starttime ts m in measured_packet r s ++ measured es (demux r s).0
  measured ((now, timer) ∷ es) s = measured es s
  measured ((now, version fd read buffer) ∷ es) s = measured es s
