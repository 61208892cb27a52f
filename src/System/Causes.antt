-- ===== src/System/Causes.antt =====
-- A variable of the roll control that only some packets set, over runs of the whole program.
use av3_fc.Base.{
  ℕ, zero, suc, Bool, true, false, List, [], ◌∷◌, ◌++◌, Option, none, some, ◌≡◌, refl, ap, ◌∙◌, ◌⊎◌,
  inl, inr,
}
use av3_fc.Base.Int.{ℤ, pos, negsuc}
use av3_fc.Base.Bytes.{Bytes}
use av3_fc.Double.{DoubleOps}
use av3_fc.Ethmux.{Statics, Read, demux, demux_bytes, route}
use av3_fc.Ethmux.Poll.{read_packet}
use av3_fc.Logger
use av3_fc.Logger.{log_timeout}
use av3_fc.Logger.Start.{went_on}
use av3_fc.NetAddrs.{arm_port, rc_servo_enable_port}
use av3_fc.Rnh.{version_callback}
use av3_fc.RollControl
use av3_fc.RollControl.{rc_raw_testrc}
use av3_fc.Sockets.{SocketConstants}
use av3_fc.System.{State, and_then, outputs, receive}
use av3_fc.System.Armed.{Only, rc-Framed, RcInvariant}
use av3_fc.System.Frame.{version_sent-When}
use av3_fc.System.Boot.{boot-booted}
use av3_fc.System.Events.{Answers, Event, packet, timer, version, booted, boot, handle_event, run}
use av3_fc.Time.{Timespec}
use av3_fc.System.Arming.{route-to_arm, route-to_rc, dispatch-Only, allows}

-- A variable of the roll control, and the packets that may set it.
pub record Gate {D : Type 0} (F : DoubleOps D) : Type 1 where
  pub is_on : RollControl.State D → Bool
  pub Sets : Read → State D → Type 0
  pub invariant : (A : Type 0) → RcInvariant F (λ rc. is_on rc ≡ true → A)
  pub by_arming :
      (r : Read) (s : State D) (n : ℕ)
      → r.bytes ≡ pos (suc n)
      → r.port ≡ arm_port
      → allows r.buffer (suc n) s ≡ true
      → Sets r s
  pub by_testing :
      (now : Bytes) (r : Read) (s : State D) (n : ℕ)
      → r.bytes ≡ pos (suc n)
      → r.port ≡ rc_servo_enable_port
      → is_on (rc_raw_testrc F now r.buffer (suc n) s.rc).0 ≡ true
      → (is_on s.rc ≡ true) ⊎ Sets r s
  pub off_at_start : (a : Answers) → is_on (booted F a Logger.initial).rc ≡ false

module _ {D : Type 0} (F : DoubleOps D) (G : Gate F) (now : Bytes) where
  -- On only if it was before, or the packet sets it.
  abbrev Since : Read → State D → RollControl.State D → Type 0
  Since r s rc = G.is_on rc ≡ true → (G.is_on s.rc ≡ true) ⊎ G.Sets r s

  demux_bytes-Only :
      (b : ℤ) (r : Read) (st' : Statics) (s : State D)
      → r.bytes ≡ b
      → Only (Since r s) (outputs F now (demux_bytes b r s.statics).1 (record s { statics = st' }))
  unfolding demux_bytes outputs
  demux_bytes-Only (pos zero) r st' s e = λ h. inl h
  demux_bytes-Only (pos (suc n)) r st' s e =
      dispatch-Only F (Since r s) (G.invariant _) now (route r.port) r (suc n) s.statics st' s
        (λ q y rc h. inr (G.by_arming r s n e (route-to_arm r.port q) y))
        (λ q. G.by_testing now r s n e (route-to_rc r.port q)) inl
  demux_bytes-Only (negsuc n) r st' s e = λ h. inl h

  receive-Only : (r : Read) (s : State D) → Only (Since r s) (receive F now r s)
  unfolding receive demux
  receive-Only r s = demux_bytes-Only r.bytes r (demux r s.statics).0 s refl

module _ {D : Type 0} (F : DoubleOps D) (G : Gate F) (k : SocketConstants)
    (starttime : Timespec) where
  -- The event is a packet that sets the variable in this state.
  abbrev pub EventSets : Event → State D → Type 0
  EventSets (packet ts m) s = G.Sets (read_packet k starttime ts m) s
  EventSets timer s = ⊥
  EventSets (version fd read buffer) s = ⊥

  abbrev SinceEvent : Event → State D → RollControl.State D → Type 0
  SinceEvent e s rc = G.is_on rc ≡ true → (G.is_on s.rc ≡ true) ⊎ EventSets e s

  handle_event-Only :
      (now : Bytes) (e : Event) (s : State D)
      → Only (SinceEvent e s) (handle_event F k starttime now e s)
  unfolding handle_event
  handle_event-Only now (packet ts m) s = receive-Only F G now (read_packet k starttime ts m) s
  handle_event-Only now timer s = λ h. inl h
  handle_event-Only now (version fd read buffer) s =
      version_sent-When F k starttime (λ t. SinceEvent (version fd read buffer) s t.rc)
        (rc-Framed (SinceEvent (version fd read buffer) s)) now (version_callback fd read buffer) s
        inl

  -- Of the state that some step gives.
  abbrev After : Option (State D) → (State D → Type 0) → Type 0
  After none P = ⊥
  After (some s) P = P s

  -- On in this state and in every one after some events.
  unfoldable pub HeldIn : List (Bytes × Event) → State D → Type 0
  HeldIn [] s = G.is_on s.rc ≡ true
  HeldIn ((now, e) ∷ es) s =
      (G.is_on s.rc ≡ true) × After (handle_event F k starttime now e s) (HeldIn es)

  HeldIn-on : (es : List (Bytes × Event)) (s : State D) → HeldIn es s → G.is_on s.rc ≡ true
  unfolding HeldIn
  HeldIn-on [] s h = h
  HeldIn-on ((now, e) ∷ es) s (h, hs) = h

  -- Some event sets the variable in the state in which it is handled, and it stays on from then on.
  pub record SetBy (es : List (Bytes × Event)) (s : State D) : Type 0 where
    pub before : List (Bytes × Event)
    pub time : Bytes
    pub event : Event
    pub later : List (Bytes × Event)
    pub split : es ≡ before ++ (time, event) ∷ later
    pub here : State D
    pub reached : run F k starttime before s ≡ some here
    pub sets : EventSets event here
    pub next : State D
    pub handled_to : handle_event F k starttime time event here ≡ some next
    pub held : HeldIn later next

  set_later :
      (now : Bytes) (e : Event) (es : List (Bytes × Event)) (s s1 : State D)
      → handle_event F k starttime now e s ≡ some s1
      → SetBy es s1
      → SetBy ((now, e) ∷ es) s
  unfolding run
  set_later now e es s s1 h b = record {
    before = (now, e) ∷ b.before;
    time = b.time;
    event = b.event;
    later = b.later;
    split = ap (◌∷◌ (now, e)) b.split;
    here = b.here;
    reached = rw h b.reached;
    sets = b.sets;
    next = b.next;
    handled_to = b.handled_to;
    held = b.held;
  }

  set_now :
      (now : Bytes) (e : Event) (es : List (Bytes × Event)) (s s1 : State D)
      → handle_event F k starttime now e s ≡ some s1
      → EventSets e s
      → HeldIn es s1
      → SetBy ((now, e) ∷ es) s
  unfolding run
  set_now now e es s s1 h sets held = record {
    before = [];
    time = now;
    event = e;
    later = es;
    split = refl;
    here = s;
    reached = refl;
    sets = sets;
    next = s1;
    handled_to = h;
    held = held;
  }

  run_step :
      (now : Bytes) (e : Event) (es : List (Bytes × Event)) (s t : State D) (x : Option (State D))
      → handle_event F k starttime now e s ≡ x
      → Only (SinceEvent e s) x
      → and_then x (run F k starttime es) ≡ some t
      → ((s1 : State D) → run F k starttime es s1 ≡ some t → HeldIn es s1 ⊎ SetBy es s1)
      → ((G.is_on s.rc ≡ true) × After x (HeldIn es)) ⊎ SetBy ((now, e) ∷ es) s
  run_step now e es s t none x h r f = cc r
  run_step now e es s t (some s1) x h r f = elim (f s1 r) [
    | inr later ↦ inr (set_later now e es s s1 x later)
    | inl held ↦ elim (h (HeldIn-on es s1 held)) [
      | inl before ↦ inl (before, held)
      | inr sets ↦ inr (set_now now e es s s1 x sets held)
    ]
  ]

  on_in : Option (State D) → Bool
  on_in none = false
  on_in (some s) = G.is_on s.rc

  run-SetBy :
      (es : List (Bytes × Event)) (s t : State D)
      → run F k starttime es s ≡ some t
      → G.is_on t.rc ≡ true
      → HeldIn es s ⊎ SetBy es s
  unfolding run HeldIn on_in
  run-SetBy [] s t r on = inl (ap on_in r ∙ on)
  run-SetBy ((now, e) ∷ es) s t r on =
      run_step now e es s t (handle_event F k starttime now e s) refl (handle_event-Only now e s) r
        (λ s1 q. run-SetBy es s1 t q on)

  -- What is on after the init functions and some events was set by one of them.
  pub boot-SetBy :
      (a : Answers) (es : List (Bytes × Event)) (s t : State D)
      → boot F a ≡ went_on s
      → run F k starttime es s ≡ some t
      → G.is_on t.rc ≡ true
      → SetBy es s
  boot-SetBy a es s t b r on = elim (run-SetBy es s t r on) [
    | inr set ↦ set
    | inl held ↦ absurd (
        cc (
          ap (λ (x : State D). G.is_on x.rc) (boot-booted F a s b),
          G.off_at_start a,
          HeldIn-on es s held,
        ))
  ]
