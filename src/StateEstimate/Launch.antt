-- ===== src/StateEstimate/Launch.antt =====
-- Before launch, and from launch on.
use av3_fc.Base.{ℕ, true, false, List, [], ◌∷◌, ◌++◌, ◌≡◌, refl, arith, All, map, ap, ap₂, ◌∙◌}
use av3_fc.Double.{DoubleOps}
use av3_fc.Message.{Message}
use av3_fc.Packet.{StateData}
use av3_fc.Time.{from_psas_time}
use av3_fc.StateEstimate.{State, seconds, is_strong, integrate, state_receive_imu}

abbrev pub now_of : Message → ℕ
now_of m = from_psas_time m.timestamp

module _ {D : Type 0} (F : DoubleOps D) where
  -- The samples that arrive, in order, and the estimates that are sent.
  pub run : List Message → State D → State D × List (StateData D)
  run [] s = (s, [])
  run (m ∷ ms) s =
      let (s', out) = state_receive_imu F m s in
      let (s'', outs) = run ms s' in (s'', out.state ∷ outs)

  -- A weak sample before launch leaves the estimate alone.
  weak_sample :
      (m : Message) (s : State D)
      → s.has_launched ≡ false
      → is_strong F m ≡ false
      → let (s', out) = state_receive_imu F m s in
        (s'.has_launched ≡ false) × (s'.current ≡ s.current) × (out.state ≡ s.current)
  unfolding state_receive_imu
  weak_sample m s h w = ground arith

  -- The rocket has launched at `t`.
  abbrev pub LaunchedAt : ℕ → State D → Type 0
  LaunchedAt t s = (s.has_launched ≡ true) × (s.launch_time ≡ t)

  -- The sample that is the launch.
  strong_sample :
      (m : Message) (s : State D)
      → s.has_launched ≡ false
      → is_strong F m ≡ true
      → let (s', out) = state_receive_imu F m s in
        (s'.has_launched ≡ true)
        × (s'.launch_time ≡ now_of m)
        × (out.state.time ≡ seconds F (now_of m) (now_of m))
  unfolding state_receive_imu integrate
  strong_sample m s h w = ground arith

  later_sample :
      (t : ℕ) (m : Message) (s : State D)
      → LaunchedAt t s
      → let (s', out) = state_receive_imu F m s in
        (s'.has_launched ≡ true) × (s'.launch_time ≡ t) × (out.state.time ≡ seconds F (now_of m) t)
  unfolding state_receive_imu integrate
  later_sample t m s l = ground arith

  -- The time since launch that each of some samples is to show.
  abbrev pub times_since : ℕ → List Message → List D
  times_since t ms = map (λ x. seconds F (now_of x) t) ms

  run-later :
      (t : ℕ) (ms : List Message) (s : State D)
      → LaunchedAt t s
      → map (λ c. c.time) (run ms s).1 ≡ times_since t ms
  unfolding run
  run-later t [] s l = refl
  run-later t (m ∷ ms) s l =
      let r = later_sample t m s l in
      ap₂ ◌∷◌ r.2 (run-later t ms (state_receive_imu F m s).0 (r.0, r.1))

  run-launch :
      (m : Message) (ms : List Message) (s : State D)
      → s.has_launched ≡ false
      → is_strong F m ≡ true
      → map (λ c. c.time) (run (m ∷ ms) s).1 ≡ times_since (now_of m) (m ∷ ms)
  unfolding run
  run-launch m ms s h w =
      let r = strong_sample m s h w in
      ap₂ ◌∷◌ r.2 (run-later (now_of m) ms (state_receive_imu F m s).0 (r.0, r.1))

  -- A flight that starts before launch: weak samples, then a strong one, then any others. Every
  -- estimate sent before the strong sample is the one from the start, unchanged; from the strong
  -- sample on every estimate shows the time since that sample, whatever the later samples are.
  pub whole_flight :
      (quiet : List Message) (m : Message) (later : List Message) (s : State D)
      → s.has_launched ≡ false
      → All (λ x. is_strong F x ≡ false) quiet
      → is_strong F m ≡ true
      → (flight : List (StateData D)) × ((run (quiet ++ m ∷ later) s).1
          ≡ map (λ _. s.current) quiet ++ flight)
        × (map (λ c. c.time) flight ≡ times_since (now_of m) (m ∷ later))
  unfolding run
  whole_flight [] m later s h q w = ((run (m ∷ later) s).1, refl, run-launch m later s h w)
  whole_flight (x ∷ quiet) m later s h (q, qs) w =
      let r = weak_sample x s h q in
      let (flight, e, t) = whole_flight quiet m later (state_receive_imu F x s).0 r.0 qs w in
      (flight, ap₂ ◌∷◌ r.2 (e ∙ ap (λ c. map (λ _. c) quiet ++ flight) r.1), t)
