-- ===== src/Fins.antt =====
-- src/rollcontrol.c: the angle of attack of the canards for an angular acceleration.
use av3_fc.Base.Int.{pos}
use av3_fc.Base.{◌-◌, true, false, ◌||◌, ◌≡◌, if◌then◌else◌, ap, ◌∙◌}
use av3_fc.Double.{DoubleOps, DoubleLaws}
use av3_fc.Packet.{StateData}

module _ {D : Type 0} (F : DoubleOps D) where
  open F use {lit, of_int, neg, fabs, sqrt, exp, add, sub, mul, div, lt, le}

  abbrev finfit_a : D
  finfit_a = lit 6 4

  abbrev finfit_b : D
  finfit_b = lit 45 3

  abbrev fin_cbase : D
  fin_cbase = lit 32 1

  abbrev fin_area : D
  fin_area = lit 113 5

  abbrev fin_arm : D
  fin_arm = lit 85 3

  abbrev i_init : D
  i_init = lit 86 3

  abbrev i_bo : D
  i_bo = lit 77 3

  abbrev expected_burn_time : D
  expected_burn_time = lit 57 1

  abbrev subsonic : D
  subsonic = of_int (pos 265)

  abbrev supersonic : D
  supersonic = of_int (pos 330)

  -- `M_PI`
  abbrev m_pi : D
  m_pi = lit 314159265358979323846 20

  abbrev degrees_to_radians : D → D
  degrees_to_radians a = div (mul a m_pi) (lit 180 0)

  abbrev radians_to_degrees : D → D
  radians_to_degrees a = div (mul a (lit 180 0)) m_pi

  subsonic_fin : D → D → D → StateData D → D
  subsonic_fin set_aa_rad i rd state =
      let v = state.vel_up in
      let top = fabs (mul (mul (mul (of_int (pos 2)) set_aa_rad) i) finfit_a) in
      let bottom = mul (mul (mul (mul rd v) v) fin_area) fin_arm in
      let alpha = sub (sqrt (add (div top bottom) (mul finfit_b finfit_b))) finfit_b in
      div alpha (mul (of_int (pos 2)) finfit_a)

  supersonic_fin : D → D → D → StateData D → D
  supersonic_fin set_aa_rad i rd state =
      let v = state.vel_up in
      let bottom =
        mul (mul (mul (mul (mul (mul (of_int (pos 2)) rd) v) v) fin_area) fin_arm) fin_cbase in
      radians_to_degrees (div (mul set_aa_rad i) bottom)

  -- `I`, the inertia at a time.
  inertia : D → D
  inertia time =
      if lt time expected_burn_time
      then add i_init (mul (sub i_bo i_init) (div time expected_burn_time))
      else i_bo

  -- `rd`, the density of the air at an altitude.
  density : D → D
  density altitude = mul (lit 12250 4) (
      exp (
        div (mul (mul (neg (lit 980665 5)) (lit 289644 7)) altitude)
          (mul (lit 831432 5) (lit 28815 2))))

  -- `output` before its sign.
  unsigned_alpha : D → StateData D → D
  unfolding subsonic_fin supersonic_fin inertia density
  unsigned_alpha aa state =
      let velocity = state.vel_up in
      let i = inertia state.time in
      let rd = density state.altitude in
      if le velocity subsonic
      then subsonic_fin aa i rd state
      else if lt velocity supersonic
      then (let y0 = subsonic_fin aa i rd state in
          let y1 = supersonic_fin aa i rd state in
          add y0 (div (mul (sub y1 y0) (sub velocity subsonic)) (of_int (pos (330 - 265)))))
      else supersonic_fin aa i rd state

  unfoldable pub estimate_alpha : D → StateData D → D
  unfolding unsigned_alpha
  estimate_alpha set_aa state =
      let output = unsigned_alpha (fabs (degrees_to_radians set_aa)) state in
      if lt (fabs set_aa) (of_int (pos 1)) || lt state.vel_up (of_int (pos 1))
      then of_int (pos 0)
      else if lt set_aa (of_int (pos 0))
      then neg output
      else output

  -- Under the facts assumed of `double`: for a request above 0 of a magnitude of at least 1, and
  -- a velocity of at least 1, the answer to the opposite request is the opposite answer.
  pub estimate_alpha-neg :
      DoubleLaws F
      → (a : D) (state : StateData D) → lt (of_int (pos 0)) a ≡ true
      → lt (fabs a) (of_int (pos 1)) ≡ false
      → lt state.vel_up (of_int (pos 1)) ≡ false
      → estimate_alpha (neg a) state ≡ neg (estimate_alpha a state)
  unfolding estimate_alpha
  estimate_alpha-neg L a state p big fast =
      let aa : fabs (degrees_to_radians (neg a)) ≡ fabs (degrees_to_radians a) =
        ap (λ x. fabs (div x (lit 180 0))) (L.mul-neg a m_pi)
        ∙ ap fabs (L.div-neg (mul a m_pi) (lit 180 0))
        ∙ L.fabs-neg (div (mul a m_pi) (lit 180 0)) in
      rw (L.fabs-neg a, big, fast, L.lt_neg a, p, L.lt_asym (of_int (pos 0)) a p, aa)
