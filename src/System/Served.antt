-- ===== src/System/Served.antt =====
-- What calls of the roll control's senders put on the wire to the servo board.
use av3_fc.Base.{
  ℕ, List, [], ◌∷◌, ◌++◌, ◌≡◌, arith, refl, ap, sym, ◌∙◌, false, All, All-append, get_or,
}
use av3_fc.Base.Bytes.{Bytes}
use av3_fc.Double.{DoubleOps}
use av3_fc.Message.{RollMessage}
use av3_fc.RollControl
use av3_fc.RollControl.{Input, Output, rc_send_servo, send_servo_response, step, run}
use av3_fc.RollControl.Enable.{is_enabling, Disables, run-disabled}
use av3_fc.RollServo.{rs_receive_adj, packets, packet}

-- The number of the next packet, and the packets, the last one last.
abbrev pub Wire : Type 0
Wire = ℕ × List Bytes

-- A packet whose flag disables the servo.
abbrev pub IsOff : Bytes → Type 0
IsOff b = get_or b 6 0 ≡ 1

module _ {D : Type 0} (F : DoubleOps D) where
  abbrev pub serve_one : RollMessage → Wire → Wire
  serve_one m w = let (q, outs) = rs_receive_adj F m w.0 in (q, w.1 ++ packets outs)

  abbrev pub serve : List Output → Wire → Wire
  serve [] w = w
  serve (rc_send_servo m ∷ os) w = serve os (serve_one m w)
  serve (send_servo_response text ∷ os) w = serve os w
  serve (RollControl.close ∷ os) w = serve os w

  pub serve-append : (os ps : List Output) (w : Wire) → serve (os ++ ps) w ≡ serve ps (serve os w)
  serve-append [] ps w = refl
  serve-append (rc_send_servo m ∷ os) ps w = serve-append os ps (serve_one m w)
  serve-append (send_servo_response text ∷ os) ps w = serve-append os ps w
  serve-append (RollControl.close ∷ os) ps w = serve-append os ps w

  -- The roll control and the wire after some inputs.
  abbrev pub served : List (Input D) → RollControl.State D → Wire → RollControl.State D × Wire
  served is s w = let (s', outs) = run F is s in (s', serve outs w)

  pub served-cons :
      (i : Input D) (is : List (Input D)) (s : RollControl.State D) (w : Wire)
      → served (i ∷ is) s w ≡ served is (step F i s).0 (serve (step F i s).1 w)
  unfolding run
  served-cons i is s w =
      let (s1, outs) = step F i s in
      ap (λ z. ((run F is s1).0, z)) (serve-append outs (run F is s1).1 w)

  pub served-append :
      (is js : List (Input D)) (s : RollControl.State D) (w : Wire)
      → served (is ++ js) s w ≡ served js (served is s w).0 (served is s w).1
  unfolding run
  served-append [] js s w = refl
  served-append (i ∷ is) js s w =
      let (s1, outs) = step F i s in
      served-cons i (is ++ js) s w
      ∙ served-append is js s1 (serve outs w)
      ∙ ap (λ z. served js (run F is s1).0 z) (sym (serve-append outs (run F is s1).1 w))

  pub run-append :
      (is js : List (Input D)) (s : RollControl.State D)
      → (run F (is ++ js) s).0 ≡ (run F js (run F is s).0).0
  run-append is js s = ap (λ (o : RollControl.State D × Wire). o.0) (served-append is js s (0, []))

  serve_one-IsOff :
      (m : RollMessage) (w : Wire) → m.disable ≡ 1 → All IsOff w.1 → All IsOff (serve_one m w).1
  unfolding rs_receive_adj packet
  serve_one-IsOff m w h o = All-append IsOff w.1 _ o (omega arith, tt)

  serve-IsOff :
      (os : List Output) (w : Wire) → All Disables os → All IsOff w.1 → All IsOff (serve os w).1
  serve-IsOff [] w h o = o
  serve-IsOff (rc_send_servo m ∷ os) w (h, hs) o =
      serve-IsOff os (serve_one m w) hs (serve_one-IsOff m w h o)
  serve-IsOff (send_servo_response text ∷ os) w (h, hs) o = serve-IsOff os w hs o
  serve-IsOff (RollControl.close ∷ os) w (h, hs) o = serve-IsOff os w hs o

  -- Inputs that enable nothing leave disabled servos so, and every packet disables them.
  pub served-IsOff :
      (is : List (Input D)) (s : RollControl.State D) (w : Wire)
      → s.enable_servo ≡ false
      → All (λ i. is_enabling i ≡ false) is
      → All IsOff w.1
      → let out = served is s w in (out.0.enable_servo ≡ false) × All IsOff out.1.1
  served-IsOff is s w e h o =
      let (off, outs) = run-disabled F is s e h in (off, serve-IsOff (run F is s).1 w outs o)
