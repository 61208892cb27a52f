-- ===== src/System/Arming.antt =====
-- What a packet may change of the roll control, by the port that it comes from.
use av3_fc.Base.{
  ℕ, suc, Bool, true, false, ◌&&◌, List, [], ◌∷◌, Option, none, some, ◌≡◌, refl, arith, All, ◌⊎◌,
  inl, inr, Bool-cases,
}
use av3_fc.Base.Int.{pos}
use av3_fc.Base.Bytes.{Bytes, codes}
use av3_fc.Arm.{arm_raw_in, arm_text, sensors_allow_launch}
use av3_fc.Command.{compare_buffer_to_cmd}
use av3_fc.Double.{DoubleOps}
use av3_fc.Ethmux
use av3_fc.Ethmux.{
  handled, sequenced_error, demuxed_arm, demuxed_rc, format_sequenced_error, Statics, Route,
  sequenced, to_arm, to_rc, unknown, Read, demux, demux_bytes, dispatch, route,
}
use av3_fc.NetAddrs.{arm_port, rc_servo_enable_port}
use av3_fc.RollControl
use av3_fc.RollControl.{rc_raw_testrc}
use av3_fc.System.{State, outputs, output}
use av3_fc.System.Armed.{
  Only, and_then-Only, log_message-Only, handle-Only, raw_testrc-Only, RcInvariant,
  arm_outputs-Only, arm_raw_in-KeepsSafe,
}
use av3_fc.System.Packets.{sequenced_receive_calls}

-- The outputs of `demux` that are neither for the arming module nor for the test of the servos.
abbrev pub NotCommand : Ethmux.Output → Type 0
NotCommand (demuxed_arm b l ts) = ⊥
NotCommand (demuxed_rc b l ts) = ⊥
NotCommand _ = Unit {0}

pub route-to_arm : (port : ℕ) → route port ≡ to_arm → port ≡ arm_port
unfolding route
route-to_arm port e = ground arith

pub route-to_rc : (port : ℕ) → route port ≡ to_rc → port ≡ rc_servo_enable_port
unfolding route
route-to_rc port e = ground arith

module _ {D : Type 0} where
  -- The packet is taken for #YOLO, and the sensors allow to arm.
  abbrev pub allows : Bytes → ℕ → State D → Bool
  allows buffer len s = compare_buffer_to_cmd buffer arm_text len && sensors_allow_launch s.arm

  -- The packet is one that arms the rocket in this state.
  abbrev pub ReadArms : Read → State D → Type 0
  ReadArms r s =
      (n : ℕ) × (r.bytes ≡ pos (suc n)) × (r.port ≡ arm_port) × (allows r.buffer (suc n) s ≡ true)

  -- The packet is one that enables the servos in this state: it arms, or it is taken for the command
  -- ENABLE while the roll control is not armed.
  abbrev pub ReadEnables : Read → State D → Type 0
  ReadEnables r s =
      ReadArms r s
      ⊎ ((n : ℕ) × (r.bytes ≡ pos (suc n))
          × (r.port ≡ rc_servo_enable_port)
          × (s.rc.armed ≡ false)
          × (compare_buffer_to_cmd r.buffer (codes "ENABLE") (suc n) ≡ true))

module _ {D : Type 0} (F : DoubleOps D) (P : RollControl.State D → Type 0) (I : RcInvariant F P)
    (now : Bytes) where
  pub outputs-Only :
      (os : List Ethmux.Output) (s : State D)
      → All NotCommand os
      → Only P (some s)
      → Only P (outputs F now os s)
  unfolding outputs output
  outputs-Only [] s n h = h
  outputs-Only (handled sender m ∷ os) s (n, ns) h =
      and_then-Only P _ _ (handle-Only F P I now sender m s h) (λ t. outputs-Only os t ns)
  outputs-Only (sequenced_error m ∷ os) s (n, ns) h =
      and_then-Only P _ _ (log_message-Only F P I now m s h) (λ t. outputs-Only os t ns)
  outputs-Only (demuxed_arm b l ts ∷ os) s (n, ns) h = absurd n
  outputs-Only (demuxed_rc b l ts ∷ os) s (n, ns) h = absurd n

  holds-Only : (x : Option (State D)) → ((rc : RollControl.State D) → P rc) → Only P x
  holds-Only none a = tt
  holds-Only (some t) a = a t.rc

  arm_packet-Only :
      (buffer : Bytes) (len : ℕ) (ts : Bytes) (s : State D)
      → (allows buffer len s ≡ true → (rc : RollControl.State D) → P rc)
      → Only P (some s)
      → Only P (outputs F now (demuxed_arm buffer len ts ∷ []) s)
  unfolding outputs output
  arm_packet-Only buffer len ts s a h = elim (Bool-cases (allows buffer len s)) [
    | inl arming ↦ holds-Only _ (a arming)
    | inr other ↦
        let (arm', outs) = arm_raw_in buffer len s.arm in
        and_then-Only P _ (outputs F now [])
          (arm_outputs-Only F P I now outs (record s { arm = arm' })
            (arm_raw_in-KeepsSafe F P I now buffer len s.arm other) h)
          (λ t k. k)
  ]

  rc_packet-Only :
      (buffer : Bytes) (len : ℕ) (ts : Bytes) (s : State D)
      → P (rc_raw_testrc F now buffer len s.rc).0
      → Only P (outputs F now (demuxed_rc buffer len ts ∷ []) s)
  unfolding outputs output
  rc_packet-Only buffer len ts s h =
      and_then-Only P _ (outputs F now []) (raw_testrc-Only F P I now buffer len s h) (λ t k. k)

  pub dispatch-Only :
      (q : Route) (r : Read) (len : ℕ) (st st' : Statics) (s : State D)
      → (q ≡ to_arm → allows r.buffer len s ≡ true → (rc : RollControl.State D) → P rc)
      → (q ≡ to_rc → P (rc_raw_testrc F now r.buffer len s.rc).0)
      → Only P (some s)
      → Only P (outputs F now (dispatch q r len st).1 (record s { statics = st' }))
  unfolding dispatch format_sequenced_error
  dispatch-Only (sequenced c) r len st st' s a b h =
      outputs-Only _ (record s { statics = st' })
        (sequenced_receive_calls (All NotCommand) r.port r.buffer len r.timestamp (st c)
          (λ e n x. (tt, tt)) (λ x. (tt, tt)) (λ e n x. (tt, (tt, tt))))
        h
  dispatch-Only to_arm r len st st' s a b h =
      arm_packet-Only r.buffer len r.timestamp (record s { statics = st' }) (a refl) h
  dispatch-Only to_rc r len st st' s a b h =
      rc_packet-Only r.buffer len r.timestamp (record s { statics = st' }) (b refl)
  dispatch-Only unknown r len st st' s a b h = outputs-Only [] (record s { statics = st' }) tt h
