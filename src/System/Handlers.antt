-- ===== src/System/Handlers.antt =====
-- What is in order in a state of the whole program, and the handlers of main.miml one by one.
use av3_fc.Base.{
  ◌%◌, ◌^◌, ◌≤◌, ◌≢◌, List, [], ◌∷◌, ◌++◌, Option, none, some, ◌≡◌, refl, arith, length,
  length-append, All, inl, inr,
}
use av3_fc.Base.Bytes.{Bytes}
use av3_fc.Arm
use av3_fc.Arm.{arm_raw_in, arm_send_signal, send_arm_response}
use av3_fc.Double.{DoubleOps, DoubleLaws}
use av3_fc.Ethmux
use av3_fc.Ethmux.{
  Sender, demuxed_adis, demuxed_mpu, demuxed_mpl, demuxed_bmp, demuxed_rnh, demuxed_rnhumb,
  demuxed_fcfh, demuxed_jgps, demuxed_cots, handled, sequenced_error, demuxed_arm, demuxed_rc, Read,
  demux,
}
use av3_fc.Ethmux.Demux
use av3_fc.Ethmux.Demux.{IsRead, demux-IsValid}
use av3_fc.Filter.{Target, filter_to_ground, filter_to_disk, filter_receive}
use av3_fc.Gps.{send_venus_messages}
use av3_fc.Gps.Chunks.{max_kept, send_kept}
use av3_fc.Gps.Frames.{packet_message, trailer}
use av3_fc.Gps.Sound.{Sent, send-Sent}
use av3_fc.Gps.Stream.{IsChunk, payload, cots_raw_in-chunk}
use av3_fc.Logger
use av3_fc.Logger.{p_limit, message_len}
use av3_fc.Logger.Limits.{IsMessage}
use av3_fc.Message.{Message, RollMessage}
use av3_fc.RollServo.Wire.{AreCommands, AreCommands-append, adj_lem}
use av3_fc.RollControl
use av3_fc.RollControl.{rc_send_servo, send_servo_response}
use av3_fc.System.{
  State, and_then, with_log, log_message, filtered, servo_sent, rc_outputs, signal_sent,
  arm_outputs, imu_received, gps_sent, handle,
}
use av3_fc.System.Calls.{
  LogReturns, LogInvariant, valid_log, log_receive_rc-LogReturns, log_receive_arm-LogReturns,
  TargetFits, filter_receive-TargetFits, filter_receive-jgps, IsShort, IsRoll,
}
use av3_fc.System.Rolls.{SendsRolls, rc_receive_state-SendsRolls, rc_receive_arm-SendsRolls}
use av3_fc.System.Packets.{SenderFits}

-- What is asked of the bytes from the GPS: a small packet, and no frame of length 0 in the buffer.
abbrev pub GpsFits : Bytes → Message → Type 0
GpsFits buf m =
    IsChunk m
    × All (λ x. x.data_length ≢ 65535) (send_venus_messages m.timestamp (buf ++ payload m)).0

-- The same of an output of `demux`.
abbrev pub OutputGpsFits : Bytes → Ethmux.Output → Type 0
OutputGpsFits buf (handled demuxed_cots m) = GpsFits buf m
OutputGpsFits buf _ = Unit {0}

module _ {D : Type 0} where
  -- What was sent to the servo board is in order, and `seq` is the number of the next packet.
  abbrev pub ServoOk : State D → Type 0
  ServoOk s = AreCommands 0 s.servo × (s.seq ≡ length s.servo % 2 ^ 32)

module _ (I : LogInvariant) {D : Type 0} where
  -- The buffers and the sequence numbers are in order, and the log has the invariant.
  abbrev pub IsOk : State D → Type 0
  IsOk s = (length s.buf ≤ max_kept) × Demux.IsValid s.statics × I.Holds s.log × ServoOk s

  -- No buffer was overrun, and the state is in order.
  abbrev pub ReturnsWith : Option (State D) → Type 0
  ReturnsWith none = ⊥
  ReturnsWith (some s) = IsOk s

  pub and_then_lem :
      (x : Option (State D)) (f : State D → Option (State D))
      → ReturnsWith x
      → ((s : State D) → IsOk s → ReturnsWith (f s))
      → ReturnsWith (and_then x f)
  and_then_lem none f r h = absurd r
  and_then_lem (some s) f r h = h s r

-- The buffers of the logger are in order too.
abbrev pub Ok : {D : Type 0} → State D → Type 0
Ok s = IsOk valid_log s

abbrev pub Returns : {D : Type 0} → Option (State D) → Type 0
Returns x = ReturnsWith valid_log x

module _ (I : LogInvariant) {D : Type 0} (F : DoubleOps D) (L : DoubleLaws F) (now : Bytes)
    (six : length now ≡ 6) where
  pub with_log_lem :
      (s : State D) (l : Option Logger.State)
      → IsOk I s
      → LogReturns I.Holds l
      → ReturnsWith I (with_log F now s l)
  with_log_lem s none k r = r
  with_log_lem s (some l) (b, v, w, o) r = (b, v, r, o)

  pub log_message-Returns :
      (m : Message) (s : State D)
      → IsMessage m
      → message_len m ≤ p_limit
      → IsOk I s
      → ReturnsWith I (log_message F now m s)
  unfolding log_message
  log_message-Returns m s i le (b, v, w, o) =
      with_log_lem s _ (b, v, w, o) (I.write now m s.log six i le w)

  pub filtered-Returns :
      (t : Target) (s : State D) → TargetFits t → IsOk I s → ReturnsWith I (filtered F now t s)
  unfolding filtered
  filtered-Returns (filter_to_ground m) s (i, le) k = log_message-Returns m s i le k
  filtered-Returns (filter_to_disk m) s (i, le) (b, v, w, o) =
      with_log_lem s _ (b, v, w, o) (I.write_disk_only now m s.log six i le w)

  servo_sent-Returns :
      (m : RollMessage) (s : State D) → IsRoll m → IsOk I s → ReturnsWith I (servo_sent F now m s)
  unfolding servo_sent
  servo_sent-Returns m s h (b, v, w, o) =
      let (p, e, c) = adj_lem F m s.seq (omega (arith, o.1)) (omega (arith, h.flag)) in
      let more : AreCommands 0 (s.servo ++ p ∷ []) =
        AreCommands-append 0 s.seq m.disable s.servo p (omega arith) (omega (arith, o.1)) h.flag c
          o.0 in
      rw e (
        with_log_lem _ _ (b, v, w, (more, omega (arith, o.1, length-append {0} s.servo (p ∷ []))))
          (log_receive_rc-LogReturns I now m s.log six h w))

  pub rc_outputs-Returns :
      (os : List RollControl.Output) (s : State D)
      → All SendsRolls os
      → IsOk I s
      → ReturnsWith I (rc_outputs F now os s)
  unfolding rc_outputs
  rc_outputs-Returns [] s h k = k
  rc_outputs-Returns (rc_send_servo m ∷ os) s (h, hs) k =
      and_then_lem I (servo_sent F now m s) (rc_outputs F now os) (servo_sent-Returns m s h k)
        (λ t j. rc_outputs-Returns os t hs j)
  rc_outputs-Returns (send_servo_response text ∷ os) s (h, hs) k = rc_outputs-Returns os s hs k
  rc_outputs-Returns (RollControl.close ∷ os) s (h, hs) k = rc_outputs-Returns os s hs k

  signal_sent-Returns :
      (code : Bytes) (s : State D)
      → length code ≤ 4
      → IsOk I s
      → ReturnsWith I (signal_sent F now code s)
  unfolding signal_sent
  signal_sent-Returns code s h k =
      and_then_lem I _ _
        (rc_outputs-Returns _ _ (rc_receive_arm-SendsRolls F L now six code s.rc) k)
        (λ t j. with_log_lem t _ j (log_receive_arm-LogReturns I now code t.log six h j.2))

  pub arm_outputs-Returns :
      (os : List Arm.Output) (s : State D)
      → All IsShort os
      → IsOk I s
      → ReturnsWith I (arm_outputs F now os s)
  unfolding arm_outputs
  arm_outputs-Returns [] s h k = k
  arm_outputs-Returns (arm_send_signal code ∷ os) s (h, hs) k =
      and_then_lem I (signal_sent F now code s) (arm_outputs F now os)
        (signal_sent-Returns code s h k) (λ t j. arm_outputs-Returns os t hs j)
  arm_outputs-Returns (send_arm_response text ∷ os) s (h, hs) k = arm_outputs-Returns os s hs k
  arm_outputs-Returns (Arm.close ∷ os) s (h, hs) k = arm_outputs-Returns os s hs k

  pub imu_received-Returns :
      (m : Message) (s : State D) → IsOk I s → ReturnsWith I (imu_received F now m s)
  unfolding imu_received
  imu_received-Returns m s k =
      rc_outputs-Returns _ _ (rc_receive_state-SendsRolls F L now six _ _ _ s.rc) k

  -- A message of the frame scan whose frame was not empty.
  Sent-TargetFits :
      (ts : Bytes) (m : Message)
      → length ts ≡ 6
      → Sent ts m
      → m.data_length ≢ 65535
      → TargetFits (filter_receive m)
  Sent-TargetFits ts m h (inr e) n = absurd (n e)
  Sent-TargetFits ts m h (inl (p, f, e)) n = rw e (
      filter_receive-TargetFits (packet_message ts p)
        (record {
          id_length = refl;
          timestamp_length = h;
          in_memory = omega (arith, length-append {0} p.contents (trailer p));
        })
        (omega arith))

  gps_sent-Returns :
      (ts : Bytes) (ms : List Message) (s : State D)
      → length ts ≡ 6
      → All (Sent ts) ms
      → All (λ m. m.data_length ≢ 65535) ms
      → IsOk I s
      → ReturnsWith I (gps_sent F now ms s)
  unfolding gps_sent
  gps_sent-Returns ts [] s h q n k = k
  gps_sent-Returns ts (m ∷ ms) s h (q, qs) (n, ns) k =
      and_then_lem I _ (gps_sent F now ms)
        (filtered-Returns (filter_receive m) _ (Sent-TargetFits ts m h q n) k)
        (λ t j. gps_sent-Returns ts ms t h qs ns j)

  cots-Returns :
      (m : Message) (s : State D)
      → IsMessage m
      → GpsFits s.buf m
      → IsOk I s
      → ReturnsWith I (handle F now demuxed_cots m s)
  unfolding handle
  cots-Returns m s i (c, n) (b, v, w, o) = rw (cots_raw_in-chunk m s.buf b c) (
      gps_sent-Returns m.timestamp _ _ i.timestamp_length
        (send-Sent m.timestamp (s.buf ++ payload m)) n
        (send_kept m.timestamp (s.buf ++ payload m), v, w, o))

  pub handle-Returns :
      (sender : Sender) (m : Message) (s : State D)
      → IsMessage m
      → SenderFits sender m
      → OutputGpsFits s.buf (handled sender m)
      → IsOk I s
      → ReturnsWith I (handle F now sender m s)
  unfolding handle
  handle-Returns demuxed_adis m s i le g k =
      and_then_lem I (log_message F now m s) _ (log_message-Returns m s i le k)
        (λ t j. imu_received-Returns m _ j)
  handle-Returns demuxed_mpu m s i le g k = log_message-Returns m s i le k
  handle-Returns demuxed_mpl m s i le g k = log_message-Returns m s i le k
  handle-Returns demuxed_bmp m s i le g k = log_message-Returns m s i le k
  handle-Returns demuxed_rnh m s i le g k = log_message-Returns m s i le k
  handle-Returns demuxed_rnhumb m s i le g k = log_message-Returns m _ i le k
  handle-Returns demuxed_fcfh m s i le g k = log_message-Returns m s i le k
  handle-Returns demuxed_jgps m s i (e, le) g k =
      filtered-Returns (filter_receive m) s (filter_receive-jgps m e i le) k
  handle-Returns demuxed_cots m s i le g k = cots-Returns m s i g k
