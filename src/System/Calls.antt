-- ===== src/System/Calls.antt =====
-- What the modules hand to the logger, call by call, and what may be asked of the logger's state.
use mathlib.Core.Path.{subst}
use mathlib.Core.List.{reverse, reverse_aux}
use av3_fc.Base.{
  ℕ, ◌+◌, ◌≤◌, ◌<◌, true, false, ap, ◌||◌, [], ◌∷◌, Option, none, some, ◌≡◌, refl, sym, arith,
  length, All, length-append, Bool-cases, inl, inr,
}
use av3_fc.Base.Bytes.{Bytes, codes, memeq}
use av3_fc.Arm
use av3_fc.Arm.{arm_raw_in, arm_send_signal, send_arm_response}
use av3_fc.Filter.{Target, filter_to_ground, filter_to_disk, filter_receive}
use av3_fc.Logger
use av3_fc.Logger.{
  p_limit, disk_log_buffer_max, message_len, flush_log, log_write, log_write_disk_only,
  log_receive_arm, log_receive_rc,
}
use av3_fc.Logger.Limits
use av3_fc.Logger.Limits.{IsMessage, flush_log-IsValid}
use av3_fc.Logger.Write.{log_write_lem, log_write_disk_only_lem}
use av3_fc.Message.{Message, RollMessage}

-- The logger returns, and its state has a property.
abbrev pub LogReturns : (Logger.State → Type 0) → Option Logger.State → Type 0
LogReturns P none = ⊥
LogReturns P (some l) = P l

pub LogReturns_lem :
    (P : Logger.State → Type 0) (x : Option Logger.State)
    → LogReturns P x
    → (l : Logger.State) × (x ≡ some l) × P l
LogReturns_lem P none h = absurd h
LogReturns_lem P (some l) h = (l, refl, h)

-- What holds of the logger's state, and keeps holding: a message that fits is logged, and flushing is
-- no harm.
pub record LogInvariant : Type 1 where
  pub Holds : Logger.State → Type 0
  pub write :
      (now : Bytes) (m : Message) (l : Logger.State)
      → length now ≡ 6
      → IsMessage m
      → message_len m ≤ p_limit
      → Holds l
      → LogReturns Holds (log_write now m l)
  pub write_disk_only :
      (now : Bytes) (m : Message) (l : Logger.State)
      → length now ≡ 6
      → IsMessage m
      → message_len m ≤ disk_log_buffer_max
      → Holds l
      → LogReturns Holds (log_write_disk_only now m l)
  pub flush : (now : Bytes) (l : Logger.State) → length now ≡ 6 → Holds l → Holds (flush_log now l)

-- The buffers are in order, and the datagrams numbered.
abbrev pub valid_log : LogInvariant
valid_log = record {
  Holds = Limits.IsValid;
  write = λ now m l h i le v.
      let (l', e, a) = log_write_lem now m l h i le v in
      subst (LogReturns Limits.IsValid) (sym e) a.valid;
  write_disk_only = λ now m l h i le v.
      let (l', e, a) = log_write_disk_only_lem now m l h i le v in
      subst (LogReturns Limits.IsValid) (sym e) a.valid;
  flush = λ now l h v. flush_log-IsValid now l v;
}

length-reverse_aux : (a r : Bytes) → length (reverse_aux a r) ≡ length a + length r
length-reverse_aux [] r = omega arith
length-reverse_aux (x ∷ a) r = omega (arith, length-reverse_aux a (x ∷ r))

-- A message to the servo as `set_canard_angle` makes it.
pub record IsRoll (m : RollMessage) : Type 0 where
  pub id_length : length m.id ≡ 4
  pub timestamp_length : length m.timestamp ≡ 6
  pub size : m.data_length ≡ 9
  pub angle_length : length m.angle ≡ 8
  pub flag : m.disable < 2

pub log_receive_rc-LogReturns :
    (I : LogInvariant) (now : Bytes) (m : RollMessage) (l : Logger.State)
    → length now ≡ 6
    → IsRoll m
    → I.Holds l
    → LogReturns I.Holds (log_receive_rc now m l).0
unfolding log_receive_rc
log_receive_rc-LogReturns I now m l h r v =
    I.write now _ l h
      (record {
        id_length = r.id_length;
        timestamp_length = r.timestamp_length;
        in_memory = omega (
          arith,
          r.size,
          r.angle_length,
          length-reverse_aux m.angle [],
          length-append {0} (reverse m.angle) (m.disable ∷ []),
        );
      })
      (omega (arith, r.size)) v

pub log_receive_arm-LogReturns :
    (I : LogInvariant) (now code : Bytes) (l : Logger.State)
    → length now ≡ 6
    → length code ≤ 4
    → I.Holds l
    → LogReturns I.Holds (log_receive_arm now now code l)
unfolding log_receive_arm
log_receive_arm-LogReturns I now code l h c v =
    I.write now _ l h (record { id_length = refl; timestamp_length = h; in_memory = omega arith })
      (omega arith) v

-- What the filter hands on fits where it goes to.
abbrev pub TargetFits : Target → Type 0
TargetFits (filter_to_ground m) = IsMessage m × (message_len m ≤ p_limit)
TargetFits (filter_to_disk m) = IsMessage m × (message_len m ≤ disk_log_buffer_max)

pub filter_receive-TargetFits :
    (m : Message) → IsMessage m → message_len m ≤ p_limit → TargetFits (filter_receive m)
unfolding filter_receive
filter_receive-TargetFits m i le =
    elim (Bool-cases (memeq 2 m.id (codes "V8") || memeq 4 m.id (codes "JGPS"))) [
      | inr other ↦ rw other (i, le)
      | inl gps ↦ elim (Bool-cases (memeq 4 m.id (codes "V8A8"))) [
        | inl a8 ↦ rw (gps, a8) (i, le)
        | inr rest ↦ rw (gps, rest) (i, omega arith)
      ]
    ]

pub filter_receive-jgps :
    (m : Message)
    → m.id ≡ codes "JGPS"
    → IsMessage m
    → message_len m ≤ disk_log_buffer_max
    → TargetFits (filter_receive m)
unfolding filter_receive
filter_receive-jgps m e i le =
    let v8 : memeq 2 m.id (codes "V8") ≡ false =
      unfold memeq in ap (λ x. memeq 2 x (codes "V8")) e in
    let jgps : memeq 4 m.id (codes "JGPS") ≡ true =
      unfold memeq in ap (λ x. memeq 4 x (codes "JGPS")) e in
    let a8 : memeq 4 m.id (codes "V8A8") ≡ false =
      unfold memeq in ap (λ x. memeq 4 x (codes "V8A8")) e in
    rw (v8, jgps, a8) (i, le)

-- The signals of the arming module are short.
abbrev pub IsShort : Arm.Output → Type 0
IsShort (arm_send_signal code) = length code ≤ 4
IsShort (send_arm_response text) = Unit {0}
IsShort Arm.close = Unit {0}

pub arm_raw_in-IsShort :
    (buffer : Bytes) (len : ℕ) (s : Arm.State) → All IsShort (arm_raw_in buffer len s).1
unfolding arm_raw_in
arm_raw_in-IsShort buffer len s = ground arith
