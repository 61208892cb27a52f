-- ===== src/Logger/Contents.antt =====
-- What the logs hold: what was written, behind its headers, and what waits in the buffers.
use av3_fc.Base.{
  ℕ, ◌+◌, ◌≤◌, List, [], ◌∷◌, ◌++◌, ◌≡◌, refl, sym, ap, ◌∙◌, arith, ltb, ◌==◌, length, drop, map,
  concat, concat-append, length-append, append_assoc, append-nil, drop-length, inl, inr, Bool-cases,
}
use av3_fc.Base.Bytes.{Bytes, be16, be32}
use av3_fc.Logger.{
  State, p_limit, disk_log_buffer_max, flush_log, ensure_disk_log_space, ensure_net_log_space,
  seqn_header,
}
use av3_fc.Logger.Limits.{IsValid, flush_log-IsValid}

-- The messages of a write to the log file: what stands behind its SEQN record.
abbrev pub behind_seqn : Bytes → Bytes
behind_seqn = drop 16

-- The messages of a datagram: what stands behind its sequence number.
abbrev pub behind_number : Bytes → Bytes
behind_number = drop 4

-- All that was logged to the disk, and all that was logged to the ground: what was written, and
-- what waits in the buffer.
abbrev pub on_disk : State → Bytes
on_disk s = concat (map behind_seqn s.disk) ++ s.disk_log_buffer

abbrev pub on_net : State → Bytes
on_net s = concat (map behind_number s.net) ++ s.log_buffer

map-append : (f : Bytes → Bytes) (xs ys : List Bytes) → map f (xs ++ ys) ≡ map f xs ++ map f ys
map-append f [] ys = refl
map-append f (x ∷ xs) ys = ap (◌∷◌ (f x)) (map-append f xs ys)

-- One more write, and an empty buffer.
written :
    (f : Bytes → Bytes) (ws : List Bytes) (w b : Bytes)
    → f w ≡ b
    → concat (map f (ws ++ w ∷ [])) ++ [] ≡ concat (map f ws) ++ b
written f ws w b e =
    rw (map-append f ws (w ∷ []), e, concat-append (map f ws) (b ∷ []), append-nil)
      (ap (λ x. concat (map f ws) ++ x) (append-nil b))

behind_seqn_lem :
    (now number b : Bytes)
    → length now ≡ 6
    → length number ≡ 4
    → behind_seqn (seqn_header now ++ (number ++ b)) ≡ b
behind_seqn_lem now number b h g =
    ap (drop 16) (sym (append_assoc (seqn_header now) number b))
    ∙ drop-length 16 (seqn_header now ++ number) b (
        omega
          (arith, h, g, length-append {0} (seqn_header now) number, length-append {0} now (be16 4)))

-- A step that writes buffers out, and changes nothing of what is logged.
pub record Keeps (s s' : State) : Type 0 where
  pub valid : IsValid s'
  pub same_disk : on_disk s' ≡ on_disk s
  pub same_net : on_net s' ≡ on_net s

pub empty_of_length : (b : Bytes) → length b ≤ 0 → b ≡ []
empty_of_length [] h = refl
empty_of_length (x ∷ b) h = absurd (omega arith)

-- Flushing moves what waits to the file and to the ground, and loses nothing.
pub flush_log-Keeps :
    (now : Bytes) (s : State) → length now ≡ 6 → IsValid s → Keeps s (flush_log now s)
unfolding flush_log
flush_log-Keeps now s h v = record {
  valid = flush_log-IsValid now s v;
  same_disk = elim (Bool-cases (length s.disk_log_buffer == 0)) [
    | inl e ↦ rw e
    | inr e ↦ rw e (
        written behind_seqn s.disk _ s.disk_log_buffer
          (behind_seqn_lem now (be32 s.sequence) s.disk_log_buffer h refl))
  ];
  same_net = elim (Bool-cases (length s.disk_log_buffer == 0)) [
    | inl e ↦ rw e
    | inr e ↦ rw e (written behind_number s.net _ s.log_buffer refl)
  ];
}

Keeps-refl : (s : State) → IsValid s → Keeps s s
Keeps-refl s v = record { valid = v; same_disk = refl; same_net = refl }

pub Keeps-trans : (s t u : State) → Keeps s t → Keeps t u → Keeps s u
Keeps-trans s t u a b = record {
  valid = b.valid;
  same_disk = b.same_disk ∙ a.same_disk;
  same_net = b.same_net ∙ a.same_net;
}

pub flush_log-empties :
    (now : Bytes) (s : State)
    → IsValid s
    → (length (flush_log now s).disk_log_buffer ≡ 0) × (length (flush_log now s).log_buffer ≡ 0)
unfolding flush_log
flush_log-empties now s v = ground arith

-- After `ensure_disk_log_space` there is room for a record of that length.
pub ensure_disk-Keeps :
    (now : Bytes) (len : ℕ) (s : State)
    → length now ≡ 6
    → IsValid s
    → Keeps s (ensure_disk_log_space now len s)
unfolding ensure_disk_log_space
ensure_disk-Keeps now len s h v =
    elim (Bool-cases (ltb disk_log_buffer_max (length s.disk_log_buffer + len))) [
      | inl e ↦ rw e (flush_log-Keeps now s h v)
      | inr e ↦ rw e (Keeps-refl s v)
    ]

pub ensure_disk_room :
    (now : Bytes) (len : ℕ) (s : State)
    → IsValid s
    → len ≤ disk_log_buffer_max
    → length (ensure_disk_log_space now len s).disk_log_buffer + len ≤ disk_log_buffer_max
unfolding ensure_disk_log_space
ensure_disk_room now len s v h = ground (arith, flush_log-empties now s)

pub ensure_net-Keeps :
    (now : Bytes) (len : ℕ) (s : State)
    → length now ≡ 6
    → IsValid s
    → Keeps s (ensure_net_log_space now len s)
unfolding ensure_net_log_space
ensure_net-Keeps now len s h v =
    let t = ensure_disk_log_space now len s in
    let k = ensure_disk-Keeps now len s h v in
    elim (Bool-cases (ltb p_limit (length t.log_buffer + len))) [
      | inl e ↦ rw e (Keeps-trans s t _ k (flush_log-Keeps now t h k.valid))
      | inr e ↦ rw e k
    ]

pub ensure_net_room :
    (now : Bytes) (len : ℕ) (s : State)
    → length now ≡ 6
    → IsValid s
    → len ≤ p_limit
    → let t = ensure_net_log_space now len s in
      (length t.log_buffer + len ≤ p_limit) × (length t.disk_log_buffer + len ≤ disk_log_buffer_max)
unfolding ensure_net_log_space
ensure_net_room now len s h v le =
    let t = ensure_disk_log_space now len s in
    ground (
      arith,
      ensure_disk_room now len s v,
      flush_log-empties now t (ensure_disk-Keeps now len s h v).valid,
    )
