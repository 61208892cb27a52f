-- ===== src/Logger/Limits.antt =====
-- The buffers of src/logger.c: what is in order in a state of the logger, and flushing.
use av3_fc.Base.{
  Bool-cases, inl, inr, ℕ, ◌+◌, ◌%◌, ◌^◌, ◌≤◌, ◌<◌, List, [], ◌∷◌, ◌++◌, ◌≡◌, refl, arith, ◌==◌,
  length, take, All, All-append, length-append, length-take,
}
use av3_fc.Base.Bytes.{Bytes, be16, be32}
use av3_fc.Message.{Message}
use av3_fc.Logger.{State, p_limit, disk_log_buffer_max, flush_log, encode, message_len}

-- A message with an ID of four bytes, a timestamp of six, and its data in memory.
pub record IsMessage (m : Message) : Type 0 where
  pub id_length : length m.id ≡ 4
  pub timestamp_length : length m.timestamp ≡ 6
  pub in_memory : m.data_length ≤ length m.body

pub length-encode : (m : Message) → IsMessage m → length (encode m) ≡ message_len m
length-encode m i = omega (
  arith,
  length-append {0} (take 4 m.id)
      (take 6 m.timestamp ++ (be16 m.data_length ++ take m.data_length m.body)),
  length-append {0} (take 6 m.timestamp) (be16 m.data_length ++ take m.data_length m.body),
  length-take {0} 4 m.id,
  length-take {0} 6 m.timestamp,
  length-take {0} m.data_length m.body,
  i.id_length,
  i.timestamp_length,
  i.in_memory,
)

-- The datagrams are numbered one after the other from `n` on, going round at 2^32.
abbrev pub IsNumbered : ℕ → List Bytes → Type 0
IsNumbered n [] = Unit {0}
IsNumbered n (d ∷ ds) = (take 4 d ≡ be32 n) × IsNumbered ((n + 1) % 2 ^ 32) ds

IsNumbered-append :
    (n k : ℕ) (ds : List Bytes) (d : Bytes)
    → n < 2 ^ 32
    → k ≡ (n + length ds) % 2 ^ 32
    → take 4 d ≡ be32 k
    → IsNumbered n ds
    → IsNumbered n (ds ++ d ∷ [])
IsNumbered-append n k [] d b e h i = let same : k ≡ n = omega arith in (rw same at h, tt)
IsNumbered-append n k (x ∷ ds) d b e h (i, is) =
    (i, IsNumbered-append ((n + 1) % 2 ^ 32) k ds d (omega arith) (omega arith) h is)

pub record IsValid (s : State) : Type 0 where
  -- What waits for the ground waits for the disk too, so an empty disk buffer means that nothing
  -- waits.
  pub nested : length s.log_buffer ≤ length s.disk_log_buffer
  pub net_room : length s.log_buffer ≤ p_limit
  pub disk_room : length s.disk_log_buffer ≤ disk_log_buffer_max
  -- A datagram is at most the limit and its sequence number.
  pub fits_link : All (λ d. length d ≤ p_limit + 4) s.net
  pub numbered : IsNumbered 0 s.net
  pub counted : s.sequence ≡ length s.net % 2 ^ 32

pub flush_log-IsValid : (now : Bytes) (s : State) → IsValid s → IsValid (flush_log now s)
unfolding flush_log
flush_log-IsValid now s v = elim (Bool-cases (length s.disk_log_buffer == 0)) [
  | inl e ↦ rw e v
  | inr e ↦ rw e (record {
    nested = omega arith;
    net_room = omega arith;
    disk_room = omega arith;
    fits_link = All-append _ s.net _ v.fits_link (omega arith, tt);
    numbered =
        IsNumbered-append 0 s.sequence s.net (be32 s.sequence ++ s.log_buffer) (omega arith)
          (omega (arith, v.counted)) refl v.numbered;
    counted =
        omega (arith, v.counted, length-append {0} s.net ((be32 s.sequence ++ s.log_buffer) ∷ []));
  })
]
