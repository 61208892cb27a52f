-- ===== src/Logger/Write.antt =====
-- `log_write` and `log_write_disk_only` of src/logger.c, one message at a time.
use av3_fc.Base.{
  ℕ, ◌+◌, ◌≤◌, ◌<◌, [], ◌++◌, Option, none, some, ◌≡◌, refl, sym, ap, ◌∙◌, arith, length,
  length-append, append_assoc, append-nil,
}
use av3_fc.Base.Bytes.{Bytes}
use av3_fc.Message.{Message}
use av3_fc.Logger.{
  State, p_limit, disk_log_buffer_max, ensure_disk_log_space, ensure_net_log_space, encode,
  message_len, log_write_disk_only, log_write, copy_to_net,
}
use av3_fc.Logger.Limits.{IsValid, IsMessage, length-encode}
use av3_fc.Logger.Contents.{
  on_disk, on_net, Keeps, ensure_disk-Keeps, ensure_disk_room, ensure_net-Keeps, ensure_net_room,
}

-- What an operation adds to what is logged.
pub record Adds (to_disk to_net : Bytes) (s s' : State) : Type 0 where
  pub valid : IsValid s'
  pub disk_lem : on_disk s' ≡ on_disk s ++ to_disk
  pub net_lem : on_net s' ≡ on_net s ++ to_net

-- Bytes appended to both buffers.
append_both :
    (d n : Bytes) (s t : State)
    → Keeps s t
    → length t.log_buffer + length n ≤ p_limit
    → length t.disk_log_buffer + length d ≤ disk_log_buffer_max
    → length n ≤ length d
    → Adds d n s
        (record t { disk_log_buffer = t.disk_log_buffer ++ d; log_buffer = t.log_buffer ++ n })
append_both d n s t k h g le = record {
  valid = record {
    nested = omega (
      arith,
      k.valid.nested,
      length-append {0} t.disk_log_buffer d,
      length-append {0} t.log_buffer n,
    );
    net_room = omega (arith, length-append {0} t.log_buffer n);
    disk_room = omega (arith, length-append {0} t.disk_log_buffer d);
    fits_link = k.valid.fits_link;
    numbered = k.valid.numbered;
    counted = k.valid.counted;
  };
  disk_lem = sym (append_assoc _ t.disk_log_buffer d) ∙ ap (λ x. x ++ d) k.same_disk;
  net_lem = sym (append_assoc _ t.log_buffer n) ∙ ap (λ x. x ++ n) k.same_net;
}

-- A message of at most 65,536 bytes with its header is logged to the disk, whatever waits in the
-- buffers: `log_write_disk_only` overruns nothing, and adds the message to the disk's log alone.
pub log_write_disk_only_lem :
    (now : Bytes) (m : Message) (s : State)
    → length now ≡ 6
    → IsMessage m
    → message_len m ≤ disk_log_buffer_max
    → IsValid s
    → (s' : State) × (log_write_disk_only now m s ≡ some s') × Adds (encode m) [] s s'
unfolding log_write_disk_only
log_write_disk_only_lem now m s h i le v =
    let t = ensure_disk_log_space now (message_len m) s in
    let k = ensure_disk-Keeps now (message_len m) s h v in
    let room = ensure_disk_room now (message_len m) s v le in
    let size = length-encode m i in
    (
      record t { disk_log_buffer = t.disk_log_buffer ++ encode m; log_buffer = t.log_buffer ++ [] },
      ground (arith, room, append-nil t.log_buffer),
      append_both (encode m) [] s t k (omega (arith, k.valid.net_room)) (omega (arith, size, room))
          (omega arith),
    )

-- Where there is room `ensure_disk_log_space` does nothing.
ensure_disk_idle :
    (now : Bytes) (len : ℕ) (s : State)
    → length s.disk_log_buffer + len ≤ disk_log_buffer_max
    → ensure_disk_log_space now len s ≡ s
unfolding ensure_disk_log_space
ensure_disk_idle now len s h = ground arith

write_both :
    (now : Bytes) (m : Message) (t : State)
    → IsMessage m
    → length t.log_buffer + message_len m ≤ p_limit
    → length t.disk_log_buffer + message_len m ≤ disk_log_buffer_max
    → copy_to_net m (log_write_disk_only now m t)
      ≡ some (record t {
        disk_log_buffer = t.disk_log_buffer ++ encode m;
        log_buffer = t.log_buffer ++ encode m;
      })
unfolding copy_to_net log_write_disk_only
write_both now m t i h g = ground (arith, ensure_disk_idle now (message_len m) t g, i.in_memory)

-- A message of at most 1,428 bytes with its header is logged both to the disk and to the ground,
-- whatever waits in the buffers: `log_write` overruns nothing, and adds the message to both logs.
pub log_write_lem :
    (now : Bytes) (m : Message) (s : State)
    → length now ≡ 6
    → IsMessage m
    → message_len m ≤ p_limit
    → IsValid s
    → (s' : State) × (log_write now m s ≡ some s') × Adds (encode m) (encode m) s s'
unfolding log_write
log_write_lem now m s h i le v =
    let t = ensure_net_log_space now (message_len m) s in
    let k = ensure_net-Keeps now (message_len m) s h v in
    let room = ensure_net_room now (message_len m) s h v le in
    let size = length-encode m i in
    (
      record t {
        disk_log_buffer = t.disk_log_buffer ++ encode m;
        log_buffer = t.log_buffer ++ encode m;
      },
      write_both now m t i room.0 room.1,
      append_both (encode m) (encode m) s t k (omega (arith, size, room.0))
          (omega (arith, size, room.1)) (omega arith),
    )

-- A message of more than 1,428 bytes with its header overruns `log_buffer` in every state,
-- however much is flushed first: the code has no test.
pub log_write_overruns :
    (now : Bytes) (m : Message) (s : State) → p_limit < message_len m → log_write now m s ≡ none
unfolding log_write
log_write_overruns now m s h =
    overruns (log_write_disk_only now m (ensure_net_log_space now (message_len m) s))
  where
    overruns : (r : Option State) → copy_to_net m r ≡ none
    overruns none = unfold copy_to_net in refl
    overruns (some t) = unfold copy_to_net in ground arith

-- A message that is said to be longer than it is in memory is read past its end.
pub log_write_disk_only_overreads :
    (now : Bytes) (m : Message) (s : State)
    → length m.body < m.data_length
    → log_write_disk_only now m s ≡ none
unfolding log_write_disk_only
log_write_disk_only_overreads now m s h = ground arith
