-- ===== src/Gps/Chunks.antt =====
-- The stream cut into network packets: what is kept from one call of `cots_raw_in` to the next.
use av3_fc.Base.{
  ℕ, zero, suc, ◌+◌, ◌≤◌, ◌<◌, ◌/◌, List, [], ◌∷◌, ◌++◌, ◌≡◌, refl, sym, ap, ◌∙◌, arith, length,
  append-nil,
}
use av3_fc.Base.Bytes.{Bytes}
use av3_fc.Message.{Message}
use av3_fc.Gps.{
  Round, wait, skip, emit, round, at_a0, found, memchr_a0, send_venus_messages, buf_size,
}
use av3_fc.Gps.Scan.{round_shrinks, round_again, round-append}
use av3_fc.Gps.Loop.{send_rounds, send_step, send_nil}

-- What a buffer gives, and then more bytes.
abbrev pub send_then : Bytes → List Message × Bytes → Bytes → List Message × Bytes
send_then ts s c =
    (s.0 ++ (send_venus_messages ts (s.1 ++ c)).0, (send_venus_messages ts (s.1 ++ c)).1)

send_again :
    (ts b r c : Bytes)
    → round ts b ≡ wait r
    → send_venus_messages ts b ≡ ([], r)
    → send_venus_messages ts (b ++ c) ≡ send_venus_messages ts (r ++ c)
send_again ts [] r c e s = cc (send_nil ts)
send_again ts (x ∷ xs) [] [] e s = cc (send_nil ts, append-nil xs)
send_again ts (x ∷ xs) [] (y ∷ c) e s =
    send_rounds ts x (xs ++ y ∷ c)
    ∙ ap (send_step ts) (sym (round_again ts (x ∷ xs) [] (y ∷ c) e))
    ∙ sym (send_rounds ts y c)
send_again ts (x ∷ xs) (y ∷ r) c e s =
    send_rounds ts x (xs ++ c)
    ∙ ap (send_step ts) (sym (round_again ts (x ∷ xs) (y ∷ r) c e))
    ∙ sym (send_rounds ts y (r ++ c))

-- One round, by what it answers; `ih` is the claim for fewer bytes.
send-append_round :
    (ts : Bytes) (x : ℕ) (xs c : Bytes) (q : Round)
    → round ts (x ∷ xs) ≡ q
    → ((r : Bytes)
        → length r ≤ length xs
        → send_venus_messages ts (r ++ c) ≡ send_then ts (send_venus_messages ts r) c)
    → send_venus_messages ts (x ∷ xs ++ c) ≡ send_then ts (send_venus_messages ts (x ∷ xs)) c
send-append_round ts x xs c (wait r) e ih =
    let s : send_venus_messages ts (x ∷ xs) ≡ ([], r) = rw (send_rounds ts x xs, e) in
    rw s (send_again ts (x ∷ xs) r c e s)
send-append_round ts x xs c (skip r) e ih =
    let grown : round ts (x ∷ xs ++ c) ≡ skip (r ++ c) = rw e at (round-append ts (x ∷ xs) c) in
    let shrinks : length r < length (x ∷ xs) = ground (arith, round_shrinks ts (x ∷ xs)) in
    rw (send_rounds ts x xs, send_rounds ts x (xs ++ c), e, grown) (ih r (omega arith))
send-append_round ts x xs c (emit m r) e ih =
    let grown : round ts (x ∷ xs ++ c) ≡ emit m (r ++ c) = rw e at (round-append ts (x ∷ xs) c) in
    let shrinks : length r < length (x ∷ xs) = ground (arith, round_shrinks ts (x ∷ xs)) in
    rw (send_rounds ts x xs, send_rounds ts x (xs ++ c), e, grown, ih r (omega arith))

send-append_fuel :
    (n : ℕ) (ts b c : Bytes)
    → length b ≤ n
    → send_venus_messages ts (b ++ c) ≡ send_then ts (send_venus_messages ts b) c
send-append_fuel n ts [] c h = rw send_nil
send-append_fuel zero ts (x ∷ xs) c h = absurd (omega arith)
send-append_fuel (suc n) ts (x ∷ xs) c h =
    send-append_round ts x xs c (round ts (x ∷ xs)) refl
      (λ r g. send-append_fuel n ts r c (omega arith))

-- A buffer with bytes behind it gives what the buffer gives, and then what its rest gives with
-- those bytes behind it.
pub send-append :
    (ts b c : Bytes) → send_venus_messages ts (b ++ c) ≡ send_then ts (send_venus_messages ts b) c
send-append ts b c = send-append_fuel (length b) ts b c (omega arith)

-- What waits in the buffer is shorter than the longest frame.
abbrev pub max_kept : ℕ
max_kept = buf_size / 2 + 6

at_a0_kept : (ts f r : Bytes) → at_a0 ts f ≡ wait r → length r ≤ max_kept
unfolding at_a0
at_a0_kept ts f r h = ground arith

round_kept : (ts b r : Bytes) → round ts b ≡ wait r → length r ≤ max_kept
unfolding round
round_kept ts b r h = kept (memchr_a0 b) h
  where
    kept : (f : Bytes) → found ts f ≡ wait r → length r ≤ max_kept
    kept [] e = unfold found in ground arith
    kept (x ∷ xs) e = unfold found in at_a0_kept ts (x ∷ xs) r e

send_kept_round :
    (ts : Bytes) (x : ℕ) (xs : Bytes) (q : Round)
    → round ts (x ∷ xs) ≡ q
    → ((r : Bytes) → length r ≤ length xs → length (send_venus_messages ts r).1 ≤ max_kept)
    → length (send_step ts q).1 ≤ max_kept
send_kept_round ts x xs (wait r) e ih = round_kept ts (x ∷ xs) r e
send_kept_round ts x xs (skip r) e ih =
    let shrinks : length r < length (x ∷ xs) = ground (arith, round_shrinks ts (x ∷ xs)) in
    ih r (omega arith)
send_kept_round ts x xs (emit m r) e ih =
    let shrinks : length r < length (x ∷ xs) = ground (arith, round_shrinks ts (x ∷ xs)) in
    ih r (omega arith)

send_kept_fuel :
    (n : ℕ) (ts b : Bytes) → length b ≤ n → length (send_venus_messages ts b).1 ≤ max_kept
send_kept_fuel n ts [] h = rw send_nil (omega arith)
send_kept_fuel zero ts (x ∷ xs) h = absurd (omega arith)
send_kept_fuel (suc n) ts (x ∷ xs) h =
    rw (send_rounds ts x xs) (
      send_kept_round ts x xs (round ts (x ∷ xs)) refl (λ r g. send_kept_fuel n ts r (omega arith)))

-- Whatever was in the buffer, at most 262 bytes stay in it.
pub send_kept : (ts b : Bytes) → length (send_venus_messages ts b).1 ≤ max_kept
send_kept ts b = send_kept_fuel (length b) ts b (omega arith)
