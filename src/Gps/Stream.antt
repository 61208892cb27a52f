-- ===== src/Gps/Stream.antt =====
-- `cots_raw_in` over a whole stream of network packets.
use av3_fc.Base.{
  ℕ, zero, suc, ◌+◌, ◌≤◌, ◌<◌, List, [], ◌∷◌, ◌++◌, ◌≡◌, refl, sym, ap, ap₂, ◌∙◌, arith, length,
  map, Option, none, some, take, All, concat, length-append, append_assoc, append-nil,
}
use av3_fc.Base.Bytes.{Bytes}
use av3_fc.Message.{Message}
use av3_fc.Gps.{
  Round, wait, skip, emit, round, at_a0, found, memchr_a0, venus_loop, send_venus_messages,
  cots_raw_in, buf_size,
}
use av3_fc.Gps.Chunks.{send_then, send-append, send_kept, max_kept}
use mathlib.Core.Path.{subst}
use av3_fc.Gps.Loop.{send_nil}
use av3_fc.Gps.Frames.{Packet, frame_of, packet_message, Fits, send-frames}

-- A message without the time at which it was completed.
abbrev pub untimed : Message → Message
untimed m = record m { timestamp = [] }

abbrev untimed_round : Round → Round
untimed_round (wait r) = wait r
untimed_round (skip r) = skip r
untimed_round (emit m r) = emit (untimed m) r

at_a0-untimed : (ts f : Bytes) → at_a0 [] f ≡ untimed_round (at_a0 ts f)
unfolding at_a0
at_a0-untimed ts f = ground arith

found-untimed : (ts f : Bytes) → found [] f ≡ untimed_round (found ts f)
unfolding found
found-untimed ts [] = refl
found-untimed ts (x ∷ xs) = at_a0-untimed ts (x ∷ xs)

round-untimed : (ts b : Bytes) → round [] b ≡ untimed_round (round ts b)
unfolding round
round-untimed ts b = found-untimed ts (memchr_a0 b)

abbrev untimed_result : List Message × Bytes → List Message × Bytes
untimed_result (ms, r) = (map untimed ms, r)

loop-untimed_round :
    (k : ℕ) (ts : Bytes) (x : ℕ) (xs : Bytes) (q : Round)
    → round ts (x ∷ xs) ≡ q
    → ((b : Bytes) → venus_loop k [] b ≡ untimed_result (venus_loop k ts b))
    → venus_loop (suc k) [] (x ∷ xs) ≡ untimed_result (venus_loop (suc k) ts (x ∷ xs))
unfolding venus_loop
loop-untimed_round k ts x xs (wait r) e ih = rw (round-untimed ts (x ∷ xs), e, venus_loop)
loop-untimed_round k ts x xs (skip r) e ih = rw (round-untimed ts (x ∷ xs), e, venus_loop) (ih r)
loop-untimed_round k ts x xs (emit m r) e ih = rw (round-untimed ts (x ∷ xs), e, venus_loop, ih r)

loop-untimed : (k : ℕ) (ts b : Bytes) → venus_loop k [] b ≡ untimed_result (venus_loop k ts b)
unfolding venus_loop
loop-untimed zero ts b = refl
loop-untimed (suc k) ts [] = refl
loop-untimed (suc k) ts (x ∷ xs) =
    loop-untimed_round k ts x xs (round ts (x ∷ xs)) refl (loop-untimed k ts)

-- The time at which bytes arrive shows in the messages' timestamps alone.
send-untimed : (ts b : Bytes) → send_venus_messages [] b ≡ untimed_result (send_venus_messages ts b)
unfolding send_venus_messages
send-untimed ts b = loop-untimed (length b) ts b

-- The messages of a call, and those of later calls.
abbrev pub sent_before :
    List Message → Option (List Message × Bytes) → Option (List Message × Bytes)
sent_before sent none = none
sent_before sent (some (sent', buf)) = some (sent ++ sent', buf)

abbrev pub received_before :
    Option (List Message × Bytes)
    → (Bytes → Option (List Message × Bytes))
    → Option (List Message × Bytes)
received_before none later = none
received_before (some (sent, buf)) later = sent_before sent (later buf)

-- The calls of `cots_raw_in` for the packets that arrive, in order.
unfoldable pub receive_all : List Message → Bytes → Option (List Message × Bytes)
receive_all [] buf = some ([], buf)
receive_all (m ∷ ms) buf = received_before (cots_raw_in m buf) (receive_all ms)

-- A network packet so small that it fits behind whatever waits in the buffer.
pub record IsChunk (m : Message) : Type 0 where
  pub small : m.data_length + max_kept < buf_size
  pub whole : m.data_length ≤ length m.body

abbrev pub payload : Message → Bytes
payload m = take m.data_length m.body

pub cots_raw_in-chunk :
    (m : Message) (buf : Bytes)
    → length buf ≤ max_kept
    → IsChunk m
    → cots_raw_in m buf ≡ some (send_venus_messages m.timestamp (buf ++ payload m))
unfolding cots_raw_in
cots_raw_in-chunk m buf h c = ground arith

map-append :
    (f : Message → Message) (xs ys : List Message) → map f (xs ++ ys) ≡ map f xs ++ map f ys
map-append f [] ys = refl
map-append f (x ∷ xs) ys = ap (◌∷◌ (f x)) (map-append f xs ys)

nothing_more : {A : Type 0} (xs ys : List A) → xs ++ ys ≡ xs → ys ≡ []
nothing_more xs [] h = refl
nothing_more xs (y ∷ ys) h = absurd (omega (arith, ap length h, length-append {0} xs (y ∷ ys)))

-- The buffer holds no whole frame.
abbrev IsIdle : Bytes → Type 0
IsIdle buf = send_venus_messages [] buf ≡ ([], buf)

-- What a call leaves in the buffer holds no whole frame.
send-IsIdle : (b : Bytes) → IsIdle (send_venus_messages [] b).1
send-IsIdle b =
    let s : List Message × Bytes = send_venus_messages [] b in
    let t : List Message × Bytes = send_venus_messages [] s.1 in
    let again : s ≡ send_then [] s [] =
      ap (send_venus_messages []) (sym (append-nil b)) ∙ send-append [] b [] in
    let again' : s ≡ (s.0 ++ t.0, t.1) =
      again
      ∙ ap (λ (r : Bytes). (s.0 ++ (send_venus_messages [] r).0, (send_venus_messages [] r).1))
          (append-nil s.1) in
    ap₂ (λ x y. (x, y)) (nothing_more s.0 t.0 (sym (ap (λ p. p.0) again')))
      (sym (ap (λ p. p.1) again'))

-- What the calls have done: sent the messages of the whole stream, and kept its rest.
pub record Received (ms : List Message) (buf stream : Bytes) : Type 0 where
  pub sent : List Message
  pub kept : Bytes
  pub returns : receive_all ms buf ≡ some (sent, kept)
  pub scanned : send_venus_messages [] stream ≡ (map untimed sent, kept)

Received-cons :
    (m : Message) (ms : List Message) (buf rest : Bytes) (now : List Message) (r : Bytes)
    → cots_raw_in m buf ≡ some (now, r)
    → send_venus_messages [] (buf ++ payload m) ≡ (map untimed now, r)
    → Received ms r (r ++ rest)
    → Received (m ∷ ms) buf (buf ++ (payload m ++ rest))
unfolding receive_all
Received-cons m ms buf rest now r e scan later = record {
  sent = now ++ later.sent;
  kept = later.kept;
  returns = rw (e, receive_all, later.returns);
  scanned =
      ap (send_venus_messages []) (sym (append_assoc buf (payload m) rest))
      ∙ send-append [] (buf ++ payload m) rest
      ∙ ap (λ s. send_then [] s rest) scan
      ∙ ap (λ (s : List Message × Bytes). (map untimed now ++ s.0, s.1)) later.scanned
      ∙ ap (λ l. (l, later.kept)) (sym (map-append untimed now later.sent));
}

Received_lem :
    (ms : List Message) (buf : Bytes)
    → length buf ≤ max_kept
    → IsIdle buf
    → All IsChunk ms
    → Received ms buf (buf ++ concat (map payload ms))
unfolding receive_all
Received_lem [] buf h idle cs = record {
  sent = [];
  kept = buf;
  returns = refl;
  scanned = rw append-nil idle;
}
Received_lem (m ∷ ms) buf h idle (c, cs) =
    let all : Bytes = buf ++ payload m in
    let s : List Message × Bytes = send_venus_messages m.timestamp all in
    let timed : send_venus_messages [] all ≡ (map untimed s.0, s.1) =
      send-untimed m.timestamp all in
    let idle' : IsIdle s.1 = subst IsIdle (ap (λ p. p.1) timed) (send-IsIdle all) in
    Received-cons m ms buf (concat (map payload ms)) s.0 s.1 (cots_raw_in-chunk m buf h c) timed
      (Received_lem ms s.1 (send_kept m.timestamp all) idle' cs)

-- If the GPS stream arrives in packets of at most 249 bytes, whole in memory, `cots_raw_in` never
-- overruns its buffer, and however the stream is cut, the messages sent are those that one scan
-- of the whole stream finds, in order; only their timestamps depend on the cut.
pub chunked_stream : (ms : List Message) → All IsChunk ms → Received ms [] (concat (map payload ms))
chunked_stream ms h = Received_lem ms [] (omega arith) (send_nil []) h

-- If the GPS stream arrives in packets of at most 249 bytes, whole in memory, and is a sequence
-- of frames with at most 256 bytes of ID and data each, then the calls return, send exactly one
-- message for each frame, in order and with its data, and leave the buffer empty, wherever the
-- packets cut the frames.
pub chunked_frames :
    (ms : List Message) (ps : List Packet)
    → All IsChunk ms
    → All Fits ps
    → concat (map payload ms) ≡ concat (map frame_of ps)
    → (sent : List Message) × (receive_all ms [] ≡ some (sent, []))
      × (map untimed sent ≡ map (packet_message []) ps)
chunked_frames ms ps h f e =
    let r : Received ms [] (concat (map payload ms)) = chunked_stream ms h in
    let both : (map (packet_message []) ps, []) ≡ (map untimed r.sent, r.kept) =
      sym (send-frames [] ps f) ∙ ap (send_venus_messages []) (sym e) ∙ r.scanned in
    (
      r.sent,
      r.returns ∙ ap (λ k. some (r.sent, k)) (sym (ap (λ p. p.1) both)),
      sym (ap (λ p. p.0) both),
    )
