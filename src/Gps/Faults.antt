-- ===== src/Gps/Faults.antt =====
-- Packets and frames that src/devices/gps.c does not expect.
use av3_fc.Base.{
  ◌≤◌, Bool, false, true, ◌||◌, ltb, List, [], ◌∷◌, Option, none, some, ◌≡◌, ◌↔◌, refl, arith,
  length, All, ◌<◌, ◌+◌, ◌++◌, leb, if◌then◌else◌, take, Bool-cases, inl, inr,
}
use av3_fc.Base.Bytes.{Bytes, codes}
use av3_fc.Gps.{
  round, found, at_a0, memchr_a0, emit, cots_raw_in, buf_size, chexxor, send_venus_messages,
}
use av3_fc.Gps.Stream.{receive_all, sent_before}
use av3_fc.Message.{Message}

-- Whether one of some packets has more data than `buf` holds.
abbrev pub any_too_long : List Message → Bool
any_too_long [] = false
any_too_long (m ∷ ms) = ltb buf_size m.data_length || any_too_long ms

-- The data of a packet is in memory.
abbrev pub InMemory : Message → Type 0
InMemory m = m.data_length ≤ length m.body

cots_raw_in_overruns :
    (m : Message) (buf : Bytes) → buf_size < m.data_length → cots_raw_in m buf ≡ none
unfolding cots_raw_in
cots_raw_in_overruns m buf h = ground arith

-- Emptying the buffer makes room for every packet that fits it.
cots_raw_in_takes :
    (m : Message) (buf : Bytes)
    → InMemory m
    → m.data_length ≤ buf_size
    → (r : List Message × Bytes) × (cots_raw_in m buf ≡ some r)
unfolding cots_raw_in
cots_raw_in_takes m buf h le =
    let cur = if leb buf_size (length buf + m.data_length) then [] else buf in
    (send_venus_messages m.timestamp (cur ++ take m.data_length m.body), ground arith)

sent_before-none :
    (sent : List Message) (x : Option (List Message × Bytes))
    → (sent_before sent x ≡ none) ↔ (x ≡ none)
sent_before-none sent none = (λ h. h, λ h. h)
sent_before-none sent (some r) = (λ h. cc h, λ h. cc h)

-- The packets of a stream, with their data whole in memory, make `cots_raw_in` write past the end
-- of `buf` exactly if one of them has more than 512 bytes of data, whatever waits in the buffer at
-- first and whatever the calls before leave there.
pub receive_all_overruns :
    (ms : List Message) (buf : Bytes)
    → All InMemory ms
    → (receive_all ms buf ≡ none) ↔ (any_too_long ms ≡ true)
unfolding receive_all
receive_all_overruns [] buf h = ground arith
receive_all_overruns (m ∷ ms) buf (h, hs) = elim (Bool-cases (ltb buf_size m.data_length)) [
  | inl long ↦ rw (long, cots_raw_in_overruns m buf (ground arith)) (λ _. refl, λ _. refl)
  | inr short ↦
      let ((sent, b), e) = cots_raw_in_takes m buf h (ground arith) in
      let later = receive_all_overruns ms b hs in
      let one = sent_before-none sent (receive_all ms b) in
      rw (short, e) (λ x. later.0 (one.0 x), λ x. one.1 (later.1 x))
]

pub round_empty :
    (timestamp rest : Bytes)
    → round timestamp (0xA0 ∷ 0xA1 ∷ 0 ∷ 0 ∷ 0 ∷ b'\r' ∷ b'\n' ∷ rest)
      ≡ emit
          (record {
            id = codes "V800";
            timestamp = timestamp;
            data_length = 65535;
            body = b'\r' ∷ b'\n' ∷ [];
          })
          rest
unfolding round found memchr_a0 at_a0 chexxor
round_empty timestamp rest = ground arith
