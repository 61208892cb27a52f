-- ===== src/Gps.antt =====
-- src/devices/gps.c: the COTS GPS stream is cut into Venus frames.
-- The static `buf[512]` with its fill pointer `cur` is the list of the bytes from `buf` to `cur`.
-- The messages on stderr are left out; `none` is a write past the end of `buf`,
-- or a read past the end of the message.
pub mod Sound
pub mod Scan
pub mod Loop
pub mod Chunks
pub mod Frames
pub mod Stream
pub mod Faults
pub mod Tests
use Prim.Native.Nat.{bit_xor}
use av3_fc.Base.{
  ℕ, zero, suc, ◌+◌, ◌-◌, ◌*◌, ◌/◌, ◌%◌, ◌^◌, List, [], ◌∷◌, ◌++◌, Option, none, some, Bool, not,
  ◌||◌, ltb, leb, ◌==◌, if◌then◌else◌, length, get_or, take, drop,
}
use av3_fc.Base.Bytes.{Bytes, memeq, codes}
use av3_fc.Message.{Message}

-- `sizeof buf`
abbrev pub buf_size : ℕ
buf_size = 512

-- The loop of `chexxor` over the bytes left, and its call.
unfoldable pub chexxor_from : ℕ → Bytes → ℕ
chexxor_from ret [] = ret
chexxor_from ret (x ∷ xs) = chexxor_from (bit_xor ret x) xs

unfoldable pub chexxor : Bytes → ℕ
unfolding chexxor_from
chexxor = chexxor_from 0

-- `memchr(start, 0xA0, ...)`: the bytes from the first 0xA0 on, none for a null pointer.
unfoldable pub memchr_a0 : Bytes → Bytes
memchr_a0 [] = []
memchr_a0 (x ∷ xs) = if x == 0xA0 then x ∷ xs else memchr_a0 xs

-- An upper case hexadecimal digit.
abbrev pub hex_digit : ℕ → ℕ
hex_digit n = if ltb n 10 then b'0' + n else b'A' + (n - 10)

-- `sprintf(ID, "V8%02X", n)`
abbrev pub venus_id : ℕ → Bytes
venus_id n = b'V' ∷ b'8' ∷ hex_digit (n / 16) ∷ hex_digit (n % 16) ∷ []

-- The message of the frame at `frame`: the length is `packet_len - 1` as a `uint16_t`, the pointer
-- is `frame + 5`, and it reads on to the end of the frame.
abbrev pub frame_message : Bytes → Bytes → ℕ → Message
frame_message timestamp frame packet_len = record {
  id = venus_id (get_or frame 4 0);
  timestamp = timestamp;
  data_length = (packet_len + 2 ^ 16 - 1) % 2 ^ 16;
  body = take (packet_len + 2) (drop 5 frame);
}

-- What one round of the loop does with the bytes from `frame` to `cur`.
pub data Round : Type 0 where
  wait : Bytes → Round
  skip : Bytes → Round
  emit : Message → Bytes → Round

-- The round at an `A0`, with the tests in the order of the source.
unfoldable pub at_a0 : Bytes → Bytes → Round
unfolding memeq chexxor
at_a0 timestamp frame =
    let packet_len = get_or frame 2 0 * 256 + get_or frame 3 0 in
    if ltb (length frame) 7
    then wait frame
    else if not (get_or frame 1 0 == 0xA1)
    then skip (drop 1 frame)
    else if ltb (buf_size / 2) packet_len
    then skip (drop 2 frame)
    else if ltb (length frame) (7 + packet_len)
    then wait frame
    else if not (memeq 2 (drop (5 + packet_len) frame) (b'\r' ∷ b'\n' ∷ []))
    then skip (drop 2 frame)
    else if not (chexxor (take packet_len (drop 4 frame)) == get_or frame (4 + packet_len) 0)
    then skip (drop 2 frame)
    else emit (frame_message timestamp frame packet_len) (drop (packet_len + 7) frame)

-- One round on `start`: with no `A0` the buffer is emptied and the function returns.
unfoldable pub found : Bytes → Bytes → Round
unfolding at_a0
found timestamp [] = wait []
found timestamp (x ∷ xs) = at_a0 timestamp (x ∷ xs)

unfoldable pub round : Bytes → Bytes → Round
unfolding found memchr_a0
round timestamp start = found timestamp (memchr_a0 start)

-- The loop, with fuel: the messages emitted, and what is moved to the start of `buf`.
unfoldable pub venus_loop : ℕ → Bytes → Bytes → List Message × Bytes
venus_loop zero timestamp frame = ([], frame)
venus_loop (suc fuel) timestamp [] = ([], [])
venus_loop (suc fuel) timestamp (x ∷ xs) = elim (round timestamp (x ∷ xs)) [
  | wait rest ↦ ([], rest)
  | skip rest ↦ venus_loop fuel timestamp rest
  | emit m rest ↦ let (ms, kept) = venus_loop fuel timestamp rest in (m ∷ ms, kept)
]

-- Each round takes a byte at least, so the fuel is the number of bytes.
unfoldable pub send_venus_messages : Bytes → Bytes → List Message × Bytes
unfolding venus_loop round
send_venus_messages timestamp buf = venus_loop (length buf) timestamp buf

-- `cots_raw_in`: the new contents of `buf`, with the messages emitted.
unfoldable pub cots_raw_in : Message → Bytes → Option (List Message × Bytes)
unfolding send_venus_messages
cots_raw_in m buf =
    let cur = if leb buf_size (length buf + m.data_length) then [] else buf in
    if ltb buf_size (length cur + m.data_length) || ltb (length m.body) m.data_length
    then none
    else some (send_venus_messages m.timestamp (cur ++ take m.data_length m.body))
