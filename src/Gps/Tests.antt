-- ===== src/Gps/Tests.antt =====
-- Runs of the GPS frame scan on small streams.
use av3_fc.Base.{
  ℕ, List, [], ◌∷◌, ◌≡◌, refl, none, some, true, ◌↔◌, zero, suc, map, concat, arith, All, length,
}
use av3_fc.Base.Bytes.{Bytes, codes}
use av3_fc.Message.{Message}
use av3_fc.Gps.{
  send_venus_messages, venus_loop, round, found, at_a0, memchr_a0, chexxor, chexxor_from,
}
use av3_fc.Gps.Frames.{Packet, packet_message}
use av3_fc.Gps.Sound.{Sent, send-Sent}
use av3_fc.Gps.Stream.{
  receive_all, untimed, IsChunk, payload, Received, chunked_stream, chunked_frames,
}
use av3_fc.Gps.Faults.{any_too_long, receive_all_overruns}

abbrev zeros : ℕ → Bytes
zeros zero = []
zeros (suc n) = 0 ∷ zeros n

-- A network packet with some bytes of the stream.
abbrev raw : ℕ → Bytes → Message
raw t b = record { id = codes "V8BS"; timestamp = t ∷ []; data_length = length b; body = b }

-- A navigation frame with two bytes of data, cut in the middle.
abbrev navigation : Packet
navigation = record { packet_id = 0xA8; contents = 2 ∷ 9 ∷ [] }

abbrev cut : List Message
cut = raw 1 (0xA0 ∷ 0xA1 ∷ 0 ∷ 3 ∷ 0xA8 ∷ []) ∷ raw 2 (2 ∷ 9 ∷ 0xA3 ∷ b'\r' ∷ b'\n' ∷ []) ∷ []

cut-IsChunk : All IsChunk cut
cut-IsChunk = (
  record { small = omega arith; whole = omega arith },
  (record { small = omega arith; whole = omega arith }, tt),
)

-- The frame is found behind noise, and the noise is dropped.
noise_dropped :
    send_venus_messages [] (7 ∷ 0xA0 ∷ 0xA0 ∷ 0xA1 ∷ 0 ∷ 1 ∷ 5 ∷ 5 ∷ b'\r' ∷ b'\n' ∷ 3 ∷ []) ≡ (
      record { id = codes "V805"; timestamp = []; data_length = 0; body = 5 ∷ b'\r' ∷ b'\n' ∷ [] }
          ∷ [],
      [],
    )
unfolding send_venus_messages venus_loop round found memchr_a0 at_a0 chexxor chexxor_from
noise_dropped = refl

-- Noise, a frame, and the beginning of another.
abbrev noisy : Bytes
noisy = 7 ∷ 0xA0 ∷ 0xA1 ∷ 0 ∷ 1 ∷ 5 ∷ 5 ∷ b'\r' ∷ b'\n' ∷ 0xA0 ∷ []

send-Sent_example : All (Sent (1 ∷ [])) (send_venus_messages (1 ∷ []) noisy).0
send-Sent_example = send-Sent (1 ∷ []) noisy

chunked_stream_example : Received cut [] (concat (map payload cut))
chunked_stream_example = chunked_stream cut cut-IsChunk

chunked_frames_example :
    (sent : List Message) × (receive_all cut [] ≡ some (sent, []))
    × (map untimed sent ≡ map (packet_message []) (navigation ∷ []))
chunked_frames_example =
    chunked_frames cut (navigation ∷ []) cut-IsChunk (omega arith, tt)
      (unfold chexxor chexxor_from in refl)

-- Two packets of 300 bytes, which do not fit the buffer together, and one of 600.
abbrev long_stream : List Message
long_stream = raw 1 (zeros 300) ∷ raw 2 (zeros 300) ∷ raw 3 (zeros 600) ∷ []

receive_all_overruns_example :
    (receive_all long_stream [] ≡ none) ↔ (any_too_long long_stream ≡ true)
receive_all_overruns_example =
    receive_all_overruns long_stream [] (omega arith, (omega arith, (omega arith, tt)))
