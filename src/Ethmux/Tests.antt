-- ===== src/Ethmux/Tests.antt =====
-- Runs of the packet dispatch.
use av3_fc.Base.Int.{pos}
use av3_fc.Base.{ℕ, ◌^◌, List, [], ◌∷◌, ◌≡◌, ◌≢◌, ◌<◌, refl, arith, length, map, zero, suc, ◌++◌}
use av3_fc.Base.Bytes.{Bytes, codes, be32}
use av3_fc.NetAddrs.{mpu_port, jgps_port, gps_cots}
use av3_fc.Ethmux.{
  DemuxType, demuxed_jgps, Read, statics, demux, format_sequenced_error, is_expected_length, route,
  sequenced, Channel, seq_jgps,
}
use av3_fc.Ethmux.Sequence.{
  Arrival, receive_stream, HasLength, passed, Accounted, stream_in_order, lossy_stream, deliveries,
}
use av3_fc.Ethmux.Accept.{accepted, unexpected, errors, fits}
use av3_fc.Ethmux.Interleave.{
  demux_all, sent_for, arrivals, demux_all-receive_stream, demux_all-accepted,
}
use av3_fc.Ethmux.Demux.{IsRead, IsValid, demux-IsValid, mpu_never_handled}

-- The record of the JGPS packets, where number `n` is expected.
abbrev jgps : ℕ → DemuxType
jgps n = record { id = codes "JGPS"; data_length = 0; handler = demuxed_jgps; next_sequence = n }

-- A packet with a number and one byte.
abbrev numbered : ℕ → Arrival
numbered n = record { buffer = be32 n ++ 7 ∷ []; len = 5; timestamp = [] }

numbered-HasLength : (n k : ℕ) → HasLength (jgps n) (numbered k)
unfolding is_expected_length
numbered-HasLength n k = refl

-- Round the end of the 32 bits.
stream_in_order_example :
    receive_stream jgps_port (numbered 4294967295 ∷ numbered 0 ∷ []) (jgps 4294967295)
    ≡ (jgps 1, map (passed (jgps 4294967295)) (numbered 4294967295 ∷ numbered 0 ∷ []))
stream_in_order_example =
    stream_in_order jgps_port (numbered 4294967295 ∷ numbered 0 ∷ []) (jgps 4294967295)
      (omega arith)
      (numbered-HasLength 4294967295 4294967295, (numbered-HasLength 4294967295 0, tt))
      (refl, (refl, tt))

-- Numbers 0, 1 and 4 to 6 are lost.
abbrev with_gaps : List Arrival
with_gaps = numbered 2 ∷ numbered 3 ∷ numbered 7 ∷ []

lossy_stream_example : Accounted (jgps 0) with_gaps (receive_stream jgps_port with_gaps (jgps 0))
lossy_stream_example =
    lossy_stream jgps_port with_gaps (jgps 0) (omega arith)
      (numbered-HasLength 0 2, (numbered-HasLength 0 3, (numbered-HasLength 0 7, tt)))
      (omega arith, omega arith, (omega arith, omega arith, (omega arith, omega arith, tt)))

abbrev zeros : ℕ → Bytes
zeros zero = []
zeros (suc n) = 0 ∷ zeros n

length-zeros : (n : ℕ) → length (zeros n) ≡ n
length-zeros zero = refl
length-zeros (suc n) = omega (arith, length-zeros n)

-- A packet of eight bytes from a port.
abbrev eight_from : ℕ → Read
eight_from port = record { bytes = pos 8; buffer = zeros 1500; port = port; timestamp = [] }

eight_from-IsRead : (port : ℕ) → IsRead (eight_from port)
eight_from-IsRead port = record { mtu = length-zeros 1500; in_buffer = λ n e. ground arith }

statics_lt : (c : Channel) → (statics c).next_sequence < 2 ^ 32
unfolding statics
statics_lt c = ground arith

statics-IsValid : IsValid statics
statics-IsValid = record {
  next_lt = statics_lt;
  length_is = λ c. refl;
  id_is = λ c. refl;
  handler_is = λ c. refl;
}

demux-IsValid_example :
    IsValid (demux (eight_from jgps_port) statics).0
    × ((d : Channel)
        → route jgps_port ≢ sequenced d
        → (demux (eight_from jgps_port) statics).0 d ≡ statics d)
demux-IsValid_example = demux-IsValid (eight_from jgps_port) statics statics-IsValid

mpu_never_handled_example :
    (demux (eight_from mpu_port) statics).1 ≡ format_sequenced_error mpu_port [] 0 0 ∷ []
mpu_never_handled_example =
    mpu_never_handled (eight_from mpu_port) statics 7 (eight_from-IsRead mpu_port) statics-IsValid
      refl refl

-- A repeated packet, one behind a gap, and one that is too short.
abbrev mixed : List Arrival
mixed = numbered 2 ∷ numbered 2 ∷ numbered 5 ∷ record (numbered 6) { len = 3 } ∷ numbered 6 ∷ []

-- The packets that are accepted there.
three_pass : accepted (fits (jgps 2)) 2 mixed ≡ numbered 2 ∷ numbered 5 ∷ numbered 6 ∷ []
unfolding is_expected_length
three_pass = refl

-- A packet of eight bytes with a number, from a port.
abbrev counted_from : ℕ → ℕ → Read
counted_from port n = record {
  bytes = pos 8;
  buffer = be32 n ++ zeros 1496;
  port = port;
  timestamp = [];
}

-- The packets of two senders, and of none: one comes twice, and one is lost.
abbrev interleaved : List Read
interleaved =
    counted_from jgps_port 0
    ∷ counted_from gps_cots 0
    ∷ counted_from jgps_port 0
    ∷ counted_from 1 7
    ∷ counted_from gps_cots 1
    ∷ counted_from jgps_port 2
    ∷ []

jgps_route : route jgps_port ≡ sequenced seq_jgps
unfolding route
jgps_route = refl

demux_all-receive_stream_example :
    let stream = receive_stream jgps_port (arrivals jgps_port interleaved) (statics seq_jgps) in
    let out = demux_all interleaved statics in
    (out.0 seq_jgps ≡ stream.0) × (sent_for jgps_port out.1 ≡ stream.1)
demux_all-receive_stream_example =
    demux_all-receive_stream jgps_port seq_jgps interleaved statics jgps_route

demux_all-accepted_example :
    let t = statics seq_jgps in
    let out = sent_for jgps_port (demux_all interleaved statics).1 in
    (deliveries out
      ≡ map (passed t) (accepted (fits t) t.next_sequence (arrivals jgps_port interleaved)))
    × (errors out ≡ unexpected (fits t) t.next_sequence (arrivals jgps_port interleaved))
demux_all-accepted_example = demux_all-accepted jgps_port seq_jgps interleaved statics jgps_route

-- The first and the last of its packets are accepted there, and there are two errors.
two_pass :
    (accepted (fits (statics seq_jgps)) 0 (arrivals jgps_port interleaved)
      ≡ (record { buffer = be32 0 ++ zeros 1496; len = 8; timestamp = [] })
        ∷ (record { buffer = be32 2 ++ zeros 1496; len = 8; timestamp = [] })
        ∷ [])
    × (unexpected (fits (statics seq_jgps)) 0 (arrivals jgps_port interleaved) ≡ 2)
unfolding is_expected_length statics
two_pass = (refl, refl)
