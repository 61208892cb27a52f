-- ===== src/System/KeptTests.antt =====
-- A run of the whole program in which a pressure is measured, with whole numbers for `double`.
use av3_fc.Base.{List, [], ◌∷◌, ◌≡◌, refl, arith}
use av3_fc.Base.Bytes.{Bytes}
use av3_fc.Ethmux.{
  Channel-discrete, is_expected_length, seq_bmp, statics, demux, demux_bytes, dispatch, route,
  sequenced_receive,
}
use av3_fc.Ethmux.Poll.{read_packet}
use av3_fc.Message.{Message}
use av3_fc.NetAddrs.{bmp_port}
use av3_fc.Sockets.{readsocketfromts, ReceivedMessage, count, eth_mtu}
use av3_fc.Sockets.Receive.{IsReceived}
use av3_fc.System.EventTests.{constants}
use av3_fc.System.Events.{Event, packet, timer}
use av3_fc.System.Logged.{message_of}
use av3_fc.System.Measured.{measured}
use av3_fc.System.Tests.{zeros, length-zeros, now}
use av3_fc.Time.{at}

-- Number 0, and a BMP180Data of zeros.
abbrev pub pressure : ReceivedMessage
pressure = record { rc = count 10; buffer = zeros 1500; port = bmp_port; control = [] }

pub pressure-IsReceived : IsReceived eth_mtu pressure
pressure-IsReceived = record { size_lem = length-zeros 1500; in_buffer = λ n e. ground arith }

-- The packet comes twice, and is not accepted again. Ticks of the timer before and after.
abbrev events : List (Bytes × Event)
events =
    (now, timer)
    ∷ (now, packet (at 7 0) pressure)
    ∷ (now, packet (at 8 0) pressure)
    ∷ (now, timer)
    ∷ []

abbrev bmp_message : Message
bmp_message = message_of (statics seq_bmp) (read_packet constants (at 5 0) (at 7 0) pressure) 10

-- The measurement is counted once.
measured_once : measured constants (at 5 0) events statics ≡ bmp_message ∷ []
unfolding measured read_packet readsocketfromts demux demux_bytes dispatch route sequenced_receive
    is_expected_length statics Channel-discrete
measured_once = refl
