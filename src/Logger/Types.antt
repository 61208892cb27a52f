-- ===== src/Logger/Types.antt =====
-- The messages of src/utilities/psas_packet.h, and the log.
use av3_fc.Base.{◌+◌, ◌≤◌, ◌≡◌, some, arith, length, ◌∙◌}
use av3_fc.Base.Bytes.{Bytes}
use av3_fc.Message.{Message}
use av3_fc.Packet.{sizeof, message_header}
use av3_fc.Packet.Messages.{MessageType, data_of, layout_of}
use av3_fc.Logger.{State, p_limit, encode, log_write}
use av3_fc.Logger.Limits.{IsValid, IsMessage, length-encode}
use av3_fc.Logger.Write.{Adds, log_write_lem}

sizeof-layout_of :
    (t : MessageType)
    → (sizeof (layout_of t) ≡ sizeof message_header + sizeof (data_of t))
      × (sizeof (layout_of t) ≤ p_limit)
sizeof-layout_of t = ground arith

-- A message whose data is a structure of src/utilities/psas_packet.h is logged to the disk and to the
-- ground by `log_write`, whatever waits in the buffers, without an overrun, and takes exactly as many
-- bytes in each log as the structure of the whole message has.
pub log_write-MessageType :
    (t : MessageType) (now : Bytes) (m : Message) (s : State)
    → length now ≡ 6
    → IsMessage m
    → m.data_length ≡ sizeof (data_of t)
    → IsValid s
    → ((s' : State) × (log_write now m s ≡ some s') × Adds (encode m) (encode m) s s')
      × (length (encode m) ≡ sizeof (layout_of t))
log_write-MessageType t now m s six i e v =
    let (size, fits) = sizeof-layout_of t in
    (
      log_write_lem now m s six i (omega (arith, size, fits, e)) v,
      length-encode m i ∙ omega (arith, size, e),
    )
