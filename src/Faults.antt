-- ===== src/Faults.antt =====
-- What a frame of length 0 leads to, from the frame scan of src/devices/gps.c through src/filter.c to
-- the log of src/logger.c.
use av3_fc.Base.{[], ◌∷◌, ◌++◌, ◌≡◌, refl, none, arith}
use av3_fc.Base.Bytes.{Bytes, codes}
use av3_fc.Filter.{filter_receive, filter_to_disk}
use av3_fc.Gps.{round, emit}
use av3_fc.Gps.Faults.{round_empty}
use av3_fc.Logger
use av3_fc.Logger.Write.{log_write_disk_only_overreads}
use av3_fc.Logger.{log_write_disk_only}
use av3_fc.Message.{Message}

-- A frame whose packet has no byte at all, not even an ID: the checksum of nothing is 0.
abbrev pub empty_frame : Bytes
empty_frame = 0xA0 ∷ 0xA1 ∷ 0 ∷ 0 ∷ 0 ∷ b'\r' ∷ b'\n' ∷ []

-- The message that it is taken for: the length 0 - 1 is 65,535 as a `uint16_t`.
abbrev pub empty_frame_message : Bytes → Message
empty_frame_message timestamp = record {
  id = codes "V800";
  timestamp = timestamp;
  data_length = 65535;
  body = b'\r' ∷ b'\n' ∷ [];
}

-- A GPS frame of length 0 passes every test of the frame scan, whatever is behind it; it is sent as
-- a message of 65,535 bytes of data, which the filter hands to the disk log, and logging it reads
-- past the end of the data in every state of the logger.
pub empty_frame_faults :
    (timestamp rest now : Bytes) (s : Logger.State)
    → (round timestamp (empty_frame ++ rest) ≡ emit (empty_frame_message timestamp) rest)
      × (filter_receive (empty_frame_message timestamp)
          ≡ filter_to_disk (empty_frame_message timestamp))
      × (log_write_disk_only now (empty_frame_message timestamp) s ≡ none)
unfolding filter_receive
empty_frame_faults timestamp rest now s = (
  round_empty timestamp rest,
  refl,
  log_write_disk_only_overreads now (empty_frame_message timestamp) s (omega arith),
)
