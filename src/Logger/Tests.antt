-- ===== src/Logger/Tests.antt =====
-- Runs of the logger, and of the reader of its log.
use av3_fc.Base.{
  ℕ, zero, suc, ◌≤◌, ◌↔◌, true, List, [], ◌∷◌, ◌≡◌, refl, none, some, length, map, arith, get_or,
  ◌==◌, if◌then◌else◌,
}
use av3_fc.Base.Bytes.{Bytes, codes}
use av3_fc.Message.{Message}
use av3_fc.Logger.{State, initial, encode, log_write, logger_final, flush_log}
use av3_fc.Logger.Limits.{IsMessage}
use av3_fc.Logger.Run.{
  Request, write, write_disk_only, timeout, run, AllFit, Complete, whole_log, encode_all,
  initial-IsValid,
}
use av3_fc.Logger.Decode.{read_log, entry_of, read_log-encode_all}
use av3_fc.Logger.Start.{Opened, descriptor, taken, open_logfile, Ends, open_logfile-Ends}
use av3_fc.Logger.Write.{Adds}
use av3_fc.Logger.Overruns.{any_too_long, run_overruns}
use av3_fc.Logger.Types.{log_write-MessageType}
use av3_fc.Packet.{sizeof}
use av3_fc.Packet.Messages.{bmp1, layout_of}

abbrev now : Bytes
now = 0 ∷ 0 ∷ 0 ∷ 0 ∷ 1 ∷ 2 ∷ []

abbrev pressure : Message
pressure = record {
  id = codes "BMP1";
  timestamp = now;
  data_length = 3;
  body = 7 ∷ 8 ∷ 9 ∷ 10 ∷ [];
}

abbrev position : Message
position = record { id = codes "JGPS"; timestamp = now; data_length = 1; body = 5 ∷ [] }

pressure-IsMessage : IsMessage pressure
pressure-IsMessage = record { id_length = refl; timestamp_length = refl; in_memory = omega arith }

position-IsMessage : IsMessage position
position-IsMessage = record { id_length = refl; timestamp_length = refl; in_memory = omega arith }

-- A flush by the timer between the two messages.
abbrev requests : List (Bytes × Request)
requests = (now, write pressure) ∷ (now, timeout) ∷ (now, write_disk_only position) ∷ []

requests-AllFit : AllFit requests
requests-AllFit = (
  refl,
  (pressure-IsMessage, omega arith),
  (refl, tt, (refl, (position-IsMessage, omega arith), tt)),
)

whole_log_example :
    (s : State) × (run requests initial ≡ some s) × Complete requests (logger_final now s)
whole_log_example = whole_log requests now requests-AllFit refl

-- The first flush: what goes to the log file and what goes to the ground.
flushed_example :
    (flush_log now (record initial { disk_log_buffer = 1 ∷ 2 ∷ []; log_buffer = 1 ∷ [] })).net
    ≡ (0 ∷ 0 ∷ 0 ∷ 0 ∷ 1 ∷ []) ∷ []
unfolding flush_log
flushed_example = refl

read_log-encode_all_example :
    read_log 2 (encode_all (pressure ∷ position ∷ []))
    ≡ some (map entry_of (pressure ∷ position ∷ []))
read_log-encode_all_example =
    read_log-encode_all 2 (pressure ∷ position ∷ []) (omega arith)
      (pressure-IsMessage, (position-IsMessage, tt)) (omega arith, (omega arith, tt))

abbrev zeros : ℕ → Bytes
zeros zero = []
zeros (suc n) = 0 ∷ zeros n

-- A message for the ground with some zeros.
abbrev of_zeros : ℕ → Message
of_zeros n = record { id = codes "ADIS"; timestamp = now; data_length = n; body = zeros n }

-- Two messages that do not fit the buffer together, and one that does not fit it alone.
abbrev long_requests : List (Bytes × Request)
long_requests =
    (now, write (of_zeros 1416)) ∷ (now, write (of_zeros 40)) ∷ (now, write (of_zeros 1417)) ∷ []

of_zeros-IsMessage : (n : ℕ) → n ≤ length (zeros n) → IsMessage (of_zeros n)
of_zeros-IsMessage n h = record { id_length = refl; timestamp_length = refl; in_memory = h }

run_overruns_example : (run long_requests initial ≡ none) ↔ (any_too_long long_requests ≡ true)
run_overruns_example = run_overruns long_requests (
  refl,
  of_zeros-IsMessage 1416 (omega arith),
  (refl, of_zeros-IsMessage 40 (omega arith), (refl, of_zeros-IsMessage 1417 (omega arith), tt)),
)

-- The first two names are taken.
abbrev third_free : Bytes → Opened
third_free name = if get_or name 10 0 == b'2' then descriptor 4 else taken

open_logfile-Ends_example : Ends third_free 0 1000 (open_logfile third_free)
open_logfile-Ends_example = open_logfile-Ends third_free

-- A measurement of the BMP180, of six bytes.
abbrev measurement : Message
measurement = record pressure { data_length = 6; body = 7 ∷ 8 ∷ 9 ∷ 10 ∷ 11 ∷ 12 ∷ [] }

log_write-MessageType_example :
    ((s : State) × (log_write now measurement initial ≡ some s)
      × Adds (encode measurement) (encode measurement) initial s)
    × (length (encode measurement) ≡ sizeof (layout_of bmp1))
log_write-MessageType_example =
    log_write-MessageType bmp1 now measurement initial refl
      (record { id_length = refl; timestamp_length = refl; in_memory = omega arith }) refl
      initial-IsValid
