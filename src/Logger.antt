-- ===== src/Logger.antt =====
-- src/logger.c: messages are gathered in two buffers, which go to the log file and to the ground.
-- `log_buffer` with `log_buffer_size` is the list of the bytes in use, and so is the buffer for the
-- disk; what was written to `disk_fd` and to `net_fd` is a list of writes, the last one last.
-- `none` is an access past the end of a buffer or of a message.
pub mod Contents
pub mod Write
pub mod Run
pub mod Decode
pub mod History
pub mod Limits
pub mod Overruns
pub mod Start
pub mod Types
pub mod Tests
use mathlib.Core.List.{reverse}
use av3_fc.Base.{
  ℕ, suc, ◌+◌, ◌-◌, ◌%◌, ◌^◌, Bool, ◌||◌, List, [], ◌∷◌, ◌++◌, Option, none, some, ltb, ◌==◌,
  if◌then◌else◌, length, take,
}
use av3_fc.Base.Bytes.{Bytes, codes, be16, be32}
use av3_fc.Message.{Message, RollMessage}
use av3_fc.Packet.{sizeof, message_header, sequence_no_data}

-- `LINK_MTU - UDP_HEADER_SIZE - IPv4_MAX_HEADER_SIZE - sizeof(uint32_t)`
abbrev pub p_limit : ℕ
p_limit = 1500 - 8 - 60 - 4

abbrev pub disk_log_buffer_max : ℕ
disk_log_buffer_max = 65536

pub record State : Type 0 where
  pub log_buffer : Bytes
  pub disk_log_buffer : Bytes
  pub sequence : ℕ
  pub disk : List Bytes
  pub net : List Bytes

-- The header of the record that gives the sequence number to the log file.
abbrev pub seqn_header : Bytes → Bytes
seqn_header now = codes "SEQN" ++ (now ++ be16 (sizeof sequence_no_data))

-- `flush_log`; `now` is what `get_psas_time` gives.
unfoldable pub flush_log : Bytes → State → State
flush_log now s = if length s.disk_log_buffer == 0 then s else record {
  log_buffer = [];
  disk_log_buffer = [];
  sequence = (s.sequence + 1) % 2 ^ 32;
  disk = s.disk ++ (seqn_header now ++ (be32 s.sequence ++ s.disk_log_buffer)) ∷ [];
  net = s.net ++ (be32 s.sequence ++ s.log_buffer) ∷ [];
}

unfoldable pub ensure_disk_log_space : Bytes → ℕ → State → State
ensure_disk_log_space now len s =
    if ltb disk_log_buffer_max (length s.disk_log_buffer + len) then flush_log now s else s

unfoldable pub ensure_net_log_space : Bytes → ℕ → State → State
ensure_net_log_space now len s =
    let s' = ensure_disk_log_space now len s in
    if ltb p_limit (length s'.log_buffer + len) then flush_log now s' else s'

-- A message as it stands in both logs: the header, and `data_length` bytes.
abbrev pub encode : Message → Bytes
encode m = take 4 m.id ++ (take 6 m.timestamp ++ (be16 m.data_length ++ take m.data_length m.body))

abbrev pub message_len : Message → ℕ
message_len m = sizeof message_header + m.data_length

unfoldable pub log_write_disk_only : Bytes → Message → State → Option State
log_write_disk_only now m s =
    let s' = ensure_disk_log_space now (message_len m) s in
    if ltb (length m.body) m.data_length
      || ltb disk_log_buffer_max (length s'.disk_log_buffer + message_len m)
    then none
    else some (record s' { disk_log_buffer = s'.disk_log_buffer ++ encode m })

-- The bytes that `log_write_disk_only` appended are copied into the other buffer.
copy_to_net : Message → Option State → Option State
copy_to_net m none = none
copy_to_net m (some s) =
    if ltb p_limit (length s.log_buffer + message_len m)
    then none
    else some (record s { log_buffer = s.log_buffer ++ encode m })

unfoldable pub log_write : Bytes → Message → State → Option State
unfolding copy_to_net
log_write now m s =
    copy_to_net m (log_write_disk_only now m (ensure_net_log_space now (message_len m) s))

-- `log_timeout` and `logger_final`, up to the calls on the descriptors.
abbrev pub log_timeout : Bytes → State → State
log_timeout = flush_log

abbrev pub logger_final : Bytes → State → State
logger_final = flush_log

-- The variables that `logger_init` sets; nothing has been written yet.
abbrev pub initial : State
initial = record { log_buffer = []; disk_log_buffer = []; sequence = 0; disk = []; net = [] }

-- `strlen(code)` bytes of the signal.
unfoldable pub log_receive_arm : Bytes → Bytes → Bytes → State → Option State
log_receive_arm timestamp now code = log_write now (record {
  id = codes "MESG";
  timestamp = timestamp;
  data_length = length code % 2 ^ 16;
  body = code;
})

unfoldable pub log_receive_rnh_version : Bytes → Bytes → Bytes → ℕ → State → Option State
log_receive_rnh_version timestamp now message len = log_write now (record {
  id = codes "VERS";
  timestamp = timestamp;
  data_length = len % 2 ^ 16;
  body = message;
})

-- `log_receive_rc` also leaves the bytes of the caller's angle reversed.
unfoldable pub log_receive_rc : Bytes → RollMessage → State → Option State × RollMessage
log_receive_rc now roll s =
    let swapped = record roll { angle = reverse roll.angle } in
    (
      log_write now
          (record {
            id = swapped.id;
            timestamp = swapped.timestamp;
            data_length = swapped.data_length;
            body = swapped.angle ++ swapped.disable ∷ [];
          })
          s,
      swapped,
    )
