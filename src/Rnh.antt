-- ===== src/Rnh.antt =====
-- src/devices/rnh.c: the RocketNet hub is asked for its version, and the answer is logged.
pub mod Version
pub mod Tests
use av3_fc.Base.Int.{ℤ, pos, negsuc}
use av3_fc.Base.{ℕ, List, [], ◌∷◌, ◌++◌, Option, none, some, if◌then◌else◌}
use av3_fc.Base.Bytes.{Bytes, codes}
use av3_fc.Sockets.{Call, socket, connect, close, add_fd, remove_fd, failed}

-- `sizeof(buffer)` in `version_callback`.
abbrev pub buffer_size : ℕ
buffer_size = 50

-- What the module does, in order: a call on a descriptor, `rnh_version_out`, or a `write`.
pub data Output : Type 0 where
  call : Call → Output
  rnh_version_out : Bytes → ℕ → Output
  write : ℤ → Bytes → Output

-- On the descriptor `fd`, with what `read` gives and the buffer as it left it.
unfoldable pub version_callback : ℤ → ℤ → Bytes → List Output
version_callback fd (negsuc n) buffer = call (remove_fd fd) ∷ call (close fd) ∷ []
version_callback fd (pos length) buffer =
    rnh_version_out buffer length ∷ call (remove_fd fd) ∷ call (close fd) ∷ []

-- With what `socket` and `connect` give; a failed `write` is reported and changes nothing.
unfoldable pub rnh_init : ℤ → ℤ → List Output
rnh_init s connected =
    if failed s
    then call (socket s) ∷ []
    else if failed connected
    then call (socket s) ∷ call (connect s connected) ∷ call (close s) ∷ []
    else call (socket s)
      ∷ call (connect s connected)
      ∷ call (add_fd s)
      ∷ write s (codes "#VERS" ++ b'\r' ∷ b'\n' ∷ [])
      ∷ []
