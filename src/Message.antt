-- ===== src/Message.antt =====
-- What the modules hand one another: the four arguments of every message handler.
use av3_fc.Base.{ℕ}
use av3_fc.Base.Bytes.{Bytes}

-- `(const char ID[4], uint8_t timestamp[6], uint16_t data_length, void *data)`. `body` holds the
-- bytes that `data` gives access to, which may be more or fewer than `data_length`.
pub record Message : Type 0 where
  pub id : Bytes
  pub timestamp : Bytes
  pub data_length : ℕ
  pub body : Bytes

-- `ROLLMessage`. The eight bytes of the `double` stand in host order.
pub record RollMessage : Type 0 where
  pub id : Bytes
  pub timestamp : Bytes
  pub data_length : ℕ
  pub angle : Bytes
  pub disable : ℕ
