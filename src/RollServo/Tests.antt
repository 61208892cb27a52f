-- ===== src/RollServo/Tests.antt =====
-- A run of the servo's interface, with whole numbers for `double`.
use av3_fc.Base.{List, [], ◌∷◌, arith}
use av3_fc.Base.Int.{ℤ, pos, negsuc}
use av3_fc.Base.Bytes.{codes}
use av3_fc.Double.Whole.{whole, to_bytes}
use av3_fc.Message.{RollMessage}
use av3_fc.RollServo.Wire.{receive_all, Commands, receive_all-Commands}

abbrev roll : ℤ → RollMessage
roll a = record {
  id = codes "ROLL";
  timestamp = [];
  data_length = 9;
  angle = to_bytes a;
  disable = 0;
}

-- Two angles, one of them far out of range, and the last number of 32 bits.
abbrev angles : List RollMessage
angles = roll (pos 15) ∷ roll (negsuc 199) ∷ []

receive_all-Commands_example :
    Commands whole angles 4294967295 (receive_all whole angles 4294967295).1
receive_all-Commands_example =
    receive_all-Commands whole angles 4294967295 (omega arith) (omega arith, (omega arith, tt))
