-- ===== src/RollServo/Wire.antt =====
-- What the servo board receives.
use mathlib.Core.Path.{subst}
use av3_fc.Base.{
  ℕ, ◌+◌, ◌%◌, ◌^◌, ◌≤◌, ◌<◌, List, [], ◌∷◌, ◌≡◌, ◌++◌, All, refl, arith, length, get_or,
}
use av3_fc.Base.Bytes.{Bytes, load_be16, load_be32}
use av3_fc.Double.{DoubleOps}
use av3_fc.Message.{RollMessage}
use av3_fc.RollServo.{
  Output, send, rs_receive_adj, max_servo_position_ticks, min_servo_position_ticks, packet,
}

-- A packet of seven bytes with a number, a position within the servo's range, and a flag.
pub record IsCommand (seq disable : ℕ) (b : Bytes) : Type 0 where
  pub seven : length b ≡ 7
  pub numbered : load_be32 b 0 ≡ seq
  pub not_below : min_servo_position_ticks ≤ load_be16 b 4
  pub not_above : load_be16 b 4 ≤ max_servo_position_ticks
  pub flag : get_or b 6 0 ≡ disable

packet-IsCommand :
    (seq ticks disable : ℕ)
    → seq < 2 ^ 32
    → min_servo_position_ticks ≤ ticks
    → ticks ≤ max_servo_position_ticks
    → disable < 256
    → IsCommand seq disable (packet seq ticks disable)
packet-IsCommand seq ticks disable h lo hi d = omega arith

module _ {D : Type 0} (F : DoubleOps D) where
  -- The calls of `rs_receive_adj` for the messages that arrive, in order.
  pub receive_all : List RollMessage → ℕ → ℕ × List Output
  receive_all [] seq = (seq, [])
  receive_all (m ∷ ms) seq =
      let (seq', outs) = rs_receive_adj F m seq in
      let (seq'', outs') = receive_all ms seq' in (seq'', outs ++ outs')

  -- One command for each message, numbered from `seq` on and going round at 2^32.
  abbrev pub Commands : List RollMessage → ℕ → List Output → Type 0
  Commands [] seq [] = Unit {0}
  Commands (m ∷ ms) seq (send b ∷ os) =
      IsCommand seq m.disable b × Commands ms ((seq + 1) % 2 ^ 32) os
  Commands _ seq _ = ⊥

  pub adj_lem :
      (m : RollMessage) (seq : ℕ)
      → seq < 2 ^ 32
      → m.disable < 256
      → (b : Bytes) × (rs_receive_adj F m seq ≡ ((seq + 1) % 2 ^ 32, send b ∷ []))
        × IsCommand seq m.disable b
  unfolding rs_receive_adj
  adj_lem m seq h d = (_, refl, packet-IsCommand seq _ m.disable h (ground arith) (ground arith) d)

  -- Whatever messages arrive with flags of one byte, whatever angles they ask for, each leads to
  -- one packet of seven bytes with the message's flag and a position within the servo's range,
  -- and the packets are numbered one after the other from a number below 2^32 on, going round at
  -- 2^32.
  pub receive_all-Commands :
      (ms : List RollMessage) (seq : ℕ)
      → seq < 2 ^ 32
      → All (λ m. m.disable < 256) ms
      → Commands ms seq (receive_all ms seq).1
  unfolding receive_all
  receive_all-Commands [] seq h d = tt
  receive_all-Commands (m ∷ ms) seq h (d, ds) =
      let (b, e, c) = adj_lem m seq h d in
      rw e (c, receive_all-Commands ms ((seq + 1) % 2 ^ 32) (omega arith) ds)

-- Some packets are numbered one after the other from `n` on, going round at 2^32, each with a
-- position within the servo's range and a flag.
abbrev pub AreCommands : ℕ → List Bytes → Type 0
AreCommands n [] = Unit {0}
AreCommands n (b ∷ bs) = ((d : ℕ) × (d < 2) × IsCommand n d b) × AreCommands ((n + 1) % 2 ^ 32) bs

pub AreCommands-append :
    (n k d : ℕ) (bs : List Bytes) (b : Bytes)
    → n < 2 ^ 32
    → k ≡ (n + length bs) % 2 ^ 32
    → d < 2
    → IsCommand k d b
    → AreCommands n bs
    → AreCommands n (bs ++ b ∷ [])
AreCommands-append n k d [] b h e f c i =
    let same : k ≡ n = omega arith in ((d, f, subst (λ x. IsCommand x d b) same c), tt)
AreCommands-append n k d (x ∷ bs) b h e f c (i, is) =
    (i, AreCommands-append ((n + 1) % 2 ^ 32) k d bs b (omega arith) (omega arith) f c is)
