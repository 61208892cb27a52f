-- ===== src/Arm/Tests.antt =====
-- Runs of the arming commands.
use av3_fc.Base.Int.{pos, negsuc}
use av3_fc.Base.{List, [], ◌∷◌, ◌++◌, ◌≡◌, refl, true, false, arith}
use av3_fc.Base.Bytes.{codes, memeq}
use av3_fc.Command.{compare_buffer_to_cmd, strncmp_eq}
use av3_fc.Double.Whole.{whole}
use av3_fc.Message.{Message}
use av3_fc.Arm.{State, zeroed, arm_raw_in, is_upright, about}
use av3_fc.Arm.Descriptor.{init_calls, final_calls, arm_init-arm_final}
use av3_fc.Sockets.{socket}
use av3_fc.Sockets.Open.{open_after}
use av3_fc.Arm.Lock.{Input, command, gps, imu, after, sends_arm, arms_exactly_when, prefix_arms}

-- A fix, and no acceleration at all.
abbrev fix : Message
fix = record { id = codes "V8A8"; timestamp = []; data_length = 1; body = 3 ∷ [] }

abbrev still : Message
still = record { id = codes "ADIS"; timestamp = []; data_length = 24; body = [] }

-- The newest input first.
abbrev locked_history : List Input
locked_history = imu still ∷ gps fix ∷ []

abbrev unlocked_history : List Input
unlocked_history = command (codes "DI_SLOCK") 8 ∷ locked_history

arms_exactly_when_example :
    sends_arm (arm_raw_in (codes "#YOLO") 5 (after whole (pos 3) (pos 0) unlocked_history)).1 ≡ true
unfolding is_upright about compare_buffer_to_cmd strncmp_eq memeq
arms_exactly_when_example =
    arms_exactly_when whole (pos 3) (pos 0) unlocked_history (codes "#YOLO") 5

abbrev unlocked : State
unlocked = record zeroed { slock_enable = false }

prefix_arms_example : sends_arm (arm_raw_in (codes "#") 1 unlocked).1 ≡ true
prefix_arms_example = prefix_arms (codes "#") 1 unlocked (omega arith) (omega arith) refl refl

arm_init-arm_final_example :
    (open_after (init_calls (pos 5) (pos 0)) (3 ∷ []) ≡ 5 ∷ 3 ∷ [])
    × (open_after (init_calls (pos 5) (pos 0) ++ final_calls (pos 5) (pos 0)) (3 ∷ []) ≡ 3 ∷ [])
    × (open_after (init_calls (pos 5) (negsuc 0)) (3 ∷ []) ≡ 3 ∷ [])
    × (open_after
          (init_calls (pos 5) (negsuc 0) ++ socket (pos 5) ∷ final_calls (pos 5) (negsuc 0))
          (3 ∷ [])
        ≡ 3 ∷ [])
arm_init-arm_final_example = arm_init-arm_final 5 0 0 (3 ∷ [])
