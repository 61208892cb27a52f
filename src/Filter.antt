-- ===== src/Filter.antt =====
-- src/filter.c: which messages go to the ground over Wi-Fi, and which to the disk alone.
use av3_fc.Base.{◌||◌, if◌then◌else◌}
use av3_fc.Base.Bytes.{codes, memeq}
use av3_fc.Message.{Message}

-- The sender that is called.
pub data Target : Type 0 where
  filter_to_ground filter_to_disk : Message → Target

unfoldable pub filter_receive : Message → Target
unfolding memeq
filter_receive m =
    if memeq 2 m.id (codes "V8") || memeq 4 m.id (codes "JGPS")
    then (if memeq 4 m.id (codes "V8A8") then filter_to_ground m else filter_to_disk m)
    else filter_to_ground m
