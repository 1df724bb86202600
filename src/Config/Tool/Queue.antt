-- ===== src/Config/Tool/Queue.antt =====
-- What becomes of `WriteChan` of internal/config/global.go, which `SendFrame` of tool.go fills.
use device_wiresink_go.Prelude.{◌≤◌, ◌≡◌, refl, sym, ◌∙◌, subst, arith, List, length, Text}
use device_wiresink_go.State.{Gateway}
use device_wiresink_go.Config.Tool.{write_chan_capacity}

-- No AT command was taken out, no more than its capacity were put in, and it is closed as before.
abbrev pub Fills : Gateway → Gateway → Type 0
Fills g after =
    (length g.at_commands ≤ length after.at_commands)
    × (length g.at_commands ≤ write_chan_capacity → length after.at_commands ≤ write_chan_capacity)
    × (after.write_chan_closed ≡ g.write_chan_closed)

pub Fills-refl : (g : Gateway) → Fills g g
Fills-refl g = (omega arith, λ room. room, refl)

pub Fills-trans : (g h k : Gateway) → Fills g h → Fills h k → Fills g k
Fills-trans g h k (a, b, c) (d, e, f) = (omega arith, λ room. e (b room), f ∙ c)

-- The channel is untouched.
pub same-Fills :
    (g after : Gateway)
    → after.at_commands ≡ g.at_commands
    → after.write_chan_closed ≡ g.write_chan_closed
    → Fills g after
same-Fills g after commands closed = (
  subst (λ (l : List Text). length g.at_commands ≤ length l) (sym commands) (omega arith),
  λ room. subst (λ (l : List Text). length l ≤ write_chan_capacity) (sym commands) room,
  closed,
)
