-- ===== src/Service/Blocked.antt =====
-- A parser of the service of internal/driver/wiresinkdriver.go that waits for room in `WriteChan`.
use device_wiresink_go.Prelude.{◌≡◌, true, List, ◌++◌, Bytes}
use device_wiresink_go.Value.{Value}
use device_wiresink_go.Service.{Service}

-- The parser waits, and the frames that waited still do, in front of those that came later.
abbrev pub Waits : List Bytes → Service → Type 0
Waits queue s = (s.parser_blocked ≡ true) × ((later : List Bytes) × (s.queue ≡ queue ++ later))
