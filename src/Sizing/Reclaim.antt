-- ===== src/Sizing/Reclaim.antt =====
-- The process-wide budget of 32 size helpers: `reserveSizeSlot`, sizing.go, 204-228.
use herdr_hive.Base.{ℕ, ◌+◌, Bool, true, false, List, [], ◌∷◌, ltb, if◌then◌else◌}
use herdr_hive.Sizing.Locks.{Sizing, cancel}

abbrev pub size_slots : ℕ
size_slots = 32

-- Each pass of the loop takes an idle lock out of the set; the head stands for the one that the
-- iteration over the map meets. False is `sizing_limit`.
unfoldable pub reserve : List ℕ → Sizing → Sizing × Bool
reserve [] s =
    if ltb s.slots size_slots then (record s { slots = s.slots + 1 }, true) else (s, false)
reserve (h ∷ idle) s =
    if ltb s.slots size_slots
    then (record s { slots = s.slots + 1 }, true)
    else reserve idle (cancel h s)

-- `reserveSizeSlot`
unfoldable pub reserve_size_slot : Sizing → Sizing × Bool
reserve_size_slot s = reserve s.idle s
