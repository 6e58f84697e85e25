-- ===== src/Xgress/Examples/Deadlines.antt =====
-- The deadline of a write adapter over a run.
use sdk_golang.Common.{◌≡◌, some, List, [], ◌∷◌}
use sdk_golang.Xgress.WriteAdapter.{
  Clocked, Happening, sets, passes, fires, happen_all, new_write_adapter,
}
use sdk_golang.Xgress.WriteAdapter.Deadlines.{DoneInTime, happen_all-DoneInTime}

-- A deadline that is moved, so that the first timer has no effect and the second one has.
abbrev moved : List Happening
moved = sets 10 ∷ sets 20 ∷ passes 7 ∷ fires 0 ∷ passes 10 ∷ fires 0 ∷ sets 0 ∷ []

happen_all-DoneInTime_example :
    (c : Clocked) × (happen_all moved (record { now = 5; adapter = new_write_adapter }) ≡ some c)
    × DoneInTime c
happen_all-DoneInTime_example = happen_all-DoneInTime 5 moved
