-- ===== src/GCode/Line/Reject.antt =====
-- A line that is refused changes nothing, and reading the words of a line ends.
use cpcbm.Base.{ℕ, ◌≡◌, ◌⊎◌, false, List, [], ◌∷◌, ◌++◌, Option, none, some}
use cpcbm.Base.Real.{Real}
use cpcbm.GCode.Execute.{World, Run, Call, reset_coord}
use cpcbm.GCode.{Status, setting_read_fail, Result, completed, Parser, Block}

module _ (real : Real) where
  open real use {R}

  -- The outcome of the loop over the words, if it ends.
  abbrev Ended : Option (Result (Block real)) → Type 0
  Ended none = ⊥
  Ended (some p) = Unit

  -- The execution of a block returns STATUS_OK, or the error of a program end that cannot read the
  -- stored G54 data and has written a zero record in their place.
  abbrev pub EndFails : World real → Run real → Type 0
  EndFails w u =
      (w.check_mode ≡ false)
      × (u.st.modal.program_flow ≡ completed)
      × ((before : List (Call real)) × (u.calls ≡ before ++ (reset_coord real 0 ∷ [])))

  -- How a line can be refused: it has changed nothing; or it has met stored coordinate data that
  -- fail their checksum, and all that has happened is that a zero record was written in their place;
  -- or it has met them at the end of the program.
  abbrev pub Refused : World real → Parser real → Status → Run real → Type 0
  Refused w st e u =
      ((u.st ≡ st) × (u.calls ≡ []))
      ⊎ ((e ≡ setting_read_fail)
          × (((u.st ≡ st) × ((i : ℕ) × (u.calls ≡ reset_coord real i ∷ []))) ⊎ EndFails w u))
