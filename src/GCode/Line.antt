-- ===== src/GCode/Line.antt =====
-- `gc_execute_line`: parse, check, execute.
pub mod Reject
pub mod Groups
pub mod Position
use cpcbm.Base.{ℕ, List, [], ◌∷◌, Option, none, some}
use cpcbm.Base.Real.{Real}
use cpcbm.GCode.Check.Target.{Located}
use cpcbm.GCode.Check.Whole.{check_block}
use cpcbm.GCode.Execute.{World, Run, reset_coord, execute_block}
use cpcbm.GCode.Parse.{parse_line}
use cpcbm.GCode.{
  Status, setting_read_fail, Result, pass, fail, read_fails, Parser, Block, new_block,
}

module _ (real : Real) where
  unfoldable pub finish_block : World real → Parser real → Result (Located real) → Status × Run real
  finish_block w st (fail e) = (e, record { st = st; calls = [] })
  finish_block w st (read_fails i) =
      (setting_read_fail, record { st = st; calls = reset_coord real i ∷ [] })
  finish_block w st (pass l) = execute_block real w l st

  abbrev pub checked : World real → Parser real → Result (Block real) → Result (Located real)
  checked w st (fail e) = fail e
  checked w st (read_fails i) = read_fails i
  checked w st (pass b) = check_block real (w.read_coord) st b

  -- The status returned, the state left behind, and the calls made. `none` would be a loop over the
  -- words that does not end.
  unfoldable pub gc_execute_line : World real → Parser real → List ℕ → Option (Status × Run real)
  unfolding finish_block
  gc_execute_line w st line = elim (parse_line real (new_block real st) line) [
    | none ↦ none
    | some parsed ↦ some (finish_block w st (checked w st parsed))
  ]
