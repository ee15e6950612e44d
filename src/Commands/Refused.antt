-- ===== src/Commands/Refused.antt =====
-- Every command returns, and one that is refused changes nothing.
use cpcbm.Base.{ℕ, ◌+◌, ◌≡◌, ◌⊎◌, List, Option, none, some}
use cpcbm.Base.Real.{Real}
use cpcbm.Base.Bits.{Bits}
use cpcbm.GCode.{Status, status_ok, setting_read_fail}
use cpcbm.Settings.Outcome.{Outcome as Stores}
use cpcbm.Commands.{Environment, Controller, Answer}
use cpcbm.Commands.Outcome.{Outcome}
use cpcbm.Commands.Execute.{startup_from}

module _ (real : Real) where
  -- Nothing is sent, and nothing has changed but the array of the line; only a line of g-code that
  -- meets bad stored coordinate data may have left something when its status is an error.
  abbrev pub Unchanged : Controller real → Status → Controller real → Type 0
  Unchanged c status t =
      (t.reports ≡ c.reports)
      × (((t.sys ≡ c.sys)
            × (t.machine ≡ c.machine)
            × (t.parser ≡ c.parser)
            × (t.gcode_calls ≡ c.gcode_calls))
          ⊎ (status ≡ setting_read_fail))

  abbrev pub Answered : Controller real → Answer real → Type 0
  Answered c (status, t) = (status ≡ status_ok) ⊎ Unchanged c status t

  abbrev pub Answers : Controller real → Option (Answer real) → Type 0
  Answers c o = Outcome real Answered c o

  module _ (e : Environment real) where
    -- The startup lines are run to their end.
    data Returns : Option (Controller real) → Type 0 where
      returns : {c : Controller real} → Returns (some c)

    abbrev then_from : ℕ → ℕ → Option (Controller real) → Option (Controller real)
    then_from count n o = elim o [ none ↦ none | some t ↦ startup_from real e count (n + 1) t ]
