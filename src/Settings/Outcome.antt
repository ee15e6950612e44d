-- ===== src/Settings/Outcome.antt =====
-- What a `$x=value` command writes, and when it is refused.
use cpcbm.Base.{◌≢◌, ◌⊎◌, ℕ, ◌≡◌, List}
use cpcbm.Base.Real.{Real}
use cpcbm.GCode.{Status, status_ok}
use cpcbm.Flash.{Device}
use cpcbm.Settings.Storage.{write_global_settings}
use cpcbm.Settings.Global.{GlobalSettings, Machine}

module _ (real : Real) where
  open real use {R, decimal, lt}

  -- The memory is as in `m`, or an error is returned and all is as in `m`.
  abbrev Keeps : Machine real → Status × Machine real → Type 0
  Keeps m (code, n) = ((code ≡ status_ok) × (n.memory ≡ m.memory)) ⊎ ((code ≢ status_ok) × (n ≡ m))

  module _ (d : Device) (bytes_of : GlobalSettings real → List ℕ) where
    -- A command is accepted and the new settings are written, or it is refused.
    abbrev pub Outcome : Machine real → Status × Machine real → Type 0
    Outcome m (status, n) =
        ((status ≡ status_ok) × (n.memory ≡ write_global_settings d m.memory (bytes_of n.settings)))
        ⊎ ((status ≢ status_ok) × (n ≡ m))
