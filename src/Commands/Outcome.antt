-- ===== src/Commands/Outcome.antt =====
-- How the state after a command stands to the state before it, over the tests of the command.
use cpcbm.Base.{◌≡◌, refl, Bool, true, false, Option, some, if◌then◌else◌}
use cpcbm.Base.Real.{Real}
use cpcbm.Commands.{Controller, Answer}

module _ (real : Real) where
  -- There is an answer, and it stands so to the state before.
  pub data Outcome (P : Controller real → Answer real → Type 0) (c : Controller real)
      : Option (Answer real) → Type 0 where
    answers : {a : Answer real} → P c a → Outcome P c (some a)

  pub if-Outcome :
      {P : Controller real → Answer real → Type 0} {c : Controller real} (b : Bool)
      {x y : Option (Answer real)}
      → Outcome P c x
      → Outcome P c y
      → Outcome P c (if b then x else y)
  if-Outcome true p q = p
  if-Outcome false p q = q

  -- Either branch may use what the test says.
  pub test-Outcome :
      {P : Controller real → Answer real → Type 0} {c : Controller real} (b : Bool)
      {x y : Option (Answer real)}
      → (b ≡ true → Outcome P c x)
      → (b ≡ false → Outcome P c y)
      → Outcome P c (if b then x else y)
  test-Outcome true p q = p refl
  test-Outcome false p q = q refl

  -- Under `some`.
  pub some_if-Outcome :
      {P : Controller real → Answer real → Type 0} {c : Controller real} (b : Bool)
      {x y : Answer real}
      → Outcome P c (some x)
      → Outcome P c (some y)
      → Outcome P c (some (if b then x else y))
  some_if-Outcome true p q = p
  some_if-Outcome false p q = q

  pub some_test-Outcome :
      {P : Controller real → Answer real → Type 0} {c : Controller real} (b : Bool)
      {x y : Answer real}
      → (b ≡ true → Outcome P c (some x))
      → (b ≡ false → Outcome P c (some y))
      → Outcome P c (some (if b then x else y))
  some_test-Outcome true p q = p refl
  some_test-Outcome false p q = q refl
