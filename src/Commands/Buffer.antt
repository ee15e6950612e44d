-- ===== src/Commands/Buffer.antt =====
-- The line as an array of characters that ends in a zero.
use cpcbm.Base.{ℕ, zero, suc, ◌+◌, List, [], ◌∷◌, ◌==◌, if◌then◌else◌, get_or, set}
use cpcbm.Settings.Storage.{line_size}

abbrev pub char_at : List ℕ → ℕ → ℕ
char_at line i = get_or line i 0

abbrev pub drop : ℕ → List ℕ → List ℕ
drop zero cs = cs
drop (suc n) [] = []
drop (suc n) (c ∷ cs) = drop n cs

unfoldable pub until_zero : List ℕ → List ℕ
until_zero [] = []
until_zero (c ∷ cs) = let rest = until_zero cs in if c == 0 then [] else c ∷ rest

-- The text from `line[i]` on.
abbrev pub text_from : ℕ → List ℕ → List ℕ
text_from i line = until_zero (drop i line)

-- `do { line[k] = line[from+k]; } while (line[from+k++] != 0)`, with a bound on the rounds.
unfoldable pub copy_down : ℕ → ℕ → ℕ → List ℕ → List ℕ
copy_down zero from k line = line
copy_down (suc fuel) from k line =
    let c = char_at line (from + k) in
    let moved = set line k c in
    let rest = copy_down fuel from (k + 1) moved in if c == 0 then moved else rest

unfoldable pub shift_down : ℕ → List ℕ → List ℕ
unfolding copy_down
shift_down from line = copy_down line_size from 0 line
