-- ===== src/Base/Bits.antt =====
-- A word of flags, as the source's bit fields: bit `i` is the Boolean at `i`.
use cpcbm.Base.Tests.{◌==◌, if◌then◌else◌}
use Prim.Native.Nat.{ℕ, zero, suc}
use mathlib.Core.Bool.{Bool, true, false, ◌||◌}
use mathlib.Core.List.{List, [], ◌∷◌}

abbrev pub Bits : Type 0
Bits = ℕ → Bool

abbrev pub no_bits : Bits
no_bits i = false

-- `x |= bit(k)`
abbrev pub with_bit : ℕ → Bits → Bits
with_bit k x i = if i == k then true else x i

-- `x &= ~(bit(k) | ...)`
abbrev pub without_bits : List ℕ → Bits → Bits
without_bits [] x i = x i
without_bits (k ∷ ks) x i = if i == k then false else without_bits ks x i

-- `x != 0`, for a word of `n` bits
abbrev pub any_bit : ℕ → Bits → Bool
any_bit zero x = false
any_bit (suc n) x = x n || any_bit n x
