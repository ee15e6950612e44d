-- ===== src/Ring/Count.antt =====
-- Steps round a ring of `size` cells, and the number of full cells from the tail to the head.
use cpcbm.Base.{ℕ, ◌+◌, ◌-◌, ◌<◌, ◌≡◌, ◌≢◌, arith, leb, ltb, ◌==◌, if◌then◌else◌}

module _ (size : ℕ) where
  -- `i++; if (i == size) { i = 0; }`
  unfoldable pub next : ℕ → ℕ
  next i = if i + 1 == size then 0 else i + 1

  -- The full cells, as the `..._count` functions of the source compute them.
  unfoldable pub used : ℕ → ℕ → ℕ
  used head tail = if leb tail head then head - tail else size - (tail - head)

  -- The cell `k` steps after cell `i`.
  unfoldable pub adv : ℕ → ℕ → ℕ
  adv i k = if ltb (i + k) size then i + k else i + k - size

  pub next-lt : (i : ℕ) → i < size → next i < size
  unfolding next
  next-lt i h = ground arith

  pub used-lt : (head tail : ℕ) → head < size → tail < size → used head tail < size
  unfolding used
  used-lt head tail h t = ground arith

  pub used_self : (i : ℕ) → used i i ≡ 0
  unfolding used
  used_self i = ground arith

  pub used-eq-zero : (head tail : ℕ) → head < size → tail < size → used head tail ≡ 0 → head ≡ tail
  unfolding used
  used-eq-zero head tail h t e = ground arith

  pub used_full :
      (head tail : ℕ) → head < size → tail < size → next head ≡ tail → used head tail + 1 ≡ size
  unfolding used next
  used_full head tail h t e = ground arith

  pub used-next_head :
      (head tail : ℕ)
      → head < size
      → tail < size
      → next head ≢ tail
      → used (next head) tail ≡ used head tail + 1
  unfolding used next
  used-next_head head tail h t ne = ground arith

  pub used-next_tail :
      (head tail : ℕ)
      → head < size
      → tail < size
      → head ≢ tail
      → used head (next tail) + 1 ≡ used head tail
  unfolding used next
  used-next_tail head tail h t ne = ground arith

  pub adv-zero : (i : ℕ) → i < size → adv i 0 ≡ i
  unfolding adv
  adv-zero i h = ground arith

  pub adv-next : (i k : ℕ) → i < size → k + 1 < size → adv i (k + 1) ≡ adv (next i) k
  unfolding adv next
  adv-next i k h j = ground arith

  pub adv-ne : (i k : ℕ) → i < size → k + 1 < size → adv i (k + 1) ≢ i
  unfolding adv
  adv-ne i k h j = ground arith

  pub adv-used : (head tail : ℕ) → head < size → tail < size → adv tail (used head tail) ≡ head
  unfolding adv used
  adv-used head tail h t = ground arith
