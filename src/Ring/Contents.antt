-- ===== src/Ring/Contents.antt =====
-- What a ring holds, oldest first, and what a push and a pop do to it.
use cpcbm.Base.{
  ℕ, zero, suc, ◌≤◌, ◌<◌, ◌≡◌, refl, sym, ap, ap₂, ◌∙◌, ◌≢◌, List, [], ◌∷◌, ◌++◌, arith, length,
  get_or, set, get_or-set_self, get_or-set_ne,
}
use cpcbm.Ring.Count.{
  next, used, adv, next-lt, used-lt, used_self, used-next_head, used-next_tail, adv-zero, adv-next,
  adv-ne, adv-used,
}

module _ {ℓ} {A : Type ℓ} (size : ℕ) (d : A) where
  -- The `n` cells from cell `i` on.
  abbrev pub window : List A → ℕ → ℕ → List A
  window buf i zero = []
  window buf i (suc n) = get_or buf i d ∷ window buf (next size i) n

  abbrev pub contents : List A → ℕ → ℕ → List A
  contents buf head tail = window buf tail (used size head tail)

  pub length-window : (buf : List A) (i n : ℕ) → length (window buf i n) ≡ n
  length-window buf i zero = refl
  length-window buf i (suc n) = ap suc (length-window buf (next size i) n)

  pub length-contents :
      (buf : List A) (head tail : ℕ) → length (contents buf head tail) ≡ used size head tail
  length-contents buf head tail = length-window buf tail (used size head tail)

  -- The cell after a window, seen from the window's second cell.
  adv-shift : (i n : ℕ) → i < size → suc n < size → adv size i (suc n) ≡ adv size (next size i) n
  adv-shift i n hi hn = ap (adv size i) (omega arith) ∙ adv-next size i n hi (omega arith)

  after_apart : (i n j : ℕ) → i < size → suc n < size → j ≡ adv size i (suc n) → j ≢ i
  after_apart i n j hi hn e h =
      adv-ne size i n hi (omega arith) (ap (adv size i) (omega arith) ∙ sym e ∙ h)

  -- Writing to the cell after a window leaves the window.
  window-set_outside :
      (buf : List A) (x : A) (n i j : ℕ)
      → i < size
      → n < size
      → j ≡ adv size i n
      → window (set buf j x) i n ≡ window buf i n
  window-set_outside buf x zero i j hi hn e = refl
  window-set_outside buf x (suc n) i j hi hn e =
      ap₂ ◌∷◌ (get_or-set_ne buf j i x d (after_apart i n j hi hn e)) (
        window-set_outside buf x n (next size i) j (next-lt size i hi) (omega arith)
          (e ∙ adv-shift i n hi hn))

  -- It extends the window by what is written.
  window-set :
      (buf : List A) (x : A) (n i j : ℕ)
      → size ≤ length buf
      → i < size
      → n < size
      → j ≡ adv size i n
      → window (set buf j x) i (suc n) ≡ window buf i n ++ (x ∷ [])
  window-set buf x zero i j hs hi hn e =
      rw (e, adv-zero size i hi) (ap (λ y. y ∷ []) (get_or-set_self buf i x d (omega arith)))
  window-set buf x (suc n) i j hs hi hn e =
      ap₂ ◌∷◌ (get_or-set_ne buf j i x d (after_apart i n j hi hn e)) (
        window-set buf x n (next size i) j hs (next-lt size i hi) (omega arith)
          (e ∙ adv-shift i n hi hn))

  -- A push appends at the end.
  pub contents-push :
      (buf : List A) (head tail : ℕ) (x : A)
      → size ≤ length buf
      → head < size
      → tail < size
      → next size head ≢ tail
      → contents (set buf head x) (next size head) tail ≡ contents buf head tail ++ (x ∷ [])
  contents-push buf head tail x hs hh ht room =
      ap (window (set buf head x) tail) count
      ∙ window-set buf x (used size head tail) tail head hs ht (used-lt size head tail hh ht)
          (sym (adv-used size head tail hh ht))
    where
      count : used size (next size head) tail ≡ suc (used size head tail)
      count = omega (arith, used-next_head size head tail hh ht room)

  -- A pop takes the oldest.
  pub contents-pop :
      (buf : List A) (head tail : ℕ)
      → head < size
      → tail < size
      → head ≢ tail
      → contents buf head tail ≡ get_or buf tail d ∷ contents buf head (next size tail)
  contents-pop buf head tail hh ht ne = ap (window buf tail) count
    where
      count : used size head tail ≡ suc (used size head (next size tail))
      count = omega (arith, used-next_tail size head tail hh ht ne)

  -- Writing to the free cell at the head leaves what the ring holds.
  pub contents-set :
      (buf : List A) (head tail : ℕ) (x : A)
      → head < size
      → tail < size
      → contents (set buf head x) head tail ≡ contents buf head tail
  contents-set buf head tail x hh ht =
      window-set_outside buf x (used size head tail) tail head ht (used-lt size head tail hh ht)
        (sym (adv-used size head tail hh ht))

  pub contents_empty : (buf : List A) (i : ℕ) → contents buf i i ≡ []
  contents_empty buf i = ap (window buf i) (used_self size i)
