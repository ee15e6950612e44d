-- ===== src/GCode/Line/Groups.antt =====
-- The words that step 2 accepts: one command of each modal group, and one value for each letter.
use cpcbm.Base.{
  ℕ, ◌-◌, ◌≡◌, refl, ◌∙◌, ◌⊎◌, inl, inr, Bool, true, false, not, List, [], ◌∷◌, get_or, ◌||◌,
  if◌then◌else◌, leb, arith, Bool-cases, ◌==◌, ◌&&◌,
}
use cpcbm.Base.Bits.{with_bit}
use cpcbm.Base.Real.{Real}
use cpcbm.GCode.Group
use cpcbm.GCode.Words.{
  Commanded, has_command, non_modal_word, motion_word, tool_length_word, distance_word, g_word,
  m_word, claim_group, g_command, m_command,
}
use cpcbm.GCode.Parse.{value_letter, is_unsigned, claim_word, value_word, take_word}
use cpcbm.GCode.{
  Result, pass, fail, read_fails, ◌>>=◌, Block, Status, axis_command_conflict, unsupported_command,
  non_modal, motion_mode,
}

>>=-eq-pass {ℓ κ} :
    {A : Type ℓ} {B : Type κ} (m : Result A) (f : A → Result B) {b : B}
    → (m >>= f) ≡ pass b
    → (a : A) × (m ≡ pass a) × (f a ≡ pass b)
>>=-eq-pass (pass a) f h = (a, refl, h)
>>=-eq-pass (fail e) f h = cc
>>=-eq-pass (read_fails i) f h = cc

abbrev pub is_among : ℕ → List ℕ → Bool
is_among x [] = false
is_among x (y ∷ ys) = x == y || is_among x ys

-- The letters of the value words, in the order of their bits, and those that take no negative value.
abbrev pub value_letters : List ℕ
value_letters =
    b'F' ∷ b'I' ∷ b'J' ∷ b'K' ∷ b'L' ∷ b'N' ∷ b'P' ∷ b'R' ∷ b'S' ∷ b'T' ∷ b'X' ∷ b'Y' ∷ b'Z' ∷ []

abbrev pub unsigned_letters : List ℕ
unsigned_letters = b'F' ∷ b'N' ∷ b'P' ∷ b'T' ∷ b'S' ∷ []

-- The numbers of the G words of a modal group; the group of G91.1 is that of the bit 4.
abbrev pub g_numbers : ℕ → List ℕ
g_numbers k =
    get_or
      ((4 ∷ 10 ∷ 28 ∷ 30 ∷ 53 ∷ 92 ∷ [])
        ∷ (0 ∷ 1 ∷ 2 ∷ 3 ∷ 38 ∷ 80 ∷ [])
        ∷ (17 ∷ 18 ∷ 19 ∷ [])
        ∷ (90 ∷ 91 ∷ [])
        ∷ (91 ∷ [])
        ∷ (93 ∷ 94 ∷ [])
        ∷ (20 ∷ 21 ∷ [])
        ∷ (40 ∷ [])
        ∷ (43 ∷ 49 ∷ [])
        ∷ (54 ∷ 55 ∷ 56 ∷ 57 ∷ 58 ∷ 59 ∷ [])
        ∷ (61 ∷ [])
        ∷ [])
      k []

-- Those of the M words, from the bit of their first group on.
abbrev pub m_numbers : ℕ → List ℕ
m_numbers k =
    get_or ((0 ∷ 1 ∷ 2 ∷ 30 ∷ []) ∷ (3 ∷ 4 ∷ 5 ∷ []) ∷ (8 ∷ 9 ∷ []) ∷ []) (k - Group.m4) []

module _ (real : Real) where
  open real use {R, decimal, lt, trunc_u8}

  -- The group that a pending command claims has the number `i`.
  abbrev InGroup : ℕ → Result (Commanded real) → Type 0
  InGroup i (pass w) = is_among i (g_numbers w.1) ≡ true
  InGroup i (fail e) = Unit
  InGroup i (read_fails j) = Unit

  -- The same, by its cases.
  data IsIn (i : ℕ) : Result (Commanded real) → Type 0 where
    is_in : {r : Result (Commanded real)} → InGroup i r → IsIn i r

  IsIn-InGroup : (i : ℕ) (r : Result (Commanded real)) → IsIn i r → InGroup i r
  IsIn-InGroup i r (is_in h) = h

  choose :
      (i : ℕ) (t : Bool) (x y : Result (Commanded real))
      → (t ≡ true → IsIn i x)
      → (t ≡ false → IsIn i y)
      → IsIn i (if t then x else y)
  choose i true x y p q = p refl
  choose i false x y p q = q refl

  refuses :
      (i : ℕ) (e : Status) (t : Bool) (x : Result (Commanded real))
      → IsIn i x
      → IsIn i (if t then fail e else x)
  refuses i e true x h = is_in tt
  refuses i e false x h = h

  non_modal-InGroup :
      (b : Block real) (i m : ℕ)
      → is_among i (g_numbers Group.g0) ≡ true
      → InGroup i (non_modal_word real b i m)
  unfolding non_modal_word
  non_modal-InGroup b i m h = ground (arith, h)

  motion-InGroup :
      (b : Block real) (i m : ℕ)
      → is_among i (g_numbers Group.g1) ≡ true
      → InGroup i (motion_word real b i m)
  unfolding motion_word
  motion-InGroup b i m h = ground (arith, h)

  tool_length-InGroup :
      (b : Block real) (i m : ℕ)
      → is_among i (g_numbers Group.g8) ≡ true
      → InGroup i (tool_length_word real b i m)
  unfolding tool_length_word
  tool_length-InGroup b i m h = ground (arith, h)

  distance-InGroup :
      (b : Block real) (i m : ℕ)
      → is_among i (g_numbers Group.g3) ≡ true
      → InGroup i (distance_word real b i m)
  unfolding distance_word
  distance-InGroup b i m h = ground (arith, h)

  g_word-IsIn : (b : Block real) (i m : ℕ) → IsIn i (g_word real b i m)
  unfolding g_word
  g_word-IsIn b i m =
      choose i _ _ _
        (λ (a : (i == 10 || i == 28 || i == 30 || i == 92) ≡ true).
          choose i (m == 0) _ _
            (λ _. refuses i axis_command_conflict (has_command b.axis_command) _ (
              is_in (non_modal-InGroup (record b { axis_command = non_modal }) i m (ground arith))))
            (λ _. is_in (non_modal-InGroup b i m (ground arith))))
        (λ _.
          choose i _ _ _
            (λ (a : (i == 4 || i == 53) ≡ true). is_in (non_modal-InGroup b i m (ground arith)))
            (λ _.
              choose i _ _ _
                (λ (a : (leb i 3 || i == 38) ≡ true).
                  refuses i axis_command_conflict (has_command b.axis_command) _ (
                    is_in (
                      motion-InGroup (record b { axis_command = motion_mode }) i m (ground arith))))
                (λ _.
                  choose i _ _ _
                    (λ (a : (i == 80) ≡ true). is_in (motion-InGroup b i m (ground arith)))
                    (λ _.
                      choose i _ _ _ (λ (a : (i == 17) ≡ true). is_in (ground arith))
                        (λ _.
                          choose i _ _ _ (λ (a : (i == 18) ≡ true). is_in (ground arith))
                            (λ _.
                              choose i _ _ _ (λ (a : (i == 19) ≡ true). is_in (ground arith))
                                (λ _.
                                  choose i _ _ _
                                    (λ (a : (i == 90 || i == 91) ≡ true).
                                      is_in (distance-InGroup b i m (ground arith)))
                                    (λ _.
                                      choose i _ _ _
                                        (λ (a : (i == 93) ≡ true). is_in (ground arith))
                                        (λ _.
                                          choose i _ _ _
                                            (λ (a : (i == 94) ≡ true). is_in (ground arith))
                                            (λ _.
                                              choose i _ _ _
                                                (λ (a : (i == 20) ≡ true). is_in (ground arith))
                                                (λ _.
                                                  choose i _ _ _
                                                    (λ (a : (i == 21) ≡ true). is_in (ground arith))
                                                    (λ _.
                                                      choose i _ _ _
                                                        (λ (a : (i == 40) ≡ true).
                                                          is_in (ground arith))
                                                        (λ _.
                                                          choose i _ _ _
                                                            (λ (a : (i == 43 || i == 49) ≡ true).
                                                            is_in (
                                                            tool_length-InGroup b i m
                                                            (ground arith)))
                                                            (λ _.
                                                            choose i _ _ _
                                                            (λ (a : (leb 54 i && leb i 59) ≡ true).
                                                            is_in (ground arith))
                                                            (λ _.
                                                            choose i _ _ _
                                                            (λ (a : (i == 61) ≡ true).
                                                            refuses i unsupported_command
                                                            (not (m == 0)) (pass (b, Group.g13, m))
                                                            (is_in (ground arith)))
                                                            (λ _. is_in tt))))))))))))))))

  m_word-group :
      (b : Block real) (i : ℕ) {w : Block real × ℕ}
      → m_word real b i ≡ pass w
      → is_among i (m_numbers w.1) ≡ true
  unfolding m_word
  m_word-group b i h = ground arith

  value_letter-word :
      (b : Block real) (letter : ℕ) (value : R) (i : ℕ) {w : Block real × ℕ}
      → value_letter real b letter value i ≡ pass w
      → (get_or value_letters w.1 0 ≡ letter)
        × (is_unsigned real w.1 ≡ is_among letter unsigned_letters)
  unfolding value_letter
  value_letter-word b letter value i h = ground arith

  -- The word flags that a step leaves alone.
  abbrev Keeps : Block real → Result (Commanded real) → Type 0
  Keeps b (pass w) = (w.0.command_words ≡ b.command_words) × (w.0.value_words ≡ b.value_words)
  Keeps b (fail e) = Unit
  Keeps b (read_fails i) = Unit

  non_modal_word-Keeps : (b : Block real) (i m : ℕ) → Keeps b (non_modal_word real b i m)
  unfolding non_modal_word
  non_modal_word-Keeps b i m = ground arith

  motion_word-Keeps : (b : Block real) (i m : ℕ) → Keeps b (motion_word real b i m)
  unfolding motion_word
  motion_word-Keeps b i m = ground arith

  tool_length_word-Keeps : (b : Block real) (i m : ℕ) → Keeps b (tool_length_word real b i m)
  unfolding tool_length_word
  tool_length_word-Keeps b i m = ground arith

  distance_word-Keeps : (b : Block real) (i m : ℕ) → Keeps b (distance_word real b i m)
  unfolding distance_word
  distance_word-Keeps b i m = ground arith

  g_word-Keeps : (b : Block real) (i m : ℕ) → Keeps b (g_word real b i m)
  unfolding g_word
  g_word-Keeps b i m = ground arith

  -- Word flags `x` after claiming bit `k`, which was free.
  abbrev pub Claims : (ℕ → Bool) → (ℕ → Bool) → ℕ → Type 0
  Claims x y k = (x k ≡ false) × (y ≡ with_bit k x)

  m_word-keeps :
      (b : Block real) (i : ℕ) {w : Block real × ℕ}
      → m_word real b i ≡ pass w
      → (w.0.command_words ≡ b.command_words) × (w.0.value_words ≡ b.value_words)
  unfolding m_word
  m_word-keeps b i h = ground arith

  claim_group-Claims :
      (b : Block real) (k : ℕ) {b' : Block real}
      → claim_group real b k ≡ pass b'
      → Claims b.command_words b'.command_words k × (b'.value_words ≡ b.value_words)
  unfolding claim_group
  claim_group-Claims b k h = ground arith

  -- The bit `k` of the command words is claimed, that of a group with the number `n`, and the value
  -- words stay.
  abbrev pub ClaimsGroup : (ℕ → List ℕ) → ℕ → Block real → Block real → Type 0
  ClaimsGroup numbers n b b' =
      (k : ℕ) × (is_among n (numbers k) ≡ true)
      × Claims b.command_words b'.command_words k
      × (b'.value_words ≡ b.value_words)

  -- The letter's bit of the value words is claimed, and the command words stay.
  abbrev pub ClaimsWord : ℕ → R → Block real → Block real → Type 0
  ClaimsWord letter value b b' =
      (k : ℕ) × (get_or value_letters k 0 ≡ letter)
      × Claims b.value_words b'.value_words k
      × (b'.command_words ≡ b.command_words)
      × ((is_among letter unsigned_letters && lt value (decimal 0 0)) ≡ false)

  claim_from :
      (b : Block real) (c : Block real) (k : ℕ) (numbers : ℕ → List ℕ) (n : ℕ) {b' : Block real}
      → is_among n (numbers k) ≡ true
      → (c.command_words ≡ b.command_words) × (c.value_words ≡ b.value_words)
      → claim_group real c k ≡ pass b'
      → ClaimsGroup numbers n b b'
  claim_from b c k numbers n member (p, q) h =
      let ((free, new), same) = claim_group-Claims c k h in
      (k, member, (rw (← p) free, rw (← p) new), same ∙ q)

  g_command-ClaimsGroup :
      (b : Block real) (i m : ℕ) {b' : Block real}
      → g_command real b i m ≡ pass b'
      → ClaimsGroup g_numbers i b b'
  unfolding g_command
  g_command-ClaimsGroup b i m h =
      let (w, e, h') = >>=-eq-pass (g_word real b i m) _ h in
      elim (Bool-cases (w.2 == 0)) [
        | inl z ↦
            claim_from b w.0 w.1 g_numbers i
              (rw e at (IsIn-InGroup i (g_word real b i m) (g_word-IsIn b i m)))
              (rw e at (g_word-Keeps b i m)) (rw z at h')
        | inr z ↦ absurd (cc (rw z at h'))
      ]

  m_command-ClaimsGroup :
      (b : Block real) (i m : ℕ) {b' : Block real}
      → m_command real b i m ≡ pass b'
      → ClaimsGroup m_numbers i b b'
  unfolding m_command
  m_command-ClaimsGroup b i m h = elim (Bool-cases (m == 0)) [
    | inl z ↦
        let (w, e, h') = >>=-eq-pass (m_word real b i) _ (rw z at h) in
        claim_from b w.0 w.1 m_numbers i (m_word-group b i e) (m_word-keeps b i e) h'
    | inr z ↦ absurd (cc (rw z at h))
  ]

  value_letter-keeps :
      (b : Block real) (letter : ℕ) (value : R) (i : ℕ) {w : Block real × ℕ}
      → value_letter real b letter value i ≡ pass w
      → (w.0.command_words ≡ b.command_words) × (w.0.value_words ≡ b.value_words)
  unfolding value_letter
  value_letter-keeps b letter value i h = ground arith

  claim_word-lem :
      (b : Block real) (k : ℕ) (value : R) {b' : Block real}
      → claim_word real b k value ≡ pass b'
      → Claims b.value_words b'.value_words k
        × (b'.command_words ≡ b.command_words)
        × ((is_unsigned real k && lt value (decimal 0 0)) ≡ false)
  unfolding claim_word
  claim_word-lem b k value h = ground arith

  value_word-ClaimsWord :
      (b : Block real) (letter : ℕ) (value : R) (i : ℕ) {b' : Block real}
      → value_word real b letter value i ≡ pass b'
      → ClaimsWord letter value b b'
  unfolding value_word
  value_word-ClaimsWord b letter value i h =
      let (w, e, h') = >>=-eq-pass (value_letter real b letter value i) _ h in
      let (p, q) = value_letter-keeps b letter value i e in
      let ((free, new), same, sign) = claim_word-lem w.0 w.1 value h' in
      let (name, unsigned) = value_letter-word b letter value i e in
      (w.1, name, (rw (← q) free, rw (← q) new), same ∙ p, rw (← unsigned) sign)

  -- A word that step 2 accepts is a G or an M word, which claims the modal group of its number, a
  -- group that no earlier word of the line has claimed, and no other, and leaves the value words; or
  -- it is a value word, which claims its own letter, which no earlier word has, leaves the command
  -- words, and is not negative if it is F, N, P, T or S.
  pub take_word-claims :
      (b : Block real) (letter : ℕ) (value : R) {b' : Block real}
      → take_word real b letter value ≡ pass b'
      → (((letter == b'G') ≡ true) × ClaimsGroup g_numbers (trunc_u8 value) b b')
        ⊎ (((letter == b'M') ≡ true) × ClaimsGroup m_numbers (trunc_u8 value) b b')
        ⊎ ClaimsWord letter value b b'
  unfolding take_word
  take_word-claims b letter value h = elim (Bool-cases (letter == b'G')) [
    | inl g ↦ inl (g, g_command-ClaimsGroup b _ _ (rw g at h))
    | inr g ↦ elim (Bool-cases (letter == b'M')) [
      | inl m ↦ inr (inl (m, m_command-ClaimsGroup b _ _ (rw (g, m) at h)))
      | inr m ↦ inr (inr (value_word-ClaimsWord b letter value _ (rw (g, m) at h)))
    ]
  ]
