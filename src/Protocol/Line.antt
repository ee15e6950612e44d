-- ===== src/Protocol/Line.antt =====
-- The editor's buffer holds the cleaned line.
use cpcbm.Base.{
  ℕ, zero, suc, ◌+◌, ◌<◌, ◌≡◌, ◌≢◌, refl, ap, ◌∙◌, true, false, ◌||◌, List, [], ◌∷◌, ◌++◌, Option,
  none, some, arith, length, length-append, length-set, ◌==◌, ==→eq, set, Bool-cases, inl, inr,
}
use mathlib.Core.List.{append_assoc, append-nil}
use cpcbm.Protocol.Clean.{
  next_comment, is_ordinary, kept, clean_from, comment_after, clean, IsOneLine,
}
use cpcbm.Serial.{no_data}
use cpcbm.Protocol.{
  line_buffer_size, Comment, no_comment, type_parentheses, type_semicolon, Editor, Action, execute,
  overflow, c_string, upcase, restart, outside_comment, read_inner, read_char, log_action,
  read_chars,
}

-- The first cells of the buffer hold `text`, which has no zero.
abbrev pub Prefix : List ℕ → List ℕ → Type 0
Prefix [] line = Unit
Prefix (c ∷ cs) [] = ⊥
Prefix (c ∷ cs) (d ∷ ds) = (c ≡ d) × (c ≢ 0) × Prefix cs ds

pub record Holds (e : Editor) (text : List ℕ) : Type 0 where
  pub storage : length e.line ≡ line_buffer_size
  pub counter : e.char_counter ≡ length text
  pub room : length text < line_buffer_size
  pub cells : Prefix text e.line

Prefix-set :
    (text line : List ℕ) (n c : ℕ)
    → n ≡ length text
    → n < length line
    → c ≢ 0
    → Prefix text line
    → Prefix (text ++ (c ∷ [])) (set line n c)
Prefix-set [] [] n c e l nz p = absurd (omega arith)
Prefix-set [] (d ∷ ds) zero c e l nz p = (refl, nz, tt)
Prefix-set [] (d ∷ ds) (suc n) c e l nz p = absurd (omega arith)
Prefix-set (x ∷ text) [] n c e l nz p = absurd p
Prefix-set (x ∷ text) (d ∷ ds) zero c e l nz p = absurd (omega arith)
Prefix-set (x ∷ text) (d ∷ ds) (suc n) c e l nz p =
    (p.0, p.1, Prefix-set text ds n c (omega arith) (omega arith) nz p.2)

c_string-set :
    (text line : List ℕ) (n : ℕ)
    → n ≡ length text
    → n < length line
    → Prefix text line
    → c_string (set line n 0) ≡ text
c_string-set [] [] n e l p = refl
c_string-set [] (d ∷ ds) zero e l p = refl
c_string-set [] (d ∷ ds) (suc n) e l p = absurd (omega arith)
c_string-set (x ∷ text) [] n e l p = absurd p
c_string-set (x ∷ text) (d ∷ ds) zero e l p = absurd (omega arith)
c_string-set (x ∷ text) (d ∷ ds) (suc n) e l p =
    ground (arith, c_string-set text ds n (omega arith) (omega arith) p.2)

-- One character that does not end the line, while there is room for it.
read_inner-Holds :
    (e : Editor) (k : Comment) (text : List ℕ) (c : ℕ)
    → e.comment ≡ k
    → (c == no_data) ≡ false
    → Holds e text
    → length (text ++ kept k c) < line_buffer_size
    → ((read_inner e k c).1 ≡ none)
      × ((read_inner e k c).0.comment ≡ next_comment k c)
      × Holds (read_inner e k c).0 (text ++ kept k c)
unfolding read_inner outside_comment
read_inner-Holds e no_comment text c ek present h r = ground (
  arith,
  append-nil text,
  length-append text (upcase c ∷ []),
  length-set e.line e.char_counter (upcase c),
  Prefix-set text e.line e.char_counter (upcase c),
)
read_inner-Holds e type_parentheses text c ek present h r = ground (arith, append-nil text)
read_inner-Holds e type_semicolon text c ek present h r = ground (arith, append-nil text)

-- The state of the editor after some characters of one line, all of which found room.
pub record Reading (e : Editor) (k : Comment) (text : List ℕ) (out : Editor × List Action)
    : Type 0 where
  pub silent : out.1 ≡ []
  pub comment : out.0.comment ≡ k
  pub holds : Holds out.0 text

read_char_inner :
    (e : Editor) (c : ℕ)
    → (c == no_data) ≡ false
    → (c == b'\n' || c == b'\r') ≡ false
    → read_char e c ≡ read_inner e e.comment c
unfolding read_char
read_char_inner e c present h = rw (present, h)

-- What a round does to an editor that holds `text`.
abbrev Adds : Comment → List ℕ → ℕ → Editor × Option Action → Type 0
Adds k text c out =
    (out.1 ≡ none) × (out.0.comment ≡ next_comment k c) × Holds out.0 (text ++ kept k c)

no_data-Adds :
    (e : Editor) (k : Comment) (text : List ℕ)
    → e.comment ≡ k
    → Holds e text
    → Adds k text no_data (read_char e no_data)
unfolding read_char
no_data-Adds e no_comment text ek h = (refl, ek, rw append-nil h)
no_data-Adds e type_parentheses text ek h = (refl, ek, rw append-nil h)
no_data-Adds e type_semicolon text ek h = (refl, ek, rw append-nil h)

read_char-Adds :
    (e : Editor) (k : Comment) (text : List ℕ) (c : ℕ)
    → e.comment ≡ k
    → (c == b'\n' || c == b'\r') ≡ false
    → Holds e text
    → length (text ++ kept k c) < line_buffer_size
    → Adds k text c (read_char e c)
read_char-Adds e k text c ek o h r = elim (Bool-cases (c == no_data)) [
  | inl present ↦ rw (==→eq c no_data present) (no_data-Adds e k text ek h)
  | inr present ↦
      let same : read_char e c ≡ read_inner e k c =
        read_char_inner e c present o ∙ ap (λ j. read_inner e j c) ek in
      rw same (read_inner-Holds e k text c ek present h r)
]

read_chars-Reading :
    (e : Editor) (k : Comment) (text cs : List ℕ)
    → e.comment ≡ k
    → IsOneLine cs
    → Holds e text
    → length (text ++ clean_from k cs) < line_buffer_size
    → Reading e (comment_after k cs) (text ++ clean_from k cs) (read_chars e cs)
unfolding read_chars
read_chars-Reading e k text [] ek o h r =
    rw append-nil (record { silent = refl; comment = ek; holds = h })
read_chars-Reading e k text (c ∷ cs) ek (o, os) h r =
    let step = read_char-Adds e k text c ek o h short in
    let later =
      read_chars-Reading (read_char e c).0 (next_comment k c) (text ++ kept k c) cs step.1 os step.2
        (rw append_assoc r) in
    rw step.0 (record {
      silent = later.silent;
      comment = later.comment;
      holds = rw append_assoc at later.holds;
    })
  where
    short : length (text ++ kept k c) < line_buffer_size
    short = omega (
      arith,
      length-append (text ++ kept k c) (clean_from (next_comment k c) cs),
      ap length (append_assoc text (kept k c) (clean_from (next_comment k c) cs)),
    )

log_action-append :
    (a : Option Action) (xs ys : List Action) → log_action a (xs ++ ys) ≡ log_action a xs ++ ys
log_action-append none xs ys = refl
log_action-append (some a) xs ys = refl

-- Reading is done in order: what stands behind is read from the state in front of it.
pub read_chars-append :
    (e : Editor) (xs ys : List ℕ)
    → ((read_chars e (xs ++ ys)).0 ≡ (read_chars (read_chars e xs).0 ys).0)
      × ((read_chars e (xs ++ ys)).1 ≡ (read_chars e xs).1 ++ (read_chars (read_chars e xs).0 ys).1)
unfolding read_chars
read_chars-append e [] ys = (refl, refl)
read_chars-append e (x ∷ xs) ys =
    let (state, log) = read_chars-append (read_char e x).0 xs ys in
    (state, ap (log_action (read_char e x).1) log ∙ log_action-append (read_char e x).1 _ _)

-- At the end of a line.
read_chars_newline :
    (e : Editor) (text : List ℕ) (c : ℕ) (rest : List ℕ)
    → (c == b'\n' || c == b'\r') ≡ true
    → Holds e text
    → (out : Editor) × ((read_chars e (c ∷ rest)).1 ≡ execute text ∷ (read_chars out rest).1)
      × (out.comment ≡ no_comment)
      × Holds out []
unfolding read_chars read_char
read_chars_newline e text c rest nl h =
    let present : (c == no_data) ≡ false = ground arith in
    (
      restart (record e { line = set e.line e.char_counter 0 }),
      rw (present, nl, c_string-set text e.line e.char_counter h.counter (omega arith) h.cells),
      refl,
      record {
        storage = length-set e.line e.char_counter 0 ∙ h.storage;
        counter = refl;
        room = omega arith;
        cells = tt;
      },
    )

-- A line whose cleaned text fits the buffer is executed once, as that text, when its newline or
-- carriage return arrives; nothing is reported before, and the editor is then at the start of a
-- line again, outside comments.
pub read_chars_line :
    (e : Editor) (raw : List ℕ) (nl : ℕ) (rest : List ℕ)
    → e.comment ≡ no_comment
    → Holds e []
    → IsOneLine raw
    → (nl == b'\n' || nl == b'\r') ≡ true
    → length (clean raw) < line_buffer_size
    → (out : Editor) × ((read_chars e (raw ++ (nl ∷ rest))).1
        ≡ execute (clean raw) ∷ (read_chars out rest).1)
      × (out.comment ≡ no_comment)
      × Holds out []
read_chars_line e raw nl rest ek h o n fits =
    let r = read_chars-Reading e no_comment [] raw ek o h fits in
    let (out, log, k, h') = read_chars_newline (read_chars e raw).0 (clean raw) nl rest n r.holds in
    (out, (read_chars-append e raw (nl ∷ rest)).1 ∙ rw (r.silent, log), k, h')

overflow_step :
    (e : Editor) (text : List ℕ) (c : ℕ)
    → Holds e text
    → e.comment ≡ no_comment
    → length text + 1 ≡ line_buffer_size
    → is_ordinary c ≡ true
    → read_char e c ≡ (restart e, some overflow)
unfolding read_char read_inner outside_comment
overflow_step e text c h k full ordinary = rw (k, read_inner) (ground arith)

overflow_log :
    (e : Editor) (c : ℕ) (rest : List ℕ)
    → read_char e c ≡ (restart e, some overflow)
    → (read_chars e (c ∷ rest)).1 ≡ overflow ∷ (read_chars (restart e) rest).1
unfolding read_chars
overflow_log e c rest h = rw h

-- A line that is too long: the first character that finds the buffer full is dropped and reported
-- as an overflow, what stood in front of it is discarded, and the rest of the same line is read as
-- a new line.
pub read_chars_overflow :
    (e : Editor) (front : List ℕ) (c : ℕ) (rest : List ℕ)
    → e.comment ≡ no_comment
    → Holds e []
    → IsOneLine front
    → comment_after no_comment front ≡ no_comment
    → length (clean front) + 1 ≡ line_buffer_size
    → is_ordinary c ≡ true
    → (out : Editor) × ((read_chars e (front ++ (c ∷ rest))).1 ≡ overflow ∷ (read_chars out rest).1)
      × (out.comment ≡ no_comment)
      × Holds out []
read_chars_overflow e front c rest ek h o out_of_comment full ordinary =
    let r = read_chars-Reading e no_comment [] front ek o h (omega arith) in
    let e' = (read_chars e front).0 in
    let over =
      overflow_step e' (clean front) c r.holds (r.comment ∙ out_of_comment) full ordinary in
    (
      restart e',
      (read_chars-append e front (c ∷ rest)).1 ∙ rw r.silent (overflow_log e' c rest over),
      refl,
      record { storage = r.holds.storage; counter = refl; room = omega arith; cells = tt },
    )
