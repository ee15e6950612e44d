-- ===== src/Protocol/Clean.antt =====
-- What a line means once comments, blanks, bytes equal to SERIAL_NO_DATA and the block-delete sign are left out and letters are
-- capitals: the editor's specification, which knows no buffer.
use cpcbm.Base.{
  ℕ, ◌+◌, Bool, true, false, not, ◌&&◌, ◌||◌, List, [], ◌∷◌, ◌++◌, leb, ◌==◌, if◌then◌else◌, ◌≡◌,
}
use cpcbm.Serial.{no_data}
use cpcbm.Protocol.{Comment, no_comment, type_parentheses, type_semicolon, upcase}

-- The comment state after a character that does not end the line.
abbrev pub next_comment : Comment → ℕ → Comment
next_comment no_comment c =
    if c == b'(' then type_parentheses else if c == b';' then type_semicolon else no_comment
next_comment type_parentheses c = if c == b')' then no_comment else type_parentheses
next_comment type_semicolon c = type_semicolon

-- What a character outside comments adds to the line.
abbrev pub is_ordinary : ℕ → Bool
is_ordinary c =
    not (c == no_data)
    && leb (b' ' + 1) c
    && (if c == b'/' then false else if c == b'(' then false else if c == b';' then false else true)

abbrev pub kept : Comment → ℕ → List ℕ
kept no_comment c = if is_ordinary c then upcase c ∷ [] else []
kept type_parentheses c = []
kept type_semicolon c = []

abbrev pub clean_from : Comment → List ℕ → List ℕ
clean_from k [] = []
clean_from k (c ∷ cs) = kept k c ++ clean_from (next_comment k c) cs

abbrev pub comment_after : Comment → List ℕ → Comment
comment_after k [] = k
comment_after k (c ∷ cs) = comment_after (next_comment k c) cs

abbrev pub clean : List ℕ → List ℕ
clean = clean_from no_comment

-- No character ends the line.
abbrev pub IsOneLine : List ℕ → Type 0
IsOneLine [] = Unit
IsOneLine (c ∷ cs) = ((c == b'\n' || c == b'\r') ≡ false) × IsOneLine cs
