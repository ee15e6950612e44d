-- ===== src/Protocol.antt =====
-- common_src/protocol.c: the line editor of `protocol_main_loop`.
pub mod Clean
pub mod Line
pub mod Realtime
use cpcbm.Base.{
  ℕ, zero, suc, ◌+◌, ◌-◌, ◌%◌, Bool, true, false, ◌&&◌, ◌||◌, List, [], ◌∷◌, ◌++◌, Option, none,
  some, ltb, leb, ◌==◌, if◌then◌else◌, get_or, set,
}
use cpcbm.Serial.{no_data}

abbrev pub line_buffer_size : ℕ
line_buffer_size = 80

-- COMMENT_*
pub data Comment : Type 0 where
  no_comment type_parentheses type_semicolon : Comment

-- `line`, and the variables of `protocol_main_loop`.
pub record Editor : Type 0 where
  pub line : List ℕ
  pub char_counter : ℕ
  pub comment : Comment

-- What the loop does with a character beyond updating its variables: it executes a line, or reports
-- STATUS_OVERFLOW.
pub data Action : Type 0 where
  execute : List ℕ → Action
  overflow : Action

-- The zero-terminated string that an array holds.
abbrev pub c_string : List ℕ → List ℕ
c_string [] = []
c_string (c ∷ cs) = if c == 0 then [] else c ∷ c_string cs

abbrev pub upcase : ℕ → ℕ
upcase c = if leb b'a' c && leb c b'z' then c - b'a' + b'A' else c

abbrev pub restart : Editor → Editor
restart e = record e { char_counter = 0; comment = no_comment }

-- `line[char_counter++] = c`
abbrev pub append_char : Editor → ℕ → Editor
append_char e c = record e {
  line = set e.line e.char_counter c;
  char_counter = (e.char_counter + 1) % 256;
}

-- A character inside a comment.
abbrev pub in_comment : Editor → Comment → ℕ → Editor
in_comment e type_parentheses c = if c == b')' then record e { comment = no_comment } else e
in_comment e k c = e

-- A character outside comments.
unfoldable pub outside_comment : Editor → ℕ → Editor × Option Action
outside_comment e c =
    if leb c b' '
    then (e, none)
    else if c == b'/'
    then (e, none)
    else if c == b'('
    then (record e { comment = type_parentheses }, none)
    else if c == b';'
    then (record e { comment = type_semicolon }, none)
    else if leb (line_buffer_size - 1) e.char_counter
    then (restart e, some overflow)
    else (append_char e (upcase c), none)

-- A character that does not end the line.
unfoldable pub read_inner : Editor → Comment → ℕ → Editor × Option Action
unfolding outside_comment
read_inner e no_comment c = outside_comment e c
read_inner e k c = (in_comment e k c, none)

-- One round of the loop over the serial data. A byte that equals SERIAL_NO_DATA ends the loop, and
-- the primary loop begins it again behind that byte.
unfoldable pub read_char : Editor → ℕ → Editor × Option Action
unfolding read_inner
read_char e c =
    if c == no_data
    then (e, none)
    else if c == b'\n' || c == b'\r'
    then (let line = set e.line e.char_counter 0 in
        (restart (record e { line = line }), some (execute (c_string line))))
    else read_inner e e.comment c

abbrev pub log_action : Option Action → List Action → List Action
log_action none log = log
log_action (some a) log = a ∷ log

-- The loop over the characters that are at hand, with what it does, in order.
unfoldable pub read_chars : Editor → List ℕ → Editor × List Action
read_chars e [] = (e, [])
read_chars e (c ∷ cs) =
    let (e', action) = read_char e c in
    let (e'', log) = read_chars e' cs in (e'', log_action action log)
