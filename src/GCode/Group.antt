-- ===== src/GCode/Group.antt =====
-- MODAL_GROUP_* of common_src/gcode.h: the bits of `command_words`.
use Prim.Native.Nat.{ℕ}

abbrev pub g0 : ℕ
g0 = 0

abbrev pub g1 : ℕ
g1 = 1

abbrev pub g2 : ℕ
g2 = 2

abbrev pub g3 : ℕ
g3 = 3

abbrev pub g4 : ℕ
g4 = 4

abbrev pub g5 : ℕ
g5 = 5

abbrev pub g6 : ℕ
g6 = 6

abbrev pub g7 : ℕ
g7 = 7

abbrev pub g8 : ℕ
g8 = 8

abbrev pub g12 : ℕ
g12 = 9

abbrev pub g13 : ℕ
g13 = 10

abbrev pub m4 : ℕ
m4 = 11

abbrev pub m7 : ℕ
m7 = 12

abbrev pub m8 : ℕ
m8 = 13
