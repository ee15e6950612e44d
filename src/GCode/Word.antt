-- ===== src/GCode/Word.antt =====
-- WORD_* of common_src/gcode.h: the bits of `value_words`.
use Prim.Native.Nat.{ℕ}

abbrev pub f : ℕ
f = 0

abbrev pub i : ℕ
i = 1

abbrev pub j : ℕ
j = 2

abbrev pub k : ℕ
k = 3

abbrev pub l : ℕ
l = 4

abbrev pub n : ℕ
n = 5

abbrev pub p : ℕ
p = 6

abbrev pub r : ℕ
r = 7

abbrev pub s : ℕ
s = 8

abbrev pub t : ℕ
t = 9

abbrev pub x : ℕ
x = 10

abbrev pub y : ℕ
y = 11

abbrev pub z : ℕ
z = 12
