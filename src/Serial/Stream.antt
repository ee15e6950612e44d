-- ===== src/Serial/Stream.antt =====
-- `serial_write` under interrupts: whatever the transmit interrupt does while the main program
-- waits, no byte is lost, doubled or reordered.
use cpcbm.Base.{
  ℕ, ◌≡◌, ◌≢◌, refl, sym, ap, ◌∙◌, Bool, true, false, List, [], ◌∷◌, ◌++◌, Option, none, some,
  arith, ◌==◌, inl, inr, Bool-cases, ◌⊎◌,
}
use cpcbm.Ring.Count.{next}
use cpcbm.Serial.Inv.{IsValid, tx_contents, advance-tx, transmit_isr-IsValid, store_byte-IsValid}
use cpcbm.Serial.Refine.{take_oldest, transmit_isr_refines, tx_contents-store_byte}
use cpcbm.Serial.{
  Serial, tx_buffer_size, advance, transmit_isr, store_byte, Tick, transmit, request_reset, Written,
  stored, aborted, waiting, write_loop, prepend, serial_write,
}

-- The bytes on the wire, followed by those that still wait, are those that waited before, and the
-- new byte if it was stored. The invariant holds in each case.
abbrev pub Outcome : Serial → ℕ → List ℕ × Written → Type 0
Outcome s byte (wire, stored t) = IsValid t × (wire ++ tx_contents t ≡ tx_contents s ++ (byte ∷ []))
Outcome s byte (wire, aborted t) = IsValid t × (wire ++ tx_contents t ≡ tx_contents s)
Outcome s byte (wire, waiting t) = IsValid t × (wire ++ tx_contents t ≡ tx_contents s)

Outcome-prepend-some :
    (s t : Serial) {b : ℕ} (byte : ℕ) (r : List ℕ × Written)
    → tx_contents s ≡ b ∷ tx_contents t
    → Outcome t byte r
    → Outcome s byte (prepend (some b) r)
Outcome-prepend-some s t {b} byte (wire, stored u) e (v, h) = (v, rw e (ap (◌∷◌ b) h))
Outcome-prepend-some s t {b} byte (wire, aborted u) e (v, h) = (v, rw e (ap (◌∷◌ b) h))
Outcome-prepend-some s t {b} byte (wire, waiting u) e (v, h) = (v, rw e (ap (◌∷◌ b) h))

Outcome-prepend-none :
    (s t : Serial) (byte : ℕ) (r : List ℕ × Written)
    → tx_contents s ≡ tx_contents t
    → Outcome t byte r
    → Outcome s byte (prepend none r)
Outcome-prepend-none s t byte (wire, stored u) e (v, h) = (v, rw e h)
Outcome-prepend-none s t byte (wire, aborted u) e (v, h) = (v, rw e h)
Outcome-prepend-none s t byte (wire, waiting u) e (v, h) = (v, rw e h)

-- What the transmit interrupt sends is what it takes off the front.
sent_first :
    (sent : Option ℕ) (q q' : List ℕ)
    → (sent, q') ≡ take_oldest q
    → (sent ≡ none) × (q ≡ q') ⊎ ((b : ℕ) × (sent ≡ some b) × (q ≡ b ∷ q'))
sent_first none [] q' h = inl (refl, ground arith)
sent_first none (x ∷ q) q' h = absurd (ground arith)
sent_first (some b) [] q' h = absurd (ground arith)
sent_first (some b) (x ∷ q) q' h = inr (b, refl, ground arith)

Outcome-transmit :
    (s : Serial) (byte : ℕ) (r : List ℕ × Written)
    → IsValid s
    → Outcome (transmit_isr s).1 byte r
    → Outcome s byte (prepend (transmit_isr s).0 r)
Outcome-transmit s byte r v h =
    elim (sent_first (transmit_isr s).0 (tx_contents s) _ (transmit_isr_refines v)) [
      | inl (e, q) ↦ rw e (Outcome-prepend-none s (transmit_isr s).1 byte r q h)
      | inr (b, e, q) ↦ rw e (Outcome-prepend-some s (transmit_isr s).1 byte r q h)
    ]

tx_head-transmit_isr : (s : Serial) → (transmit_isr s).1.tx_head ≡ s.tx_head
unfolding transmit_isr
tx_head-transmit_isr s = ground arith

Outcome-store :
    (s : Serial) (byte n : ℕ)
    → IsValid s
    → n ≡ advance 256 tx_buffer_size s.tx_head
    → (n == s.tx_tail) ≡ false
    → Outcome s byte ([], stored (store_byte s byte n))
Outcome-store s byte n v e room =
    rw e (store_byte-IsValid byte v apart, tx_contents-store_byte byte v apart)
  where
    apart : next tx_buffer_size s.tx_head ≢ s.tx_tail
    apart h = ground (arith, advance-tx s.tx_head v.tx_head_in)

write_loop-Outcome :
    (ts : List Tick) (reset : Bool) (s : Serial) (byte n : ℕ)
    → IsValid s
    → n ≡ advance 256 tx_buffer_size s.tx_head
    → Outcome s byte (write_loop ts reset s byte n)
unfolding write_loop
write_loop-Outcome [] reset s byte n v e = elim (Bool-cases (n == s.tx_tail)) [
  | inl full ↦ elim (Bool-cases reset) [
    | inl r ↦ rw (full, r) (v, refl)
    | inr r ↦ rw (full, r) (v, refl)
  ]
  | inr room ↦ rw room (Outcome-store s byte n v e room)
]
write_loop-Outcome (request_reset ∷ ts) reset s byte n v e = elim (Bool-cases (n == s.tx_tail)) [
  | inl full ↦ elim (Bool-cases reset) [
    | inl r ↦ rw (full, r) (v, refl)
    | inr r ↦ rw (full, r) (write_loop-Outcome ts true s byte n v e)
  ]
  | inr room ↦ rw room (Outcome-store s byte n v e room)
]
write_loop-Outcome (transmit ∷ ts) reset s byte n v e = elim (Bool-cases (n == s.tx_tail)) [
  | inl full ↦ elim (Bool-cases reset) [
    | inl r ↦ rw (full, r) (v, refl)
    | inr r ↦
        rw (full, r)
          (Outcome-transmit s byte (write_loop ts false (transmit_isr s).1 byte n) v (
            write_loop-Outcome ts false (transmit_isr s).1 byte n (transmit_isr-IsValid v)
              (e ∙ ap (advance 256 tx_buffer_size) (sym (tx_head-transmit_isr s)))))
  ]
  | inr room ↦ rw room (Outcome-store s byte n v e room)
]

-- Whatever the interrupts do while `serial_write` waits, the bytes put on the wire followed by
-- those that still wait are the bytes that waited before, followed by the new byte if it was
-- stored, and without it if the wait was given up for a reset or goes on. The rings stay valid.
pub serial_write-Outcome :
    (ticks : List Tick) (reset : Bool) (s : Serial) (byte : ℕ)
    → IsValid s
    → Outcome s byte (serial_write ticks reset s byte)
unfolding serial_write
serial_write-Outcome ticks reset s byte v = write_loop-Outcome ticks reset s byte _ v refl

abbrev pub IsStored : Written → Type 0
IsStored (stored t) = Unit
IsStored (aborted t) = ⊥
IsStored (waiting t) = ⊥

write_loop_room :
    (ts : List Tick) (reset : Bool) (s : Serial) (byte n : ℕ)
    → (n == s.tx_tail) ≡ false
    → write_loop ts reset s byte n ≡ ([], stored (store_byte s byte n))
unfolding write_loop
write_loop_room [] reset s byte n room = rw room
write_loop_room (transmit ∷ ts) reset s byte n room = rw room
write_loop_room (request_reset ∷ ts) reset s byte n room = rw room

IsStored-prepend : (o : Option ℕ) (r : List ℕ × Written) → IsStored r.1 → IsStored (prepend o r).1
IsStored-prepend none r h = h
IsStored-prepend (some b) r h = h

transmit_isr_room :
    (s : Serial) (n : ℕ)
    → IsValid s
    → n ≡ advance 256 tx_buffer_size s.tx_head
    → (n == s.tx_tail) ≡ true
    → (n == (transmit_isr s).1.tx_tail) ≡ false
unfolding transmit_isr
transmit_isr_room s n v e full = ground (arith, v.sending)

-- `serial_write` waits only for the wire: if no reset is pending at the call and the first thing
-- that happens is the transmit interrupt, the byte is stored, whatever happens after.
pub serial_write_stores :
    (ts : List Tick) (s : Serial) (byte : ℕ)
    → IsValid s
    → IsStored (serial_write (transmit ∷ ts) false s byte).1
unfolding serial_write write_loop
serial_write_stores ts s byte v = elim (Bool-cases (n == s.tx_tail)) [
  | inl full ↦ rw full (
      IsStored-prepend (transmit_isr s).0 _ (
        rw (write_loop_room ts false (transmit_isr s).1 byte n (transmit_isr_room s n v refl full))
          tt))
  | inr room ↦ rw room tt
]
  where
    n : ℕ
    n = advance 256 tx_buffer_size s.tx_head
