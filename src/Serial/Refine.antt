-- ===== src/Serial/Refine.antt =====
-- The rings of the serial port against bounded queues of bytes.
use cpcbm.Base.{
  ℕ, ◌+◌, ◌%◌, ◌≡◌, ◌≢◌, List, [], ◌∷◌, ◌++◌, Option, none, some, arith, length, ◌==◌, ==→eq,
  if◌then◌else◌, inl, inr, Bool-cases, set,
}
use cpcbm.Ring.Count.{next, used, used_full, used-lt, used-next_head}
use cpcbm.Ring.Contents.{length-contents, contents-push, contents-pop, contents_empty}
use cpcbm.Serial.Inv.{IsValid, tx_contents, rx_contents, advance-tx, advance-rx}
use cpcbm.Serial.{
  Serial, rx_buffer_size, tx_buffer_size, no_data, advance, transmit_isr, store_byte, serial_read,
  serial_reset_read_buffer, receive_byte, receive_byte_dma, serial_get_rx_buffer_count,
  serial_get_tx_buffer_count,
}

-- A queue's oldest byte, and the rest.
abbrev pub take_oldest : List ℕ → Option ℕ × List ℕ
take_oldest [] = (none, [])
take_oldest (x ∷ q) = (some x, q)

abbrev pub oldest_or : ℕ → List ℕ → ℕ
oldest_or d [] = d
oldest_or d (x ∷ q) = x

abbrev pub without_oldest : List ℕ → List ℕ
without_oldest [] = []
without_oldest (x ∷ q) = q

-- The transmit interrupt sends the oldest byte that waits, if any, and leaves the rest.
pub transmit_isr_refines :
    {s : Serial}
    → IsValid s
    → ((transmit_isr s).0, tx_contents (transmit_isr s).1) ≡ take_oldest (tx_contents s)
unfolding transmit_isr
transmit_isr_refines {s} v = elim (Bool-cases (s.tx_head == s.tx_tail)) [
  | inl e ↦ ground (
    arith,
    v.sending,
    ==→eq s.tx_head s.tx_tail e,
    contents_empty tx_buffer_size 0 s.tx_buffer s.tx_tail,
  )
  | inr ne ↦ ground (
    arith,
    v.sending,
    advance-tx s.tx_tail v.tx_tail_in,
    contents-pop tx_buffer_size 0 s.tx_buffer s.tx_head s.tx_tail v.tx_head_in v.tx_tail_in
        (ground arith),
  )
]

pub tx_contents-store_byte :
    {s : Serial} (byte : ℕ)
    → IsValid s
    → next tx_buffer_size s.tx_head ≢ s.tx_tail
    → tx_contents (store_byte s byte (advance 256 tx_buffer_size s.tx_head))
      ≡ tx_contents s ++ (byte ∷ [])
unfolding store_byte
tx_contents-store_byte {s} byte v room = rw (advance-tx s.tx_head v.tx_head_in) (
    contents-push tx_buffer_size 0 s.tx_buffer s.tx_head s.tx_tail byte (omega arith) v.tx_head_in
      v.tx_tail_in room)

-- The main program reads the oldest byte received and leaves the rest, or reads SERIAL_NO_DATA if
-- there is none. Nothing but the index `rx_tail` changes, and that only if there is a byte.
pub serial_read_refines :
    {s : Serial}
    → IsValid s
    → ((serial_read s).0 ≡ oldest_or no_data (rx_contents s))
      × (rx_contents (serial_read s).1 ≡ without_oldest (rx_contents s))
      × ((serial_read s).1 ≡ (
          if length (rx_contents s) == 0
          then s
          else record s { rx_tail = next rx_buffer_size s.rx_tail }))
unfolding serial_read
serial_read_refines {s} v = elim (Bool-cases (s.rx_head == s.rx_tail)) [
  | inl e ↦
      ground
        (arith, ==→eq s.rx_head s.rx_tail e, contents_empty rx_buffer_size 0 s.rx_buffer s.rx_tail)
  | inr ne ↦ ground (
    arith,
    advance-rx s.rx_tail v.rx_tail_in,
    contents-pop rx_buffer_size 0 s.rx_buffer s.rx_head s.rx_tail v.rx_head_in v.rx_tail_in
        (ground arith),
  )
]

-- The receive interrupt without DMA appends a byte while fewer than RX_BUFFER_SIZE - 1 wait, and
-- drops it otherwise.
pub receive_byte_refines :
    {s : Serial} (byte : ℕ)
    → IsValid s
    → rx_contents (receive_byte s byte) ≡ (
        if length (rx_contents s) + 1 == rx_buffer_size
        then rx_contents s
        else rx_contents s ++ (byte ∷ []))
unfolding receive_byte
receive_byte_refines {s} byte v = elim (Bool-cases (next rx_buffer_size s.rx_head == s.rx_tail)) [
  | inl e ↦ ground (
    arith,
    advance-rx s.rx_head v.rx_head_in,
    length-contents rx_buffer_size 0 s.rx_buffer s.rx_head s.rx_tail,
    used_full rx_buffer_size s.rx_head s.rx_tail v.rx_head_in v.rx_tail_in (ground arith),
  )
  | inr ne ↦ ground (
    arith,
    advance-rx s.rx_head v.rx_head_in,
    length-contents rx_buffer_size 0 s.rx_buffer s.rx_head s.rx_tail,
    used-next_head rx_buffer_size s.rx_head s.rx_tail v.rx_head_in v.rx_tail_in (ground arith),
    used-lt rx_buffer_size (next rx_buffer_size s.rx_head) s.rx_tail,
    contents-push rx_buffer_size 0 s.rx_buffer s.rx_head s.rx_tail byte (omega arith) v.rx_head_in
        v.rx_tail_in (ground arith),
  )
]

-- The receive interrupt with DMA also appends a byte while fewer than RX_BUFFER_SIZE - 1 wait. When
-- the buffer is full it does not drop the byte: the head meets the tail, and every byte that waits
-- is lost.
pub receive_byte_dma_refines :
    {s : Serial} (byte : ℕ)
    → IsValid s
    → rx_contents (receive_byte_dma s byte)
      ≡ (if length (rx_contents s) + 1 == rx_buffer_size then [] else rx_contents s ++ (byte ∷ []))
unfolding receive_byte_dma
receive_byte_dma_refines {s} byte v =
    elim (Bool-cases (next rx_buffer_size s.rx_head == s.rx_tail)) [
      | inl e ↦ ground (
        arith,
        advance-rx s.rx_head v.rx_head_in,
        length-contents rx_buffer_size 0 s.rx_buffer s.rx_head s.rx_tail,
        used_full rx_buffer_size s.rx_head s.rx_tail v.rx_head_in v.rx_tail_in (ground arith),
        contents_empty rx_buffer_size 0 (set s.rx_buffer s.rx_head byte) s.rx_tail,
      )
      | inr ne ↦ ground (
        arith,
        advance-rx s.rx_head v.rx_head_in,
        length-contents rx_buffer_size 0 s.rx_buffer s.rx_head s.rx_tail,
        used-next_head rx_buffer_size s.rx_head s.rx_tail v.rx_head_in v.rx_tail_in (ground arith),
        used-lt rx_buffer_size (next rx_buffer_size s.rx_head) s.rx_tail,
        contents-push rx_buffer_size 0 s.rx_buffer s.rx_head s.rx_tail byte (omega arith)
            v.rx_head_in v.rx_tail_in (ground arith),
      )
    ]

-- A reset of the read buffer empties it.
pub rx_contents-reset : (s : Serial) → rx_contents (serial_reset_read_buffer s) ≡ []
unfolding serial_reset_read_buffer
rx_contents-reset s = contents_empty rx_buffer_size 0 s.rx_buffer s.rx_head

-- The transmit count is the number of bytes that wait to be sent.
-- The receive count is the number of bytes that wait to be read, modulo 256: the result is a byte,
-- and the buffer holds up to 1023.
pub buffer_counts :
    {s : Serial}
    → IsValid s
    → (serial_get_tx_buffer_count s ≡ length (tx_contents s))
      × (serial_get_rx_buffer_count s ≡ length (rx_contents s) % 256)
unfolding serial_get_tx_buffer_count serial_get_rx_buffer_count used
buffer_counts {s} v = ground (
  arith,
  length-contents tx_buffer_size 0 s.tx_buffer s.tx_head s.tx_tail,
  length-contents rx_buffer_size 0 s.rx_buffer s.rx_head s.rx_tail,
)
