-- ===== src/Serial.antt =====
-- common_src/serial.c: the transmit and receive rings of the serial port, the functions of the main
-- program, and the interrupts that fill and drain them.
pub mod Inv
pub mod Refine
pub mod Stream
use cpcbm.Base.{
  ℕ, zero, suc, ◌+◌, ◌-◌, ◌%◌, ◌^◌, Bool, true, false, not, List, [], ◌∷◌, Option, none, some, ltb,
  leb, ◌==◌, if◌then◌else◌, get_or, set,
}
use cpcbm.System.{Sys}
use cpcbm.MotionControl.{mc_reset}

abbrev pub rx_buffer_size : ℕ
rx_buffer_size = 1024

abbrev pub tx_buffer_size : ℕ
tx_buffer_size = 64

-- SERIAL_NO_DATA
abbrev pub no_data : ℕ
no_data = 0xff

-- The file's variables. `tx_interrupt` is the transmit-empty interrupt's enable bit (TXEIE).
pub record Serial : Type 0 where
  pub rx_buffer : List ℕ
  pub rx_head : ℕ
  pub rx_tail : ℕ
  pub tx_buffer : List ℕ
  pub tx_head : ℕ
  pub tx_tail : ℕ
  pub tx_interrupt : Bool

-- `x++; if (x == SIZE) { x = 0; }` on an index of `w` values.
abbrev pub advance : ℕ → ℕ → ℕ → ℕ
advance w size i = let j = (i + 1) % w in if j == size then 0 else j

-- The tail is copied into a byte, and the result is a byte.
unfoldable pub serial_get_rx_buffer_count : Serial → ℕ
serial_get_rx_buffer_count s =
    let rtail = s.rx_tail % 256 in
    if leb rtail s.rx_head
    then (s.rx_head - rtail) % 256
    else (rx_buffer_size - (rtail - s.rx_head)) % 256

unfoldable pub serial_get_tx_buffer_count : Serial → ℕ
serial_get_tx_buffer_count s =
    let ttail = s.tx_tail in
    if leb ttail s.tx_head
    then (s.tx_head - ttail) % 256
    else (tx_buffer_size - (ttail - s.tx_head)) % 256

-- The transmit half of SERIAL_USART_ISR: the byte that it puts on the wire, if it was due.
unfoldable pub transmit_isr : Serial → Option ℕ × Serial
transmit_isr s =
    if s.tx_interrupt
    then (let tail = advance 256 tx_buffer_size s.tx_tail in
        (
          some (get_or s.tx_buffer s.tx_tail 0),
          record s { tx_tail = tail; tx_interrupt = not (tail == s.tx_head) },
        ))
    else (none, s)

-- What can happen between two reads of the loop in `serial_write`.
pub data Tick : Type 0 where
  -- the transmit interrupt
  transmit : Tick
  -- the reset flag is raised
  request_reset : Tick

-- How `serial_write` ends: the byte is stored, the wait is given up for a reset, or it still waits
-- when the ticks run out.
pub data Written : Type 0 where
  stored : Serial → Written
  aborted : Serial → Written
  waiting : Serial → Written

-- The part after the loop.
unfoldable pub store_byte : Serial → ℕ → ℕ → Serial
store_byte s byte next_head = record s {
  tx_buffer = set s.tx_buffer s.tx_head byte;
  tx_head = next_head;
  tx_interrupt = true;
}

-- A byte sent before the rest of the wait.
abbrev pub prepend : Option ℕ → List ℕ × Written → List ℕ × Written
prepend none r = r
prepend (some b) (wire, w) = (b ∷ wire, w)

-- The loop, with what goes out on the wire while it waits.
unfoldable pub write_loop : List Tick → Bool → Serial → ℕ → ℕ → List ℕ × Written
unfolding store_byte transmit_isr
write_loop [] reset s byte next_head =
    if next_head == s.tx_tail
    then (if reset then ([], aborted s) else ([], waiting s))
    else ([], stored (store_byte s byte next_head))
write_loop (request_reset ∷ ts) reset s byte next_head =
    let rest = write_loop ts true s byte next_head in
    if next_head == s.tx_tail
    then (if reset then ([], aborted s) else rest)
    else ([], stored (store_byte s byte next_head))
write_loop (transmit ∷ ts) reset s byte next_head =
    let (sent, s') = transmit_isr s in
    let rest = prepend sent (write_loop ts reset s' byte next_head) in
    if next_head == s.tx_tail
    then (if reset then ([], aborted s) else rest)
    else ([], stored (store_byte s byte next_head))

unfoldable pub serial_write : List Tick → Bool → Serial → ℕ → List ℕ × Written
serial_write ticks reset s byte =
    write_loop ticks reset s byte (advance 256 tx_buffer_size s.tx_head)

unfoldable pub serial_read : Serial → ℕ × Serial
serial_read s = if s.rx_head == s.rx_tail then (no_data, s) else (
  get_or s.rx_buffer s.rx_tail 0,
  record s { rx_tail = advance (2 ^ 32) rx_buffer_size s.rx_tail },
)

unfoldable pub serial_reset_read_buffer : Serial → Serial
serial_reset_read_buffer s = record s { rx_tail = s.rx_head }

-- CMD_*: the characters that the receive interrupts take out of the stream, with what they set.
unfoldable pub realtime_command : ℕ → Sys → Option Sys
realtime_command c s =
    if c == b'?'
    then some (record s { exec = record (s.exec) { status_report = true } })
    else if c == b'~'
    then some (record s { exec = record (s.exec) { cycle_start = true } })
    else if c == b'!'
    then some (record s { exec = record (s.exec) { feed_hold = true } })
    else if c == b'@'
    then some (record s { exec = record (s.exec) { safety_door = true } })
    else if c == 0x18
    then some (mc_reset s)
    else none

-- The default case of SERIAL_USART_ISR's receive half: the byte is dropped if the buffer is full.
unfoldable pub receive_byte : Serial → ℕ → Serial
receive_byte s byte =
    let next_head = advance (2 ^ 32) rx_buffer_size s.rx_head in
    if next_head == s.rx_tail
    then s
    else record s { rx_buffer = set s.rx_buffer s.rx_head byte; rx_head = next_head }

-- The default case of SERIAL_DMA_ISR.
unfoldable pub receive_byte_dma : Serial → ℕ → Serial
receive_byte_dma s byte = record s {
  rx_buffer = set s.rx_buffer s.rx_head byte;
  rx_head = advance (2 ^ 32) rx_buffer_size s.rx_head;
}

-- The receive half of SERIAL_USART_ISR (without USE_RX_DMA), and SERIAL_DMA_ISR.
unfoldable pub receive_isr : Serial × Sys → ℕ → Serial × Sys
receive_isr (s, y) byte = elim (realtime_command byte y) [
  | some y' ↦ (s, y')
  | none ↦ (receive_byte s byte, y)
]

unfoldable pub dma_isr : Serial × Sys → ℕ → Serial × Sys
dma_isr (s, y) byte = elim (realtime_command byte y) [
  | some y' ↦ (s, y')
  | none ↦ (receive_byte_dma s byte, y)
]
