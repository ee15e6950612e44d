-- ===== src/Serial/Inv.antt =====
-- The representation invariant of the two rings, and what each of them holds, oldest first.
use cpcbm.Base.{ℕ, ◌^◌, ◌<◌, ◌≡◌, ◌≢◌, not, List, arith, length, length-set, ◌==◌}
use cpcbm.Ring.Count.{next}
use cpcbm.Ring.Contents.{contents}
use cpcbm.Serial.{
  Serial, rx_buffer_size, tx_buffer_size, advance, transmit_isr, store_byte, serial_read,
  serial_reset_read_buffer, receive_byte, receive_byte_dma,
}

abbrev pub tx_contents : Serial → List ℕ
tx_contents s = contents tx_buffer_size 0 s.tx_buffer s.tx_head s.tx_tail

abbrev pub rx_contents : Serial → List ℕ
rx_contents s = contents rx_buffer_size 0 s.rx_buffer s.rx_head s.rx_tail

-- The transmit interrupt is on exactly while there is something to send.
pub record IsValid (s : Serial) : Type 0 where
  pub rx_storage : length s.rx_buffer ≡ rx_buffer_size
  pub rx_head_in : s.rx_head < rx_buffer_size
  pub rx_tail_in : s.rx_tail < rx_buffer_size
  pub tx_storage : length s.tx_buffer ≡ tx_buffer_size
  pub tx_head_in : s.tx_head < tx_buffer_size
  pub tx_tail_in : s.tx_tail < tx_buffer_size
  pub sending : s.tx_interrupt ≡ not (s.tx_head == s.tx_tail)

-- The indices do not wrap as machine words before they wrap round the ring.
pub advance-tx : (i : ℕ) → i < tx_buffer_size → advance 256 tx_buffer_size i ≡ next tx_buffer_size i
unfolding next
advance-tx i h = ground arith

pub advance-rx :
    (i : ℕ) → i < rx_buffer_size → advance (2 ^ 32) rx_buffer_size i ≡ next rx_buffer_size i
unfolding next
advance-rx i h = ground arith

-- The transmit interrupt keeps the invariant.
pub transmit_isr-IsValid : {s : Serial} → IsValid s → IsValid (transmit_isr s).1
unfolding transmit_isr
transmit_isr-IsValid {s} v = ground arith

pub store_byte-IsValid :
    {s : Serial} (byte : ℕ)
    → IsValid s
    → next tx_buffer_size s.tx_head ≢ s.tx_tail
    → IsValid (store_byte s byte (advance 256 tx_buffer_size s.tx_head))
unfolding store_byte next
store_byte-IsValid {s} byte v room = ground (arith, length-set s.tx_buffer s.tx_head byte)

pub serial_read-IsValid : {s : Serial} → IsValid s → IsValid (serial_read s).1
unfolding serial_read
serial_read-IsValid {s} v = ground arith

pub serial_reset_read_buffer-IsValid :
    {s : Serial} → IsValid s → IsValid (serial_reset_read_buffer s)
unfolding serial_reset_read_buffer
serial_reset_read_buffer-IsValid v = ground arith

pub receive_byte-IsValid : {s : Serial} (byte : ℕ) → IsValid s → IsValid (receive_byte s byte)
unfolding receive_byte
receive_byte-IsValid {s} byte v = ground (arith, length-set s.rx_buffer s.rx_head byte)

pub receive_byte_dma-IsValid :
    {s : Serial} (byte : ℕ) → IsValid s → IsValid (receive_byte_dma s byte)
unfolding receive_byte_dma
receive_byte_dma-IsValid {s} byte v = ground (arith, length-set s.rx_buffer s.rx_head byte)
