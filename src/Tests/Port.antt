-- ===== src/Tests/Port.antt =====
-- The serial port on concrete rings.
use cpcbm.Base.{
  ◌+◌, ◌%◌, ◌≡◌, refl, ◌++◌, true, false, [], ◌∷◌, some, arith, length, replicate, set,
  if◌then◌else◌, ◌==◌,
}
use cpcbm.Serial.{
  Serial, rx_buffer_size, no_data, transmit_isr, serial_read, serial_write, transmit, request_reset,
  receive_byte, receive_byte_dma, serial_get_rx_buffer_count, serial_get_tx_buffer_count,
}
use cpcbm.Ring.Count.{next}
use cpcbm.Serial.Inv.{IsValid, tx_contents, rx_contents, transmit_isr-IsValid}
use cpcbm.Serial.Refine.{
  oldest_or, without_oldest, serial_read_refines, receive_byte_refines, receive_byte_dma_refines,
  buffer_counts,
}
use cpcbm.Serial.Stream.{Outcome, IsStored, serial_write-Outcome, serial_write_stores}

-- The byte 7 waits to be sent, round the end of the ring; 65 and 66 wait to be read.
abbrev port : Serial
port = record {
  rx_buffer = 65 ∷ 66 ∷ replicate 1022 0;
  rx_head = 2;
  rx_tail = 0;
  tx_buffer = set (replicate 64 0) 63 7;
  tx_head = 0;
  tx_tail = 63;
  tx_interrupt = true;
}

port-IsValid : IsValid port
port-IsValid = record {
  rx_storage = refl;
  rx_head_in = omega arith;
  rx_tail_in = omega arith;
  tx_storage = refl;
  tx_head_in = omega arith;
  tx_tail_in = omega arith;
  sending = refl;
}

-- 1023 bytes wait to be read.
abbrev full_port : Serial
full_port = record port { rx_head = 1023 }

full_port-IsValid : IsValid full_port
full_port-IsValid = record {
  rx_storage = refl;
  rx_head_in = omega arith;
  rx_tail_in = omega arith;
  tx_storage = refl;
  tx_head_in = omega arith;
  tx_tail_in = omega arith;
  sending = refl;
}

-- 63 bytes wait to be sent.
abbrev busy_port : Serial
busy_port = record port { tx_head = 62 }

busy_port-IsValid : IsValid busy_port
busy_port-IsValid = record {
  rx_storage = refl;
  rx_head_in = omega arith;
  rx_tail_in = omega arith;
  tx_storage = refl;
  tx_head_in = omega arith;
  tx_tail_in = omega arith;
  sending = refl;
}

transmit_isr_test : (transmit_isr port).0 ≡ some 7
unfolding transmit_isr
transmit_isr_test = refl

serial_read_test : (serial_read port).0 ≡ 65
unfolding serial_read
serial_read_test = refl

transmit_isr-IsValid_example : IsValid (transmit_isr port).1
transmit_isr-IsValid_example = transmit_isr-IsValid port-IsValid

serial_read_refines_example :
    ((serial_read port).0 ≡ oldest_or no_data (rx_contents port))
    × (rx_contents (serial_read port).1 ≡ without_oldest (rx_contents port))
    × ((serial_read port).1 ≡ (
        if length (rx_contents port) == 0
        then port
        else record port { rx_tail = next rx_buffer_size port.rx_tail }))
serial_read_refines_example = serial_read_refines port-IsValid

receive_byte_refines_example : rx_contents (receive_byte full_port 9) ≡ (
    if length (rx_contents full_port) + 1 == rx_buffer_size
    then rx_contents full_port
    else rx_contents full_port ++ (9 ∷ []))
receive_byte_refines_example = receive_byte_refines 9 full_port-IsValid

receive_byte_dma_refines_example : rx_contents (receive_byte_dma full_port 9) ≡ (
    if length (rx_contents full_port) + 1 == rx_buffer_size
    then []
    else rx_contents full_port ++ (9 ∷ []))
receive_byte_dma_refines_example = receive_byte_dma_refines 9 full_port-IsValid

buffer_counts_example :
    (serial_get_tx_buffer_count full_port ≡ length (tx_contents full_port))
    × (serial_get_rx_buffer_count full_port ≡ length (rx_contents full_port) % 256)
buffer_counts_example = buffer_counts full_port-IsValid

serial_write-Outcome_example :
    Outcome busy_port 8 (serial_write (request_reset ∷ transmit ∷ []) false busy_port 8)
serial_write-Outcome_example =
    serial_write-Outcome (request_reset ∷ transmit ∷ []) false busy_port 8 busy_port-IsValid

serial_write_stores_example : IsStored (serial_write (transmit ∷ []) false busy_port 8).1
serial_write_stores_example = serial_write_stores [] busy_port 8 busy_port-IsValid
