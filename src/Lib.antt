-- ===== src/Lib.antt =====
-- Verification of the LoRa driver with its networking layer.
--
-- The program has a networking layer (src/packet.c, src/network_data_operations.c,
-- src/rx_packet_handler.c) above a driver for the SX1278 radio. A sender cuts a block of data into
-- packets, sends each as a frame, and waits for its acknowledgement; a receiver parses the frames and
-- feeds them to a handler, which filters duplicates, captures the packets of a transfer, and calls
-- the application at its end.
--
-- The files and the code that they model:
--   Packet       packets, frames, types and descriptions: src/packet.c, include/packet.h
--   NetworkData  fragmentation and reassembly: src/network_data_operations.c
--   RxHandler    the receive handler: src/rx_packet_handler.c, include/rx_packet_handler.h
--   Transfer     a block of data through all of these
--   Link         a sender and a receiver over a link that loses frames: the rounds of `send_burst` on
--                one side, the receive loop and the handler on the other
--   Platform     what is asked of the platform, and its answers: src/spi_port.c, src/logger.c,
--                src/sx127x_timer.c and their headers, include/sx127x_err.h
--   Radio        the driver: Radio/Config is src/sx127x_config.c, Radio/Driver src/sx127x_driver.c,
--                Radio/RxUtils and Radio/RxLoop src/sx127x_rx_utils.c, Radio/Utils
--                src/sx127x_utils.c; Radio/Trace, Kept, Cases, Happened and
--                Rested are shared lemmas
--   Examples     the programs of examples/esp32c3_6: Examples/Spi is the SPI callbacks, which both have,
--                Examples/Burst is burst/main/main.c, Examples/Pingpong is pingpong/main/main.c
--   Prelude      shared names, list and buffer lemmas, bit operations as arithmetic
--
-- A function of the code is a function here of the same name. An unsigned integer of w bits is a
-- native number, with its wrap written out where the code can reach it. A pointer that may be NULL is
-- an Option; a buffer is a list of bytes. State that the code mutates is a record that the function
-- takes and returns, and calls through function pointers are part of the result.
-- A function of the driver takes the state (the globals, the static buffers and the history of the
-- calls to the platform) and returns its result with the state after it. The platform's answers are
-- arbitrary functions of the history, and a theorem says what it asks of them.
-- Loops are recursions on a list or on the rounds left. The waits for an interrupt flag and the
-- receive loop have no bound in the code and take fuel, the number of their rounds: 3002 rounds
-- are enough for each wait of a send. So `none` as a result has two causes: the fuel was used up, or
-- the code wrote over the end of a buffer and the rest of the run is undefined. In the second case the
-- last entry of the history is `overran n` with the number of bytes. Two buffers can be overrun so: the
-- nine bytes for a payload in `packet_description`, and the 64 bytes of `buf` in the ping-pong roles. The receive loop is meant to run for ever, and its theorems hold
-- after any number of rounds.
--
-- A round of the link is one try of `send_packet_ensure_ack` with what the radios do in it: the frame
-- is lost, or the receiver reads another packet instead (that of another station, or the one that the
-- code makes of a damaged frame), or it arrives and its acknowledgement is lost or arrives.
-- ESP-IDF, which the examples call, is a record of functions of the calls so far; the waits of
-- the ping-pong roles take 10002 rounds of fuel.
--
-- Not modelled: the test programs, which run the library on mock callbacks; the output of the examples
-- to the log; and the settings of the pins and the clock in `spi_init`.
pub mod Prelude
pub mod Packet
pub mod NetworkData
pub mod RxHandler
pub mod Transfer
pub mod Link
pub mod Platform
pub mod Radio
pub mod Examples
