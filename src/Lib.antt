-- ===== src/Lib.antt =====
-- A model of the AER receiver firmware, with the theorems that make it correct.
--
-- The program reads address events from a sensor over a 12-wire bus with a 4-phase handshake
-- (README.md). Its parts, and where they are modelled:
--
-- - common/include/aer_cfg.h, the geometry: Cfg.
-- - common/src/aer_codec.c, raw words to payloads and back: Codec. `decode_word` is
--   `aer_decode_word`, `encode_payload` is `aer_encode_payload`.
-- - common/src/ringbuf.c, the ring of raw words: Ringbuf; Fifo is the bounded queue it is compared
--   with. `push` is `ringbuf_u32_push`, and so on. Ringbuf.Spsc takes push and pop apart into their
--   accesses to memory, for a producer and a consumer that interrupt one another.
-- - common/src/aer_burst.c, payloads to events: Burst. `feed` is `aer_burst_feed`.
-- - pico_aer_rx/aer_rx_poll.c, the handshake: RxPoll. `step` is `aer_rx_poll_step`,
--   `service` is `aer_rx_poll_service`.
-- - pico_aer_rx/hal: Hal.Time, Hal.Gpio and Hal.Stdio, with the packets to the host and the log.
--   Hal.Gpio.Sdk is the chip that the calls on the pins are made on, an interface.
-- - pico_aer_rx/pico_aer_rx.c, up to the receiver: Boot, with the wait for the host's terminal, and
--   the main loop: Firmware. One pass reads DATA, performs a handshake where it is nonzero, which
--   pushes the word to the ring, and drains the ring through the decoder into the burst assembler,
--   which calls the callback. Link is the sensor's side of it.
-- - pico_aer_rx/aer_event_sink.c, the callback, and pico_aer_rx/usb_stream.c, which
--   sends packets through Hal.Stdio: EventSink and UsbStream. `on_event` is `aer_event_sink_on_event`,
--   `send_event` is `usb_stream_send_event`. UsbStream.Host is the format that the host reads,
--   UsbStream.Converted what becomes of an event where stdout converts line feeds.
-- - scripts/print_events.py and scripts/view_events.py, the viewers on the host: Viewer. `packets` is
--   what the calls of `FramedStreamReader.read_packet` return, Viewer.Events what the two make of a
--   packet, Viewer.Listen the loop of the first, Viewer.Pump that of the second and Viewer.Draw what
--   it draws.
-- - common/include/aer_types.h and common/include/log.h: Types and LogMacros.
-- - host/aer_tx_model.c, the model of the sensor and its waveform: Waveform and TxModel.
--   `emit_words` is `aer_tx_model_emit_words`.
-- - host/aer_rx_replay.c, the replay of a waveform, the fault injectors and the loader of trace
--   files: Replay. `replay_run` is `aer_rx_replay_run`, `load_file` is `aer_waveform_load_file`. Libc
--   is the part of libc's text input that the loader uses, after the C standard.
--
-- Machine integers are natural numbers with the wrap-around written out. Pointers that may be NULL
-- are options. The bus and the timer are the sequences of values that the code reads from them, and
-- what it writes is a log; a loop that polls recurs on the samples, and the result `none` says that
-- it still polls where the samples end. The drain loop recurs on fuel, the ring's capacity: the
-- ring holds fewer words, and the theorems on the main loop show that the loop returns. In the
-- main loop the calls on the ring follow one another; Ringbuf.Spsc has their interleavings.
-- The loader's loop has the length of the file as its fuel: each round reads at least a byte.
-- The growth loop of the waveform has the needed capacity as its fuel: each round adds to the
-- capacity. The viewers' loops over a payload have its length as their fuel: a round takes four bytes
-- or more.
--
-- The transmitter is no code of the repository: RxPoll.Transmitter is the protocol of README.md
-- section 4 as a relation on logs of what has passed on the bus, and the theorems that assume it have
-- it as a hypothesis on the log; Firmware.Delays has its runs with any delays. Fixture has the data
-- that the examples share. Codec.Vectors and Burst.Scenarios are those of tests.
--
-- Not modelled: the pico SDK and TinyUSB, and of the viewers in scripts the command line, the choice
-- of the serial port and the events of the window. Whether libc's `realloc` succeeds, what the
-- host gets from its `fwrite` and `printf` to stdout, the text that `vsnprintf` forms, whether the SDK finds the host
-- connected, the cycle counter, Python's floats and what the calls of the SDK do to the pins are
-- parameters. stdout is a text stream, on which the SDK converts line feeds unless this is turned
-- off: the theorems on what the host reads are for a stdout that converts them and for one that does
-- not, and take `Plain` bytes, which have no line feed where it does. `pygame.draw.rect` raises an
-- exception for a grey that is not one of 0 to 255, after which `draw` gives `none`.
pub mod Base
pub mod Cfg
pub mod Types
pub mod LogMacros
pub mod Codec
pub mod Fifo
pub mod Ringbuf
pub mod Burst
pub mod Libc
pub mod Link
pub mod Hal
pub mod Fixture
pub mod RxPoll
pub mod Firmware
pub mod Waveform
pub mod TxModel
pub mod Replay
pub mod UsbStream
pub mod Viewer
pub mod EventSink
pub mod Boot
