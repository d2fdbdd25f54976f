-- ===== src/Lib.antt =====
-- rtl-sdr: the network streaming part, in C, and the parts it stands on.
--
-- The program: `rtl_stream` captures samples from a receiver. The USB callback copies each buffer
-- into a ring of slots (src/rtl_ring.c); for each client a thread reads the ring through a cursor of
-- its own, takes its channel out of the capture by a chain of decimating filters (src/rtl_dsp.c), and
-- sends frames over TCP (src/rtl_stream_server.c, src/rtl_stream_proto.c). A client program reads the
-- frames and the events (stream_client/c/client.c).
--
-- The files:
--   Prelude and its children: Boolean tests, lists, C's unsigned integers, memory as bytes, lemmas.
--   Ring.antt: src/rtl_ring.c. `rtlsdr_ring_create` is create, `rtlsdr_ring_write_copy` is write_copy
--     (at a ring: write_ring), `rtlsdr_ring_cursor_now` is cursor_now, `rtlsdr_ring_read_copy` is
--     read_copy (at a ring: read_ring), `rtlsdr_ring_mark_gap` is mark_gap. Each function holds the
--     ring's mutex from its first access to its last, so it is one step. Ring/Log.antt is what a ring
--     promises, a log of messages that keeps the newest; Ring/Refine, Ring/Reader and Ring/Run relate
--     the two, Ring/Delivery is about whole transfers.
--   Wire.antt and Proto.antt: src/rtl_stream_proto.c, byte for byte, with a buffer as a function from
--     positions to bytes. The client has the same put32, put64, get32 and get64.
--   Client.antt: stream_client/c/client.c, the reading functions. A connection is the list of what
--     `recv` will give: chunks of bytes of any size, interruptions, and an end or an error.
--   Client/Request.antt: `send_all` and `rtlsdr_stream_request` (request) of the same file, over the list
--     of what `send` will take.
--   Dsp/Plan.antt: `make_plan` and `rtlsdr_dsp_validate` of src/rtl_dsp.c. Dsp/Plan/Factors, Order and
--     Stages are about the factors and the filters, Sound and Accept about the whole function.
--   Dsp/Filter.antt: the filters of src/rtl_dsp.c. `stage_run`, `stage_fir`, `sat16`, `stage1_next` and
--     `rtlsdr_dsp_process` have their names (process); STAGE1_BLOCK is block, with mix as its body. The
--     five functions `process_t01` to `process_t10` are one, process_loop, with a recursion over the
--     later stages (cascade) for their nested calls. Dsp/Filter/Tick is the filter one sample at a
--     time, Process relates it to the loops by blocks, and Stream is about whole calls.
--   Server.antt and its children: src/rtl_stream_server.c. Server/Publish is `rtlsdr_server_publish`.
--     Server/Socket is `wait_socket`, `rtlsdr_stream_sendv` (sendv) and `receive_request`, over the list of
--     what the clock, `poll`, `sendmsg` and `recv` answer; Socket/Frame joins them with the client's
--     functions. Server/Pool is the array of clients: `accept_client`, the steps of `client_handler`
--     on its slot (worker_check, worker_run, worker_finish), the two critical sections of a round of
--     `reap_clients` (reap_claim, reap_release), `rtlsdr_server_request_stop`,
--     `rtlsdr_server_notify_frequency_change` and the part of `fft_gap` about clients
--     (next_generation), each as a function; Pool/Steps makes them a relation of interleaved steps, with
--     the place of the one thread that accepts and reaps. Server/Handler is `client_current`, the
--     checks of `client_handler` (check_request, whose result worker_check accepts or refuses) and
--     `iq_client_handler`, over what the other threads leave in the shared memory. Server/Spectrum is
--     `rtlsdr_server_process_fft` and `fft_gap`.
--   Adsb.antt: src/rtl_adsb.c, another program over the same receivers: `magnitute`, `preamble`,
--     `single_manchester`, `manchester` and `messages` have their names, and the loops of `manchester` are
--     find and mark. Adsb/Termination, Frames and Magnitude are about the three stages.
--   TcpRing.antt: the ring of src/rtl_tcp.c. `rtlsdr_callback` (callback) is the list of the steps that it
--     makes in the ring: each byte of its `memcpy` (copies) and the two stores of `ring_publish`; callback_step
--     makes one. `send_all` has its name, the loop of `client_send_worker` is send_loop, its check for a
--     slow client catch_up, and both together send_batch. No lock keeps the callback away from a slot
--     that is being sent, so the schedule of a batch (Sending, Piece) says how many steps the callback
--     makes before the length of a slot is read and before each `send` (run_callback). The steps take
--     effect in one order that all threads see. TcpRing/Steps and Callbacks are about what the
--     callback leaves, Rounds and Order about what is sent.
--   R82xx.antt: src/tuner_r82xx.c and include/tuner_r82xx.h, the driver of the R820T and R828D tuners, as
--     functions on the driver's state with the device behind it; a function that fails keeps the state.
--     R82xx/Regs has `shadow_store`, `shadow_equal`, `r82xx_write` (write, its loop write_loop),
--     `r82xx_write_reg`, `r82xx_write_reg_mask`, `r82xx_bitrev` and `r82xx_read`; Mux `r82xx_set_mux`; Pll
--     `r82xx_set_pll` (its bytes: pll_bytes); Gain `r82xx_set_gain` and `r82xx_set_bandwidth`; Setup
--     `r82xx_sysfreq_sel`, `r82xx_set_tv_standard`, `r82xx_standby` and `r82xx_init`; Freq `r82xx_set_freq`.
--     Write is about one write, Synced about all the calls of the driver, Pll/Divider and Pll/Words about
--     the synthesizer, Gain/Choice about the gains and the filters that are chosen.
--   Device.antt: src/librtlsdr.c: the transfers from `rtlsdr_read_array` to `rtlsdr_set_i2c_repeater`,
--     `rtlsdr_set_bias_tee_gpio`, in Device/Fir `rtlsdr_set_fir`, in Device/Rate the arithmetic of
--     `rtlsdr_set_sample_rate`, in Device/Eeprom `rtlsdr_write_eeprom` and `rtlsdr_read_eeprom`.
--     Device/Tuner gives these transfers to the tuner's driver as its dongle.
--
-- Numbers are natural numbers, with the wrap-around of `uint64_t` and `size_t` (8 bytes) written out.
-- A float on the wire is the 32 bits of its representation. The filter cutoffs are fractions.
--
-- Fuel: `drain_loop` has a round for each byte, and reads at least one byte a round. `trial` has a
-- round for each unit of what is to be divided, and its candidate grows each round. `split_loop` has
-- the four rounds that MAX_STAGES leaves. `process_loop` takes a sample each round and has a round more
-- than there are bytes, and so does `fft_loop`. `publish_loop` sends a byte at least each round. In Adsb.antt
-- `mark` moves by two samples each round, `messages_loop` by one at least, and `manchester` has its fuel as
-- an argument. `send_loop` of TcpRing.antt has a round for each slot, and `send_all` there one for
-- each `send`. `write_loop` of
-- R82xx/Regs has a round more than there are bytes, and each round sends at least one where a message
-- has room for one; `find_div` has the seven rounds from a divider of 2 to 128.
--
-- Parameters: the answers of malloc, calloc and pthread_mutex_init (Platform in Ring.antt);
-- the arithmetic of `float` and `double` (Floats in Dsp/Filter.antt, Backend in Server/Spectrum.antt),
-- and the transform of the FFT backend (Backend). The clock and the sockets are lists of answers. The
-- control transfers of libusb are an argument (Usb in Device.antt), and so is what the tuner's driver
-- calls of the device library (Dongle in R82xx.antt).
--
-- Not modelled: rtlsdr_ring_destroy, which frees; connecting in the client; the design
-- of the filter coefficients; the server's spectrum clients and the making of its sockets and
-- mutexes; of the device library the opening and closing, the crystal and frequency corrections and the
-- transfers of samples; `r82xx_xtal_check` and `r82xx_read_gain`, which nothing calls; the other tuners
-- and the other command line tools.
pub mod Prelude
pub mod Ring
pub mod Wire
pub mod Proto
pub mod Client
pub mod Dsp
pub mod Adsb
pub mod Device
pub mod R82xx
pub mod Server
pub mod TcpRing
