-- ===== src/Lib.antt =====
-- Models and theorems of the native projection code: the Android Auto byte stream (crate
-- native/projection/argo-projectiond) and the CarPlay building blocks (crate native/carplay). Each
-- definition has the name of the function or the type it models; a byte is a number below 256, a
-- `Vec<u8>` a list of numbers, `Duration` a number of nanoseconds, and a method that changes its
-- object answers the result with the object as it is afterwards. A method that panics, where one
-- can, has an answer of its own.
--
-- Common holds Boolean tests, lists on the native numbers, byte orders, bits, and Common/Stream,
-- the shared theory of decoders that are fed a stream in pieces: a `Framing` is a step function
-- with three laws (an item shortens the buffer, and items and errors do not change when bytes
-- follow), and for each framing reading in pieces gives what reading the whole stream gives. The
-- decoders of four source files fill this interface.
--
-- AaSession: native/projection/argo-projectiond/src/session.rs. AaSession/Frame has `Frame`,
-- `encode_frame` and `FrameDecoder` (`push`, whose loop is `split_loop` and whose rounds are
-- `next_frame`); AaSession/Version has `negotiate_version` over the interface
-- `AndroidAutoTransport`, of which only that a read fits its buffer is asked, and
-- `protocol_minor` of configuration.rs beside it; AaSession/Engine has
-- `AndroidAutoSessionEngine`.
--
-- AaWire: native/projection/argo-projectiond/src/aa_wire.rs, which takes the stream over once TLS
-- is agreed. AaWire/Packets has `PacketDecoder`, AaWire/Messages the reassembly by channel of
-- `Messages`, AaWire/Outbound `encrypted_frames`. The fragments of the `BTreeMap` are an
-- association list.
--
-- AaChannels: native/projection/argo-projectiond/src/aa_channels.rs, the services of a session
-- behind the wire. AaChannels/Proto has `Proto` and `numbers`, AaChannels/Display `DisplayConfig`,
-- AaChannels/Formats the audio formats of configuration.rs, AaChannels/Discovery
-- `discovery_codecs`, AaChannels/State the state of `Channels`, AaChannels/Handle and
-- AaChannels/Streams `Channels::handle`, and AaChannels/Touch `media_key` and `touch`.
-- AaChannels/Steps is a relation of what a message may change and when, for the proofs by cases;
-- AaChannels/Streaming traces content that is handed out back to the messages that led to it, and
-- AaChannels/Delivery goes the other way. The sets and maps are lists; the panic of `touch` is an
-- answer, and sums and differences of 16 bits are those of displays that `validate` accepts.
--
-- Metadata: native/projection/argo-projectiond/src/metadata.rs, what the phone tells of its
-- playback, its battery and itself. Metadata/Wire has the reader `fields`, Metadata/Parse `parse`,
-- Metadata/Snapshot `apply`, Metadata/Snapshot/Message `message`, and Metadata/Artwork the pictures
-- of artwork.rs. Which bytes are valid UTF-8 and what `str::trim` leaves are parameters; the clock
-- and the outcome of writing a file are arguments.
--
-- Configuration: native/projection/argo-projectiond/src/configuration.rs, with
-- `resolve_endpoint`, the display on the wire and `capabilities`.
--
-- DaemonState: native/projection/argo-projectiond/src/daemon_state.rs. DaemonState/Runtime has
-- `ProjectionRuntimeSnapshot`; `snapshot_messages` is split in two: DaemonState/Notices decides
-- which messages are sent, and DaemonState/Encoding writes them. DaemonState/View is a client that
-- follows the notices, and DaemonState/Messages what is sent while the states change.
--
-- Ipc: native/projection/argo-projectiond/src/ipc.rs, the messages between the daemon and its
-- clients. Ipc/Frames has `encode` and `Decoder`, Ipc/Payload `PayloadWriter` and `PayloadReader`
-- (which bytes are valid UTF-8 is a parameter), Ipc/Queue `BoundedQueue`.
--
-- Policy: native/projection/argo-projectiond/src/liveness.rs, `Liveness` without its watchdog; a
-- response is given the field that `numbers` of aa_channels.rs finds in the body.
-- Policy/Failure has failure.rs: `Failure`, `retryable` and the conversions of errors.
--
-- CarPlay/Iap2: native/carplay/src/protocol/iap2.rs. CarPlay/Iap2/Frame has `Frame` and `Decoder`,
-- CarPlay/Iap2/Sync `Synchronization` and CarPlay/Iap2/Window `SendWindow`, the sender of the link
-- with its acknowledgements and retries, on sequence numbers modulo 256.
--
-- CarPlay/Csm: native/carplay/src/protocol/csm.rs, the control messages that the link carries.
-- CarPlay/Csm/Parameters and CarPlay/Csm/Message have the encodings, CarPlay/Csm/Builders
-- the identity and the start of a session, and CarPlay/Csm/Authentication the exchange with the
-- authentication coprocessor.
--
-- CarPlay/Ncm: native/carplay/src/protocol/ncm.rs, the blocks that carry Ethernet frames over USB:
-- `ethernet_frames` and `ntb`.
--
-- CarPlay/UsbMux: native/carplay/src/protocol/usb_mux.rs, the connections that share one USB
-- function: `envelope`, `packet` and `encode`, and CarPlay/UsbMux/Task the task of
-- `UsbMux::start` as a step for each of its events, with what becomes of a write to a pipe.
-- CarPlay/UsbMux/Written counts the payload in the frames written on USB.
--
-- Fuel: the loops over a buffer take at least one byte (`split_loop`, `Stream.read`), four bytes
-- (`decode_loop`) or five (`split_records`) in each round, and are given one unit for each byte;
-- the loops of `negotiate_version` are given one unit for each byte that is missing. The tables of
-- `ethernet_frames` are given 9 units, since a ninth table is refused. A varint has ten groups of
-- seven bits, `numbers` and `fields` refuse the 1025th field, and the segments of a picture are
-- given one unit for each of its bytes.
--
-- Not modelled: sockets, USB, TLS, Bluetooth, D-Bus, GStreamer and the asynchronous tasks around
-- the code above, the wording of diagnostics and log lines,
-- `PayloadReader::f32`, the floating point of touches, and the Dart application.
pub mod Common
pub mod AaSession
pub mod AaWire
pub mod AaChannels
pub mod Metadata
pub mod Configuration
pub mod DaemonState
pub mod Ipc
pub mod Policy
pub mod CarPlay
