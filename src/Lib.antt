-- ===== src/Lib.antt =====
-- rs-netty: codecs, pipelines, TCP connections and UDP sockets of a network framework.
--
-- The program. A TCP connection (src/transport/tcp/connection.rs) waits for one of four things: bytes,
-- a command of a channel, a shutdown, or its idle timer. Bytes are appended to a buffer, and the codec
-- of the pipeline (a `Decoder` and an `Encoder`, src/codec/mod.rs) is asked for messages until it waits
-- for more. A message goes through the inbound and business stages (src/pipeline) to the handler,
-- which writes into an outbox (src/context/stream.rs); the outbox is drained through the outbound
-- stages and the encoder into a write buffer, and flushed to the socket, when the handler asks for it
-- and when it returns. An error closes the connection with a reason (src/life.rs). A UDP socket
-- (src/transport/udp/socket.rs) does the same with a datagram for each message.
--
-- The files.
--   Common      Boolean tests and lists over native numbers, masks of a byte as arithmetic, integers as
--               bytes, checked arithmetic of a 64-bit `usize`
--   Error       `Error` and `Result` of src/error.rs
--   Utf8        the check of `String::from_utf8`, as an automaton; a `String` is its bytes
--   Codec       src/codec/mod.rs: `Poll` is the result of `decode` with the decoder and the buffer after
--               the call; `IsFraming` the laws of a decoder that may be asked again
--   Codec/Framing   the decoding loop of a reader without a handler (`drain`) and what a further read
--               does (`on_read`); Sent: streams made by an encoder
--   Codec/ByteArray, FixedLength, Line, Delimiter, LengthField, Datagram   the codecs
--               src/codec/byte_array.rs, fixed_length_frame.rs, line.rs, delimiter_based_frame.rs,
--               length_field_based_frame.rs, bytes_datagram.rs and utf8_datagram.rs
--   Codec/Json  the pipeline stages of src/codec/json.rs; the JSON library is a parameter
--   Codec/Http  the chunked bodies of src/codec/http.rs
--   Mqtt        src/codec/mqtt.rs: Types the packets, VarInt the variable byte integers, Reader the
--               slice reader as a state monad, Writer the writes, Property the properties, Connect,
--               Publish, Acks and Subscribe the packets' bodies, Packet `decode_packet` and
--               `encode_packet`, Codec `MqttCodec`, Fuel the fuel of the loops
--   WebSocket   src/codec/websocket.rs: the frames after the handshake; Frame is the frame of RFC 6455,
--               Stream a stream of messages
--   Context     src/context: the outbox of a handler with its commands, and the counters
--   Pipeline    src/traits.rs and src/pipeline/core/pipe.rs: stages and pipes; Runtime and Inbound and
--               Unflushed src/pipeline/stream/runtime.rs; Ledger what should reach the socket, with the
--               laws of a socket and an encoder; Delivery, Flush, Preserve and Counters the proofs
--   Tcp         src/transport/tcp/config.rs, src/life.rs, src/channel/command.rs, and the reasons of
--               failures; Connection `StreamConnectionRuntime`, Life the hooks, Idle the timer; Stream,
--               Reads, Steady, Reasons, Commands, Ends and Returns the proofs
--   Datagram    src/context/datagram.rs; Runtime src/pipeline/datagram/runtime.rs, Socket the loop of
--               src/transport/udp/socket.rs; Delivery, Clean and Size the proofs
--   Examples    the theorems at concrete inputs
--
-- A `RoundTrip` file of Mqtt proves, for each body, which bytes are written (`Writes`) and that a
-- reader in front of these bytes returns the packet (`Reads`, `ReadsAll`).
--
-- State and parameters. A Rust operation on `&mut` state returns the state beside its result. Stages,
-- handlers, codecs of users and the socket are parameters. A stage is a function on its state; a
-- handler is the tree of its polls (`Handling`): the calls of its context in a poll, then a result or
-- the way on from the answers to its flushes. `write_all` returns an error or none and the socket
-- after it; a theorem that speaks of delivered bytes assumes what tokio documents: it sends all of the
-- buffer or fails after a part, and `send_to` sends a datagram whole. A datagram that is larger than
-- the read buffer is cut, as `recv_from` may do. An encoder appends to the buffer. A oneshot channel is
-- a place in a list of answers. The branch that `select!` takes is an event; times are numbers. A JSON
-- library prints and parses; the theorem on it assumes that parsing undoes printing, and that what is
-- printed is UTF-8 without control characters. A handler has finitely many polls, and a write returns.
--
-- Bounds and fuel. `usize` has 64 bits, and a slice is shorter than 2 ^ 64. A frame of a codec in a
-- valid state takes a byte at least, so the loops over a buffer have the fuel of its length and one
-- more. For a decoder that gives frames without end, where the code runs on, the loop of a connection
-- is `stuck`, which is no result of it. The sum of offset and width of a length field is not bounded in
-- the model: it is that of the code as long as it is below 2 ^ 64 (`IsConfigured`). The loops over the
-- items of a packet have the bytes that are left as their fuel. The loops of the variable byte integers
-- run four times when reading, five when writing (a `u32` is below 128 ^ 5) and ten when counting
-- (2 ^ 64 is below 128 ^ 10). A frame that is limited to 2 ^ 63 bytes is what RFC 6455 allows.
--
-- Errors keep the text of the source and the numbers of a limit. Other texts in messages are left out.
--
-- Not modelled: the getters of contexts, log calls, the channels that send the commands, servers and
-- clients, which bind sockets and start tasks; the head of HTTP requests and HTTP responses, the
-- WebSocket handshake with its SHA-1 and base64. Sockets and tasks belong to tokio. The capacity of a
-- buffer (`reserve`) has no effect on its content.
pub mod Common
pub mod Error
pub mod Utf8
pub mod Context
pub mod Codec
pub mod Pipeline
pub mod Tcp
pub mod Datagram
pub mod Mqtt
pub mod WebSocket
pub mod Examples
