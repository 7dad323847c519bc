-- ===== src/Lib.antt =====
-- A verification library for gm-quic, a QUIC implementation in Rust.
--
-- The program is a workspace of crates. `qbase` holds what all others share: the wire formats
-- (variable-length integers, packet numbers, frames), stream and connection identifiers, flow
-- control, and the queue with stable indices. `qrecovery` makes the streams reliable: buffers and
-- state machines for receiving and sending, and the journals of received and sent packets, which
-- are queues of `qbase`. `qcongestion`, `qconnection`, `qinterface` and `gm-quic` pace, assemble
-- and drive connections on top of these. This library models the first two.
--
-- Which file models which part:
--   Prelude     numbers, lists, tests, `Option` as panic, bit operators (shared helpers).
--   Bytes       the crate `bytes`: `Bytes` as a list, its cuts as a record of operations and laws.
--   Wire        the crates `bytes` (BufMut) and `nom`: buffers and parsers as records with laws.
--   VarInt      qbase/src/varint.rs: from_u64, encoding_size, be_varint, put_varint, encode_varint.
--   PacketNumber  qbase/src/packet/number.rs: encode, decode, put_packet_number, take_pn_len.
--   IndexDeque  qbase/src/util/index_deque.rs: the queue as a list and an offset.
--   Sid         qbase/src/sid.rs and its children: identifiers; Sid.Local and Sid.Remote model
--               local_sid.rs and remote_sid.rs, Sid.Concurrency the strategies of handy.rs.
--   SentJournal  qrecovery/src/journal/sent.rs: SentPktState, SentJournal, NewPacketGuard; Packets is
--               the view of the journal as packets with their frames, Reach its runs, and Safety
--               is about all of these.
--   Flow        qbase/src/flow.rs: SendControler with its credits, RecvController, FlowController.
--   Recver      qrecovery/src/recv/recver.rs, incoming.rs, reader.rs: the states of a receiving
--               stream over the receive buffer, and their calls; Life is about these in any order, and
--               Past about what the reader got in the course of them.
--   Ack         qbase/src/frame/ack.rs: the ACK frame, its writer and sizes; Ack.Parse is its parser.
--   SendBuf     qrecovery/src/send/sndbuf.rs: Map, Marks and Pick are BufMap, Buffer is SendBuf, and
--               Pack is the u64 of a state, which is a record in the others. The other files are
--               about the color that the states give to each byte. Offsets do not overflow; `pick`
--               is for a predicate that allows at least one byte.
--   RcvdJournal  qrecovery/src/journal/rcvd.rs: RcvdJournal; Generate makes its ACK frames.
--   RecvBuf     qrecovery/src/recv/rcvbuf.rs: RecvBuf with recv, try_read, available.
--
-- How code becomes definitions. A method that takes `&mut self` returns the new state beside its
-- result. A panic (a failed assertion, `unwrap` or `unreachable!`) is `none` of `Option`, or a
-- constructor of its own in a parser's result. Numbers are natural numbers; where a `u64` or `u32`
-- operation can leave its range, the wrap or the panic is written out. `Arc<Mutex<_>>` wrappers
-- hold one state that each call locks whole, so a call is one step on the state they guard. Frames
-- that are sent to a broker are lists in the state, oldest first; calls of wakers are
-- lists or counts. Log and qlog events are left out: they change no state. Crates that are not in
-- the repository are records of operations with laws, given as arguments; each has an instance that
-- meets the laws.
--
-- Fuel. The loop of `recv` has a round of fuel for each byte of the fragment; each round takes a
-- byte at least. The iterator of `NeedCreate` has a round for each identifier that it may yield.
-- The parser of the ACK frame has a round for each range that the frame announces. The iterators of
-- `fast_retransmit` and of the ACK frame are run to their end.
--
-- Not modelled: the states of a sending stream, the other frames and packet headers, connection
-- identifiers and transport parameters; congestion control, path management, cryptography
-- and TLS, sockets and async plumbing, event logging, the builder and configuration layers, and the
-- HTTP/3 adapter.
pub mod Prelude
pub mod Wire
pub mod VarInt
pub mod PacketNumber
pub mod Bytes
pub mod RecvBuf
pub mod Sid
pub mod IndexDeque
pub mod SentJournal
pub mod Flow
pub mod Recver
pub mod SendBuf
pub mod RcvdJournal
pub mod Ack
