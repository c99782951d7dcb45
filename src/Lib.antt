-- ===== src/Lib.antt =====
-- Deskhub lets a viewer see, hear and steer the computer of a host. This development models the part
-- of it that both sides must agree on, the format of their messages, and the part that turns the
-- packets of a stream, which are lost and overtake each other, into pictures.
--
-- The parts and the files
--
-- core/src/protocol/Wire.cpp with core/include/deskhub/protocol/Wire.h writes and reads messages. A
-- message is a datagram: eight header bytes (version, type, flags, channel, session) and a payload.
-- Protocol/Wire.antt has the header: WriteCommon is `write_common`, ParseCommonHeader is
-- `parse_common_header`, PayloadOf is `payload_of`. Its children have the messages, for each a
-- `build_` and a `parse_` function named as in the source: Control (Hello to InvalidateRef), Media
-- (video, parity, audio, clipboard), Lists (Nack, input events), Files, Terminal, Identity (sign-in)
-- and Sources (the shared screens). Names has Utf8TruncLen and the filter for received names,
-- and Names/Cutting.antt says of a name where it is cut and which bytes stay.
-- core/include/deskhub/protocol/ByteOrder.h is Protocol/ByteOrder.antt, the numbers of the messages
-- are Protocol/MsgType.antt.
--
-- core/src/protocol/RecordStream.cpp cuts a connection's byte stream back into records, each with its
-- length in front (BuildRecord and ReadRecord of Wire.cpp, Protocol/Record.antt). The state is
-- `RecordStream`: the buffer, the bytes of it that are used up, and the flag of a broken stream. Append,
-- Next, Reset and Compact are `append`, `next`, `reset` and `compact` of Protocol/RecordStream.antt;
-- `feed` is what SessionTransport::OnStream of platform/src/net/SessionTransport.cpp does with a chunk.
-- Spec.antt says what the records of a byte stream are, without any state, and Framing.antt
-- compares the two.
--
-- core/src/transport/Reassembler.cpp is Transport/Reassembler. State.antt has its records and options,
-- Loss.antt Drop and NoteLatePacket (`drop_frame`, `note_late_packet`), Recovery.antt TryRecover
-- (`try_recover`), Intake.antt Slot, Push and PushFec (`slot`, `push`, `push_fec`), Delivery.antt
-- PopReady and PlanNack (`pop_ready`, `plan_nack`). Run.antt takes any sequence of these calls. The
-- parsers of Wire make the packets that Push and PushFec take. The other files below
-- Transport/Reassembler prove what the operations keep.
--
-- core/src/transport/Packetizer.cpp is Transport/Packetizer.antt: SendFrame is `send_frame`, its two
-- loops are `video_loop` and `fec_loop`, and the datagrams given to its callback are a list.
-- Packetizer/Chunks.antt has the chunks of a frame, Rows.antt the parities, Datagrams.antt and
-- Sending.antt what is sent. Transport/Link.antt joins the Packetizer of one end with the
-- Reassembler of the other.
--
-- core/src/input/InputSender.cpp is Input/Sender.antt: Queue is `queue` with the loop `trim`, Flush is
-- `flush` with the loop `flush_loop`, SendRange is `send_range`. core/src/input/InputReceiver.cpp is
-- Input/Receiver.antt: HandlePacket is `handle_packet` with the loop `apply_events`. Sender/Window.antt
-- and Sender/Flushing.antt prove what the sender keeps and sends, Receiver/Once.antt what the receiver
-- applies, and Input/Delivery.antt joins the two.
--
-- core/include/deskhub/media/PcmRing.h is Media/PcmRing.antt: Open, Take, TakeOrSilence and Put are
-- `open_ring`, `take_samples`, `take_or_silence` and `put_samples`. PcmRing/Queue.antt has the queue that
-- the ring stands for, PcmRing/Refinement.antt any sequence of calls of both.
--
-- core/src/auth/PairingTokens.cpp is Auth/PairingTokens.antt: Issue, Consume, Expire and Clear are
-- `issue`, `consume`, `expire` and `clear`. PairingTokens/Matching.antt is about the search without a
-- branch, Kept.antt, Consuming.antt and Once.antt about what the calls keep and how often a token is
-- taken.
--
-- core/src/auth/FailureLimiter.cpp is Auth/FailureLimiter.antt: Allow, RecordFailure and RecordSuccess
-- are `allow`, `record_failure` and `record_success`, and the pointer that the loop of RecordFailure
-- keeps is a place and the entry there. FailureLimiter/Stored.antt is about the entry of a viewer,
-- Blocking.antt about failures in a row.
--
-- core/src/control/BitrateController.cpp is Control/BitrateController.antt: Update is `update`,
-- CommitBitrate is `commit_bitrate`. core/src/control/QualityLadder.cpp is
-- Control/QualityLadder.antt, its Update is `update` too: QualityLadder/Steps.antt is about where the
-- ladder stands, Climbing.antt about when the quality goes up. core/src/session/LinkRecovery.cpp is Session/LinkRecovery.antt:
-- ReconnectDelayUs and KeepaliveIntervalUs are `reconnect_delay_us` and `keepalive_interval_us`.
--
-- Conventions
--
-- Bytes and words are natural numbers; where the source's type wraps, the model writes the remainder
-- out (Base/Words.antt) or a theorem assumes that the value fits its type. A span or a vector is a
-- list. A builder takes the size of the caller's buffer and answers the bytes it would write there.
-- `Answer` of Base/Result.antt has `ok`, `reject` for the source's std::nullopt or 0, and `fault` for
-- an access outside a span, of which the source says nothing. std::map is the sorted list of
-- Base/OrderedMap.antt. Enumerations that are sent as a byte are that byte. A callback of the
-- Reassembler is a value in the list `calls` of its state; the code behind it, which belongs to the
-- client, is taken not to call back into the Reassembler.
--
-- Loops and fuel
--
-- Loops over a span or a count are recursion on the list or the count. `drain` has fuel: a record takes
-- a byte of the buffer at least, so one round more than the buffer's length is enough. `evict` and
-- `pop_loop` have the number of pending frames, of which each round drops one. `strided` has its
-- limit, which each step approaches. `flush_loop` has the number of the events that wait, of which
-- each round sends one at least. `drop_loop` has the number of the samples that wait; one round makes
-- room.
--
-- What is not modelled
--
-- The encoders and devices, the QUIC library, the threads of host and client and the user
-- interfaces: they call the systems, and keep no state of the protocol's. The jitter
-- buffer of the sound, the pacers of the stream, the sign-in's deadlines and transcript, the
-- text of the pairing tokens' file, most of the session logic, the terminal emulation, the QR code and
-- the command line of core/src are parts of the program that this development does not cover.
pub mod Base
pub mod Protocol
pub mod Transport
pub mod Input
pub mod Media
pub mod Auth
pub mod Control
pub mod Session
pub mod Tests
