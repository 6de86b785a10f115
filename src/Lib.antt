-- ===== src/Lib.antt =====
-- streamcode: an RTMP media server. A connection reads what its peer sends into a byte ring. The
-- RTMP decoder takes the handshake and the chunks off the ring, puts messages together and keeps
-- them for the session, and sends its answers as chunks of AMF-encoded messages. The session hands
-- the media packets to a source, which keeps the latest group of pictures and passes each packet to
-- the readers of the stream.
--
-- Prelude: the names shared by all files, Boolean tests, list lemmas, and machine integers.
-- Memory: allocations and `memcpy`. An access outside an allocation is the result `none`, which
--   every caller passes on; so a theorem that gives `some` also says that no such access happens.
-- TBuffer: base/TBuffer.h, the state that the two buffers of base/ inherit.
-- Ring: base/RingBuffer.h and base/RingBuffer.cpp. `resize`, `add_write_pos`, `add_read_pos`,
--   `peek`, `read` and `write` are the methods of that name, `peek8` to `read64` theirs of 1 to 8
--   bytes. Ring.Transfer has `Read` into another buffer, Ring.Vectors `GetReadPos` and
--   `GetWritePos`, Ring.Strings `PeekString` and `ReadString`. Ring.Valid has the representation
--   invariant and the bytes that a ring stands for. Ring.Resize, Ring.Write and Ring.Peek have the
--   operations on these bytes, Ring.Words the word reads, Ring.Queue any run of calls.
-- Drain: base/DrainableBuffer.h and base/DrainableBuffer.cpp.
-- Bytes: the byte order functions of stream/BinaryReader.h, and integers as bytes.
-- Reader: stream/BinaryReader.h and stream/BinaryReader.cpp; the cursor is an offset.
-- Buffer: stream/Buffer.h and stream/Buffer.cpp, the buffer that messages are written to.
-- Amf: stream/AMF.h and stream/AMF.cpp; Amf.Writer and Amf.Reader are stream/AMFWriter.cpp and
--   stream/AMFReader.cpp. Amf.Encoding has the encoding of a value as bytes, Amf.Sorted objects in
--   the order of their keys, Amf.RoundTrip and Amf.Objects what comes back, and Amf.Ends the
--   loop of the reader.
-- Rtmp: stream/RTMP.h and stream/RtmpDecoder.h; from stream/RtmpDecoder.cpp, Rtmp.Send has
--   `SendRtmpProtol`, Rtmp.Messages the other Send functions, and Rtmp.Decode `decode`, with a
--   function for each state of the handshake and for the steps of a chunk. Rtmp.Peer is a
--   peer that reads chunks. Rtmp.Chunks, Rtmp.Short, Rtmp.Receive, Rtmp.Progress, Rtmp.Handshake and
--   Rtmp.Overflow are about what is sent and what is read.
-- Source: stream/MediaPacket.h, stream/GopCache.cpp and stream/RtmpSource.cpp; Source.Registry
--   has the sources by name, and Source.Gop, Source.Relay and Source.Late are about the cache and the
--   readers.
-- Session: stream/RtmpSession.h and stream/RtmpSession.cpp, with a function for each command, for
--   `Run`, `OnRecv` and `ReadFromSource`. Session.Answers is about what it sends (with Rtmp.Answers
--   and Rtmp.Replies), Session.Publish about two sessions, and Session.Nulls about the NULL pointers.
-- Conn: base/TcpConnection.h and base/TcpConnection.cpp, with the error codes, `ReadV` and `WriteV` of
--   base/Socket.h. Conn.Read has `HandleRead` and `HandleEvent`. Conn.Write, Conn.Send, Conn.Reach,
--   Conn.Flush and Conn.Repeat are about what is sent, Conn.Calls and Conn.Receive about what is read.
-- Rtp: stream/RTP.h and stream/RTP.cpp. Rtp.Packets is about each packet, Rtp.RoundTrip about a
--   receiver.
-- Http: stream/HttpRequest.h and stream/HttpRequest.cpp. Http has `ParseLine`, `ParseFirstLine` and
--   `ParseHead`, for a `size_t` of 32 and of 64 bits; Http.Parse has `Parse`, with a function for each
--   status. Http.Strings is about `std::string::find`, Http.Heads and Http.Hang about heads, and
--   Http.Bodies about bodies.
-- Flv: stream/FlvEncoder.h. Flv.RoundTrip is about a reader of its tags.
-- Rtsp: stream/RtspRequest.h and stream/RtspRequest.cpp. Rtsp.Response is stream/RtspResponse.h and
--   stream/HttpResponse.h, Rtsp.Session stream/RtspSession.h and stream/RtspSession.cpp, with a
--   function for each method and the texts that it sends. Rtsp.Requests is about what is read,
--   Rtsp.Answers and Rtsp.Faults about what is sent.
-- FlvReader: `ReadVideoConfig` of stream/AVC.cpp, and `DecodeChunkInternal` of stream/FlvReader.cpp;
--   FlvReader.Files has `DocodeChunk`, `DecodeHead`, `ReadHeader` and `ReadFile`. FlvReader.Configs,
--   FlvReader.Tags and FlvReader.Pieces are about configurations, tags and pieces of a file.
-- HttpFlv: stream/HttpFlvSession.h and stream/HttpFlvSession.cpp. HttpFlv.Streams is about what a
--   player gets.
-- Loop: base/MessageLoop.h and base/MessageLoop.cpp, with the queue of base/BlockingQueue.h and the
--   times of base/TimeTick.h. Loop.Rounds has the rounds of base/EventMessageLoop.cpp and
--   base/DefaultMessageLoop.cpp. Loop.Runs and Loop.Order are about runs, whose steps are the
--   operations in any order, Loop.Waits about waiting, and Loop.Idle about idle tasks.
-- Tests: the theorems at concrete inputs.
--
-- Conventions. `size_t` is 64 bits and `unsigned int` 32, with the wrap-around written out; the
-- machine is little-endian. A new allocation holds indeterminate bytes: the parameter `junk` gives
-- them. What `rand` gives for the handshake is the parameter `random`. Pointers that callers pass
-- are not NULL, and `new` does not fail. A double is its 64 bits, since the code only moves it. What
-- a connection is given to send, and what the callbacks of readers are called on, are kept as lists
-- in their order.
--
-- Bounds. Capacities stay below 2 ^ 62 (2 ^ 60 for runs of calls, which may double them) and the
-- stream buffer below 2 ^ 31 bytes, so that no sum of two lengths wraps. AMF_ReadObject and
-- SendRtmpProtol have as fuel the bytes that are left, since each round takes at least one; `decode`
-- takes its fuel as an argument, and one more than the bytes in the ring is enough. The loop over
-- the fragments of a unit has as fuel the bytes that are left. `HandleRead` takes as an argument how
-- often the system may be asked. The loop over the lines of a head needs one round for each field;
-- `Parse` takes its rounds as an argument. DocodeChunk hands its decoder one round more than there are
-- bytes. DoTask recurs on the list of what other threads push before each look at the queue.
--
-- Not modelled: the other calls of sockets, threads, pollers and files, which are calls of the
-- operating system; the pool of worker threads; the sending rate of a connection, which is in doubles
-- and delayed tasks; the transport streams; mutexes; reentrant callbacks;
-- the move constructor of the stream buffer. What the system answers to a connection, what a file
-- gives, the clock, the top of a `std::priority_queue` and what a task posts are parameters.
pub mod Prelude
pub mod Memory
pub mod TBuffer
pub mod Bytes
pub mod Reader
pub mod Buffer
pub mod Drain
pub mod Amf
pub mod Rtmp
pub mod Source
pub mod Session
pub mod Rtp
pub mod Http
pub mod Flv
pub mod Conn
pub mod Ring
pub mod Loop
pub mod Rtsp
pub mod FlvReader
pub mod HttpFlv
pub mod Tests
