-- ===== src/Lib.antt =====
-- A model of the SDK's data path, its edge connections and its posture checks, with the properties
-- that make them correct.
--
-- The program. An Xgress (xgress/xgress.go) stands between a connection of an application and a
-- circuit. Its Write splits a buffer into chunks that fit the MTU and gives each a sequence; the
-- LinkSendBuffer (xgress/link_send_buffer.go) keeps each chunk until it is acknowledged, opens and
-- closes the sender's window and asks the Retransmitter (xgress/retransmitter.go) to send a chunk
-- again. At the other end the LinkReceiveBuffer (xgress/link_receive_buffer.go) puts the chunks in
-- order and acknowledges them, and tx joins them into the payload. xgress/messages.go says how
-- payloads and acknowledgements become messages of the channel library, and xgress/options.go reads
-- the configuration. The WriteAdapter of xgress/xgress.go gives a write its deadline.
--
-- zt/edge/msg_mux.go routes the messages of one channel to its connections. A connection (edgeConn
-- of zt/edge/network/conn.go) is what an application reads and writes. It encrypts what is written
-- and gives it to its Xgress, or sends it as a message itself (zt/edge/conn.go); it queues the
-- messages that the multiplexer gives it until Read takes them. A hosting connection
-- (zt/edge/network/hosting_conn.go) makes a connection for each dial of its service.
-- zt/edge/types.go decides which service a host and a port belong to. zt/edge/posture/cache.go
-- watches the state of the device that the services in use ask for, and
-- zt/edge/posture/submitter.go sends it to the routers and the controller.
--
-- The files.
--   Common: lists, machine words, bits, maps, outcomes and the varints of encoding/binary.
--   Xgress.Channel: what is used of the channel library, as a parameter with its laws.
--   Xgress.Messages: Payload, Acknowledgement and the flag words of xgress/messages.go; Codec has
--     Marshall and the Unmarshall functions.
--   Xgress.Wire: the packet format of xgress/xgress.go; Write has what Write does for one chunk and
--     writeU8ToBytesMap, Read has UnmarshallPacketPayload and readU8ToBytesMap.
--   Xgress.Chunks: Write with its loop, and the loop of tx.
--   Xgress.Receive: LinkReceiveBuffer, PayloadReceived, SendEmptyAck, clearPayloadFromSendBuffer.
--   Xgress.Send: LinkSendBuffer with its handlers; Timers has retransmit, scale, checkForClose.
--   Xgress.Lifecycle: Close, CloseXgToClient, PeerClosed, Unrouted and what they call.
--   Xgress.Retransmitter: popHead, pushTail, delete, acceptRetransmit on a heap of links.
--   Xgress.Options: LoadOptions and DefaultOptions.
--   Xgress.WriteAdapter: WriteAdapter with its timers.
--   Edge.Mux: ConnMuxImpl of zt/edge/msg_mux.go.
--   Edge.Messages: constants and messages of zt/edge/messages.go.
--   Edge.Conn: edgeConn with Read and close; Write has Write, CloseWrite, establishClientCrypto and
--     WriteTraced of zt/edge/conn.go, Accept has AcceptMessage and the handlers of the multiplexer,
--     Content says what bytes a queue of messages holds, Lifecycle what a sequence of calls does.
--   Edge.Hosting: edgeHostConn of zt/edge/network/hosting_conn.go, with setupFlowControl and
--     newConnHandler of zt/edge/network/conn.go.
--   Edge.Intercept: InterceptV1Config, ZitiAddress, DomainName and PortRange of zt/edge/types.go.
--   Edge.Posture: the active queries and GetChangedResponses; Evaluate has Evaluate and
--     SendResponses, View what a receiver of responses knows, Submitter has MultiSubmitter.
--   Xgress.Examples, Edge.Examples: concrete data and tests.
--
-- The model. A byte slice is a list of numbers, a machine word a number below its bound with the
-- wrap-around written out, and an int32 its bit pattern, compared by a biased order. A Go map is a
-- list of entries with distinct keys. Code that can fail returns an Outcome: a value, an error, a
-- panic, or `stuck` where a loop of the model has no fuel left. The calls of one object run one at
-- a time, as under its lock or in its goroutine; Step and Reachable, or a list of calls, give their
-- order. Bounds on what a program can build are hypotheses: a buffer has fewer than 2^63 bytes.
--
-- Fuel. write_loop has two rounds more than the buffer has bytes, since each round but the first
-- takes a byte. GetNextId has two rounds for each sink and two more, since each of its two scans
-- passes a sink with each round. Close calls itself once, and the inner call returns at once.
-- split_parts has a round for each byte of the body, since a part takes two bytes at least.
--
-- Parameters. The channel library's header codec, the B-tree, the concurrent maps, float64,
-- time.ParseDuration, the secret stream, the text syntax of IP addresses, strings.ToLower and the
-- names of the posture checks are parameters with the documented behaviour that is used of them.
-- Whether a sender, an Xgress or a submitter takes what it is given is a function of it.
--
-- Not modelled: logs, metrics and inspection, goroutines and channels beyond the order of the steps,
-- the dialing of services and the listeners over hosting connections, HTTP, certificates, generated
-- code and examples.
pub mod Common
pub mod Xgress
pub mod Edge
