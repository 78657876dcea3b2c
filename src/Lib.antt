-- ===== src/Lib.antt =====
-- Verification of go-ads, a client library for Beckhoff's ADS protocol in Go.
--
-- The program has these parts. A Session (session.go) owns a state machine (session_fsm.go), a
-- symbol cache (symbols.go, symbol_discovery.go) and the bookkeeping of notifications; it dials a
-- Client. The Client (client.go, transport.go) writes AMS frames (ams.go) to a connection, reads
-- frames off it, hands replies to the requests that wait for them and notification samples to
-- workers. On the Client stand the single requests (cmd_simple.go, cmd_notification.go), the
-- batched ones with their fallbacks and what has been detected of the PLC (cmd_sum.go,
-- capabilities.go). The values of variables are printed and parsed by symbol_codec.go.
--
-- The files:
--
--   Common          shared names; the native numbers, lists measured by them, Boolean tests, the
--                   Result of fallible code; Common/Words for little-endian words, Common/Decimal
--                   for the functions of strconv that are used, Common/Dict for maps, Common/Int64
--                   for comparisons of int64
--   Defs            defs.go and the constants: Code for return codes, Command for commands, Group for
--                   index groups, Mode for transmission modes
--   Ams             ams.go: AmsHeader, encode_ams_header (EncodeAMSHeader), parse_ams_header, the
--                   frame encode_to (encodeTo), parse_net_id (ParseNetID) and net_id_string
--   Fsm             session_fsm.go: the states, the table `allowed`, transition_to, transition_to_once
--                   and the epoch; a run is a list of calls, any interleaving of those of several
--                   goroutines, since each of them holds the lock
--   Client/Wire     the bytes of single requests and responses (cmd_simple.go, cmd_notification.go)
--   Client/Conn     a connection: the capabilities and the rest of the world, with the monad of
--                   requests; `ask` stands for sendRequest, the network and the PLC together
--   Client/Rpc      Read, Write, WriteRead, ReadState, ReadDeviceInfo, AddDeviceNotification and
--                   DeleteDeviceNotification over `ask`
--   Client/ProcessImage  process_image.go: the bytes and bits of the process image
--   Client/Sum      cmd_sum.go: Layout for the bytes, Read (SumRead), Write (SumWrite), Notify
--                   (executeSumCommand, SumAddDeviceNotification, SumDeleteDeviceNotification)
--   Client/Receive  client.go: Stream (decodeNotification), Frames (readFrames), Shards
--                   (notifWorker), Replies (handleReceive, amsReply)
--   Codec           symbol_codec.go: Scalar for the two switches, Bits for ReadBit and WriteBit,
--                   Codec itself for parse and writeToNode of a symbol without children
--   Discovery       symbol_discovery.go: Download (DownloadInChunks)
--   Symbols         symbols.go: Entry for the entries of an uploaded table, Tree for addSymbol,
--                   addOffsetDepth and addChildren, Table for parseUploadSymbolInfoSymbols, Array for
--                   makeArrayChildren, TypeTable for parseUploadSymbolInfoDataTypes
--   Subscriptions   notification_api.go and cmd_notification.go: the bookkeeping of notifications,
--                   Delete for the two deletions, Window for the samples that come before their
--                   subscription is known, Dispatch for the decisions of dispatchSample, Single for
--                   AddSymbolNotification, Batch for AddSymbolNotifications, Orphans for
--                   tryOrphanDelete; Inv and History for sequences of the critical sections of
--                   notifications.lock, Plain for the names in them
--   Session         session.go, session_options.go and the heartbeat in cmd_notification.go: Options
--                   for the options, Backoff for waits, Recovery for the heartbeat's window and
--                   streak, Watch for heartbeatWatch as a step for each tick, Resubscribe for
--                   resubscribeNotifications and recoverDeadSubscriptions, Reload for the limit on
--                   reloads, Stale for stale codes and marks
--   Access          symbol_access.go, batch_result.go, browse.go and getSymbol of symbol_discovery.go:
--                   Cache for the state, with a heap since a caller may hold an entry that was
--                   replaced, Resolve for getSymbol, Read and Write for the four operations,
--                   BatchResult for the error of a batch, Browse for BrowseSymbols; requests go
--                   through Client/Rpc and Client/Sum, values through Codec
--   Router          route.go and identify.go: Packet for what their packets share, Route for the
--                   registration of a route, Identify for the identity of a router
--
-- Modules named Laws, and those named for what they prove, hold the theorems; those named Samples and
-- Scenarios apply them at concrete inputs.
--
-- Errors are a data type, Fault: a code that a device answered, a code of the AMS router, a failure
-- of the transport, and the errors that the library makes of malformed input, whose texts are not
-- kept. `errors.As` with a ReturnCode finds the first only. Integers are native naturals; a
-- conversion to a narrower type is a remainder. Logging and the texts of errors are left out.
--
-- strings.ToLower, by which symbolKey makes the keys of symbols, is a parameter, and so is
-- strings.EqualFold; where both are used, a hypothesis says that names of ASCII characters are equal
-- under folding just when their keys are equal, and the names are of such characters: for others the
-- two functions need not agree. The clock is an argument. A Go map that is iterated in any order is a
-- list of its entries, in one order.
--
-- Loops are recursion on lists and on counts. Six have fuel: `digits` has as much as its number,
-- of which it needs one for each digit, read_frames has the length of the bytes, of which each round
-- takes six, download_loop the length of the table, of which each round takes a byte, parse_symbols
-- the length of the bytes, of which each round takes thirty, and so have parse_data_types and the
-- decoding of one type, where each round and each level takes forty-two. add_offset_depth has the
-- depth that addOffsetMaxDepth leaves. The calls of Access count the tries that are left, of which
-- there is one after the first, as in the code.
--
-- Not modelled: cancellation and deadlines, queues that are full (a frame is dropped then),
-- sockets, the session's reconnect loop (session.go), establishHeartbeat (cmd_notification.go),
-- JSON and the values of structs (symbols.go, symbol_codec.go), the loading of whole tables
-- (symbol_discovery.go, but for the download), the UDP exchanges of route.go and identify.go, and
-- the options of addresses, credentials and callbacks (session_options.go).
-- The printing and parsing of floats, times and UTF-16 is a parameter of Codec/Scalar.
pub mod Common
pub mod Defs
pub mod Ams
pub mod Fsm
pub mod Client
pub mod Access
pub mod Codec
pub mod Discovery
pub mod Router
pub mod Session
pub mod Subscriptions
pub mod Symbols
