-- ===== src/Lib.antt =====
-- The verification of the chat library of PaperPlane: ChatLib/chat-arch, a peer-to-peer chat in
-- which every node keeps the log of messages of each author it knows (a repository), numbers its
-- own, and exchanges what others miss.
--
-- The program's parts and the files that model them (paths below ChatLib/chat-arch/src):
-- - Models: models.rs and the messages of proto/chat.rs; `from_message` and `into_message` are the
--   two `From`/`Into` conversions.
-- - Messages, Files, Index.Table, Peers: message_database.rs, file_database.rs, index_database.rs
--   and peer_database.rs. A table is the list of its rows in the order of insertion, and a
--   statement does what its SQL text says; `online` is whether the engine answers at all.
-- - Index: indexer.rs; Index.OrderId is its `order_id`. Events: the channel of events.rs.
-- - Node: the state that the objects of one process share. Repository: repository.rs with the
--   counters and the broadcast that it calls. Manager: repository_manager.rs. Requests: the queue.
-- - Sync: sync_engine.rs. Sync.Serve is `handle_request`, Sync.Tasks what the tasks send and do with
--   an answer, Sync.Compare the comparison of states, Sync.Transfer the transfer of files,
--   Sync.Reachable the steps of a node as a relation.
-- - Network: several nodes and the exchanges between them, each the code of both sides; Move is
--   what can happen, a restart included, Network.Consistent the invariant, and Network.Files how a
--   node comes to a file that it needs.
-- - Stream: stream_protocol.rs, frames on a stream of bytes.
-- - Conn: conn.rs, encrypted frames over an inner stream. Conn.Read is `poll_read`, Conn.Write
--   `poll_write`, `poll_flush` and `poll_shutdown`.
-- - Resolver: file_resolver.rs. Resolver is the storage, Resolver.Step the two loops and the timer,
--   Resolver.Download the task of a download (sync_engine.rs).
-- - Handshake: handshake.rs, both sides over a stream. PeerPool: peer_pool.rs, with the addresses and
--   the dialing of dialer.rs. PeerLoop: a connection of peer.rs, its flag and its inbound loop.
--   Server: server.rs, the loop and the task of an accepted socket.
-- - Requests.Workers: the workers of request_queue.rs. Sync.Periodic: the task that the engine's
--   scheduler runs again and again.
-- - AppContext: app_context.rs, with the tables that the `init` of each database creates.
-- - Platform: ChatLib/chat-platform/chat/src/lib.rs. Platform.Txt is the text form of a discovery
--   record, Platform.Record what makes and verifies one, Platform.Chat the calls of the apps and the
--   loop that hands them events; Platform.Map and Platform.Number are the map of texts and the port
--   as a text. Texts are lists of bytes where they are taken apart.
-- - Console: main.rs, the start of the console program and the commands that it reads;
--   Console.Words takes a line apart.
--   ChatBot: ChatLib/chat-bot/src/main.rs, the delegate and the console of the bot, and in
--   ChatBot.Discovery what it does with a service that mDNS has resolved, and the service that it
--   registers.
-- - Tests holds concrete nodes, and each theorem at one of them.
--
-- A method is a function from a state to a result and a state (`Exec`, Prelude.Exec): what was
-- written before an error stays written. Each is one step: what other tasks do in the middle of one
-- is not modelled. A weak handle is a flag that says whether it can be upgraded. Words are bit
-- patterns, with their wrap-around and casts written out (Prelude.Word). Loops are structural
-- recursion on the lists that they run through. The loop of `poll_read` runs on fuel, a number
-- of turns: chunks to arrive and bytes to read are enough, since each turn uses one up, unless the
-- inner stream has ended. Endless loops over a channel are functions that take one step.
--
-- Parameters stand for code that the repository does not hold: prost's codec (`decode`,
-- `MessageEncoding`), the cipher (`Cipher`), the keys, hex and time stamps (`Keys`), the file
-- system (`Disk`), what a download meets outside, the answers of the peers and the folder that it
-- writes to (`Outside`), what comes of a dial, the cryptography of the handshake (`Crypto`, of
-- which `IsSound` is what is relied on), hex and UTF-8 (`Codecs`, `text`), the clock and the keys
-- that are drawn (`Start`), and `null`, what the SQL driver reads from a NULL.
--
-- The decoder of discovery records runs on fuel too, the length of the data, of which every turn
-- takes a byte or more. What happens to a connection, to the server and to the workers of the queue
-- is a list of events in the order in which they happen, whatever that order is.
--
-- Not modelled: sockets, the multiplexer and the connection to the database file, which are calls
-- of third-party code; the mDNS daemon; what is printed, but for replies and the lines
-- about messages; the bindings and the apps.
pub mod Prelude
pub mod Models
pub mod Messages
pub mod Peer
pub mod Events
pub mod Files
pub mod Index
pub mod Peers
pub mod Resolver
pub mod Requests
pub mod Node
pub mod Repository
pub mod Manager
pub mod Sync
pub mod Network
pub mod Stream
pub mod Conn
pub mod Handshake
pub mod PeerPool
pub mod PeerLoop
pub mod Server
pub mod AppContext
pub mod Platform
pub mod ChatBot
pub mod Console
mod Tests
