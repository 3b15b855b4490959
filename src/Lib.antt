-- ===== src/Lib.antt =====
-- A model of the core of raddi, a node of a distributed discussion network: its identifiers and times,
-- the frames that peers exchange, and the database in which a node stores what it has received.
--
-- How the parts interact. Two nodes that connect exchange proposals, from which each makes the keys of
-- the link. What a node sends is encrypted in frames, which the transmitter hands to the system in order;
-- the receiver cuts the bytes that arrive into frames again. A message that arrives is validated as an entry or as a request. Requests
-- are limited, and tell of other peers and of what a peer has. An entry is looked up in the cache of noticed ids and assessed: it waits for its parent, or
-- is handed to the table that fits it: data, threads, channels or identities; the node then embraces what
-- waited for it. The table chooses a shard by the entry's time, and the shard writes the content and an
-- index row to its two files and keeps the row in a sorted cache. Subscriptions decide who is told, and
-- peer sets hold the addresses that a node connects to.
--
-- The files, and the code they model (paths from the repository's root):
--   Time            core/raddi_timestamp.h, core/raddi_timestamp.cpp: times in 32 bits, with `older`
--   Id, Id/Text     core/raddi_iid.*, core/raddi_eid.*: ids, their order, `serialize` and `parse`
--   Messages/Entry  core/raddi_entry.*, core/raddi_proof.*: `validate`, `proof`, `is_announcement`
--   Messages/Request  core/raddi_request.*: `validate`, the sizes of histories, `decode`
--   Content         core/raddi_content.*: `analyze`; its lambda and its cases are functions in Content/Scan
--                   and Content/Operands; Content/Summary: `summarize` and `is_plain_line`
--   Address, Peers  core/raddi_address.*, core/raddi_database_peerset.*
--   Subscriptions, Noticed  core/raddi_subscriptions.*, core/raddi_noticed.*
--   Db/Row          core/raddi_database_row.h: the four row types, as values of the record `RowOps`;
--                   Db/Row/Laws has the laws that the shard relies on, and that each row type obeys them
--   Db/Cache        the sorted vector of rows of a shard
--   Db/Shard        core/raddi_database_shard.*: the state; Files, Ops, Updates and Split its operations
--   Db/Table        core/raddi_database_table.tcc: where an entry's shard is found or
--                   made, and select with shard::enumerate (none: the vector cleared under the loop)
--   Db/Facade       core/raddi_database.*: `assess`, `insert` and `erase`; the tables are the record `Tables`
--   Detached        core/raddi_detached.*: the cache of entries whose parents have not come yet
--   Subscriptions/Sets  core/raddi_subscription_set.*: the subscriptions of each application
--   Coordinator/Limiter  core/raddi_coordinator.cpp: the limit of requests in `process`
--   Coordinator/Levels, Coordinator/Contacts  the same: the levels of the known peers, `find`, `move`, `ban`,
--                   `add`, and what `established`, `unavailable`, `disagreed` and requests make of them
--   Coordinator/Budget  the same: `operator ()`, the new connections that are attempted
--   Coordinator/History  the same: `report_table_history`, `gather_history`, `process_table_history`
--   Node            node/node.cpp: `connection::message` and `embrace`, over the database's tables
--   Link/Protocol   core/raddi_protocol.*: `propose`, `accept`, `encode` and `decode`
--   Link/Transmitter, Link/Receiver  node/server.*, common/counter.*: the two buffers of bytes to send, and
--                   the loop that hands received bytes to a connection
--   Link/Connection core/raddi_connection.*, parts of node/node.cpp: what a connection sends; Inbound: what
--                   it does with what it receives
--   Link/Conversation, Link/Session  two connections, by way of all these
--   Base            tests, lists and bits that all of them share
--   Tests           the theorems at concrete data
--
-- State and effects. An operation takes the state and returns the new one, with what the code returns.
-- What the system answers is an argument: `Os` says of each kind of call whether it succeeds, where a read
-- at an offset leaves the handle, and what a failed write leaves in a file. It is
-- constant during one operation. A file is a list with the position of its handle. Numbers are natural;
-- where the code's integers wrap around, the model takes the remainder. Locks are not modelled: each
-- operation holds its lock from beginning to end.
--
-- `Net` and `Node` do the same for sockets and for connections. What libsodium computes is the record
-- `Crypto` of functions; what is documented of them stands in `IsCrypto` and `IsAead`, of which
-- Tests/Links has an example. Each of the three classes of encryption is a value of `Cipher`.
--
-- Fuel. The loop of the receiver has one unit for each byte and one more; a round takes at least one byte
-- or ends. The scan of content has one unit for each byte and one more; a round takes at least one byte. The
-- loop of the peer set's `erase` has one for each address and one more; a round removes one. The loop
-- that steps a shard's base back may not end, so its fuel stays an argument. The recursion of `reject`
-- has the 2049 levels of the code. The loop of `move` has six rounds, one more than there are levels. The
-- nested calls of `embrace` are as many as entries wait, and one. All other loops are structural recursion.
--
-- Not modelled: the log; the calendar forms of times; the signing and the verification of entries and
-- the search for proofs, which call cryptographic libraries; the files of peer sets, subscriptions and
-- noticed ids; how the rows of an index file lie in bytes (what a write from inside a row
-- makes of them is an answer of `Os`); what libsodium and the
-- cuckoo hash compute; the requests that the coordinator sends over a new link; the rest of the
-- database's facade; of the coordinator the answers to subscriptions and downloads, the announcement of
-- random peers, and its broadcasts; running out of memory in the node; listeners and datagrams, and the
-- applications.
pub mod Base
pub mod Time
pub mod Id
pub mod Messages
pub mod Node
pub mod Content
pub mod Address
pub mod Db
pub mod Peers
pub mod Subscriptions
pub mod Noticed
pub mod Detached
pub mod Coordinator
pub mod Link
pub mod Tests
