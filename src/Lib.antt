-- ===== src/Lib.antt =====
-- The gzochi game server, gzochi-server/src, and the part of gzochi-common/src that it stands on:
-- a model of the server's core, written from its C sources, with theorems about it.
--
-- Parts. The byte codecs (Io, of gzochi-common/src/io.c) carry the serialisation of util.c (Util
-- and its children), which all stored state and the protocols go through. The transaction
-- coordinator of tx.c (Tx) runs the participants of a task through prepare, commit and rollback.
-- The state machine of fsm.c (Fsm) drives the server's and the applications' life cycles. The
-- lock table of lock-mem.c (Lock) grants the nodes of a cluster locks on keys and on ranges of
-- keys; it keeps its range locks in an interval tree, which it reaches through the interface
-- IntervalTree. The data protocol between an application server and the meta server has its
-- strings in protocol-common.c (Protocol) and its messages in data-protocol.c (DataProtocol);
-- every protocol puts its messages into the same frames (Frame), which arrive over the client
-- sockets of socket.c (Socket). The data client of dataclient.c (DataClient) issues requests and
-- matches the responses with the callbacks that wait; dataserver-protocol.c (DataServer) is the
-- other end, which decodes the requests and calls the data server through the interface
-- DataServer. The data server of dataserver.c (DataStores) guards the stores of every application
-- with lock tables, reads values under granted locks and stores changesets; it reaches the
-- storage through the interface StorageEngine. DataClient.Connection puts the client, the
-- framing, the socket and the server's end together; in DataStores.Hosted the data server fills
-- the interface DataServer, and DataStores.Connected goes from the functions of the client to the
-- stores of the server. The cache of lrucache.c (LruCache) keeps values up to a bound and evicts
-- the least recently used. The data manager of data.c (Data) keeps the objects of a transaction,
-- with their references and the names that are bound to them, and writes them back as the
-- participant "data"; it stands on the same interface StorageEngine, which Storage states from
-- gzochid-storage.h with the ACID properties that gzochi-server/doc/gzochid.texi claims for the
-- container's transactions, and with the allocation of oids of oids.h. Data.Participant makes it
-- a participant of Tx, Data.Members has the loops of tx.c over participants of which it is one,
-- Data.Callbacks its callbacks, and Data.Commitment the end of its transaction, Data.Ready and
-- Data.Stored of one that everybody agrees to. Timeval models struct timeval, in which tx.c
-- counts its timeouts and lock-mem.c stamps its locks.
--
-- Correspondence. Io: gzochi_common_io_read_int and its kin are read_int and so on. Util:
-- gzochid_util_serialize_X is serialize_X, gzochid_util_deserialize_X is deserialize_X; hash
-- tables are in Util.Tables, the comparison functions in Util.Compare, gzochid_util_format_bytes
-- in Util.Format. Tx: gzochid_transaction_X is X (join, context, begin, end, execute,
-- mark_for_rollback, timed, timed_out); the static prepare, commit and rollback are prepare_all,
-- commit_all and rollback_all, and the body of gzochid_transaction_end is finish and settle. Fsm:
-- gzochid_fsm_X is X, the static to_state is change_state, its loop drain and a round of it
-- serve. Lock: the records are in Lock, the operations in Lock.Ops, where gzochid_lock_X is
-- lock_X; the branches of gzochid_lock_check_and_set are lock_again, lock_shared and lock_fresh,
-- and Lock.Outcome states them. Protocol and DataProtocol: gzochid_protocol_X and
-- gzochid_data_protocol_X are X, the readers of data-protocol.c are in DataProtocol.Read. Frame:
-- can_dispatch, client_dispatch with its loop dispatch_loop, dispatch_message and format_message.
-- Socket: the static functions of socket.c have their names, gzochid_client_socket_X is X or
-- client_socket_X. DataServer: the handlers dispatch_X have their names, and the switch of
-- dispatch_message is dispatch_request. DataClient: gzochid_dataclient_X is dataclient_X for the
-- requests, received_X for the responses, which are in DataClient.Responses with the handlers of
-- dataclient-protocol.c, whose switch is dispatch_reply. DataStores: gzochi_metad_dataserver_X is
-- dataserver_X, in DataStores.Server; the loop of gzochi_metad_dataserver_process_changeset is
-- apply_changes, its end finish_changes; DataStores.Reach has the requests of all nodes as
-- sequences of operations. Data: the static functions of data.c have their names, in Data for the
-- participant and the oids, Data.Bindings, Data.References and Data.Objects (where remove_object
-- is delete_key, gzochid_data_mark is mark_object once the transaction is joined, and the end of
-- dereference is fetch); gzochid_data_X is data_X, in Data.Ops. LruCache: gzochid_lru_cache_X is
-- lru_cache_X, the branches of gzochid_lru_cache_lookup are bump, and add with evict;
-- LruCache.Refine and LruCache.Sequence have the list of pairs that the cache stands for.
--
-- State. Every operation takes the state it reads and returns the state it leaves. GLib's lists,
-- arrays and sequences are lists; its hash tables are lists of entries in the order of its
-- iterator; in Util.Tables they are the interface GHashTable, which leaves the order open, and in
-- LruCache one is the function that looks a key up with the number of keys. A failed assertion, a
-- read past the end of an array and a call through a null pointer are the result none, failed or
-- fault. Integers of w bits are natural numbers below 2 ^ w; the truncations of the source are
-- written out. Callbacks are arguments: a participant's callbacks and the functions registered
-- with a state machine act on a type of worlds, and what they do to the component itself, through
-- its interface, is part of their answer.
--
-- Bounds. The loop of gzochid_fsm_to_state is unbounded in the source, since callbacks may
-- request further states; drain takes fuel, and Fsm.Ends says how much is enough. The loops of
-- client_dispatch and dispatch_client_read take the length of the buffer and one as their number
-- of rounds; each round consumes bytes, and Frame.Long and Socket.Receive show that they end by
-- themselves. All other loops are recursions over lists or counts.
--
-- Not modelled: the interval tree behind the lock table and the storage engine and the allocation
-- of oids behind the data server and the data manager, which are parameters; within the functions
-- of data.c the transaction of tx.c that they join (to join leaves the data manager its context,
-- and the calls of gzochid_transaction_mark_for_rollback are recorded), and serializers that call
-- the data manager themselves; accepting and reconnecting sockets; the other protocols that use
-- the same frames; memory management, logging, mutexes (each operation of a component is taken as
-- one step), and threads that wait on condition variables.
pub mod Base
pub mod Io
pub mod Timeval
pub mod Util
pub mod Tx
pub mod Fsm
pub mod Lock
pub mod Tests
pub mod LruCache
pub mod Protocol
pub mod DataProtocol
pub mod Frame
pub mod Socket
pub mod DataServer
pub mod DataClient
pub mod Storage
pub mod DataStores
pub mod Data
