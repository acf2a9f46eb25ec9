-- ===== src/Lib.antt =====
-- The distributed key-value cache: a replicated log under Raft, a state machine that it drives, and
-- per-user LRU caches. Clients speak to a TCP server; a write is proposed to the Raft leader, which
-- appends it to its log, sends it to the other nodes by AppendEntries, commits it when a majority
-- stores it, and applies it. What a node must not forget goes through a storage interface before it
-- answers.
--
-- Modelled here are the Raft library (raft/), the caches (cache/), the store of a user
-- (store/store.py) and the state machine (server/state_machine.py).
--
-- - Prelude: Boolean tests, equality as an interface, lists over the native numbers, Python's dict as
--   the list of its entries in insertion order.
-- - Raft/Types: raft/types.py. `RaftNode` with its fields; each method is the function of its name. A
--   list slice with a negative bound goes through Raft/Types/Position.
-- - Raft/Storage: raft/storage.py, the abstract class as the record `RaftStorage` over a type of
--   stores, and what its methods' docs promise as `RaftStorageLaws`. Raft/Storage/Memory is
--   `MemoryRaftStorage`, with one function for each method.
-- - Raft/Rpc: raft/rpc.py, the messages as values.
-- - Raft/Engine: raft/node.py, `RaftEngine`. What a method does while it holds `_state_lock` is one
--   function from an engine to an engine, with an answer where there is one. Members, Roles, Votes,
--   Replication, Applying, Installing and Lifecycle hold the methods; Frame, Saved and Voting hold
--   what they keep. `handle_x` is `_handle_x`; `on_x_response` is what follows the reply in
--   `_request_vote_from`, `_request_pre_vote_from` and `_send_entries_to`; `propose_start`,
--   `propose_poll` and `propose_end` are the parts of `propose`; `next_to_apply` and `after_apply`
--   those of `_apply_loop`; `receive_chunk` and `install_snapshot` those of
--   `_handle_install_snapshot`; `init` is `__init__` with `_restore_persistent_state`.
-- - Raft/Log: lemmas on logs with consecutive indices. Raft/Rules: what the decisions rest on.
-- - Raft/Steps: the modelled critical sections as steps of an engine, and a crash followed by a new engine
--   on the same storage.
-- - Cache/LruCache: cache/lru_cache.py, an `OrderedDict` as the list of its entries, the least
--   recently used first; Cache/Entries and Cache/Capacity hold the lemmas. Cache/PlainCache:
--   cache/cache_impl.py. Cache/Interface: cache/cache_interface.py, its promises and the factory of
--   cache/__init__.py; `str.lower` is a parameter.
--   Cache/Interface/Dispatch: the methods of a cache that the factory made.
-- - Text: `str`, `int`, `partition`, `rpartition` and `split` on native texts.
-- - Server: server/state_machine.py. Machine has the state, the functions of apps/users/db_service.py
--   as the record `Database` over a type of databases, and the monad of a method: a result or an
--   exception, with the state at that point. Stores, Commands, Sessions, Reads and Snapshots hold the
--   methods; `apply_x` is `_apply_x`, `run` is the choice of the verb in `_apply_command`, and
--   `set_in`, `delete_in` and `expire_in` are what follows `get_store` in those. Frames, Isolation and
--   View hold what they change; Server/Commands/Texts the texts that server/tcp_server.py submits.
--   Server/Handlers: the handlers `_cmd_x` of that file for the commands that write, as `cmd_x` with the
--   clock as an argument; Handlers/Words takes a client's line apart.
-- - Apps: apps/. Apps/Objects is the part of Django's ORM in use, as an interface with laws, which
--   Apps/Objects/Lists fills with lists; Apps/RaftStorage is apps/cluster/raft_storage.py over the
--   tables of apps/cluster/models.py; Apps/Service is apps/users/db_service.py over those of
--   apps/users/models.py, and fills the record `Database`.
-- - Store: store/store.py; Django's `check_password` is a parameter.
--
-- Numbers are unbounded, as in Python. Times are in thousandths of a second; a difference of times is
-- compared as a sum, so that no subtraction goes below zero, and the -1e9 seconds of a peer that was
-- never heard are 1000000000000 on the other side. Loops over a log are recursion on it or on the
-- number of indices left, so no fuel is needed. Randomness does not show: the timer is known by its
-- generation only. The network, the threads' scheduling, `apply_fn` and `json.loads` of a CONFIG
-- command are arbitrary: replies and requests come as arguments, and `loads` is a parameter. In Step
-- the entries of an AppendEntries request have the indices after its `prev_log_index`; Raft/Rules/
-- Backing shows this of the requests that a leader makes. A crash falls between critical sections.
--
-- In Server, the clock that a read looks at, `fnmatch` and `str.lower` are parameters, a line of a
-- snapshot is the row that its JSON holds, and a number in a command has no sign.
-- In Server/Handlers `str.isdigit` and the `int` that follows it are parameters. In Apps/Service the
-- database's comparison and order of texts are parameters. In Raft/Engine a log that has no term at the
-- last applied index is not compacted, where the source would store None as the term of the snapshot.
--
-- Not modelled: the errors of a database connection behind the ORM; the TCP server but for the handlers
-- of the commands that write, up to what `_submit` answers where Raft fails; the client, the
-- configuration, TLS and sockets; membership changes by command, leadership transfer on the
-- sending side, read_index, forwarding and the sending of snapshots in raft/node.py.
mod Prelude
pub mod Raft
pub mod Cache
pub mod Store
pub mod Text
pub mod Server
pub mod Apps
