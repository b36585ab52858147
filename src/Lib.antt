-- ===== src/Lib.antt =====
-- The indexer and the API of itihas, an index of token transfers on Solana.
--
-- The program. `indexer` receives blocks, by polling an RPC node (indexer/src/poller.rs) or by a
-- gRPC subscription that falls back to polling (indexer/src/grpc.rs). Each block is parsed
-- (indexer/src/parser.rs) to the transactions that hold transfers of the two token programs,
-- collected to a state update (indexer/src/types.rs), and sent through two channels
-- (indexer/src/messenger.rs) to workers that write it to Postgres (indexer/src/db.rs), into the
-- tables that `migrator` makes. `api` answers one query over the table of transfers (api/src/api.rs,
-- api/src/db.rs, api/src/spec). `dao` has the tables.
--
-- The files.
-- - Prelude: names and lemmas that all share. Results: Rust's `Result` with panics as a third outcome.
--   Int: 64-bit words read as signed. Slices: `take` and `drop`.
--   Chunks: `slice::chunks`. Totals: lists compared as bags.
-- - Dao: the rows, keys and columns of dao/src/generated.
-- - Indexer/Types: the structs of indexer/src/types.rs and the errors of indexer/src/error.rs.
-- - Indexer/Sdk, Indexer/Proto: the fields that the code reads of the structs of other crates, and the
--   functions of those crates as a parameter.
-- - Indexer/StateUpdate: `merge_updates`, `parse_transaction`, `parse_block_state_update`.
-- - Indexer/Parser: the two parsers. Rpc is `PollerParser`, Grpc is `GrpcParser`, Spec the transfers of a
--   message read off its instructions, Lookup and Inversion lemmas, Agreement both parsers together.
-- - Indexer/Poller: `get_block` and `get_poller_block_stream`. Sorting, Slots, Stream,
--   Unwinding and Replies prove.
-- - Indexer/Fallback: `get_grpc_stream_with_rpc_fallback` as a function of the sequence of items of its
--   two streams, and `get_grpc_block_stream` as one of its sessions. Chain, CatchUp, Rising, Sessions and
--   Service prove.
-- - Indexer/Db: the writer; a transaction is the list of its statements. Rows, Batches,
--   Keys, Parameters and Success prove.
-- - Api/Server: the methods, paths, probes and configuration of the server; Routes proves.
-- - Indexer/Subscription: the requests of the gRPC streamer and the settings of its client.
-- - Indexer/Display: the texts of indexer/src/parser.rs.
-- - Indexer/Messenger: the channels and the senders of indexer/src/messenger.rs; Sending proves. Workers:
--   `run` and the workers as the steps of a system, one worker or the streamer at a time; Accounts is
--   what one step moves, Stored what a write adds, Blocks and Transfers the invariants, Arrival what is
--   written in the end, Progress that all can get there, Rest that the workers come to rest.
-- - Indexer/Delivery: the task of the streamer and the messenger's system together.
-- - Indexer/Main: indexer/src/config.rs and indexer/src/main.rs up to the task, over either streamer;
--   Genesis, Subscribed and Reconnected prove, each from a configuration on, Setup is the start as a
--   whole, and Running proves of it.
-- - Migrator: migrator/src as statements; Roundtrip and Schema prove.
-- - Api/Requests, Api/Query, Api/Handler: the validation of paging, the statements, the handler; Limits,
--   Meaning, Steps, Answers and Pages prove.
-- - Api/Main: the start of the server in api/src/main.rs, its metrics of calls, and `Api::new`; Starting
--   and Failing prove.
-- - Common: the crate `common`; Metrics proves.
-- - Served: from the blocks that were written to the answers of the API; Origins
--   has its lemmas, and Found proves.
-- - Indexer/Streamer: `continously_index_new_blocks` over a stream; Sending proves.
-- - The modules named Tests run the code on concrete data.
--
-- Bounds and fuel. The rounds of the poller's stream run on fuel; one round more than there are slots
-- left is enough where the stream has an end, since every round before the end fetches a slot.
-- `get_block` and `index_block_batches` run over the list of the outside's answers, and give no result
-- while the list does not suffice. Slots and amounts are natural numbers below 2^64 in the program, and
-- a last indexed slot is below the greatest of these; where they are cast or multiplied the wrap-around
-- is written out. The loops of `send_block_batches`, `fetch_current_slot` and the like run over such
-- lists too. The steps of the workers need no fuel: a run is a derivation of `Reach`, of any length.
--
-- Not modelled: what is only logged, and pauses; the listener of the HTTP server, its headers and CORS;
-- the command line of `migrator`; the end of the indexer at Ctrl-C, which is up to the tasks of tokio;
-- the tables behind the indexer's INSERT statements, beyond what Served assumes of them; the
-- integration tests. The other crates are parameters: sqlx and sea_orm, solana, yellowstone, jsonrpsee,
-- cadence, figment and git2.
pub mod Prelude
pub mod Dao
pub mod Indexer
pub mod Api
pub mod Migrator
pub mod Served
pub mod Common
