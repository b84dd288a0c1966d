-- ===== src/Lib.antt =====
-- The core of a davinci-node sequencer: the storage, in which ballots become state transitions, the
-- workers that verify ballots for it, the access to Ethereum that publishes its results, and the
-- rules of votes that all of them share.
--
-- Storage. A ballot is pushed (PushPendingBallot), handed out and verified (NextPendingBallot,
-- MarkBallotVerified), pulled with others into a batch (PullVerifiedBallots, PushAggregatorBatch),
-- and the batch becomes a state transition (PushStateTransitionBatch), which is done, outdated or
-- failed. Each step reserves an entry of a queue, moves it to the next queue, and updates the vote's
-- status, the statistics of the process and the totals. The sequencer calls the methods from several
-- goroutines, each under globalLock, so that every call is one function from a store to a store, with
-- a result where the code returns one; what a call takes from outside is an argument (`Env`).
--
-- Workers. The job manager gives ballots to workers and takes a job away when its time is over; the
-- worker manager counts the failures of each worker in a row, and its ticker bans and lifts bans.
--
-- Ethereum. An iterator hands out the endpoints of a chain in turn and sets aside those that fail; a
-- call is tried several times on one endpoint, then on the next. The transaction manager numbers,
-- prices, sends and tracks transactions through it, and replaces or cancels those that are stuck.
--
-- Files, and the code they model:
--   Db/Keys, Db/Tables, Db/Order   byte strings, and one namespace of the database (db/interface.go)
--                                  behind db/prefixeddb: a list of entries in the order of their keys.
--                                  `strips` tells whether an iteration hands out keys without the
--                                  prefix (db/pebbledb) or whole (the other drivers).
--   Db/InMemory                    db/inmemory/inmemory.go: the database in memory and its transactions
--   Word, Word/Bytes, Word/Bits    int on a 64-bit machine, intToBytes, bytesToInt, the bytes of a vote ID,
--                                  the bits of a number of 64 bits
--   Storage/Types, Storage/Store   storage/types.go, types/process.go, types/process_id.go,
--                                  types/state.go, and the struct Storage with getArtifact
--   Storage/Reservations           setReservation, isReserved, deleteReservation, lockVoteID,
--                                  lockAddress and their counterparts (storage/storage.go)
--   Storage/Recovery               recover, recoverNullifiers, releaseStaleReservations
--                                  (storage/storage.go), cleanAllReservations (storage/cleanup.go)
--   Storage/Stats                  storage/process_stats.go
--   Storage/Processes              storage/process.go, storage/process_updates.go
--   Storage/Status                 storage/vote_id_status.go
--   Storage/Ballots                the pending ballots of storage/ballots.go
--   Storage/Verified               the verified ballots of storage/ballots.go
--   Storage/Batches                the aggregated batches of storage/ballots_batches.go
--   Storage/Transitions            the state transitions of storage/ballots_batches.go, storage/tx.go,
--                                  the keys of storage/state_transition_artifact.go
--   Storage/Artifacts              storage/state_transition_artifact.go
--   Storage/Workers                storage/worker_stats.go
--   Storage/Results                storage/results.go
--   Storage/Retry                  MarkStateTransitionBatchFailed (storage/ballots_batches.go)
--   Storage/Cleanup                cleanupEndedProcess (storage/cleanup.go), checkAndUpdateEndedProcesses
--                                  (storage/process.go)
--   Storage/Operations             the methods above as values, the time-outs and the monitor, and runs of
--                                  them in any order
--   Storage/Invariant              that a method keeps what the writes to the processes, the totals and the
--                                  statuses keep
--   Workers/Manager                workers/worker_manager.go
--   Workers/Jobs                   workers/jobs_manager.go
--   Web3/Iterator                  web3/rpc/web3_iter.go
--   Web3/Pool                      the retries of web3/rpc/web3_client.go and the pool of web3/rpc/web3_pool.go
--   Web3/Errors                    the classes of errors (web3/rpc/web3_client.go, web3/txmanager)
--   Web3/Gas                       web3/txmanager/txgas.go
--   Web3/TxManager                 web3/txmanager: the state and its parameters; Nonces, Building, Stuck and
--                                  Sending hold the functions of txnonce.go, txsend.go and txmanager.go
--   Spec/Params, Spec/Ballots      spec/params, spec/ballotmode.go
--   Spec/Keys                      spec/ballotindex.go, spec/voteid.go, spec/hash/voteid.go: the keys of the
--                                  state tree
--   Spec/Root                      spec/hash/stateroot.go, spec/hash/poseidon.go, spec/ballotinputs.go: the
--                                  root of the first state of a process, the hash of a ballot's inputs
--   Types/HexBytes                 types/hexbytes.go
--   Sequencer/ProcessIds           sequencer/processidmap.go
--   Tests                          concrete values and runs
--
-- Functions keep the names of the code, in snake_case. The children of a module hold the lemmas on it.
--
-- Bounds and simplifications. An int is a natural number below 2 ^ 64 whose additions wrap; a count is
-- negative when its sign bit is set; versions, gas and nonces of 64 bits wrap as well. A fee is a
-- natural number, as a big.Int that is not negative. Times are Unix seconds in the storage and
-- nanoseconds elsewhere, and one call of the storage sees one time. Loops are structural, or run on fuel
-- that is enough: `big_bytes` takes the number itself, which has more units than bytes; the search of
-- EstimateGas takes 64 rounds, each of which halves a range below 2 ^ 63; the hash of chunks takes the
-- length of the list. The writes to the database of the storage succeed, except those of
-- PushPendingBallot, of which each may fail. A stored value is an artifact or one that does
-- not decode; the fields that the storage only carries along are one field `content`. The two text keys
-- of the maps in memory are lists of numbers. A map that the code iterates over in no fixed order is
-- walked in the order of its first insertions, those of the processes of the sequencer and of the pending
-- transactions in the order of their keys; the order in which checkTimeouts meets the jobs is an argument. The channel of failed jobs is the list of what was
-- sent on it. Texts are lists of bytes, and strings.ToLower is the one of ASCII.
--
-- Parameters: the hash that names a batch, the snapshot of a process's state, the time, the outcome of
-- the writes in PushPendingBallot, and `strips`; the world of the chain (`W`) with the answers of the node
-- that the transaction manager and the estimate of gas ask, and the call that the pool makes; the
-- Poseidon hash and the order of its field.
--
-- Not modelled: NewProcess, encryption keys, the callback for the census root and
-- the limit of voters, CleanAllPending; the loops of goroutines that call the monitors, Start and the
-- waiting loops of the transaction manager, logging, blob sidecars and signatures; the tokens of workers;
-- the sequencer's stages of proofs, the services and the API; the artifact encoding, the Merkle trees of
-- state and census, circuits, provers, contracts and the drivers of other databases, which stand on
-- third-party code.
pub mod Common
pub mod Db
pub mod Word
pub mod Storage
pub mod Workers
pub mod Web3
pub mod Spec
pub mod Types
pub mod Sequencer
pub mod Tests
