-- ===== src/Lib.antt =====
-- godis is a redis server. A connection's bytes are parsed into replies and command lines, a command
-- line is looked up in a table and run on one database, and the database keeps entities by key with
-- expiry times and versions. The files here model these parts:
--
--   QuickList   datastruct/list/quicklist.go: pages, the iterator, and in Ops and Scan every
--               operation. Spec has the operations on plain lists, View what it is that a quick list
--               represents one; Find, Steps, Insert, Edit, Remove, Sweep and Backward prove.
--   Protocol    redis/protocol/reply.go, consts.go, errors.go: the replies and `ToBytes`.
--   Parser      redis/parser/parser.go: the helpers; Loop has `parse0` and `ParseBytes`, Reads and
--               Progress its termination, Lines, RoundTrip and Stream that it reads back what `ToBytes` writes.
--   Dict        datastruct/dict/simple.go: the operations on one key.
--   Utils       lib/utils/utils.go: `ToCmdLine3`, `ConvertRange`, `RemoveDuplicates`.
--   Bitmap      datastruct/bitmap/bitmap.go: `SetBit` and `GetBit`.
--   Database    database/database.go: entities, expiry, versions, `execNormalCommand`. Expiry has
--               what a reader sees at a time, Writes what he sees after a write.
--   Database.String   database/string.go: the commands on strings; Options has SET and GETEX,
--               Options.Reading says what the options of SET mean, Rounds and Loop that they are read so;
--               Number INCR and its kind, Part the commands on a part of a string.
--   Database.Router   database/router.go and the functions of database/database.go that look a
--               command up and run it; TxUtils names the keys of a command (database/tx_utils.go).
--   Database.Transaction   database/transaction.go and the transaction state of
--               redis/connection/conn.go. Exec has EXEC, DISCARD and the dispatch `Exec`; Raised and Accesses take
--               what connections do to the database apart; Watch, Queue and Errors prove.
--   Database.Keys   database/keys.go: Expire has the commands on expiry times, Copy has COPY, Laws proves.
--   Database.ListCommands   database/list.go: Change has the commands that change a list in place, Undo the
--               undo logs; Laws and Range prove.
--   Database.HashCommands   database/hash.go: Number has HINCRBY and HINCRBYFLOAT, Undo the undo logs, with
--               that of database/tx_utils.go; Laws proves.
--   Database.Rollback   database/tx_utils.go: the undo logs that save whole keys, with `EntityToCmd` of
--               aof/marshal.go.
--   ConcurrentDict   datastruct/dict/concurrent.go: the table of shards. Shards and Refinement
--               compare it with a simple dict; Locks has the mutexes of `RWLocks` and `RWUnLocks`;
--               Locking has goroutines that take and release them in any interleaving, and
--               Exclusion, Taken, Held, Progress and Finish what cannot and what must happen.
--   Strconv     Go's package strconv in base 10, as far as the program uses it.
--   Base        numbers, lists, bytes and outcomes that these share.
--
-- A byte string is the list of its bytes, and a nil slice is `none` where the code tells nil from
-- empty. An int64 is an integer; where the code's arithmetic can overflow, `wrap64` is written out. A
-- panic is an outcome of its own. A time is an integer of nanoseconds, and one command reads one time.
-- What Go's runtime decides is a parameter: the capacity that `append` chooses (`grow`), which sizes
-- `make` grants (`allocates`), and the text of an error of `ParseInt` (`parse_error`). The loop of
-- `parse0` runs on fuel, one more than there are bytes. `ParseFloat` and the sum of floats are
-- parameters of INCRBYFLOAT.
--
-- A command is one step on one database, and so is EXEC: ConcurrentDict has the locks that make them
-- steps. But `execNormalCommand` raises the versions of the keys that a command declares as written before
-- it takes the locks: `exec_normal_command` does both at once, and where it matters, between WATCH and
-- EXEC, Transaction.Raised has them as two steps with any others in between. The tasks that the time wheel
-- holds are no part of a database: the callback of one may run for any key at any time. A `sync.RWMutex` is modelled as its documentation describes it, with waiting writers before
-- new readers. The database's maps stand for the concurrent dict by their operations on one key,
-- which ConcurrentDict.Refinement justifies. The table of commands is a parameter of
-- `execNormalCommand` and of transactions. The callbacks of the cluster are nil. That COPY leaves two
-- keys with one object is not modelled. The order of iteration over a hash is a parameter, and so is
-- what `math.Round` makes of the seconds of a duration, and the command that saves a set.
-- BITCOUNT, BITPOS, RANDOMKEY, KEYS, SCAN, HRANDFIELD and HSCAN, the other types of values, the
-- append-only file, the cluster, replication, the servers and the clients are not modelled.
pub mod Base
pub mod QuickList
pub mod Strconv
pub mod Protocol
pub mod Parser
pub mod Dict
pub mod ConcurrentDict
pub mod Bitmap
pub mod Utils
pub mod Database
