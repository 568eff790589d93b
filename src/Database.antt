-- ===== src/Database.antt =====
-- database/database.go: one database, its entities, their expiry times and versions.
-- A key is a byte string. A time is an integer of nanoseconds and `now`, an argument, is what
-- `time.Now` returns throughout one command. The tasks that `Expire` and `Persist` add to the time wheel
-- and cancel there are no part of the state: `run_task` is the callback of one, for any key at any time.
-- The callbacks of the cluster are nil, as `makeDB` leaves them. `aof` is what `addAof` was given.
pub mod String
mod Tests
pub mod Expiry
pub mod Versions
pub mod Router
pub mod TxUtils
pub mod Keys
pub mod ListCommands
pub mod HashCommands
pub mod Rollback
pub mod Transaction
pub mod Writes
use godis.Base.{
  ℕ, zero, suc, ◌+◌, ◌-◌, ◌%◌, ◌/◌, ◌^◌, Bool, true, false, Option, none, some, List, [], ◌∷◌, ◌++◌,
  Bytes, codes, bytes_eq, leb, ◌==◌, ◌&&◌, length, if◌then◌else◌,
}
use godis.Base.Int.{ℤ, pos, negsuc, ltb_ℤ, ◌+ℤ◌, ◌*ℤ◌}
use godis.Base.Outcome.{Outcome, returns, panics}
use godis.Strconv.{format_int, wrap64}
use godis.Protocol.{Reply, standard_err, arg_num_err}
use godis.QuickList.{QuickList}
use godis.Dict.{Dict, get, delete, insert, put, put_if_absent, put_if_exists}

pub data Kind : Type 0 where
  set zset : Kind

-- `DataEntity.Data`: a byte slice, nil as `none`; a list of such; a hash; or a value of another type, of which the
-- commands modelled here know no more than the type.
pub data Data : Type 0 where
  text : Option Bytes → Data
  quick_list : QuickList (Option Bytes) → Data
  hash_table : Dict Bytes → Data
  other : Kind → ℕ → Data

abbrev pub CmdLine : Type 0
CmdLine = List Bytes

pub record Db : Type 0 where
  pub data_map : Dict Data
  pub ttl_map : Dict ℤ
  pub version_map : Dict ℕ
  pub aof : List CmdLine

-- `makeDB`
unfoldable pub make_db : Db
make_db = record { data_map = []; ttl_map = []; version_map = []; aof = [] }

unfoldable pub add_aof : CmdLine → Db → Db
add_aof line db = record db { aof = db.aof ++ line ∷ [] }

-- `Remove`
unfoldable pub remove : Bytes → Db → Db
remove key db = record db { data_map = delete db.data_map key; ttl_map = delete db.ttl_map key }

-- `time.Now().After(expireTime)`
unfoldable pub after : ℤ → Option ℤ → Bool
after now none = false
after now (some expire_time) = ltb_ℤ expire_time now

unfoldable pub is_expired : ℤ → Bytes → Db → Bool × Db
unfolding after remove
is_expired now key db =
    let expired = after now (get db.ttl_map key) in (expired, if expired then remove key db else db)

found : Option Data → Bool × Db → Db → Option Data × Db
found none checked db = (none, db)
found (some entity) (true, db1) db = (none, db1)
found (some entity) (false, db1) db = (some entity, db1)

unfoldable pub get_entity : ℤ → Bytes → Db → Option Data × Db
unfolding is_expired found
get_entity now key db = found (get db.data_map key) (is_expired now key db) db

-- `PutEntity`, `PutIfAbsent` and `PutIfExists`, by the operation of the map.
put_by : Dict Data × ℕ → Db → ℕ × Db
put_by (d, ret) db = (ret, record db { data_map = d })

unfoldable pub put_entity : Bytes → Data → Db → ℕ × Db
unfolding put_by put
put_entity key entity db = put_by (put db.data_map key entity) db

unfoldable pub put_entity_if_absent : Bytes → Data → Db → ℕ × Db
unfolding put_by put_if_absent
put_entity_if_absent key entity db = put_by (put_if_absent db.data_map key entity) db

unfoldable pub put_entity_if_exists : Bytes → Data → Db → ℕ × Db
unfolding put_by put_if_exists
put_entity_if_exists key entity db = put_by (put_if_exists db.data_map key entity) db

unfoldable pub removes : List Bytes → Db → ℕ × Db
unfolding remove
removes [] db = (0, db)
removes (key ∷ keys) db = elim (get db.data_map key) [
  | none ↦ removes keys db
  | some entity ↦ let (deleted, rest) = removes keys (remove key db) in (suc deleted, rest)
]

unfoldable pub flush : Db → Db
flush db = record db { data_map = []; ttl_map = [] }

unfoldable pub expire : Bytes → ℤ → Db → Db
unfolding insert
expire key expire_time db = record db { ttl_map = insert db.ttl_map key expire_time }

-- The callback of the task: the expiry time may have changed since it was set.
unfoldable pub run_task : ℤ → Bytes → Db → Db
unfolding after remove
run_task now key db = if after now (get db.ttl_map key) then remove key db else db

unfoldable pub persist : Bytes → Db → Db
persist key db = record db { ttl_map = delete db.ttl_map key }

unfoldable pub version_or_zero : Option ℕ → ℕ
version_or_zero none = 0
version_or_zero (some v) = v

unfoldable pub get_version : Bytes → Db → ℕ
unfolding version_or_zero
get_version key db = version_or_zero (get db.version_map key)

-- A version is a uint32.
unfoldable pub add_version : List Bytes → Db → Db
unfolding get_version insert
add_version [] db = db
add_version (key ∷ keys) db =
    add_version keys
      (record db { version_map = insert db.version_map key ((get_version key db + 1) % 2 ^ 32) })

abbrev pub Result : Type 0
Result = Outcome (Reply × Db)
