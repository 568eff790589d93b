-- ===== src/Database/Keys.antt =====
-- database/keys.go: the commands on keys and their expiry times; Expire has those that read and set
-- expiry times. A key's entity is moved and copied as a value: that COPY leaves two keys with one
-- object is not modelled.
pub mod Expire
pub mod Copy
pub mod Laws
mod Tests
use godis.Base.{
  Bool, true, false, Option, none, some, List, [], ◌∷◌, Bytes, codes, suc, zero, ℕ, ◌==◌,
  if◌then◌else◌, length,
}
use godis.Base.Int.{ℤ, pos}
use godis.Base.Outcome.{Outcome, returns, panics, ◌>>=◌}
use godis.Protocol.{Reply, ok, int, status, standard_err}
use godis.Dict.{get}
use godis.Utils.{to_cmd_line3}
use godis.Database.{
  Data, text, quick_list, hash_table, other, Kind, set, zset, Db, Result, get_entity, put_entity,
  remove, removes, flush, expire, persist, add_aof,
}
use godis.Database.Router.{Keys}

log_del : List Bytes → ℕ × Db → Reply × Db
log_del args (zero, db) = (int (pos zero), db)
log_del args (suc n, db) = (int (pos (suc n)), add_aof (to_cmd_line3 (codes "del") args) db)

unfoldable pub exec_del : ℤ → List Bytes → Db → Result
unfolding log_del
exec_del now args db = returns (log_del args (removes args db))

count_found : Option Data → ℕ → ℕ
count_found none n = n
count_found (some entity) n = suc n

unfoldable pub exists_loop : ℤ → List Bytes → ℕ → Db → ℕ × Db
unfolding count_found
exists_loop now [] result db = (result, db)
exists_loop now (key ∷ keys) result db =
    let (entity, db1) = get_entity now key db in
    exists_loop now keys (count_found entity result) db1

exists_reply : ℕ × Db → Reply × Db
exists_reply (result, db) = (int (pos result), db)

unfoldable pub exec_exists : ℤ → List Bytes → Db → Result
unfolding exists_loop exists_reply
exec_exists now args db = returns (exists_reply (exists_loop now args 0 db))

unfoldable pub exec_flush_db : ℤ → List Bytes → Db → Result
unfolding flush
exec_flush_db now args db = returns (ok, add_aof (to_cmd_line3 (codes "flushdb") args) (flush db))

unfoldable pub type_name : Option Data → Bytes
type_name none = codes "none"
type_name (some (text b)) = codes "string"
type_name (some (quick_list l)) = codes "list"
type_name (some (hash_table d)) = codes "hash"
type_name (some (other set n)) = codes "set"
type_name (some (other zset n)) = codes "zset"

type_of : Option Data × Db → Bytes × Db
unfolding type_name
type_of (entity, db) = (type_name entity, db)

unfoldable pub get_type : ℤ → Bytes → Db → Bytes × Db
unfolding type_of
get_type now key db = type_of (get_entity now key db)

status_of : Bytes × Db → Reply × Db
status_of (result, db) = (status result, db)

-- `getType` has a name for each of the types that there are.
unfoldable pub exec_type : ℤ → List Bytes → Db → Result
unfolding get_type status_of
exec_type now [] db = panics
exec_type now (key ∷ args) db = returns (status_of (get_type now key db))

unfoldable pub prepare_rename : List Bytes → Outcome Keys
prepare_rename (src ∷ dest ∷ args) = returns (dest ∷ [], src ∷ [])
prepare_rename _ = panics

abbrev pub no_such_key : Reply
no_such_key = standard_err (codes "no such key")

unfoldable pub move_ttl : Bytes → Bytes → Option ℤ → Db → Db
move_ttl src dest none db = db
move_ttl src dest (some expire_time) db = expire dest expire_time (persist dest (persist src db))

rename_found : Bytes → Bytes → Option Data × Db → Reply × Db
unfolding move_ttl put_entity
rename_found src dest (none, db) = (no_such_key, db)
rename_found src dest (some entity, db) = (
  ok,
  add_aof (to_cmd_line3 (codes "rename") (src ∷ dest ∷ []))
      (move_ttl src dest (get db.ttl_map src) (remove src (put_entity dest entity db).1)),
)

unfoldable pub exec_rename : ℤ → List Bytes → Db → Result
unfolding rename_found
exec_rename now (src ∷ dest ∷ []) db = returns (rename_found src dest (get_entity now src db))
exec_rename now _ db =
    returns (standard_err (codes "ERR wrong number of arguments for 'rename' command"), db)

rename_nx_found : Bytes → Bytes → List Bytes → Option Data × Db → Reply × Db
unfolding move_ttl put_entity removes
rename_nx_found src dest args (none, db) = (no_such_key, db)
rename_nx_found src dest args (some entity, db) = (
  int (pos 1),
  add_aof (to_cmd_line3 (codes "renamenx") (src ∷ dest ∷ args)) (
      move_ttl src dest (get db.ttl_map src)
        (put_entity dest entity (removes (src ∷ dest ∷ []) db).1).1),
)

rename_nx_onto : ℤ → Bytes → Bytes → List Bytes → Option Data × Db → Reply × Db
unfolding rename_nx_found
rename_nx_onto now src dest args (some old, db) = (int (pos 0), db)
rename_nx_onto now src dest args (none, db) = rename_nx_found src dest args (get_entity now src db)

unfoldable pub exec_rename_nx : ℤ → List Bytes → Db → Result
unfolding rename_nx_onto
exec_rename_nx now (src ∷ dest ∷ args) db =
    returns (rename_nx_onto now src dest args (get_entity now dest db))
exec_rename_nx now _ db = panics
