-- ===== src/Database/Keys/Copy.antt =====
-- database/keys.go: COPY, between the databases of a server, which are a list. `Atoi` reads what
-- `ParseInt` reads.
use godis.Base.{
  ℕ, Bool, true, false, Option, none, some, List, [], ◌∷◌, Bytes, codes, bytes_eq, ◌&&◌, ◌==◌, ltb,
  if◌then◌else◌, get_elem?, set, length,
}
use godis.Base.Int.{ℤ, pos, negsuc}
use godis.Base.Outcome.{Outcome, returns, panics, ◌>>=◌}
use godis.Strconv.{parse_int}
use godis.Protocol.{Reply, int, standard_err, syntax_err}
use godis.Dict.{get}
use godis.Utils.{to_cmd_line3}
use godis.Database.{Data, Db, get_entity, put_entity, expire, add_aof}
use godis.Database.Router.{to_lower}

-- What the options leave: the index of the destination and whether to replace, or an error.
pub data Options : Type 0 where
  copies : (index : ℕ) (replace : Bool) → Options
  refused : Reply → Options

at_db : ℕ → Option ℤ → Option ℕ
at_db count none = none
at_db count (some (negsuc n)) = none
at_db count (some (pos n)) = if ltb n count then some n else none

bad_db : Option ℤ → Reply
bad_db none = syntax_err
bad_db (some n) = standard_err (codes "ERR DB index is out of range")

unfoldable pub copy_options : ℕ → List Bytes → ℕ → Bool → Options
unfolding at_db bad_db
copy_options count [] index replace = copies index replace
copy_options count (arg ∷ []) index replace =
    if bytes_eq (to_lower arg) (codes "db")
    then refused syntax_err
    else if bytes_eq (to_lower arg) (codes "replace")
    then copies index true
    else refused syntax_err
copy_options count (arg ∷ value ∷ args) index replace =
    let after_replace = copy_options count (value ∷ args) index true in
    if bytes_eq (to_lower arg) (codes "db")
    then elim (at_db count (parse_int value)) [
      | none ↦ refused (bad_db (parse_int value))
      | some n ↦ copy_options count args n replace
    ]
    else if bytes_eq (to_lower arg) (codes "replace")
    then after_replace
    else refused syntax_err

abbrev pub ServerResult : Type 0
ServerResult = Outcome (Reply × List Db)

-- `mustSelectDB`
unfoldable pub must_select_db : List Db → ℕ → Outcome Db
must_select_db dbs index = elim (get_elem? dbs index) [ none ↦ panics | some db ↦ returns db ]

copy_ttl : Bytes → Option ℤ → Db → Db
copy_ttl dest none db = db
copy_ttl dest (some t) db = expire dest t db

-- What follows when the destination may be written. The source's expiry time is read after the write,
-- from the database that it may be.
unfoldable pub copy_entity : List Bytes → ℕ → ℕ → Bytes → Bytes → Data → List Db → ServerResult
unfolding must_select_db copy_ttl put_entity
copy_entity args current index src dest entity dbs = do
  dest_db ← must_select_db dbs index
  let dbs1 = set dbs index (put_entity dest entity dest_db).1 in
      do
        db ← must_select_db dbs1 current
        dest_db1 ← must_select_db dbs1 index
        let dbs2 = set dbs1 index (copy_ttl dest (get db.ttl_map src) dest_db1) in
            do
              logs ← must_select_db dbs2 current
              returns
                  (int (pos 1), set dbs2 current (add_aof (to_cmd_line3 (codes "copy") args) logs))

copy_onto :
    List Bytes → ℕ → ℕ → Bool → Bytes → Bytes → Data → List Db → Option Data × Db → ServerResult
unfolding copy_entity
copy_onto args current index replace src dest entity dbs (none, dest_db) =
    copy_entity args current index src dest entity (set dbs index dest_db)
copy_onto args current index replace src dest entity dbs (some old, dest_db) =
    if replace
    then copy_entity args current index src dest entity (set dbs index dest_db)
    else returns (int (pos 0), set dbs index dest_db)

copy_found :
    ℤ → List Bytes → ℕ → ℕ → Bool → Bytes → Bytes → List Db → Option Data × Db → ServerResult
unfolding must_select_db copy_onto
copy_found now args current index replace src dest dbs (none, db) =
    returns (int (pos 0), set dbs current db)
copy_found now args current index replace src dest dbs (some entity, db) = do
  dest_db ← must_select_db (set dbs current db) index
  copy_onto args current index replace src dest entity (set dbs current db)
      (get_entity now dest dest_db)

copy_with : ℤ → List Bytes → ℕ → Bytes → Bytes → Db → List Db → Options → ServerResult
unfolding copy_found
copy_with now args current src dest db dbs (refused reply) = returns (reply, dbs)
copy_with now args current src dest db dbs (copies index replace) =
    if bytes_eq src dest && (index == current)
    then returns (standard_err (codes "ERR source and destination objects are the same"), dbs)
    else copy_found now args current index replace src dest dbs (get_entity now src db)

-- `current` is the connection's database.
unfoldable pub exec_copy : ℤ → ℕ → List Bytes → List Db → ServerResult
unfolding copy_with copy_options must_select_db
exec_copy now current (src ∷ dest ∷ options) dbs = do
  db ← must_select_db dbs current
  copy_with now (src ∷ dest ∷ options) current src dest db dbs
      (copy_options (length dbs) options current false)
exec_copy now current _ dbs = panics
