-- ===== src/Database/String.antt =====
-- database/string.go: the commands on strings that read and write whole values, and their options.
-- An executor gets its arguments behind the command's name. It panics where the code would index
-- past them, which the arity of the command excludes.
pub mod Options
pub mod Number
pub mod Part
pub mod Laws
use godis.Base.{
  ℕ, zero, suc, ◌+◌, ◌*◌, ◌-◌, ◌^◌, ◌/◌, ◌%◌, Bool, true, false, Option, none, some, List, [], ◌∷◌,
  ◌++◌, Bytes, codes, ◌==◌, length, if◌then◌else◌,
}
use godis.Base.Int.{ℤ, pos, negsuc, ◌+ℤ◌, ◌*ℤ◌}
use godis.Base.Outcome.{returns, panics}
use godis.Strconv.{parse_int, format_int, wrap64}
use godis.Protocol.{
  Reply, null_bulk, bulk, int, ok, multi_bulk, standard_err, syntax_err, wrong_type_err,
}
use godis.Dict.{get}
use godis.Utils.{to_cmd_line3}
use godis.Database.{
  Data, text, quick_list, hash_table, other, CmdLine, Db, Result, get_entity, put_entity,
  put_entity_if_absent, remove, expire, persist, add_aof,
}

-- What `getAsString` returns: its error, or the bytes, nil as `none`.
pub data Fetched : Type 0 where
  wrong_type : Fetched
  bytes : Option Bytes → Fetched

unfoldable pub as_string : Option Data → Fetched
as_string none = bytes none
as_string (some (text b)) = bytes b
as_string (some (quick_list l)) = wrong_type
as_string (some (hash_table d)) = wrong_type
as_string (some (other kind n)) = wrong_type

fetched : Option Data × Db → Fetched × Db
unfolding as_string
fetched (entity, db) = (as_string entity, db)

unfoldable pub get_as_string : ℤ → Bytes → Db → Fetched × Db
unfolding fetched
get_as_string now key db = fetched (get_entity now key db)

-- `if err != nil { return err }` behind `getAsString`
abbrev pub with_string : Fetched × Db → (Option Bytes → Db → Result) → Result
with_string (wrong_type, db) f = returns (wrong_type_err, db)
with_string (bytes b, db) f = f b db

abbrev pub bulk_or_null : Option Bytes → Reply
bulk_or_null none = null_bulk
bulk_or_null (some b) = bulk (some b)

-- `PutEntity` whose result the code drops.
unfoldable pub store : Bytes → Option Bytes → Db → Db
store key b db = (put_entity key (text b) db).1

-- `time.Now().Add(time.Duration(ttl) * time.Millisecond)`
unfoldable pub deadline : ℤ → ℤ → ℤ
deadline now ttl = now +ℤ wrap64 (ttl *ℤ pos 1000000)

-- `n/1e6` of an int64, towards zero
unfoldable pub millis : ℤ → ℤ
millis (pos n) = pos (n / 1000000)
millis (negsuc n) = elim ((n + 1) / 1000000) [ zero ↦ pos 0 | suc q ↦ negsuc q ]

-- `aof.MakeExpireCmd(key, expireTime).Args`
unfoldable pub expire_cmd : Bytes → ℤ → CmdLine
unfolding millis
expire_cmd key expire_at = codes "PEXPIREAT" ∷ key ∷ format_int (millis (wrap64 expire_at)) ∷ []

unfoldable pub exec_get : ℤ → List Bytes → Db → Result
unfolding get_as_string
exec_get now [] db = panics
exec_get now (key ∷ args) db =
    with_string (get_as_string now key db) λ b db. returns (bulk_or_null b, db)

unfoldable pub exec_set_nx : ℤ → List Bytes → Db → Result
exec_set_nx now (key ∷ value ∷ args) db =
    let (result, db) = put_entity_if_absent key (text (some value)) db in
    returns (int (pos result), add_aof (to_cmd_line3 (codes "setnx") (key ∷ value ∷ args)) db)
exec_set_nx now _ db = panics

unfoldable pub is_positive : ℤ → Bool
is_positive (pos (suc n)) = true
is_positive _ = false

unfoldable pub invalid_setex : Reply
invalid_setex = standard_err (codes "ERR invalid expire time in setex")

-- The bodies of `execSetEX` and `execPSetEX` behind their `ParseInt`; `ttl` is in milliseconds.
unfoldable pub set_with_ttl : ℤ → Bytes → Bytes → ℤ → CmdLine → Db → Db
unfolding store deadline expire_cmd
set_with_ttl now key value ttl line db =
    let expire_time = deadline now ttl in
    add_aof (expire_cmd key expire_time)
      (add_aof line (expire key expire_time (store key (some value) db)))

unfoldable pub exec_set_ex : ℤ → List Bytes → Db → Result
unfolding is_positive set_with_ttl invalid_setex
exec_set_ex now (key ∷ seconds ∷ value ∷ args) db = elim (parse_int seconds) [
  | none ↦ returns (syntax_err, db)
  | some ttl_arg ↦
      if is_positive ttl_arg
      then returns (
        ok,
        set_with_ttl now key value (wrap64 (ttl_arg *ℤ pos 1000))
            (to_cmd_line3 (codes "setex") (key ∷ seconds ∷ value ∷ args)) db,
      )
      else returns (invalid_setex, db)
]
exec_set_ex now _ db = panics

unfoldable pub exec_p_set_ex : ℤ → List Bytes → Db → Result
unfolding is_positive set_with_ttl invalid_setex
exec_p_set_ex now (key ∷ milliseconds ∷ value ∷ args) db = elim (parse_int milliseconds) [
  | none ↦ returns (syntax_err, db)
  | some ttl_arg ↦
      if is_positive ttl_arg
      then returns (
        ok,
        set_with_ttl now key value ttl_arg
            (to_cmd_line3 (codes "setex") (key ∷ milliseconds ∷ value ∷ args)) db,
      )
      else returns (invalid_setex, db)
]
exec_p_set_ex now _ db = panics

-- The keys at the even places of the arguments, each with its value. The length is even, or the last
-- argument is left out, as `size := len(args) / 2` does.
pairs : List Bytes → List (Bytes × Bytes)
pairs (key ∷ value ∷ args) = (key, value) ∷ pairs args
pairs _ = []

first_of : List (Bytes × Bytes) → List Bytes
first_of [] = []
first_of ((key, value) ∷ ps) = key ∷ first_of ps

unfoldable pub prepare_m_set : List Bytes → List Bytes × List Bytes
unfolding pairs first_of
prepare_m_set args = (first_of (pairs args), [])

unfoldable pub put_all : List (Bytes × Bytes) → Db → Db
unfolding store
put_all [] db = db
put_all ((key, value) ∷ ps) db = put_all ps (store key (some value) db)

unfoldable pub exec_m_set : ℤ → List Bytes → Db → Result
unfolding pairs put_all
exec_m_set now args db =
    if length args % 2 == 0
    then returns (ok, add_aof (to_cmd_line3 (codes "mset") args) (put_all (pairs args) db))
    else returns (syntax_err, db)

unfoldable pub prepare_m_get : List Bytes → List Bytes × List Bytes
prepare_m_get args = ([], args)

value_or_nil : Fetched → Option Bytes
value_or_nil wrong_type = none
value_or_nil (bytes b) = b

unfoldable pub get_all : ℤ → List Bytes → Db → List (Option Bytes) × Db
unfolding value_or_nil get_as_string
get_all now [] db = ([], db)
get_all now (key ∷ keys) db =
    let (f, db1) = get_as_string now key db in
    let (rest, db2) = get_all now keys db1 in (value_or_nil f ∷ rest, db2)

unfoldable pub exec_m_get : ℤ → List Bytes → Db → Result
unfolding get_all
exec_m_get now args db = let (result, db) = get_all now args db in returns (multi_bulk result, db)

-- The first loop of `execMSetNX`: whether one of the keys exists, up to the first that does.
any_exists : ℤ → List (Bytes × Bytes) → Db → Bool × Db
any_exists now [] db = (false, db)
any_exists now ((key, value) ∷ ps) db =
    let (entity, db) = get_entity now key db in
    elim entity [ none ↦ any_exists now ps db | some e ↦ (true, db) ]

set_all_unless : List Bytes → Bool × Db → Result
unfolding pairs put_all
set_all_unless args (true, db) = returns (int (pos 0), db)
set_all_unless args (false, db) =
    returns (int (pos 1), add_aof (to_cmd_line3 (codes "msetnx") args) (put_all (pairs args) db))

unfoldable pub exec_m_set_nx : ℤ → List Bytes → Db → Result
unfolding pairs any_exists set_all_unless
exec_m_set_nx now args db =
    if length args % 2 == 0
    then set_all_unless args (any_exists now (pairs args) db)
    else returns (syntax_err, db)

unfoldable pub exec_get_set : ℤ → List Bytes → Db → Result
unfolding get_as_string store
exec_get_set now (key ∷ value ∷ args) db = with_string (get_as_string now key db) λ old db.
    returns (
      bulk_or_null old,
      add_aof (to_cmd_line3 (codes "set") (key ∷ value ∷ args))
          (persist key (store key (some value) db)),
    )
exec_get_set now _ db = panics

get_del_of : Bytes → List Bytes → Option Bytes → Db → Result
get_del_of key args none db = returns (null_bulk, db)
get_del_of key args (some old) db =
    returns (bulk (some old), add_aof (to_cmd_line3 (codes "del") (key ∷ args)) (remove key db))

unfoldable pub exec_get_del : ℤ → List Bytes → Db → Result
unfolding get_as_string get_del_of
exec_get_del now (key ∷ args) db = with_string (get_as_string now key db) (get_del_of key args)
exec_get_del now [] db = panics
