-- ===== src/Database/HashCommands.antt =====
-- database/hash.go: the commands on hashes. As with lists, a command changes the object that the key's
-- entity holds, and here the changed hash is written back. The values are not nil. `order` is the order
-- in which the runtime iterates over a map. Undo has the undo logs.
pub mod Number
pub mod Undo
pub mod Laws
mod Tests
use godis.Base.{
  ℕ, zero, suc, ◌+◌, Bool, true, false, Option, none, some, List, [], ◌∷◌, Bytes, codes, ◌==◌,
  if◌then◌else◌, length, map,
}
use godis.Base.Int.{ℤ, pos}
use godis.Base.Outcome.{Outcome, returns, panics}
use godis.Protocol.{
  Reply, null_bulk, bulk, int, ok, multi_bulk, empty_multi_bulk, wrong_type_err, syntax_err,
}
use godis.Dict.{Dict, get, delete, insert, added, put, put_if_absent}
use godis.Utils.{to_cmd_line3}
use godis.Database.{
  Data, text, quick_list, hash_table, other, CmdLine, Db, Result, get_entity, put_entity, remove,
  add_aof,
}

abbrev pub Hash : Type 0
Hash = Dict Bytes

-- What `getAsDict` returns: its error, or a hash, nil as `none`.
pub data Fetched : Type 0 where
  wrong_type : Fetched
  hash : Option Hash → Fetched

unfoldable pub as_hash : Option Data → Fetched
as_hash none = hash none
as_hash (some (text b)) = wrong_type
as_hash (some (quick_list l)) = wrong_type
as_hash (some (hash_table d)) = hash (some d)
as_hash (some (other kind n)) = wrong_type

fetched : Option Data × Db → Fetched × Db
unfolding as_hash
fetched (entity, db) = (as_hash entity, db)

unfoldable pub get_as_dict : ℤ → Bytes → Db → Fetched × Db
unfolding fetched
get_as_dict now key db = fetched (get_entity now key db)

-- The code behind `getAsDict`: without a hash it replies, and changes nothing.
abbrev pub with_hash : Fetched × Db → Reply → (Hash → Db → Result) → Result
with_hash (wrong_type, db) missing f = returns (wrong_type_err, db)
with_hash (hash none, db) missing f = returns (missing, db)
with_hash (hash (some d), db) missing f = f d db

-- The code behind `getOrInitDict`, which puts an empty hash under the key where there is none.
abbrev pub with_init : Bytes → Fetched × Db → (Hash → Db → Result) → Result
with_init key (wrong_type, db) f = returns (wrong_type_err, db)
with_init key (hash none, db) f = f [] (put_entity key (hash_table []) db).1
with_init key (hash (some d), db) f = f d db

-- The object that the key holds has changed.
unfoldable pub write_hash : Bytes → Hash → Db → Db
write_hash key d db = record db { data_map = insert db.data_map key (hash_table d) }

set_field : Bytes → CmdLine → Hash × ℕ → Db → Result
unfolding write_hash
set_field key line (d, result) db = returns (int (pos result), add_aof line (write_hash key d db))

unfoldable pub exec_h_set : ℤ → List Bytes → Db → Result
unfolding set_field get_as_dict put
exec_h_set now (key ∷ field ∷ value ∷ args) db = with_init key (get_as_dict now key db) λ d db1.
    set_field key (to_cmd_line3 (codes "hset") (key ∷ field ∷ value ∷ args)) (put d field value) db1
exec_h_set now _ db = panics

set_absent : Bytes → CmdLine → Hash × ℕ → Db → Result
unfolding write_hash
set_absent key line (d, zero) db = returns (int (pos zero), write_hash key d db)
set_absent key line (d, suc n) db = returns (int (pos (suc n)), add_aof line (write_hash key d db))

unfoldable pub exec_h_set_nx : ℤ → List Bytes → Db → Result
unfolding set_absent get_as_dict put_if_absent
exec_h_set_nx now (key ∷ field ∷ value ∷ args) db = with_init key (get_as_dict now key db) λ d db1.
    set_absent key (to_cmd_line3 (codes "hsetnx") (key ∷ field ∷ value ∷ args))
      (put_if_absent d field value) db1
exec_h_set_nx now _ db = panics

unfoldable pub value_reply : Option Bytes → Reply
value_reply none = null_bulk
value_reply (some value) = bulk (some value)

unfoldable pub exec_h_get : ℤ → List Bytes → Db → Result
unfolding get_as_dict value_reply
exec_h_get now (key ∷ field ∷ args) db =
    with_hash (get_as_dict now key db) null_bulk λ d db1. returns (value_reply (get d field), db1)
exec_h_get now _ db = panics

one_if : Option Bytes → ℕ
one_if none = 0
one_if (some value) = 1

unfoldable pub exec_h_exists : ℤ → List Bytes → Db → Result
unfolding get_as_dict one_if
exec_h_exists now (key ∷ field ∷ args) db =
    with_hash (get_as_dict now key db) (int (pos 0))
      λ d db1. returns (int (pos (one_if (get d field))), db1)
exec_h_exists now _ db = panics

unfoldable pub remove_fields : List Bytes → Hash → ℕ × Hash
unfolding one_if
remove_fields [] d = (0, d)
remove_fields (field ∷ fields) d =
    let (deleted, rest) = remove_fields fields (delete d field) in
    (one_if (get d field) + deleted, rest)

-- `if dict.Len() == 0 { db.Remove(key) }`
unfoldable pub keep_hash : Bytes → Hash → Db → Db
unfolding write_hash
keep_hash key d db = if length d == 0 then remove key db else write_hash key d db

del_reply : Bytes → CmdLine → ℕ × Hash → Db → Result
unfolding keep_hash
del_reply key line (zero, d) db = returns (int (pos zero), keep_hash key d db)
del_reply key line (suc n, d) db = returns (int (pos (suc n)), add_aof line (keep_hash key d db))

unfoldable pub exec_h_del : ℤ → List Bytes → Db → Result
unfolding remove_fields del_reply get_as_dict
exec_h_del now [] db = panics
exec_h_del now (key ∷ fields) db =
    with_hash (get_as_dict now key db) (int (pos 0)) λ d db1.
      del_reply key (to_cmd_line3 (codes "hdel") (key ∷ fields)) (remove_fields fields d) db1

unfoldable pub exec_h_len : ℤ → List Bytes → Db → Result
unfolding get_as_dict
exec_h_len now [] db = panics
exec_h_len now (key ∷ args) db =
    with_hash (get_as_dict now key db) (int (pos 0)) λ d db1. returns (int (pos (length d)), db1)

length_of : Option Bytes → ℕ
length_of none = 0
length_of (some value) = length value

unfoldable pub exec_h_strlen : ℤ → List Bytes → Db → Result
unfolding get_as_dict length_of
exec_h_strlen now (key ∷ field ∷ args) db =
    with_hash (get_as_dict now key db) (int (pos 0))
      λ d db1. returns (int (pos (length_of (get d field))), db1)
exec_h_strlen now _ db = panics

-- The fields and values of HMSET; `none` for an odd number of arguments.
unfoldable pub field_pairs : List Bytes → Option Hash
field_pairs [] = some []
field_pairs (field ∷ []) = none
field_pairs (field ∷ value ∷ args) =
    let rest = field_pairs args in
    elim rest [ none ↦ none | some pairs ↦ some ((field, value) ∷ pairs) ]

unfoldable pub put_fields : Hash → Hash → Hash
put_fields [] d = d
put_fields ((field, value) ∷ pairs) d = put_fields pairs (insert d field value)

m_set_pairs : ℤ → Bytes → CmdLine → Option Hash → Db → Result
unfolding put_fields write_hash get_as_dict
m_set_pairs now key line none db = returns (syntax_err, db)
m_set_pairs now key line (some pairs) db =
    with_init key (get_as_dict now key db)
      λ d db1. returns (ok, add_aof line (write_hash key (put_fields pairs d) db1))

unfoldable pub exec_h_m_set : ℤ → List Bytes → Db → Result
unfolding m_set_pairs field_pairs
exec_h_m_set now [] db = returns (syntax_err, db)
exec_h_m_set now (key ∷ args) db =
    m_set_pairs now key (to_cmd_line3 (codes "hmset") (key ∷ args)) (field_pairs args) db

nil_for : Bytes → Option Bytes
nil_for field = none

unfoldable pub exec_h_m_get : ℤ → List Bytes → Db → Result
unfolding get_as_dict nil_for
exec_h_m_get now [] db = panics
exec_h_m_get now (key ∷ fields) db =
    with_hash (get_as_dict now key db) (multi_bulk (map nil_for fields))
      λ d db1. returns (multi_bulk (map (get d) fields), db1)

field_of : Bytes × Bytes → Option Bytes
field_of (field, value) = some field

value_of : Bytes × Bytes → Option Bytes
value_of (field, value) = some value

unfoldable pub flat_pairs : Hash → List (Option Bytes)
flat_pairs [] = []
flat_pairs ((field, value) ∷ d) = some field ∷ some value ∷ flat_pairs d

module _ (order : Hash → Hash) where
  unfoldable pub exec_h_keys : ℤ → List Bytes → Db → Result
  unfolding get_as_dict field_of
  exec_h_keys now [] db = panics
  exec_h_keys now (key ∷ args) db =
      with_hash (get_as_dict now key db) empty_multi_bulk
        λ d db1. returns (multi_bulk (map field_of (order d)), db1)

  unfoldable pub exec_h_vals : ℤ → List Bytes → Db → Result
  unfolding get_as_dict value_of
  exec_h_vals now [] db = panics
  exec_h_vals now (key ∷ args) db =
      with_hash (get_as_dict now key db) empty_multi_bulk
        λ d db1. returns (multi_bulk (map value_of (order d)), db1)

  unfoldable pub exec_h_get_all : ℤ → List Bytes → Db → Result
  unfolding get_as_dict flat_pairs
  exec_h_get_all now [] db = panics
  exec_h_get_all now (key ∷ args) db =
      with_hash (get_as_dict now key db) empty_multi_bulk
        λ d db1. returns (multi_bulk (flat_pairs (order d)), db1)
