-- ===== src/Database/String/Number.antt =====
-- database/string.go: the commands that read a string as an int64. Their sums wrap around.
pub mod Laws
use godis.Base.{Option, none, some, List, [], ◌∷◌, Bytes, codes}
use godis.Base.Int.{ℤ, pos, negsuc, ◌+ℤ◌, ◌-ℤ◌}
use godis.Base.Outcome.{returns, panics}
use godis.Strconv.{parse_int, format_int, wrap64}
use godis.Protocol.{Reply, int, standard_err, bulk}
use godis.Utils.{to_cmd_line3}
use godis.Database.{CmdLine, Db, Result, add_aof}
use godis.Database.String.{get_as_string, with_string, store}

unfoldable pub not_an_integer : Reply
not_an_integer = standard_err (codes "ERR value is not an integer or out of range")

-- `PutEntity`, `addAof` and the reply.
unfoldable pub put_number : Bytes → CmdLine → Bytes → ℤ → Db → Result
unfolding store
put_number key line value z db = returns (int z, add_aof line (store key (some value) db))

unfoldable pub add_parsed : Bytes → CmdLine → (ℤ → ℤ) → Option ℤ → Db → Result
unfolding not_an_integer put_number
add_parsed key line f none db = returns (not_an_integer, db)
add_parsed key line f (some val) db = put_number key line (format_int (f val)) (f val) db

-- The branches of each executor behind `getAsString`: on a number, with what is done to it, and on no
-- value, with the bytes and the number that are set.
unfoldable pub update_number : Bytes → CmdLine → (ℤ → ℤ) → Bytes → ℤ → Option Bytes → Db → Result
unfolding add_parsed
update_number key line f value z none db = put_number key line value z db
update_number key line f value z (some b) db = add_parsed key line f (parse_int b) db

unfoldable pub exec_incr : ℤ → List Bytes → Db → Result
unfolding get_as_string update_number
exec_incr now [] db = panics
exec_incr now (key ∷ args) db = with_string (get_as_string now key db) (
    update_number key (to_cmd_line3 (codes "incr") (key ∷ args)) (λ val. wrap64 (val +ℤ pos 1))
      (codes "1") (pos 1))

unfoldable pub exec_decr : ℤ → List Bytes → Db → Result
unfolding get_as_string update_number
exec_decr now [] db = panics
exec_decr now (key ∷ args) db = with_string (get_as_string now key db) (
    update_number key (to_cmd_line3 (codes "decr") (key ∷ args)) (λ val. wrap64 (val -ℤ pos 1))
      (codes "-1") (negsuc 0))

unfoldable pub exec_incr_by : ℤ → List Bytes → Db → Result
unfolding get_as_string update_number not_an_integer
exec_incr_by now (key ∷ raw_delta ∷ args) db = elim (parse_int raw_delta) [
  | none ↦ returns (not_an_integer, db)
  | some delta ↦ with_string (get_as_string now key db) (
      update_number key (to_cmd_line3 (codes "incrby") (key ∷ raw_delta ∷ args))
        (λ val. wrap64 (val +ℤ delta)) raw_delta delta)
]
exec_incr_by now _ db = panics

unfoldable pub exec_decr_by : ℤ → List Bytes → Db → Result
unfolding get_as_string update_number not_an_integer
exec_decr_by now (key ∷ raw_delta ∷ args) db = elim (parse_int raw_delta) [
  | none ↦ returns (not_an_integer, db)
  | some delta ↦ with_string (get_as_string now key db) (
      update_number key (to_cmd_line3 (codes "decrby") (key ∷ raw_delta ∷ args))
        (λ val. wrap64 (val -ℤ delta)) (format_int (wrap64 (pos 0 -ℤ delta)))
        (wrap64 (pos 0 -ℤ delta)))
]
exec_decr_by now _ db = panics

-- `strconv.ParseFloat`, and the sum of two floats with `FormatFloat(_, 'f', -1, 64)`.
module _ {F : Type 0} (parse_float : Bytes → Option F) (format_sum : F → F → Bytes) where
  not_a_float : Reply
  not_a_float = standard_err (codes "ERR value is not a valid float")

  put_float : Bytes → CmdLine → Bytes → Db → Result
  unfolding store
  put_float key line value db =
      returns (bulk (some value), add_aof line (store key (some value) db))

  add_float : Bytes → CmdLine → F → Option F → Db → Result
  unfolding put_float not_a_float
  add_float key line delta none db = returns (not_a_float, db)
  add_float key line delta (some val) db = put_float key line (format_sum val delta) db

  update_float : Bytes → CmdLine → F → Bytes → Option Bytes → Db → Result
  unfolding add_float
  update_float key line delta value none db = put_float key line value db
  update_float key line delta value (some b) db = add_float key line delta (parse_float b) db

  unfoldable pub exec_incr_by_float : ℤ → List Bytes → Db → Result
  unfolding get_as_string update_float not_a_float
  exec_incr_by_float now (key ∷ raw_delta ∷ args) db = elim (parse_float raw_delta) [
    | none ↦ returns (not_a_float, db)
    | some delta ↦ with_string (get_as_string now key db) (
        update_float key (to_cmd_line3 (codes "incrbyfloat") (key ∷ raw_delta ∷ args)) delta
          raw_delta)
  ]
  exec_incr_by_float now _ db = panics
