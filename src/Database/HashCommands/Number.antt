-- ===== src/Database/HashCommands/Number.antt =====
-- database/hash.go: HINCRBY and HINCRBYFLOAT. `parse_float` is `strconv.ParseFloat`, its error `none`, and
-- `format_sum` prints the sum of two floats; floats are a parameter.
use godis.Base.{Option, none, some, List, ◌∷◌, Bytes, codes}
use godis.Base.Int.{ℤ, ◌+ℤ◌}
use godis.Base.Outcome.{returns, panics}
use godis.Strconv.{parse_int, format_int, wrap64}
use godis.Protocol.{bulk, standard_err}
use godis.Dict.{get, insert}
use godis.Utils.{to_cmd_line3}
use godis.Database.{CmdLine, Db, Result, add_aof}
use godis.Database.String.Number.{not_an_integer}
use godis.Database.HashCommands.{Hash, get_as_dict, with_init, write_hash}

put_value : Bytes → Bytes → CmdLine → Bytes → Hash → Db → Result
unfolding write_hash
put_value key field line value d db =
    returns (bulk (some value), add_aof line (write_hash key (insert d field value) db))

add_value : Bytes → Bytes → CmdLine → ℤ → Option ℤ → Hash → Db → Result
unfolding put_value
add_value key field line delta none d db =
    returns (standard_err (codes "ERR hash value is not an integer"), db)
add_value key field line delta (some val) d db =
    put_value key field line (format_int (wrap64 (val +ℤ delta))) d db

incr_field : Bytes → Bytes → CmdLine → Bytes → ℤ → Option Bytes → Hash → Db → Result
unfolding add_value
incr_field key field line raw delta none d db = put_value key field line raw d db
incr_field key field line raw delta (some value) d db =
    add_value key field line delta (parse_int value) d db

incr_parsed : ℤ → Bytes → Bytes → CmdLine → Bytes → Option ℤ → Db → Result
unfolding incr_field get_as_dict not_an_integer
incr_parsed now key field line raw none db = returns (not_an_integer, db)
incr_parsed now key field line raw (some delta) db =
    with_init key (get_as_dict now key db)
      λ d db1. incr_field key field line raw delta (get d field) d db1

unfoldable pub exec_h_incr_by : ℤ → List Bytes → Db → Result
unfolding incr_parsed
exec_h_incr_by now (key ∷ field ∷ raw ∷ args) db =
    incr_parsed now key field (to_cmd_line3 (codes "hincrby") (key ∷ field ∷ raw ∷ args)) raw
      (parse_int raw) db
exec_h_incr_by now _ db = panics

module _ {F : Type 0} (parse_float : Bytes → Option F) (format_sum : F → F → Bytes) where
  add_float : Bytes → Bytes → CmdLine → F → Option F → Hash → Db → Result
  unfolding put_value
  add_float key field line delta none d db =
      returns (standard_err (codes "ERR hash value is not a float"), db)
  add_float key field line delta (some val) d db =
      put_value key field line (format_sum val delta) d db

  incr_float : Bytes → Bytes → CmdLine → Bytes → F → Option Bytes → Hash → Db → Result
  unfolding add_float
  incr_float key field line raw delta none d db = put_value key field line raw d db
  incr_float key field line raw delta (some value) d db =
      add_float key field line delta (parse_float value) d db

  float_parsed : ℤ → Bytes → Bytes → CmdLine → Bytes → Option F → Db → Result
  unfolding incr_float get_as_dict
  float_parsed now key field line raw none db =
      returns (standard_err (codes "ERR value is not a valid float"), db)
  float_parsed now key field line raw (some delta) db =
      with_init key (get_as_dict now key db)
        λ d db1. incr_float key field line raw delta (get d field) d db1

  unfoldable pub exec_h_incr_by_float : ℤ → List Bytes → Db → Result
  unfolding float_parsed
  exec_h_incr_by_float now (key ∷ field ∷ raw ∷ args) db =
      float_parsed now key field (to_cmd_line3 (codes "hincrbyfloat") (key ∷ field ∷ raw ∷ args))
        raw (parse_float raw) db
  exec_h_incr_by_float now _ db = panics
