-- ===== src/Database/ListCommands.antt =====
-- database/list.go: the commands on lists. A command that changes a list changes the object that the key's
-- entity holds; here the changed list is written back under the key. That two keys hold one object, as
-- after COPY, is not modelled. Change has the commands that insert and remove by position or value, Undo
-- the undo logs. `grow` is the capacity that `append` chooses for a page.
pub mod Change
pub mod Undo
pub mod Laws
pub mod Range
mod Tests
use godis.Base.{
  ℕ, zero, suc, ◌+◌, ◌-◌, Bool, true, false, Option, none, some, List, [], ◌∷◌, Bytes, codes, ltb,
  leb, ◌==◌, if◌then◌else◌, min,
}
use godis.Base.Int.{ℤ, pos, negsuc, ltb_ℤ, sub_ℕ}
use godis.Base.Outcome.{Outcome, returns, panics, ◌>>=◌}
use godis.Strconv.{parse_int}
use godis.Protocol.{Reply, null_bulk, bulk, int, multi_bulk, empty_multi_bulk, wrong_type_err}
use godis.Dict.{insert}
use godis.Utils.{to_cmd_line3}
use godis.QuickList.{QuickList}
use godis.QuickList.Ops.{
  new_quick_list, quick_list_len, get, remove_at, remove_last, add, insert_at,
}
use godis.QuickList.Scan.{range}
use godis.Database.{
  Data, text, quick_list, hash_table, other, CmdLine, Db, Result, get_entity, put_entity, remove,
  add_aof,
}
use godis.Database.String.Number.{not_an_integer}

abbrev pub Items : Type 0
Items = QuickList (Option Bytes)

-- What `getAsList` returns: its error, or a list, nil as `none`.
pub data Fetched : Type 0 where
  wrong_type : Fetched
  list : Option Items → Fetched

unfoldable pub as_list : Option Data → Fetched
as_list none = list none
as_list (some (text b)) = wrong_type
as_list (some (quick_list l)) = list (some l)
as_list (some (hash_table d)) = wrong_type
as_list (some (other kind n)) = wrong_type

fetched : Option Data × Db → Fetched × Db
unfolding as_list
fetched (entity, db) = (as_list entity, db)

unfoldable pub get_as_list : ℤ → Bytes → Db → Fetched × Db
unfolding fetched
get_as_list now key db = fetched (get_entity now key db)

-- The code behind `getAsList`: without a list it replies, and changes nothing.
abbrev pub with_list : Fetched × Db → Reply → (Items → Db → Result) → Result
with_list (wrong_type, db) missing f = returns (wrong_type_err, db)
with_list (list none, db) missing f = returns (missing, db)
with_list (list (some l), db) missing f = f l db

-- The object that the key holds has changed.
unfoldable pub write_list : Bytes → Items → Db → Db
write_list key l db = record db { data_map = insert db.data_map key (quick_list l) }

-- The code behind `getOrInitList`, which puts an empty list under the key where there is none.
abbrev pub with_init : Bytes → Fetched × Db → (Items → Db → Result) → Result
with_init key (wrong_type, db) f = returns (wrong_type_err, db)
with_init key (list none, db) f = f new_quick_list (put_entity key (quick_list new_quick_list) db).1
with_init key (list (some l), db) f = f l db

-- An index from the end is one from the front; `none` is out of range.
unfoldable pub real_index : ℕ → ℤ → Option ℤ
real_index size (pos i) = if ltb i size then some (pos i) else none
real_index size (negsuc i) = if ltb size (suc i) then none else some (pos (size - suc i))

index_reply : Items → Db → Option ℤ → Result
index_reply l db none = returns (null_bulk, db)
index_reply l db (some index) = do val ← get l index; returns (bulk val, db)

l_index_parsed : ℤ → Bytes → Option ℤ → Db → Result
unfolding index_reply get_as_list real_index not_an_integer
l_index_parsed now key none db = returns (not_an_integer, db)
l_index_parsed now key (some index) db =
    with_list (get_as_list now key db) null_bulk
      λ l db. index_reply l db (real_index (quick_list_len l) index)

unfoldable pub exec_l_index : ℤ → List Bytes → Db → Result
unfolding l_index_parsed
exec_l_index now (key ∷ index ∷ args) db = l_index_parsed now key (parse_int index) db
exec_l_index now _ db = panics

unfoldable pub exec_l_len : ℤ → List Bytes → Db → Result
unfolding get_as_list
exec_l_len now (key ∷ args) db =
    with_list (get_as_list now key db) (int (pos 0))
      λ l db. returns (int (pos (quick_list_len l)), db)
exec_l_len now [] db = panics

-- `if list.Len() == 0 { db.Remove(key) }`
unfoldable pub keep_list : Bytes → Items → Db → Db
unfolding write_list
keep_list key l db = if quick_list_len l == 0 then remove key db else write_list key l db

-- `list.Remove(0)`, so many times
unfoldable pub pops : ℕ → Items → Outcome (List (Option Bytes) × Items)
pops zero l = returns ([], l)
pops (suc n) l = do
  (val, l1) ← remove_at l (pos 0)
  (vals, l2) ← pops n l1
  returns (val ∷ vals, l2)

as_bytes : Option (Option Bytes) → Outcome (Option Bytes)
as_bytes none = panics
as_bytes (some val) = returns val

-- `list.RemoveLast().([]byte)`, so many times
unfoldable pub pops_last : ℕ → Items → Outcome (List (Option Bytes) × Items)
unfolding as_bytes
pops_last zero l = returns ([], l)
pops_last (suc n) l = do
  (last, l1) ← remove_last l
  val ← as_bytes last
  (vals, l2) ← pops_last n l1
  returns (val ∷ vals, l2)

-- LPOP and RPOP with a count: a negative one panics in `make`.
pop_some :
    (ℕ → Items → Outcome (List (Option Bytes) × Items))
    → Bytes
    → CmdLine
    → Option ℤ
    → Items
    → Db
    → Result
unfolding keep_list not_an_integer
pop_some pop key line none l db = returns (not_an_integer, db)
pop_some pop key line (some (negsuc n)) l db = panics
pop_some pop key line (some (pos n)) l db = do
  (vals, l1) ← pop (min n (quick_list_len l)) l
  returns (multi_bulk vals, add_aof line (keep_list key l1 db))

pop_one : Bytes → CmdLine → Items → Db → Result
unfolding keep_list
pop_one key line l db = do
  (val, l1) ← remove_at l (pos 0)
  returns (bulk val, add_aof line (keep_list key l1 db))

unfoldable pub exec_l_pop : ℤ → List Bytes → Db → Result
unfolding pop_some pop_one pops get_as_list
exec_l_pop now [] db = panics
exec_l_pop now (key ∷ count ∷ []) db =
    with_list (get_as_list now key db) null_bulk
      (pop_some pops key (to_cmd_line3 (codes "lpop") (key ∷ count ∷ [])) (parse_int count))
exec_l_pop now (key ∷ args) db =
    with_list (get_as_list now key db) null_bulk
      (pop_one key (to_cmd_line3 (codes "lpop") (key ∷ args)))

-- `val, _ := list.RemoveLast().([]byte)`: of nil, a nil slice.
unfoldable pub or_nil : Option (Option Bytes) → Option Bytes
or_nil none = none
or_nil (some val) = val

pop_one_last : Bytes → CmdLine → Items → Db → Result
unfolding keep_list or_nil
pop_one_last key line l db = do
  (last, l1) ← remove_last l
  returns (bulk (or_nil last), add_aof line (keep_list key l1 db))

unfoldable pub exec_r_pop : ℤ → List Bytes → Db → Result
unfolding pop_some pop_one_last pops_last get_as_list
exec_r_pop now [] db = panics
exec_r_pop now (key ∷ count ∷ []) db =
    with_list (get_as_list now key db) null_bulk
      (pop_some pops_last key (to_cmd_line3 (codes "rpop") (key ∷ count ∷ [])) (parse_int count))
exec_r_pop now (key ∷ args) db =
    with_list (get_as_list now key db) null_bulk
      (pop_one_last key (to_cmd_line3 (codes "rpop") (key ∷ args)))

-- The bounds of LRANGE behind `ParseInt`, as a slice; `none` when the start is past the end.
unfoldable pub range_start : ℕ → ℤ → Option ℕ
range_start size (pos i) = if ltb i size then some i else none
range_start size (negsuc i) = if ltb size (suc i) then some 0 else some (size - suc i)

unfoldable pub range_stop : ℕ → ℤ → ℕ
range_stop size (pos i) = if ltb i size then i + 1 else size
range_stop size (negsuc i) = if ltb size (suc i) then 0 else size - suc i + 1

unfoldable pub range_reply : Items → Db → ℤ → Option ℕ → Result
unfolding range_stop
range_reply l db stop none = returns (empty_multi_bulk, db)
range_reply l db stop (some start) =
    let stop1 = range_stop (quick_list_len l) stop in
    let stop2 = if ltb stop1 start then start else stop1 in
    do slice ← range l (pos start) (pos stop2); returns (multi_bulk slice, db)

unfoldable pub l_range_parsed : ℤ → Bytes → Option ℤ → Option ℤ → Db → Result
unfolding range_reply range_start get_as_list not_an_integer
l_range_parsed now key (some start) (some stop) db =
    with_list (get_as_list now key db) empty_multi_bulk
      λ l db. range_reply l db stop (range_start (quick_list_len l) start)
l_range_parsed now key _ _ db = returns (not_an_integer, db)

unfoldable pub exec_l_range : ℤ → List Bytes → Db → Result
unfolding l_range_parsed
exec_l_range now (key ∷ start ∷ stop ∷ args) db =
    l_range_parsed now key (parse_int start) (parse_int stop) db
exec_l_range now _ db = panics
