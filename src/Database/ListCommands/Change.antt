-- ===== src/Database/ListCommands/Change.antt =====
-- database/list.go: LPUSH, RPUSH, LREM, LSET, RPOPLPUSH, LTRIM and LINSERT.
use godis.Base.{
  ℕ, zero, suc, ◌+◌, ◌^◌, Bool, true, false, Option, none, some, List, [], ◌∷◌, ◌++◌, Bytes, codes,
  bytes_eq, ◌==◌, ◌||◌, if◌then◌else◌, length, not,
}
use godis.Base.Int.{ℤ, pos, negsuc, ◌+ℤ◌, ◌-ℤ◌}
use godis.Base.Outcome.{Outcome, returns, panics, ◌>>=◌}
use godis.Strconv.{parse_int, itoa}
use godis.Protocol.{Reply, null_bulk, bulk, int, ok, standard_err}
use godis.Utils.{to_cmd_line3}
use godis.QuickList.Ops.{quick_list_len, set_at, remove_at, remove_last, add, insert_at}
use godis.QuickList.Scan.{remove_all_by_val, remove_by_val, reverse_remove_by_val, for_each}
use godis.Database.{CmdLine, Db, Result, add_aof}
use godis.Database.Router.{Keys, to_lower}
use godis.Database.String.Number.{not_an_integer}
use godis.Database.ListCommands.{
  Items, get_as_list, with_list, with_init, write_list, keep_list, real_index, or_nil,
}

module _ (grow : ℕ → ℕ → ℕ) where
  unfoldable pub push_front : List Bytes → Items → Outcome Items
  push_front [] l = returns l
  push_front (value ∷ values) l = do
    l1 ← insert_at grow l (pos 0) (some value)
    push_front values l1

  unfoldable pub push_back : List Bytes → Items → Items
  push_back [] l = l
  push_back (value ∷ values) l = push_back values (add grow l (some value))

  pushed : Bytes → CmdLine → Items → Db → Reply × Db
  unfolding write_list
  pushed key line l db = (int (pos (quick_list_len l)), add_aof line (write_list key l db))

  put_front : Bytes → List Bytes → CmdLine → Items → Db → Result
  unfolding push_front pushed
  put_front key values line l db = do l1 ← push_front values l; returns (pushed key line l1 db)

  put_back : Bytes → List Bytes → CmdLine → Items → Db → Result
  unfolding push_back pushed
  put_back key values line l db = returns (pushed key line (push_back values l) db)

  unfoldable pub exec_l_push : ℤ → List Bytes → Db → Result
  unfolding put_front get_as_list
  exec_l_push now [] db = panics
  exec_l_push now (key ∷ values) db =
      with_init key (get_as_list now key db)
        (put_front key values (to_cmd_line3 (codes "lpush") (key ∷ values)))

  unfoldable pub exec_l_push_x : ℤ → List Bytes → Db → Result
  unfolding put_front get_as_list
  exec_l_push_x now [] db = panics
  exec_l_push_x now (key ∷ values) db =
      with_list (get_as_list now key db) (int (pos 0))
        (put_front key values (to_cmd_line3 (codes "lpushx") (key ∷ values)))

  unfoldable pub exec_r_push : ℤ → List Bytes → Db → Result
  unfolding put_back get_as_list
  exec_r_push now [] db = panics
  exec_r_push now (key ∷ values) db =
      with_init key (get_as_list now key db)
        (put_back key values (to_cmd_line3 (codes "rpush") (key ∷ values)))

  unfoldable pub exec_r_push_x : ℤ → List Bytes → Db → Result
  unfolding put_back get_as_list
  exec_r_push_x now (key ∷ value ∷ values) db =
      with_list (get_as_list now key db) (int (pos 0))
        (put_back key (value ∷ values) (to_cmd_line3 (codes "rpushx") (key ∷ value ∷ values)))
  exec_r_push_x now _ db =
      returns (standard_err (codes "ERR wrong number of arguments for 'rpush' command"), db)

  abbrev pub prepare_r_pop_l_push : List Bytes → Outcome Keys
  prepare_r_pop_l_push (source ∷ dest ∷ args) = returns (source ∷ dest ∷ [], [])
  prepare_r_pop_l_push _ = panics

  -- Both keys may be the same, and then both lists are the same object.
  pop_push : Bytes → Bytes → CmdLine → Items → Items → Db → Result
  unfolding or_nil keep_list write_list
  pop_push source dest line source_list dest_list db = do
    (last, source1) ← remove_last source_list
    dest1 ←
        insert_at grow (if bytes_eq source dest then source1 else dest_list) (pos 0) (or_nil last)
    let source2 = (if bytes_eq source dest then dest1 else source1) in
        returns
          (bulk (or_nil last), add_aof line (keep_list source source2 (write_list dest dest1 db)))

  unfoldable pub exec_r_pop_l_push : ℤ → List Bytes → Db → Result
  unfolding pop_push get_as_list
  exec_r_pop_l_push now (source ∷ dest ∷ args) db =
      with_list (get_as_list now source db) null_bulk λ source_list db1.
        with_init dest (get_as_list now dest db1) (
          pop_push source dest (to_cmd_line3 (codes "rpoplpush") (source ∷ dest ∷ args))
            source_list)
  exec_r_pop_l_push now _ db = panics

  or_empty : Option Bytes → Bytes
  or_empty none = []
  or_empty (some val) = val

  find_pivot : Bytes → ℕ → Option Bytes → Option ℕ → Bool × Option ℕ
  unfolding or_empty
  find_pivot pivot i val found =
      if bytes_eq (or_empty val) pivot then (false, some i) else (true, found)

  insert_found : Bytes → CmdLine → Bool → Bytes → Items → Db → Option ℕ → Result
  unfolding write_list
  insert_found key line before val l db none = returns (int (negsuc 0), db)
  insert_found key line before val l db (some index) = do
    l1 ← insert_at grow l (pos (if before then index else index + 1)) (some val)
    returns (int (pos (quick_list_len l1)), add_aof line (write_list key l1 db))

  insert_beside : Bytes → Bytes → Bytes → Bytes → CmdLine → Items → Db → Result
  unfolding find_pivot insert_found
  insert_beside key dir pivot val line l db =
      if not (bytes_eq dir (codes "before") || bytes_eq dir (codes "after"))
      then returns (standard_err (codes "ERR syntax error"), db)
      else do
        found ← for_each (find_pivot pivot) l none
        insert_found key line (bytes_eq dir (codes "before")) val l db found

  unfoldable pub exec_l_insert : ℤ → List Bytes → Db → Result
  unfolding insert_beside get_as_list
  exec_l_insert now (key ∷ dir ∷ pivot ∷ val ∷ []) db =
      with_list (get_as_list now key db) (int (pos 0)) (
        insert_beside key (to_lower dir) pivot val
          (to_cmd_line3 (codes "linsert") (key ∷ dir ∷ pivot ∷ val ∷ [])))
  exec_l_insert now _ db =
      returns (standard_err (codes "ERR wrong number of arguments for 'linsert' command"), db)

-- `utils.Equals` of a byte slice and one that is not nil
unfoldable pub equals : Bytes → Option Bytes → Bool
equals value none = false
equals value (some a) = bytes_eq a value

-- The negation of -2^63 is itself, which no count of removed elements reaches: 0 stands for no limit.
negated : ℕ → ℕ
negated n = if suc n == 2 ^ 63 then 0 else suc n

remove_equal : ℤ → Bytes → Items → Outcome (ℕ × Items)
unfolding equals negated
remove_equal (pos zero) value l = remove_all_by_val (equals value) l
remove_equal (pos (suc n)) value l = remove_by_val (equals value) l (suc n)
remove_equal (negsuc n) value l = reverse_remove_by_val (equals value) l (negated n)

rem_reply : Bytes → CmdLine → ℕ × Items → Db → Reply × Db
unfolding keep_list
rem_reply key line (zero, l) db = (int (pos zero), keep_list key l db)
rem_reply key line (suc n, l) db = (int (pos (suc n)), add_aof line (keep_list key l db))

rem_parsed : ℤ → Bytes → Bytes → CmdLine → Option ℤ → Db → Result
unfolding remove_equal rem_reply get_as_list not_an_integer
rem_parsed now key value line none db = returns (not_an_integer, db)
rem_parsed now key value line (some count) db =
    with_list (get_as_list now key db) (int (pos 0))
      λ l db1. do removed ← remove_equal count value l; returns (rem_reply key line removed db1)

unfoldable pub exec_l_rem : ℤ → List Bytes → Db → Result
unfolding rem_parsed
exec_l_rem now (key ∷ count ∷ value ∷ args) db =
    rem_parsed now key value (to_cmd_line3 (codes "lrem") (key ∷ count ∷ value ∷ args))
      (parse_int count) db
exec_l_rem now _ db = panics

set_real : Bytes → Bytes → CmdLine → Items → Db → Option ℤ → Result
unfolding write_list
set_real key value line l db none = returns (standard_err (codes "ERR index out of range"), db)
set_real key value line l db (some index) = do
  l1 ← set_at l index (some value)
  returns (ok, add_aof line (write_list key l1 db))

set_parsed : ℤ → Bytes → Bytes → CmdLine → Option ℤ → Db → Result
unfolding set_real real_index get_as_list not_an_integer
set_parsed now key value line none db = returns (not_an_integer, db)
set_parsed now key value line (some index) db =
    with_list (get_as_list now key db) (standard_err (codes "ERR no such key"))
      λ l db1. set_real key value line l db1 (real_index (quick_list_len l) index)

unfoldable pub exec_l_set : ℤ → List Bytes → Db → Result
unfolding set_parsed
exec_l_set now (key ∷ index ∷ value ∷ args) db =
    set_parsed now key value (to_cmd_line3 (codes "lset") (key ∷ index ∷ value ∷ args))
      (parse_int index) db
exec_l_set now _ db = panics

-- The loops of LTRIM, of so many rounds at most
trim_left : ℕ → Items → Outcome Items
trim_left zero l = returns l
trim_left (suc n) l =
    if quick_list_len l == 0 then returns l else do (val, l1) ← remove_at l (pos 0); trim_left n l1

trim_right : ℕ → Items → Outcome Items
trim_right zero l = returns l
trim_right (suc n) l =
    if quick_list_len l == 0 then returns l else do (last, l1) ← remove_last l; trim_right n l1

-- A loop that counts up to a negative number has no rounds.
rounds : ℤ → ℕ
rounds (pos n) = n
rounds (negsuc n) = 0

from_end : ℕ → ℤ → ℤ
from_end size (pos n) = pos n
from_end size (negsuc n) = negsuc n +ℤ pos size

trim_list : Bytes → CmdLine → ℤ → ℤ → Items → Db → Result
unfolding trim_left trim_right rounds from_end write_list
trim_list key line start end l db =
    let size = quick_list_len l in
    do
      l1 ← trim_left (rounds (from_end size start)) l
      l2 ← trim_right (rounds (pos size -ℤ from_end size end -ℤ pos 1)) l1
      returns (ok, add_aof line (write_list key l2 db))

trim_parsed : ℤ → Bytes → CmdLine → Option ℤ → Option ℤ → Db → Result
unfolding trim_list get_as_list not_an_integer
trim_parsed now key line (some start) (some end) db =
    with_list (get_as_list now key db) ok (trim_list key line start end)
trim_parsed now key line _ _ db = returns (not_an_integer, db)

wrong_count : ℕ → Reply
wrong_count n =
    standard_err
      (codes "ERR wrong number of arguments (given " ++ (itoa n ++ codes ", expected 3)"))

unfoldable pub exec_l_trim : ℤ → List Bytes → Db → Result
unfolding trim_parsed wrong_count
exec_l_trim now (key ∷ start ∷ end ∷ []) db =
    trim_parsed now key (to_cmd_line3 (codes "ltrim") (key ∷ start ∷ end ∷ [])) (parse_int start)
      (parse_int end) db
exec_l_trim now args db = returns (wrong_count (length args), db)
