-- ===== src/Database/ListCommands/Undo.antt =====
-- database/list.go: the undo logs of the commands on lists. An element that is nil is logged as an empty
-- one: the bytes of both are the same.
use godis.Base.{
  ◌-◌, Option, none, some, List, [], ◌∷◌, map, reverse, Bytes, codes, ◌==◌, if◌then◌else◌, min,
}
use godis.Base.Int.{ℤ, pos, negsuc}
use godis.Base.Outcome.{Outcome, returns, panics, ◌>>=◌}
use godis.Strconv.{parse_int}
use godis.QuickList.Ops.{quick_list_len, get}
use godis.QuickList.Scan.{range}
use godis.Database.{CmdLine, Db}
use godis.Database.ListCommands.{Items, Fetched, wrong_type, list, get_as_list, real_index}

abbrev pub Logs : Type 0
Logs = Outcome (List CmdLine × Db)

unfoldable pub or_empty : Option Bytes → Bytes
or_empty none = []
or_empty (some val) = val

-- The code behind `getAsList`: without a list there is nothing to undo.
abbrev pub with_logs : Fetched × Db → (Items → Outcome (List CmdLine)) → Logs
with_logs (wrong_type, db) f = returns ([], db)
with_logs (list none, db) f = returns ([], db)
with_logs (list (some l), db) f = do logs ← f l; returns (logs, db)

unless_empty : Items → Outcome (List CmdLine) → Outcome (List CmdLine)
unless_empty l logs = if quick_list_len l == 0 then returns [] else logs

push_again : Bytes → Bytes → List (Option Bytes) → List CmdLine
unfolding or_empty
push_again name key vals = (name ∷ key ∷ map or_empty vals) ∷ []

-- `make` panics on a negative count.
lpop_logs : Bytes → Items → Option ℤ → Outcome (List CmdLine)
unfolding push_again
lpop_logs key l none = returns []
lpop_logs key l (some (negsuc n)) = panics
lpop_logs key l (some (pos n)) = do
  vals ← range l (pos 0) (pos (min n (quick_list_len l)))
  returns (push_again (codes "LPUSH") key (reverse vals))

first_log : Bytes → Bytes → Items → ℤ → Outcome (List CmdLine)
unfolding push_again
first_log name key l index = do val ← get l index; returns (push_again name key (val ∷ []))

unfoldable pub undo_l_pop : ℤ → List Bytes → Db → Logs
unfolding unless_empty lpop_logs first_log get_as_list
undo_l_pop now [] db = panics
undo_l_pop now (key ∷ count ∷ []) db =
    with_logs (get_as_list now key db) λ l. unless_empty l (lpop_logs key l (parse_int count))
undo_l_pop now (key ∷ args) db =
    with_logs (get_as_list now key db) λ l. unless_empty l (first_log (codes "LPUSH") key l (pos 0))

same_line : CmdLine → List Bytes → List CmdLine
same_line line [] = []
same_line line (value ∷ values) = line ∷ same_line line values

unfoldable pub undo_l_push : List Bytes → Db → Logs
unfolding same_line
undo_l_push [] db = panics
undo_l_push (key ∷ values) db = returns (same_line (codes "LPOP" ∷ key ∷ []) values, db)

unfoldable pub undo_r_push : List Bytes → Db → Logs
unfolding same_line
undo_r_push [] db = panics
undo_r_push (key ∷ values) db = returns (same_line (codes "RPOP" ∷ key ∷ []) values, db)

set_log : Bytes → Bytes → Items → Option ℤ → Outcome (List CmdLine)
unfolding or_empty
set_log key index l none = returns []
set_log key index l (some i) = do
  val ← get l i
  returns ((codes "LSET" ∷ key ∷ index ∷ or_empty val ∷ []) ∷ [])

set_logs : ℤ → Bytes → Bytes → Option ℤ → Db → Logs
unfolding set_log real_index get_as_list
set_logs now key index none db = returns ([], db)
set_logs now key index (some i) db =
    with_logs (get_as_list now key db) λ l. set_log key index l (real_index (quick_list_len l) i)

unfoldable pub undo_l_set : ℤ → List Bytes → Db → Logs
unfolding set_logs
undo_l_set now (key ∷ index ∷ args) db = set_logs now key index (parse_int index) db
undo_l_set now _ db = panics

rpop_logs : Bytes → Items → Option ℤ → Outcome (List CmdLine)
unfolding push_again
rpop_logs key l none = returns []
rpop_logs key l (some (negsuc n)) = panics
rpop_logs key l (some (pos n)) = do
  vals ← range l (pos (quick_list_len l - min n (quick_list_len l))) (pos (quick_list_len l))
  returns (push_again (codes "RPUSH") key vals)

unfoldable pub undo_r_pop : ℤ → List Bytes → Db → Logs
unfolding unless_empty rpop_logs first_log get_as_list
undo_r_pop now [] db = panics
undo_r_pop now (key ∷ count ∷ []) db =
    with_logs (get_as_list now key db) λ l. unless_empty l (rpop_logs key l (parse_int count))
undo_r_pop now (key ∷ args) db =
    with_logs (get_as_list now key db)
      λ l. unless_empty l (first_log (codes "RPUSH") key l (pos (quick_list_len l - 1)))

moved_logs : Bytes → Bytes → Items → Outcome (List CmdLine)
unfolding or_empty
moved_logs source dest l = do
  val ← get l (pos (quick_list_len l - 1))
  returns ((codes "RPUSH" ∷ source ∷ or_empty val ∷ []) ∷ (codes "LPOP" ∷ dest ∷ []) ∷ [])

unfoldable pub undo_r_pop_l_push : ℤ → List Bytes → Db → Logs
unfolding unless_empty moved_logs get_as_list
undo_r_pop_l_push now (source ∷ dest ∷ args) db =
    with_logs (get_as_list now source db) λ l. unless_empty l (moved_logs source dest l)
undo_r_pop_l_push now _ db = panics
