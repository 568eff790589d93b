-- ===== src/Database/Router.antt =====
-- database/router.go and the `Exec` functions of database/database.go: the table of commands and how a
-- command line is looked up and run. A command that is registered as special has neither an executor nor
-- a `prepare`; calling a nil function panics. The executor and the undo function get `time.Now()`.
use godis.Base.{
  ℕ, suc, ◌+◌, Bool, Option, none, some, List, [], ◌∷◌, ◌++◌, Bytes, codes, leb, ◌==◌, ◌&&◌, length,
  if◌then◌else◌,
}
use godis.Base.Int.{ℤ, pos, negsuc}
use godis.Base.Outcome.{Outcome, returns, panics}
use godis.Protocol.{Reply, standard_err, arg_num_err}
use godis.Database.{Db, CmdLine, Result, add_version}

abbrev pub Keys : Type 0
Keys = List Bytes × List Bytes

pub record Command : Type 0 where
  pub executor : Option (ℤ → List Bytes → Db → Result)
  pub prepare : Option (List Bytes → Outcome Keys)
  pub undo : Option (ℤ → List Bytes → Db → Outcome (List CmdLine × Db))
  pub arity : ℤ

-- `cmdTable`
abbrev pub Table : Type 0
Table = Bytes → Option Command

-- `validateArity`, of the length of the whole command line
unfoldable pub validate_arity : ℤ → ℕ → Bool
validate_arity (pos n) arg_num = arg_num == n
validate_arity (negsuc n) arg_num = leb (suc n) arg_num

-- `strings.ToLower` of an ASCII string
unfoldable pub to_lower : Bytes → Bytes
to_lower [] = []
to_lower (c ∷ s) = (if leb b'A' c && leb c b'Z' then c + 32 else c) ∷ to_lower s

unfoldable pub unknown_command : Bytes → Reply
unknown_command name = standard_err (codes "ERR unknown command '" ++ (name ++ codes "'"))

unfoldable pub run_executor : Option (ℤ → List Bytes → Db → Result) → ℤ → List Bytes → Db → Result
run_executor none now args db = panics
run_executor (some executor) now args db = executor now args db

unfoldable pub run_prepare : Option (List Bytes → Outcome Keys) → List Bytes → Outcome Keys
run_prepare none args = panics
run_prepare (some prepare) args = prepare args

unfoldable pub run_prepared :
    Option (ℤ → List Bytes → Db → Result) → ℤ → List Bytes → Db → Outcome Keys → Result
unfolding add_version run_executor
run_prepared executor now args db panics = panics
run_prepared executor now args db (returns (write, read)) =
    run_executor executor now args (add_version write db)

unfoldable pub normal_found : Option Command → ℤ → Bytes → List Bytes → Db → Result
unfolding unknown_command validate_arity run_prepare run_prepared
normal_found none now name args db = returns (unknown_command name, db)
normal_found (some cmd) now name args db =
    if validate_arity cmd.arity (suc (length args))
    then run_prepared cmd.executor now args db (run_prepare cmd.prepare args)
    else returns (arg_num_err name, db)

-- As one step. In the code `addVersion` comes before the locks, which are then held until the command ends:
-- Transaction.Raised has the two as steps of their own.
unfoldable pub exec_normal_command : Table → ℤ → CmdLine → Db → Result
unfolding to_lower normal_found
exec_normal_command cmd_table now [] db = panics
exec_normal_command cmd_table now (name ∷ args) db =
    normal_found (cmd_table (to_lower name)) now (to_lower name) args db

unfoldable pub locked_found : Option Command → ℤ → Bytes → List Bytes → Db → Result
unfolding unknown_command validate_arity run_executor
locked_found none now name args db = returns (unknown_command name, db)
locked_found (some cmd) now name args db =
    if validate_arity cmd.arity (suc (length args))
    then run_executor cmd.executor now args db
    else returns (arg_num_err name, db)

unfoldable pub exec_with_lock : Table → ℤ → CmdLine → Db → Result
unfolding to_lower locked_found
exec_with_lock cmd_table now [] db = panics
exec_with_lock cmd_table now (name ∷ args) db =
    locked_found (cmd_table (to_lower name)) now (to_lower name) args db
