-- ===== src/Database/Transaction/Raised.antt =====
-- database/database.go and database/transaction.go: what connections do to the versions of keys between a
-- WATCH and its EXEC.
use godis.Base.{
  suc, length, subst, ◌+◌, ◌%◌, ◌^◌, ◌<◌, ◌≡◌, refl, ◌∙◌, inl, inr, Option, none, some, List, [],
  ◌∷◌, ◌++◌, Bytes, arith, Bool-cases,
}
use godis.Base.Int.{ℤ}
use godis.Base.Outcome.{Outcome, returns, panics, IfReturns}
use godis.Protocol.{Reply}
use godis.Dict.{get}
use godis.Database.Transaction.{related_keys, get_undo_logs, found_undo, run_undo}
use godis.Database.{run_task, remove, after, Db, CmdLine, Result, add_version, get_version}
use godis.Database.Transaction.Queue.{pick}
use godis.Database.Versions.{count, get_version-add_version}
use godis.Database.Router.{
  Command, Table, Keys, to_lower, validate_arity, run_prepare, run_executor, run_prepared,
  normal_found, exec_normal_command,
}

-- Executors leave the versions of the keys alone, and so do the functions that compute undo logs.
abbrev ExecutorKeeps : Option (ℤ → List Bytes → Db → Result) → Type 0
ExecutorKeeps none = Unit
ExecutorKeeps (some executor) =
    (now : ℤ) (args : List Bytes) (db : Db)
    → IfReturns (λ r. r.1.version_map ≡ db.version_map) (executor now args db)

abbrev UndoKeeps : Option (ℤ → List Bytes → Db → Outcome (List CmdLine × Db)) → Type 0
UndoKeeps none = Unit
UndoKeeps (some undo) =
    (now : ℤ) (args : List Bytes) (db : Db)
    → IfReturns (λ r. r.1.version_map ≡ db.version_map) (undo now args db)

abbrev FoundKeeps : Option Command → Type 0
FoundKeeps none = Unit
FoundKeeps (some cmd) = ExecutorKeeps cmd.executor × UndoKeeps cmd.undo

abbrev pub KeepsVersions : Table → Type 0
KeepsVersions cmd_table = (name : Bytes) → FoundKeeps (cmd_table name)

-- What connections do to the database, one access after the other, and the keys whose versions they raise on
-- the way. A command outside a transaction raises the versions of the keys that its `prepare` declares as
-- written and only then takes its locks and runs: anything may come between. EXEC computes the undo logs
-- of its commands and runs them, and raises the versions of all that they declare at its end; a rollback
-- runs commands. The callback of an expiry task may run between any two.
-- Any order of these accesses is allowed, also one that the locks exclude.
pub data Ran (cmd_table : Table) (db : Db) : List Bytes → Db → Type 0 where
  untouched : Ran cmd_table db [] db
  raises :
      {raised : List Bytes} {db1 : Db} {cmd : Command} {read : List Bytes} (name : Bytes)
      (args write : List Bytes)
      → Ran cmd_table db raised db1
      → cmd_table name ≡ some cmd
      → run_prepare cmd.prepare args ≡ returns (write, read)
      → Ran cmd_table db (raised ++ write) (add_version write db1)
  runs :
      {raised : List Bytes} {db1 db2 : Db} {cmd : Command} {reply : Reply} (now : ℤ) (name : Bytes)
      (args : List Bytes)
      → Ran cmd_table db raised db1
      → cmd_table name ≡ some cmd
      → run_executor cmd.executor now args db1 ≡ returns (reply, db2)
      → Ran cmd_table db raised db2
  undoes :
      {raised : List Bytes} {db1 db2 : Db} {logs : List CmdLine} (now : ℤ) (line : CmdLine)
      → Ran cmd_table db raised db1
      → get_undo_logs cmd_table now line db1 ≡ returns (logs, db2)
      → Ran cmd_table db raised db2
  commits :
      {raised : List Bytes} {db1 : Db} {read : List Bytes} (lines : List CmdLine)
      (write : List Bytes)
      → Ran cmd_table db raised db1
      → related_keys cmd_table lines ≡ returns (write, read)
      → Ran cmd_table db (raised ++ write) (add_version write db1)
  expires :
      {raised : List Bytes} {db1 : Db} (now : ℤ) (key : Bytes)
      → Ran cmd_table db raised db1
      → Ran cmd_table db raised (run_task now key db1)

same-get_version :
    (key : Bytes) (db db' : Db)
    → db'.version_map ≡ db.version_map
    → get_version key db' ≡ get_version key db
unfolding get_version
same-get_version key db db' e = rw e refl

count-append :
    (key : Bytes) (ks js : List Bytes) → count key (ks ++ js) ≡ count key ks + count key js
count-append key [] js = omega arith
count-append key (k ∷ ks) js = ground (arith, count-append key ks js)

-- A version is a uint32.
abbrev pub Words : Db → Type 0
Words db = (key : Bytes) → get_version key db < 2 ^ 32

abbrev pub Counted : Bytes → List Bytes → Db → Db → Type 0
Counted key writes db db' = get_version key db' ≡ (get_version key db + count key writes) % 2 ^ 32

run_executor-keeps :
    {cmd : Command} {reply : Reply} (cmd_table : Table) (now : ℤ) (name : Bytes) (args : List Bytes)
    (db : Db) {db' : Db}
    → KeepsVersions cmd_table
    → cmd_table name ≡ some cmd
    → run_executor cmd.executor now args db ≡ returns (reply, db')
    → db'.version_map ≡ db.version_map
run_executor-keeps {cmd} cmd_table now name args db keeps found e =
    subst (IfReturns (λ r. r.1.version_map ≡ db.version_map)) e
      (of_executor cmd.executor (subst FoundKeeps found (keeps name)).0)
  where
    of_executor :
        (o : Option (ℤ → List Bytes → Db → Result))
        → ExecutorKeeps o
        → IfReturns (λ r. r.1.version_map ≡ db.version_map) (run_executor o now args db)
    of_executor none k = unfold run_executor in tt
    of_executor (some executor) k = unfold run_executor in k now args db

get_undo_logs-keeps :
    {logs : List CmdLine} (cmd_table : Table) (now : ℤ) (line : CmdLine) (db : Db) {db' : Db}
    → KeepsVersions cmd_table
    → get_undo_logs cmd_table now line db ≡ returns (logs, db')
    → db'.version_map ≡ db.version_map
get_undo_logs-keeps cmd_table now line db keeps e =
    subst (IfReturns (λ r. r.1.version_map ≡ db.version_map)) e (of_line line)
  where
    of_undo :
        (args : List Bytes) (o : Option (ℤ → List Bytes → Db → Outcome (List CmdLine × Db)))
        → UndoKeeps o
        → IfReturns (λ r. r.1.version_map ≡ db.version_map) (run_undo o now args db)
    of_undo args none k = unfold run_undo in refl
    of_undo args (some undo) k = unfold run_undo in k now args db

    of_found :
        (args : List Bytes) (o : Option Command)
        → FoundKeeps o
        → IfReturns (λ r. r.1.version_map ≡ db.version_map) (found_undo o now args db)
    of_found args none k = unfold found_undo in refl
    of_found args (some cmd) k = unfold found_undo in of_undo args cmd.undo k.1

    of_line :
        (line : CmdLine)
        → IfReturns (λ r. r.1.version_map ≡ db.version_map) (get_undo_logs cmd_table now line db)
    of_line [] = unfold get_undo_logs in tt
    of_line (name ∷ args) =
        unfold get_undo_logs in of_found args (cmd_table (to_lower name)) (keeps (to_lower name))

run_task-keeps :
    (now : ℤ) (key : Bytes) (db : Db) → (run_task now key db).version_map ≡ db.version_map
unfolding run_task remove
run_task-keeps now key db = elim (Bool-cases (after now (get db.ttl_map key))) [
  | inl late ↦ simp late refl
  | inr early ↦ simp early refl
]

-- An access that leaves the versions alone, and one that raises those of `write`
Counted-same :
    (key : Bytes) (raised : List Bytes) (db db1 db2 : Db)
    → Counted key raised db db1
    → db2.version_map ≡ db1.version_map
    → Counted key raised db db2
Counted-same key raised db db1 db2 c e = same-get_version key db1 db2 e ∙ c

Counted-more :
    (key : Bytes) (raised write : List Bytes) (db db1 : Db)
    → Counted key raised db db1
    → Counted key (raised ++ write) db (add_version write db1)
Counted-more key raised write db db1 c =
    let more = get_version-add_version key write db1 (omega (arith, c)) in
    omega (arith, c, more, count-append key raised write)

-- A version counts the times that its key was raised.
pub Ran-Counted :
    {cmd_table : Table} {db : Db} {raised : List Bytes} {db' : Db} (key : Bytes)
    → KeepsVersions cmd_table
    → get_version key db < 2 ^ 32
    → Ran cmd_table db raised db'
    → Counted key raised db db'
Ran-Counted key keeps word untouched = omega arith
Ran-Counted {cmd_table} {db} key keeps word (raises {raised} {db1} name args write ran found e) =
    Counted-more key raised write db db1 (Ran-Counted key keeps word ran)
Ran-Counted {cmd_table} {db} key keeps word (runs {raised} {db1} {db2} now name args ran found e) =
    Counted-same key raised db db1 db2 (Ran-Counted key keeps word ran)
      (run_executor-keeps cmd_table now name args db1 keeps found e)
Ran-Counted {cmd_table} {db} key keeps word (undoes {raised} {db1} {db2} now line ran e) =
    Counted-same key raised db db1 db2 (Ran-Counted key keeps word ran)
      (get_undo_logs-keeps cmd_table now line db1 keeps e)
Ran-Counted {cmd_table} {db} key keeps word (commits {raised} {db1} lines write ran e) =
    Counted-more key raised write db db1 (Ran-Counted key keeps word ran)
Ran-Counted {cmd_table} {db} key keeps word (expires {raised} {db1} now task_key ran) =
    Counted-same key raised db db1 (run_task now task_key db1) (Ran-Counted key keeps word ran)
      (run_task-keeps now task_key db1)

-- A command outside a transaction is made of such accesses.
pub exec_normal_command-Ran :
    (cmd_table : Table) (now : ℤ) (line : CmdLine) (db : Db)
    → IfReturns
        (λ r. (raised : List Bytes) × Ran cmd_table db raised r.1)
        (exec_normal_command cmd_table now line db)
unfolding exec_normal_command
exec_normal_command-Ran cmd_table now [] db = tt
exec_normal_command-Ran cmd_table now (name ∷ args) db = of_found (cmd_table (to_lower name)) refl
  where
    of_keys :
        (cmd : Command) (keys : Outcome Keys)
        → cmd_table (to_lower name) ≡ some cmd
        → run_prepare cmd.prepare args ≡ keys
        → IfReturns
            (λ r. (raised : List Bytes) × Ran cmd_table db raised r.1)
            (run_prepared cmd.executor now args db keys)
    of_keys cmd panics found e = unfold run_prepared in tt
    of_keys cmd (returns (write, read)) found e =
        unfold run_prepared in
        of_result cmd write found (raises (to_lower name) args write untouched found e)
          (run_executor cmd.executor now args (add_version write db)) refl
      where
        of_result :
            (cmd : Command) (write : List Bytes)
            → cmd_table (to_lower name) ≡ some cmd
            → Ran cmd_table db write (add_version write db)
            → (r : Result) → run_executor cmd.executor now args (add_version write db) ≡ r
            → IfReturns (λ r. (raised : List Bytes) × Ran cmd_table db raised r.1) r
        of_result cmd write found ran panics e' = tt
        of_result cmd write found ran (returns (reply, db')) e' =
            (write, runs now (to_lower name) args ran found e')

    of_found :
        (o : Option Command)
        → cmd_table (to_lower name) ≡ o
        → IfReturns
            (λ r. (raised : List Bytes) × Ran cmd_table db raised r.1)
            (normal_found o now (to_lower name) args db)
    of_found none found = unfold normal_found in ([], untouched)
    of_found (some cmd) found =
        unfold normal_found in
        pick (IfReturns (λ r. (raised : List Bytes) × Ran cmd_table db raised r.1))
          (validate_arity cmd.arity (suc (length args))) _ _
          (of_keys cmd (run_prepare cmd.prepare args) found refl) ([], untouched)
