-- ===== src/Database/HashCommands/Laws.antt =====
-- database/hash.go: HSET and the undo log that a transaction takes before it.
use godis.Base.{
  ◌<◌, ◌≡◌, refl, sym, ap, ◌∙◌, inl, inr, false, Option, none, some, [], ◌∷◌, Bytes, bytes_eq,
  bytes_eq_iff, bytes_eq_refl, Bool-cases, arith, length, ◌==◌, codes,
}
use godis.Base.Int.{ℤ, pos, negsuc}
use godis.Base.Outcome.{returns, Ends, Ends-bind, Ends-map}
use godis.Dict.{get, insert, delete, put}
use godis.Dict.Laws.{get-insert_same, get-insert_other, get-insert_self}
use godis.ConcurrentDict.Shards.{delete-absent}
use godis.Database.TxUtils.{write_first_key}
use godis.Database.Router.{
  Command, Table, exec_with_lock, to_lower, locked_found, run_executor, validate_arity,
}
use godis.Database.Transaction.{get_undo_logs, found_undo, run_undo}
use godis.Database.Transaction.Exec.{run_lines}
use godis.Database.{hash_table, CmdLine, Db, get_entity, add_aof, after}
use godis.Database.Expiry.{visible, get_entity-cases, get_entity_live, get_entity-visible}
use godis.Database.HashCommands.{
  Hash, get_as_dict, write_hash, keep_hash, remove_fields, exec_h_set, exec_h_del,
}
use godis.Database.HashCommands.Undo.{rollback_hash_fields, field_log, undo_h_set, undo_h_del}

-- As `init` registers them
abbrev pub h_set_command : Command
h_set_command = record {
  executor = some exec_h_set;
  prepare = some write_first_key;
  undo = some undo_h_set;
  arity = pos 4;
}

abbrev pub h_del_command : Command
h_del_command = record {
  executor = some exec_h_del;
  prepare = some write_first_key;
  undo = some undo_h_del;
  arity = negsuc 2;
}

-- A hash under the key, of the same fields and values.
abbrev pub SameHash : ℤ → Bytes → Hash → Db → Type 0
SameHash now key d db =
    (d' : Hash) × (visible now db key ≡ some (hash_table d'))
    × ((field : Bytes) → get d' field ≡ get d field)

delete-insert :
    (d : Hash) (field value : Bytes) → get d field ≡ none → delete (insert d field value) field ≡ d
unfolding insert delete
delete-insert d field value e =
    rw (bytes_eq_refl field)
      (ap (λ t. delete t field) (delete-absent d field e) ∙ delete-absent d field e)

insert-insert :
    (d : Hash) (field value old f : Bytes)
    → get d field ≡ some old
    → get (insert (insert d field value) field old) f ≡ get d f
insert-insert d field value old f e = elim (Bool-cases (bytes_eq field f)) [
  | inl same ↦
      rw
        (
          get-insert_same (insert d field value) field f old same,
          ← (bytes_eq_iff field f).0 same,
          e,
        )
        refl
  | inr no_field ↦
      rw
        (
          get-insert_other (insert d field value) field f old no_field,
          get-insert_other d field f value no_field,
        )
        refl
]

-- The hash is found, and nothing is removed.
record Found (now : ℤ) (key : Bytes) (d : Hash) (db : Db) : Type 0 where
  found : get_entity now key db ≡ (some (hash_table d), db)
  live : after now (get db.ttl_map key) ≡ false

visible-Found :
    (now : ℤ) (key : Bytes) (d : Hash) (db : Db)
    → visible now db key ≡ some (hash_table d)
    → Found now key d db
visible-Found now key d db v = elim (get_entity-cases now key db) [
  | inl (db1, g, gone, same) ↦ absurd (cc)
  | inr (e, g, seen, held, live) ↦
      let same : some e ≡ some (hash_table d) = sym seen ∙ v in
      record { found = g ∙ ap (λ o. (o, db)) same; live = live }
]

write_hash-Found :
    (now : ℤ) (key : Bytes) (d d' : Hash) (line : CmdLine) (db : Db)
    → Found now key d db
    → Found now key d' (add_aof line (write_hash key d' db))
unfolding add_aof write_hash
write_hash-Found now key d d' line db f = record {
  found =
      get_entity_live now key (add_aof line (write_hash key d' db)) f.live
      ∙ rw (get-insert_self db.data_map key (hash_table d')) refl;
  live = f.live;
}

Found-SameHash :
    (now : ℤ) (key : Bytes) (d d' : Hash) (db : Db)
    → Found now key d' db
    → ((field : Bytes) → get d' field ≡ get d field)
    → SameHash now key d db
Found-SameHash now key d d' db f same =
    (d', sym (get_entity-visible now now key key db (omega arith)).0 ∙ ap (λ p. p.0) f.found, same)

abbrev pub h_set_line : Bytes → Bytes → Bytes → CmdLine
h_set_line key field value = codes "HSET" ∷ key ∷ field ∷ value ∷ []

exec_h_set_lem :
    (cmd_table : Table) (now : ℤ) (key field value : Bytes) (d : Hash) (db : Db)
    → cmd_table (codes "hset") ≡ some h_set_command
    → Found now key d db
    → Ends
        (λ r. Found now key (insert d field value) r.1)
        (exec_with_lock cmd_table now (h_set_line key field value) db)
unfolding exec_with_lock to_lower locked_found run_executor validate_arity exec_h_set get_as_dict
    put
exec_h_set_lem cmd_table now key field value d db e f =
    rw (e, f.found) (write_hash-Found now key d (insert d field value) _ db f)

exec_h_del_lem :
    (cmd_table : Table) (now : ℤ) (key field : Bytes) (d d' : Hash) (value : Bytes) (db : Db)
    → cmd_table (codes "hdel") ≡ some h_del_command
    → Found now key d db
    → get d field ≡ some value
    → delete d field ≡ d'
    → 0 < length d'
    → Ends
        (λ r. Found now key d' r.1)
        (exec_with_lock cmd_table now (codes "HDEL" ∷ key ∷ field ∷ []) db)
unfolding exec_with_lock to_lower locked_found run_executor validate_arity exec_h_del get_as_dict
    remove_fields keep_hash
exec_h_del_lem cmd_table now key field d d' value db e f held gone some_fields =
    let full : (length d' == 0) ≡ false = ground arith in
    rw (e, f.found, held, gone, full) (write_hash-Found now key d d' _ db f)

undo_log_lem :
    (cmd_table : Table) (now : ℤ) (key field value : Bytes) (d : Hash) (db : Db)
    → cmd_table (codes "hset") ≡ some h_set_command
    → Found now key d db
    → get_undo_logs cmd_table now (h_set_line key field value) db
      ≡ returns (field_log key field (get d field) ∷ [], db)
unfolding get_undo_logs found_undo run_undo to_lower undo_h_set rollback_hash_fields get_as_dict
undo_log_lem cmd_table now key field value d db e f = rw (e, f.found) refl

run_log-SameHash :
    (cmd_table : Table) (now : ℤ) (key field value : Bytes) (d : Hash) (db : Db) (o : Option Bytes)
    → cmd_table (codes "hset") ≡ some h_set_command
    → cmd_table (codes "hdel") ≡ some h_del_command
    → Found now key (insert d field value) db
    → get d field ≡ o
    → 0 < length d
    → Ends (SameHash now key d) (run_lines cmd_table now (field_log key field o ∷ []) db)
unfolding run_lines field_log
run_log-SameHash cmd_table now key field value d db none e e' f h some_fields =
    Ends-bind (λ r. Found now key d r.1) _
      (exec_with_lock cmd_table now (codes "HDEL" ∷ key ∷ field ∷ []) db) _
      (exec_h_del_lem cmd_table now key field (insert d field value) d value db e' f
        (get-insert_self d field value) (delete-insert d field value h) some_fields)
      (λ r f'. Found-SameHash now key d d r.1 f' (λ g. refl))
run_log-SameHash cmd_table now key field value d db (some old) e e' f h some_fields =
    Ends-bind (λ r. Found now key (insert (insert d field value) field old) r.1) _
      (exec_with_lock cmd_table now (h_set_line key field old) db) _
      (exec_h_set_lem cmd_table now key field old (insert d field value) db e f)
      (λ r f'. Found-SameHash now key d _ r.1 f' (λ g. insert-insert d field value old g h))

-- On a hash with fields, HSET is undone by the log that a transaction takes before it: after HSET and the
-- commands of the log the key shows a hash that has for every field what the hash had before.
pub undo_h_set-SameHash :
    (cmd_table : Table) (now : ℤ) (key field value : Bytes) (d : Hash) (db : Db)
    → cmd_table (codes "hset") ≡ some h_set_command
    → cmd_table (codes "hdel") ≡ some h_del_command
    → visible now db key ≡ some (hash_table d)
    → 0 < length d
    → Ends
        (λ taken.
          Ends
            (λ done. Ends (SameHash now key d) (run_lines cmd_table now taken.0 done.1))
            (exec_with_lock cmd_table now (h_set_line key field value) taken.1))
        (get_undo_logs cmd_table now (h_set_line key field value) db)
undo_h_set-SameHash cmd_table now key field value d db e e' v some_fields =
    let f = visible-Found now key d db v in
    rw (undo_log_lem cmd_table now key field value d db e f) (
      Ends-map (λ done. Found now key (insert d field value) done.1) _
        (exec_with_lock cmd_table now (h_set_line key field value) db)
        (exec_h_set_lem cmd_table now key field value d db e f)
        (λ done f'.
          run_log-SameHash cmd_table now key field value d done.1 (get d field) e e' f' refl
            some_fields))
