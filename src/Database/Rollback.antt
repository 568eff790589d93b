-- ===== src/Database/Rollback.antt =====
-- database/tx_utils.go: the undo logs that save whole keys, with `EntityToCmd` of aof/marshal.go. `order` is the
-- order in which the runtime iterates over a map, and `saved` the command of a set or sorted set, whose
-- elements the model does not have. A nil element is saved as an empty one, whose bytes are the same.
use godis.Base.{ℕ, Bool, true, Option, none, some, List, [], ◌∷◌, ◌++◌, map, Bytes, codes}
use godis.Base.Int.{ℤ}
use godis.Base.Outcome.{Outcome, returns, panics, ◌>>=◌}
use godis.QuickList.Scan.{for_each}
use godis.Database.{Data, text, quick_list, hash_table, other, Kind, CmdLine, Db, get_entity}
use godis.Database.Keys.Expire.{to_ttl_cmd}
use godis.Database.ListCommands.{Items}
use godis.Database.ListCommands.Undo.{or_empty}
use godis.Database.HashCommands.{Hash, flat_pairs}

module _ (order : Hash → Hash) (saved : Bytes → Kind → ℕ → CmdLine) where
  string_to_cmd : Bytes → Option Bytes → CmdLine
  unfolding or_empty
  string_to_cmd key val = codes "SET" ∷ key ∷ or_empty val ∷ []

  -- The consumer of `listToCmd`
  put_arg : ℕ → Option Bytes → List Bytes → Bool × List Bytes
  unfolding or_empty
  put_arg i val args = (true, args ++ or_empty val ∷ [])

  list_to_cmd : Bytes → Items → Outcome CmdLine
  unfolding put_arg
  list_to_cmd key l = do args ← for_each put_arg l []; returns (codes "RPUSH" ∷ key ∷ args)

  hash_to_cmd : Bytes → Hash → CmdLine
  unfolding flat_pairs or_empty
  hash_to_cmd key d = codes "HMSET" ∷ key ∷ map or_empty (flat_pairs (order d))

  -- `EntityToCmd(key, entity).Args`
  unfoldable pub entity_to_cmd : Bytes → Data → Outcome CmdLine
  unfolding string_to_cmd list_to_cmd hash_to_cmd
  entity_to_cmd key (text val) = returns (string_to_cmd key val)
  entity_to_cmd key (quick_list l) = list_to_cmd key l
  entity_to_cmd key (hash_table d) = returns (hash_to_cmd key d)
  entity_to_cmd key (other kind n) = returns (saved key kind n)

  key_logs : Bytes → Option Data × Db → Outcome (List CmdLine × Db)
  unfolding entity_to_cmd to_ttl_cmd
  key_logs key (none, db) = returns ((codes "DEL" ∷ key ∷ []) ∷ [], db)
  key_logs key (some entity, db) = do
    line ← entity_to_cmd key entity
    returns ((codes "DEL" ∷ key ∷ []) ∷ line ∷ to_ttl_cmd key db ∷ [], db)

  unfoldable pub rollback_given_keys : ℤ → List Bytes → Db → Outcome (List CmdLine × Db)
  unfolding key_logs
  rollback_given_keys now [] db = returns ([], db)
  rollback_given_keys now (key ∷ keys) db = do
    (logs, db1) ← key_logs key (get_entity now key db)
    (rest, db2) ← rollback_given_keys now keys db1
    returns (logs ++ rest, db2)

  unfoldable pub rollback_first_key : ℤ → List Bytes → Db → Outcome (List CmdLine × Db)
  unfolding rollback_given_keys
  rollback_first_key now [] db = panics
  rollback_first_key now (key ∷ args) db = rollback_given_keys now (key ∷ []) db

  unfoldable pub undo_del : ℤ → List Bytes → Db → Outcome (List CmdLine × Db)
  unfolding rollback_given_keys
  undo_del now args db = rollback_given_keys now args db

  unfoldable pub undo_rename : ℤ → List Bytes → Db → Outcome (List CmdLine × Db)
  unfolding rollback_given_keys
  undo_rename now (src ∷ dest ∷ args) db = rollback_given_keys now (src ∷ dest ∷ []) db
  undo_rename now _ db = panics
