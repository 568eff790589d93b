-- ===== src/Database/HashCommands/Undo.antt =====
-- database/hash.go and `rollbackHashFields` of database/tx_utils.go: the undo logs of the commands on hashes.
use godis.Base.{Option, none, some, List, [], ◌∷◌, Bytes, codes}
use godis.Base.Int.{ℤ}
use godis.Base.Outcome.{Outcome, returns, panics}
use godis.Dict.{get}
use godis.Database.{CmdLine, Db}
use godis.Database.HashCommands.{Hash, Fetched, wrong_type, hash, get_as_dict}

abbrev pub Logs : Type 0
Logs = Outcome (List CmdLine × Db)

unfoldable pub field_log : Bytes → Bytes → Option Bytes → CmdLine
field_log key field none = codes "HDEL" ∷ key ∷ field ∷ []
field_log key field (some value) = codes "HSET" ∷ key ∷ field ∷ value ∷ []

field_logs : Bytes → Hash → List Bytes → List CmdLine
unfolding field_log
field_logs key d [] = []
field_logs key d (field ∷ fields) = field_log key field (get d field) ∷ field_logs key d fields

logs_of : Bytes → List Bytes → Fetched × Db → List CmdLine × Db
unfolding field_logs
logs_of key fields (wrong_type, db) = ([], db)
logs_of key fields (hash none, db) = ((codes "DEL" ∷ key ∷ []) ∷ [], db)
logs_of key fields (hash (some d), db) = (field_logs key d fields, db)

unfoldable pub rollback_hash_fields : ℤ → Bytes → List Bytes → Db → List CmdLine × Db
unfolding logs_of get_as_dict
rollback_hash_fields now key fields db = logs_of key fields (get_as_dict now key db)

unfoldable pub undo_h_set : ℤ → List Bytes → Db → Logs
unfolding rollback_hash_fields
undo_h_set now (key ∷ field ∷ args) db = returns (rollback_hash_fields now key (field ∷ []) db)
undo_h_set now _ db = panics

unfoldable pub undo_h_del : ℤ → List Bytes → Db → Logs
unfolding rollback_hash_fields
undo_h_del now [] db = panics
undo_h_del now (key ∷ fields) db = returns (rollback_hash_fields now key fields db)

-- The fields of HMSET; an argument without a partner is none.
first_of_pairs : List Bytes → List Bytes
first_of_pairs [] = []
first_of_pairs (field ∷ []) = []
first_of_pairs (field ∷ value ∷ args) = field ∷ first_of_pairs args

unfoldable pub undo_h_m_set : ℤ → List Bytes → Db → Logs
unfolding rollback_hash_fields first_of_pairs
undo_h_m_set now [] db = panics
undo_h_m_set now (key ∷ args) db = returns (rollback_hash_fields now key (first_of_pairs args) db)

unfoldable pub undo_h_incr : ℤ → List Bytes → Db → Logs
unfolding rollback_hash_fields
undo_h_incr now (key ∷ field ∷ args) db = returns (rollback_hash_fields now key (field ∷ []) db)
undo_h_incr now _ db = panics
