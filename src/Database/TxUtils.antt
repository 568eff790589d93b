-- ===== src/Database/TxUtils.antt =====
-- database/tx_utils.go: which keys a command writes and reads. `args[0]` panics without arguments.
use godis.Base.{List, [], ◌∷◌, Bytes}
use godis.Base.Outcome.{Outcome, returns, panics}
use godis.Database.Router.{Keys}

unfoldable pub read_first_key : List Bytes → Outcome Keys
read_first_key [] = panics
read_first_key (key ∷ args) = returns ([], key ∷ [])

unfoldable pub write_first_key : List Bytes → Outcome Keys
write_first_key [] = panics
write_first_key (key ∷ args) = returns (key ∷ [], [])

unfoldable pub write_all_keys : List Bytes → Outcome Keys
write_all_keys args = returns (args, [])

unfoldable pub read_all_keys : List Bytes → Outcome Keys
read_all_keys args = returns ([], args)

unfoldable pub no_prepare : List Bytes → Outcome Keys
no_prepare args = returns ([], [])

unfoldable pub prepare_set_calculate : List Bytes → Outcome Keys
prepare_set_calculate args = returns ([], args)

unfoldable pub prepare_set_calculate_store : List Bytes → Outcome Keys
prepare_set_calculate_store [] = panics
prepare_set_calculate_store (dest ∷ args) = returns (dest ∷ [], args)
