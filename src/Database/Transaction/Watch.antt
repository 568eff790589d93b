-- ===== src/Database/Transaction/Watch.antt =====
-- database/transaction.go: WATCH and EXEC, with accesses of any connections in between.
use godis.Base.{ℕ, ◌%◌, ◌^◌, ◌≡◌, Bool, false, List, [], ◌∷◌, Bytes, ◌==◌, ◌||◌, not}
use godis.Dict.{Dict}
use godis.Database.{Db, get_version}
use godis.Database.Versions.{count}

-- The version that the key had is not the one that it has now.
moved : Db → Db → Bytes → Bool
unfolding get_version
moved db db' key = not (get_version key db == get_version key db')

any_of : (Bytes → Bool) → List Bytes → Bool
any_of test [] = false
any_of test (key ∷ keys) = test key || any_of test keys

-- What WATCH has recorded are the versions of `db`.
abbrev Recorded : Db → Dict ℕ → Type 0
Recorded db [] = Unit
Recorded db ((key, ver) ∷ watching) = (ver ≡ get_version key db) × Recorded db watching

-- Some key of the list was raised, and not exactly a multiple of 2^32 times.
unfoldable pub touched : List Bytes → List Bytes → Bool
unfolding any_of
touched keys raised = any_of (λ key. not (count key raised % 2 ^ 32 == 0)) keys
