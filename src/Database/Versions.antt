-- ===== src/Database/Versions.antt =====
-- database/database.go: the versions of keys, by which WATCH finds that a key was written.
use godis.Base.{
  ℕ, suc, ◌+◌, ◌%◌, ◌^◌, ◌<◌, ◌≡◌, refl, ap, ◌∙◌, true, false, inl, inr, List, [], ◌∷◌, Bytes,
  bytes_eq, bytes_eq_iff, arith, Bool-cases, if◌then◌else◌,
}
use godis.Dict.Laws.{get-insert_same, get-insert_other}
use godis.Database.{Db, add_version, get_version, version_or_zero}

-- How often the key stands in the list.
abbrev pub count : Bytes → List Bytes → ℕ
count key [] = 0
count key (k ∷ keys) = let rest = count key keys in if bytes_eq k key then suc rest else rest

add_one-same :
    (key k : Bytes) (db : Db)
    → bytes_eq k key ≡ true
    → get_version key (add_version (k ∷ []) db) ≡ (get_version key db + 1) % 2 ^ 32
unfolding add_version get_version
add_one-same key k db e =
    rw
      (
        get-insert_same db.version_map k key ((get_version k db + 1) % 2 ^ 32) e,
        (bytes_eq_iff k key).0 e,
        version_or_zero,
      )
      refl

add_one-other :
    (key k : Bytes) (db : Db)
    → bytes_eq k key ≡ false
    → get_version key (add_version (k ∷ []) db) ≡ get_version key db
unfolding add_version get_version
add_one-other key k db e =
    rw (get-insert_other db.version_map k key ((get_version k db + 1) % 2 ^ 32) e) refl

-- Each time that a key stands in the write set of a command its version grows by one, modulo 2^32;
-- the version of a key that is not in it stays. The version that it has is a uint32.
pub get_version-add_version :
    (key : Bytes) (keys : List Bytes) (db : Db)
    → get_version key db < 2 ^ 32
    → get_version key (add_version keys db) ≡ (get_version key db + count key keys) % 2 ^ 32
unfolding add_version
get_version-add_version key [] db h = omega arith
get_version-add_version key (k ∷ keys) db h = elim (Bool-cases (bytes_eq k key)) [
  | inl e ↦
      let bumped = add_one-same key k db e in
      let rest =
        get_version-add_version key keys (add_version (k ∷ []) db) (omega (arith, bumped)) in
      rw e (omega (arith, bumped, rest))
  | inr e ↦
      let kept = add_one-other key k db e in
      rw e (
        get_version-add_version key keys (add_version (k ∷ []) db) (omega (arith, kept))
        ∙ ap (λ v. (v + count key keys) % 2 ^ 32) kept)
]
