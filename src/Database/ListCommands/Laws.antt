-- ===== src/Database/ListCommands/Laws.antt =====
-- database/list.go: what the commands do to a list that is visible under a key, by the elements that its
-- pages represent.
use godis.Base.{
  ℕ, ◌≡◌, refl, sym, ap, ◌∙◌, subst, inl, inr, Bool, true, false, Option, none, some, List, [], ◌∷◌,
  ◌++◌, map, reverse, Bytes, bytes_eq, bytes_eq_iff, Bool-cases, if◌then◌else◌, arith, length,
  append_assoc, append-nil, ◌==◌, leb,
}
use godis.Base.Int.{ℤ, pos}
use godis.Base.Outcome.{Outcome, returns, panics, Ends, Ends-bind, Agrees, Agrees→Ends}
use mathlib.Core.List.{reverse-cons}
use godis.Protocol.{int, bulk}
use godis.Dict.{get}
use godis.Dict.Laws.{get-insert_same, get-insert_other}
use godis.QuickList.Spec
use godis.QuickList.View.{Represents}
use godis.QuickList.Ops.{quick_list_len, remove_at, remove_last, add, insert_at}
use godis.QuickList.Insert.{Enough}
use godis.QuickList.Edit.{add-Represents, insert_at-Agrees}
use godis.QuickList.Remove.{SameRemoval, Popped, remove_at-Agrees, remove_last-pop}
use godis.Database.{Data, quick_list, CmdLine, Db, Result, get_entity, add_aof, after}
use godis.Database.Expiry.{visible, get_entity-cases}
use godis.Database.Writes.{updated, over, visible-remove}
use godis.Database.ListCommands.{
  Items, write_list, keep_list, get_as_list, exec_l_pop, exec_r_pop, or_nil,
}
use godis.Database.ListCommands.Change.{push_front, push_back, exec_l_push, exec_r_push}

-- The key shows the list for as long as it would have shown the old one, and nothing else has changed.
abbrev pub Kept : Bytes → List (Option Bytes) → Db → Db → Type 0
Kept key xs db db' =
    (l : Items) × Represents l xs
    × ((t : ℤ) (j : Bytes)
        → visible t db' j ≡ updated key (over (quick_list l) (visible t db key)) (visible t db j) j)

-- Without elements, there is no key.
abbrev pub KeptOrGone : Bytes → List (Option Bytes) → Db → Db → Type 0
KeptOrGone key [] db db' =
    (t : ℤ) (j : Bytes) → visible t db' j ≡ updated key none (visible t db j) j
KeptOrGone key (x ∷ xs) db db' = Kept key (x ∷ xs) db db'

over_if :
    (b : Bool) (new d : Data)
    → (if b then none else some new) ≡ over new (if b then none else some d)
over_if true new d = refl
over_if false new d = refl

write_list-visible :
    (t : ℤ) (key j : Bytes) (l : Items) (db : Db) (d : Data)
    → get db.data_map key ≡ some d
    → visible t (write_list key l db) j
      ≡ updated key (over (quick_list l) (visible t db key)) (visible t db j) j
unfolding visible write_list
write_list-visible t key j l db d e = elim (Bool-cases (bytes_eq key j)) [
  | inl same ↦
      rw
        (
          same,
          get-insert_same db.data_map key j (quick_list l) same,
          ← (bytes_eq_iff key j).0 same,
          e,
        )
        (over_if (after t (get db.ttl_map key)) (quick_list l) d)
  | inr no_key ↦ rw (no_key, get-insert_other db.data_map key j (quick_list l) no_key) refl
]

-- The key holds a list that `xs` describes, and has not expired.
pub record Live (now : ℤ) (key : Bytes) (l : Items) (xs : List (Option Bytes)) (db : Db)
    : Type 0 where
  pub found : get_entity now key db ≡ (some (quick_list l), db)
  pub held : get db.data_map key ≡ some (quick_list l)
  pub represents : Represents l xs

pub visible-Live :
    (now : ℤ) (key : Bytes) (l : Items) (xs : List (Option Bytes)) (db : Db)
    → visible now db key ≡ some (quick_list l)
    → Represents l xs
    → Live now key l xs db
visible-Live now key l xs db v h = elim (get_entity-cases now key db) [
  | inl (db1, g, gone, same) ↦ absurd (cc)
  | inr (d, g, seen, held, live) ↦
      let e : some d ≡ some (quick_list l) = sym seen ∙ v in
      record { found = g ∙ ap (λ o. (o, db)) e; held = held ∙ e; represents = h }
]

write_list-Kept :
    (key : Bytes) (l : Items) (xs : List (Option Bytes)) (db : Db) (d : Data)
    → get db.data_map key ≡ some d
    → Represents l xs
    → Kept key xs db (write_list key l db)
write_list-Kept key l xs db d e h = (l, h, λ t j. write_list-visible t key j l db d e)

keep_list-KeptOrGone :
    (key : Bytes) (l : Items) (xs : List (Option Bytes)) (db : Db) (d : Data)
    → get db.data_map key ≡ some d
    → Represents l xs
    → KeptOrGone key xs db (keep_list key l db)
unfolding keep_list quick_list_len
keep_list-KeptOrGone key l [] db d e h =
    let empty : (l.size == 0) ≡ true = ground (arith, h.counted) in
    rw empty (λ t j. visible-remove t key j db)
keep_list-KeptOrGone key l (x ∷ xs) db d e h =
    let full : (l.size == 0) ≡ false = ground (arith, h.counted) in
    rw full (write_list-Kept key l (x ∷ xs) db d e h)

logged-KeptOrGone :
    (key : Bytes) (xs : List (Option Bytes)) (db db' : Db) (line : CmdLine)
    → KeptOrGone key xs db db'
    → KeptOrGone key xs db (add_aof line db')
unfolding add_aof visible
logged-KeptOrGone key [] db db' line h = h
logged-KeptOrGone key (x ∷ xs) db db' line h = h

abbrev pub PushAnswers : Bytes → List (Option Bytes) → Db → Result → Type 0
PushAnswers key xs db r = Ends (λ p. (p.0 ≡ int (pos (length xs))) × Kept key xs db p.1) r

push_back-Represents :
    (grow : ℕ → ℕ → ℕ) (values : List Bytes) (l : Items) (xs : List (Option Bytes))
    → Enough grow
    → Represents l xs
    → Represents (push_back grow values l) (xs ++ map some values)
unfolding push_back
push_back-Represents grow [] l xs enough h = rw (append-nil xs) h
push_back-Represents grow (v ∷ values) l xs enough h =
    subst (Represents (push_back grow values (add grow l (some v))))
      (append_assoc xs (some v ∷ []) (map some values))
      (push_back-Represents grow values (add grow l (some v)) (xs ++ some v ∷ []) enough
        (add-Represents grow enough l xs (some v) h))

exec_r_push-PushAnswers :
    (grow : ℕ → ℕ → ℕ) (now : ℤ) (key : Bytes) (values : List Bytes) (l : Items)
    (xs : List (Option Bytes)) (db : Db)
    → Enough grow
    → Live now key l xs db
    → PushAnswers key (xs ++ map some values) db (exec_r_push grow now (key ∷ values) db)
unfolding exec_r_push get_as_list quick_list_len
exec_r_push-PushAnswers grow now key values l xs db enough live =
    let h = push_back-Represents grow values l xs enough live.represents in
    rw live.found (
      ap (λ n. int (pos n)) h.counted,
      unfold add_aof visible in write_list-Kept key _ _ db (quick_list l) live.held h,
    )

insert_front-Represents :
    (grow : ℕ → ℕ → ℕ) (v : Option Bytes) (l : Items) (xs : List (Option Bytes))
    → Enough grow
    → Represents l xs
    → Ends (λ l1. Represents l1 (v ∷ xs)) (insert_at grow l (pos 0) v)
insert_front-Represents grow v l xs enough h =
    Agrees→Ends Represents (v ∷ xs) (insert_at grow l (pos 0) v) (
      subst (Agrees Represents (insert_at grow l (pos 0) v)) (insert_at-zero xs)
        (insert_at-Agrees grow enough l xs (pos 0) v h))
  where
    insert_at-zero : (ys : List (Option Bytes)) → Spec.insert_at ys (pos 0) v ≡ returns (v ∷ ys)
    insert_at-zero ys = let e : leb 0 (length ys) ≡ true = ground arith in rw e refl

push_front-Represents :
    (grow : ℕ → ℕ → ℕ) (values : List Bytes) (l : Items) (xs : List (Option Bytes))
    → Enough grow
    → Represents l xs
    → Ends (λ l1. Represents l1 (reverse (map some values) ++ xs)) (push_front grow values l)
unfolding push_front
push_front-Represents grow [] l xs enough h = h
push_front-Represents grow (v ∷ values) l xs enough h =
    Ends-bind (λ l1. Represents l1 (some v ∷ xs)) _ (insert_at grow l (pos 0) (some v))
      (push_front grow values) (insert_front-Represents grow (some v) l xs enough h)
      (λ l1 h1.
        rw
          (
            reverse-cons (some v) (map some values),
            append_assoc (reverse (map some values)) (some v ∷ []) xs,
          )
          (push_front-Represents grow values l1 (some v ∷ xs) enough h1))

exec_l_push-PushAnswers :
    (grow : ℕ → ℕ → ℕ) (now : ℤ) (key : Bytes) (values : List Bytes) (l : Items)
    (xs : List (Option Bytes)) (db : Db)
    → Enough grow
    → Live now key l xs db
    → PushAnswers key (reverse (map some values) ++ xs) db (exec_l_push grow now (key ∷ values) db)
unfolding exec_l_push get_as_list quick_list_len
exec_l_push-PushAnswers grow now key values l xs db enough live = rw live.found (
    Ends-bind (λ l1. Represents l1 (reverse (map some values) ++ xs)) _ (push_front grow values l) _
      (push_front-Represents grow values l xs enough live.represents)
      (λ l1 h. (
        ap (λ n. int (pos n)) h.counted,
        unfold add_aof visible in write_list-Kept key l1 _ db (quick_list l) live.held h,
      )))

-- A pop of a list replies the element and leaves the others; of a list without elements LPOP panics.
abbrev pub LpopAnswers : Bytes → List (Option Bytes) → Db → Result → Type 0
LpopAnswers key [] db r = r ≡ panics
LpopAnswers key (x ∷ xs) db r = Ends (λ p. (p.0 ≡ bulk x) × KeptOrGone key xs db p.1) r

exec_l_pop-LpopAnswers :
    (now : ℤ) (key : Bytes) (l : Items) (xs : List (Option Bytes)) (db : Db)
    → Live now key l xs db
    → LpopAnswers key xs db (exec_l_pop now (key ∷ []) db)
unfolding exec_l_pop get_as_list
exec_l_pop-LpopAnswers now key l [] db live =
    rw live.found (
      rw (Agrees-panics (remove_at l (pos 0)) (remove_at-Agrees l [] (pos 0) live.represents)) refl)
  where
    Agrees-panics : (m : Outcome (Option Bytes × Items)) → Agrees SameRemoval m panics → m ≡ panics
    Agrees-panics (returns p) h = absurd h
    Agrees-panics panics h = refl
exec_l_pop-LpopAnswers now key l (x ∷ xs) db live = rw live.found (
    Ends-bind (λ p. SameRemoval p (x, xs)) _ (remove_at l (pos 0)) _
      (Agrees→Ends SameRemoval (x, xs) (remove_at l (pos 0))
        (remove_at-Agrees l (x ∷ xs) (pos 0) live.represents))
      (λ (val, l1) (e, h). (
        ap bulk e,
        logged-KeptOrGone key xs db _ _
            (keep_list-KeptOrGone key l1 xs db (quick_list l) live.held h),
      )))

exec_r_pop-Ends :
    (now : ℤ) (key : Bytes) (l : Items) (xs : List (Option Bytes)) (db : Db)
    → Live now key l xs db
    → Ends
        (λ p. (p.0 ≡ bulk (or_nil (Spec.pop xs).0)) × KeptOrGone key (Spec.pop xs).1 db p.1)
        (exec_r_pop now (key ∷ []) db)
unfolding exec_r_pop get_as_list
exec_r_pop-Ends now key l xs db live = rw live.found (
    Ends-bind (Popped (Spec.pop xs)) _ (remove_last l) _ (remove_last-pop l xs live.represents)
      (λ (last, l1) (e, h). (
        ap (λ o. bulk (or_nil o)) e,
        logged-KeptOrGone key (Spec.pop xs).1 db _ _
            (keep_list-KeptOrGone key l1 (Spec.pop xs).1 db (quick_list l) live.held h),
      )))

-- What the commands that put and take elements at the ends do to a list of the elements `xs`.
pub record ListAnswers (grow : ℕ → ℕ → ℕ) (now : ℤ) (key : Bytes) (values : List Bytes)
    (xs : List (Option Bytes)) (db : Db) : Type 0 where
  pub rpush : PushAnswers key (xs ++ map some values) db (exec_r_push grow now (key ∷ values) db)
  pub lpush :
      PushAnswers key (reverse (map some values) ++ xs) db (exec_l_push grow now (key ∷ values) db)
  pub lpop : LpopAnswers key xs db (exec_l_pop now (key ∷ []) db)
  pub rpop :
      Ends
        (λ p. (p.0 ≡ bulk (or_nil (Spec.pop xs).0)) × KeptOrGone key (Spec.pop xs).1 db p.1)
        (exec_r_pop now (key ∷ []) db)

-- When a list is visible under a key: RPUSH puts the values behind its elements, LPUSH puts them before
-- them in turn, and both reply the new number of elements; LPOP and RPOP without a count reply the first
-- and the last element and take it out, and with the last element the key is gone. Any other key, and
-- the time at which the list expires, stays as it is. On a list without elements LPOP panics and RPOP
-- replies nil. The capacity that the runtime chooses for a page is enough.
pub end_commands-ListAnswers :
    (grow : ℕ → ℕ → ℕ) (now : ℤ) (key : Bytes) (values : List Bytes) (l : Items)
    (xs : List (Option Bytes)) (db : Db)
    → Enough grow
    → visible now db key ≡ some (quick_list l)
    → Represents l xs
    → ListAnswers grow now key values xs db
end_commands-ListAnswers grow now key values l xs db enough v h =
    let live = visible-Live now key l xs db v h in
    record {
      rpush = exec_r_push-PushAnswers grow now key values l xs db enough live;
      lpush = exec_l_push-PushAnswers grow now key values l xs db enough live;
      lpop = exec_l_pop-LpopAnswers now key l xs db live;
      rpop = exec_r_pop-Ends now key l xs db live;
    }
