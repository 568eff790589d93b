-- ===== src/Database/ListCommands/Range.antt =====
-- database/list.go: LINDEX and LRANGE, by the elements of the list.
use godis.Base.{
  ℕ, zero, suc, ◌+◌, ◌-◌, ◌≤◌, ◌<◌, ◌≡◌, refl, ap, ◌∙◌, inl, inr, Bool, true, false, Option, none,
  some, List, [], ◌∷◌, Bytes, Bool-cases, if◌then◌else◌, arith, length, take, drop, ltb, leb, ◌&&◌,
}
use godis.Base.Int.{ℤ, pos, negsuc}
use godis.Base.Outcome.{returns, Ends}
use godis.Strconv.{parse_int, itoa}
use godis.Protocol.{multi_bulk, to_bytes, args_bytes}
use godis.QuickList.Spec
use godis.QuickList.View.{Represents}
use godis.QuickList.Ops.{quick_list_len}
use godis.QuickList.Sweep.{range-eq-range}
use godis.Database.{Db, Result, quick_list}
use godis.Database.Expiry.{visible}
use godis.Database.ListCommands.{
  Items, get_as_list, exec_l_range, l_range_parsed, range_reply, range_start, range_stop,
}
use godis.Database.ListCommands.Laws.{visible-Live}

-- Whether an index of the list lies behind a bound, which counts from the end when it is negative.
abbrev reaches : ℕ → ℤ → ℕ → Bool
reaches size (pos start) n = leb start n
reaches size (negsuc start) n = leb size (n + suc start)

abbrev stops : ℕ → ℤ → ℕ → Bool
stops size (pos stop) n = leb n stop
stops size (negsuc stop) n = leb (n + suc stop) size

-- The elements between two bounds, the one at index `n` being the first of those that are given.
abbrev pub between : ℕ → ℤ → ℤ → ℕ → List (Option Bytes) → List (Option Bytes)
between size start stop n [] = []
between size start stop n (x ∷ xs) =
    let rest = between size start stop (n + 1) xs in
    if reaches size start n && stops size stop n then x ∷ rest else rest

-- The same between two numbers, the second excluded.
within : ℕ → ℕ → ℕ → List (Option Bytes) → List (Option Bytes)
within lo hi n [] = []
within lo hi n (x ∷ xs) =
    let rest = within lo hi (n + 1) xs in if leb lo n && ltb n hi then x ∷ rest else rest

abbrev no_items : List (Option Bytes)
no_items = []

take-nil : (k : ℕ) → no_items ≡ take k no_items
take-nil zero = refl
take-nil (suc k) = refl

drop-nil : (k : ℕ) → no_items ≡ drop k no_items
drop-nil zero = refl
drop-nil (suc k) = refl

within-take :
    (lo hi n : ℕ) (xs : List (Option Bytes)) → lo ≤ n → within lo hi n xs ≡ take (hi - n) xs
unfolding within
within-take lo hi n [] le = take-nil (hi - n)
within-take lo hi n (x ∷ xs) le = elim (Bool-cases (ltb n hi)) [
  | inl below ↦
      let more : hi - n ≡ suc (hi - (n + 1)) = ground arith in
      let here : (leb lo n && ltb n hi) ≡ true = ground arith in
      rw (here, more) (ap (λ t. x ∷ t) (within-take lo hi (n + 1) xs (omega arith)))
  | inr past ↦
      let none_left : hi - n ≡ 0 = ground arith in
      let none_later : hi - (n + 1) ≡ 0 = ground arith in
      let out : (leb lo n && ltb n hi) ≡ false = ground arith in
      rw (out, none_left) (within-take lo hi (n + 1) xs (omega arith) ∙ rw none_later refl)
]

within-range :
    (lo hi n : ℕ) (xs : List (Option Bytes))
    → n ≤ lo
    → within lo hi n xs ≡ take (hi - lo) (drop (lo - n) xs)
unfolding within
within-range lo hi n [] le = take-nil (hi - lo) ∙ ap (take (hi - lo)) (drop-nil (lo - n))
within-range lo hi n (x ∷ xs) le = elim (Bool-cases (leb lo n)) [
  | inl at_lo ↦
      let none_left : lo - n ≡ 0 = ground arith in
      let same : hi - n ≡ hi - lo = ground arith in
      rw (none_left, ← same) (within-take lo hi n (x ∷ xs) (ground arith))
  | inr before ↦
      let more : lo - n ≡ suc (lo - (n + 1)) = ground arith in
      rw (before, more) (within-range lo hi (n + 1) xs (ground arith))
]

between-within :
    (size : ℕ) (start stop : ℤ) (lo hi n : ℕ) (xs : List (Option Bytes))
    → ((i : ℕ) → i < size → (reaches size start i && stops size stop i) ≡ (leb lo i && ltb i hi))
    → n + length xs ≡ size
    → between size start stop n xs ≡ within lo hi n xs
unfolding within
between-within size start stop lo hi n [] same e = refl
between-within size start stop lo hi n (x ∷ xs) same e =
    rw
      (
        same n (omega (arith, e)),
        between-within size start stop lo hi (n + 1) xs same (omega (arith, e)),
      )
      refl

between-slice :
    (start stop : ℤ) (lo hi : ℕ) (xs : List (Option Bytes))
    → ((i : ℕ)
        → i < length xs
        → (reaches (length xs) start i && stops (length xs) stop i) ≡ (leb lo i && ltb i hi))
    → between (length xs) start stop 0 xs ≡ take (hi - lo) (drop lo xs)
between-slice start stop lo hi xs same =
    let from_lo : lo - 0 ≡ lo = omega arith in
    between-within (length xs) start stop lo hi 0 xs same (omega arith)
    ∙ within-range lo hi 0 xs (omega arith)
    ∙ rw from_lo refl

-- The bounds that LRANGE computes
bounds-reach :
    (size : ℕ) (start stop : ℤ) (lo : ℕ)
    → range_start size start ≡ some lo
    → (i : ℕ) → i < size
    → (reaches size start i && stops size stop i)
      ≡ (leb lo i && ltb i (if ltb (range_stop size stop) lo then lo else range_stop size stop))
unfolding range_start range_stop
bounds-reach size (pos a) (pos b) lo e i lt = ground arith
bounds-reach size (pos a) (negsuc b) lo e i lt = ground arith
bounds-reach size (negsuc a) (pos b) lo e i lt = ground arith
bounds-reach size (negsuc a) (negsuc b) lo e i lt = ground arith

-- A start behind the last element leaves none.
between-nil :
    (size : ℕ) (start stop : ℤ) (n : ℕ) (xs : List (Option Bytes))
    → range_start size start ≡ none
    → n + length xs ≡ size
    → between size start stop n xs ≡ []
unfolding range_start
between-nil size start stop n [] e h = refl
between-nil size (pos a) stop n (x ∷ xs) e h =
    let out : reaches size (pos a) n ≡ false = ground (arith, h) in
    rw (out, between-nil size (pos a) stop (n + 1) xs e (omega (arith, h))) refl
between-nil size (negsuc a) stop n (x ∷ xs) e h = ground arith

range_slice :
    (xs : List (Option Bytes)) (lo hi : ℕ)
    → lo < length xs
    → hi ≤ length xs
    → lo ≤ hi
    → Spec.range xs (pos lo) (pos hi) ≡ returns (take (hi - lo) (drop lo xs))
range_slice xs lo hi a b c =
    let fits : (ltb lo (length xs) && (leb lo hi && leb hi (length xs))) ≡ true = ground arith in
    rw fits refl

start_lt : (size : ℕ) (start : ℤ) (lo : ℕ) → 0 < size → range_start size start ≡ some lo → lo < size
unfolding range_start
start_lt size (pos a) lo some_items e = ground arith
start_lt size (negsuc a) lo some_items e = ground arith

stop_le : (size : ℕ) (stop : ℤ) → range_stop size stop ≤ size
unfolding range_stop
stop_le size (pos a) = ground arith
stop_le size (negsuc a) = ground arith

-- The reply has the bytes of the list of these elements, and the database is as it was.
abbrev pub Replies : List (Option Bytes) → Db → Result → Type 0
Replies xs db = Ends (λ p. (to_bytes p.0 ≡ to_bytes (multi_bulk xs)) × (p.1 ≡ db))

list_size : (l : Items) (xs : List (Option Bytes)) → Represents l xs → quick_list_len l ≡ length xs
unfolding quick_list_len
list_size l xs h = h.counted

range_reply-Replies :
    (l : Items) (db : Db) (start stop : ℤ) (xs : List (Option Bytes)) (o : Option ℕ)
    → Represents l xs
    → range_start (length xs) start ≡ o
    → 0 < length xs
    → Replies (between (length xs) start stop 0 xs) db (range_reply l db stop o)
unfolding range_reply
range_reply-Replies l db start stop xs none h e some_items =
    rw (between-nil (length xs) start stop 0 xs e (omega arith))
      (unfold to_bytes args_bytes itoa in refl, refl)
range_reply-Replies l db start stop xs (some lo) h e some_items =
    let hi = (if ltb (range_stop (length xs) stop) lo then lo else range_stop (length xs) stop) in
    let lt = start_lt (length xs) start lo some_items e in
    rw
      (
        list_size l xs h,
        range-eq-range l xs (pos lo) (pos hi) h,
        range_slice xs lo hi lt (ground (arith, stop_le (length xs) stop, lt)) (ground arith),
        between-slice start stop lo hi xs (bounds-reach (length xs) start stop lo e),
      )
      (refl, refl)

-- LRANGE of a list that is visible and has elements replies the bytes of the elements between its bounds,
-- both included, a negative bound being counted from the end, and leaves the database as it is; it
-- never panics.
pub exec_l_range-Replies :
    (now : ℤ) (key from to : Bytes) (args : List Bytes) (start stop : ℤ) (l : Items)
    (xs : List (Option Bytes)) (db : Db)
    → parse_int from ≡ some start
    → parse_int to ≡ some stop
    → visible now db key ≡ some (quick_list l)
    → Represents l xs
    → 0 < length xs
    → Replies
        (between (length xs) start stop 0 xs)
        db
        (exec_l_range now (key ∷ from ∷ to ∷ args) db)
unfolding exec_l_range l_range_parsed get_as_list
exec_l_range-Replies now key from to args start stop l xs db e e' v h some_items =
    let live = visible-Live now key l xs db v h in
    rw (e, e', live.found, list_size l xs h)
      (range_reply-Replies l db start stop xs (range_start (length xs) start) h refl some_items)
