-- ===== src/Database/String/Part/Laws.antt =====
-- database/string.go: APPEND, GETRANGE and SETRANGE on a string that is visible.
use godis.Base.{
  ℕ, suc, ◌+◌, ◌-◌, ◌≤◌, ◌≡◌, refl, sym, ap, ◌∙◌, inl, inr, Bool, true, false, ◌&&◌, Option, none,
  some, List, [], ◌∷◌, ◌++◌, append-nil, append_assoc, Bytes, arith, leb, ◌==◌, length,
  length-append, set, take, drop, take-append-drop, length-take, length-drop, Bool-cases, replicate,
  length-replicate,
}
use godis.Base.Int.{ℤ, pos}
use godis.Base.Outcome.{returns}
use godis.Strconv.{parse_int}
use godis.Protocol.{Reply, int, bulk, null_bulk}
use godis.Utils.{convert_range}
use godis.Utils.Range.{WithinSize, convert_range-WithinSize}
use godis.Database.{text, Db, Result}
use godis.Database.Expiry.{visible}
use godis.Database.Writes.{updated, over, add_aof-visible, store-over}
use godis.Database.String.{store}
use godis.Database.String.Laws.{Answers, get_as_string-text}
use godis.Database.String.Part.{
  append_bytes, put_length, exec_append, slice_of, slice_reply, bulk_of, get_range_of,
  exec_get_range, write_bytes, written, padded, set_range, exec_set_range,
}

-- The reply is the length of `b`, which replaces the value of the key under its expiry time.
abbrev pub SetsText : ℤ → Bytes → Db → Bytes → Result → Type 0
SetsText now key db b result =
    Answers (int (pos (length b))) now
      (λ t j. updated key (over (text (some b)) (visible t db key)) (visible t db j) j) result

put_length-SetsText :
    (now : ℤ) (key old b : Bytes) (line : List Bytes) (db : Db)
    → visible now db key ≡ some (text (some old))
    → SetsText now key db b (put_length key line (some b) db)
unfolding put_length
put_length-SetsText now key old b line db h = (
  refl,
  λ t j le.
      rw (add_aof-visible t line (store key (some b) db) j)
        (store-over now t key j (some b) db (text (some old)) h),
)

-- APPEND to a string that is visible puts the argument behind it, under its expiry time, and replies the
-- new length; the other keys are as before.
pub exec_append-SetsText :
    (now : ℤ) (key old value : Bytes) (args : List Bytes) (db : Db)
    → visible now db key ≡ some (text (some old))
    → SetsText now key db (old ++ value) (exec_append now (key ∷ value ∷ args) db)
unfolding exec_append append_bytes
exec_append-SetsText now key old value args db h =
    rw (get_as_string-text now key db (some old) h)
      (put_length-SetsText now key old (old ++ value) _ db h)

abbrev pub range_reply : Bytes → Option (ℕ × ℕ) → Reply
range_reply b none = null_bulk
range_reply b (some (beg, end)) = bulk (some (take (end - beg) (drop beg b)))

slice_reply-Answers :
    (now : ℤ) (b : Bytes) (o : Option (ℕ × ℕ)) (db : Db)
    → WithinSize (length b) o
    → Answers (range_reply b o) now (λ t. visible t db) (slice_reply b o db)
unfolding slice_reply slice_of bulk_of
slice_reply-Answers now b none db h = (refl, λ t j le. refl)
slice_reply-Answers now b (some (beg, end)) db (ordered, within) =
    let in_order : (leb beg end && leb end (length b)) ≡ true = ground arith in
    rw (in_order) (refl, λ t j le. refl)

-- GETRANGE on a string that is visible replies the slice between the bounds that `ConvertRange` gives,
-- or null where it gives none; it never slices out of range and no reader sees a difference.
pub exec_get_range-Answers :
    (now : ℤ) (key b raw_start raw_end : Bytes) (args : List Bytes) (start end : ℤ) (db : Db)
    → visible now db key ≡ some (text (some b))
    → parse_int raw_start ≡ some start
    → parse_int raw_end ≡ some end
    → Answers
        (range_reply b (convert_range start end (length b)))
        now
        (λ t. visible t db)
        (exec_get_range now (key ∷ raw_start ∷ raw_end ∷ args) db)
unfolding exec_get_range get_range_of
exec_get_range-Answers now key b raw_start raw_end args start end db h e e' =
    rw (e, exec_get_range)
      (rw e' (
        rw (get_as_string-text now key db (some b) h)
          (slice_reply-Answers now b _ db (convert_range-WithinSize start end (length b)))))

-- The loop behind the end of the slice, and from within it.
write_bytes_past : (n i : ℕ) (value b : Bytes) → n ≤ i → write_bytes n i value b ≡ b ++ value
unfolding write_bytes
write_bytes_past n i [] b h = sym (append-nil b)
write_bytes_past n i (v ∷ value) b h =
    let past : leb n i ≡ true = ground arith in
    rw past
      (write_bytes_past n (suc i) value (b ++ v ∷ []) (omega arith) ∙ append_assoc b (v ∷ []) value)

set-append :
    (front back : Bytes) (c v : ℕ) → set (front ++ c ∷ back) (length front) v ≡ front ++ v ∷ back
set-append [] back c v = refl
set-append (d ∷ front) back c v = ap (λ s. d ∷ s) (set-append front back c v)

write_bytes-within :
    (n i : ℕ) (value front back : Bytes)
    → i ≡ length front
    → n ≡ length front + length back
    → write_bytes n i value (front ++ back) ≡ front ++ (value ++ drop (length value) back)
unfolding write_bytes
write_bytes-within n i [] front back ei en = refl
write_bytes-within n i (v ∷ value) front [] ei en =
    let past : leb n i ≡ true = ground arith in
    rw (past, append-nil front)
      (write_bytes_past n (suc i) value (front ++ v ∷ []) (omega arith)
        ∙ append_assoc front (v ∷ []) value
        ∙ ap (λ s. front ++ v ∷ s) (sym (append-nil value)))
write_bytes-within n i (v ∷ value) front (c ∷ back) ei en =
    let before : leb n i ≡ false = ground arith in
    rw (before, ei, set-append front back c v)
      (sym (ap (write_bytes n (suc (length front)) value) (append_assoc front (v ∷ []) back))
        ∙ write_bytes-within n (suc (length front)) value (front ++ v ∷ []) back
            (omega (arith, length-append front (v ∷ [])))
            (omega (arith, length-append front (v ∷ [])))
        ∙ append_assoc front (v ∷ []) (value ++ drop (length value) back))

-- The bytes with zeros behind them up to the offset, and the value over what stands there.
abbrev pub zero_padded : ℕ → Bytes → Bytes
zero_padded offset b = b ++ replicate (offset - length b) 0

abbrev pub overwrite : ℕ → Bytes → Bytes → Bytes
overwrite offset value b =
    take offset (zero_padded offset b)
    ++ (value ++ drop (length value) (drop offset (zero_padded offset b)))

zero_padded_reaches : (offset : ℕ) (b : Bytes) → offset ≤ length (zero_padded offset b)
zero_padded_reaches offset b =
    let gap : Bytes = replicate (offset - length b) 0 in
    let gap_length : length gap ≡ offset - length b =
      length-replicate {A = ℕ} (offset - length b) 0 in
    omega (arith, gap_length, length-append b gap)

module _ (allocates : ℕ → Bool) (parse_error : Bytes → Bytes) where
  padded-returns :
      (offset : ℕ) (b : Bytes)
      → ((n : ℕ) → n ≤ offset → allocates n ≡ true)
      → padded allocates parse_error offset (some b) ≡ returns (some (zero_padded offset b))
  unfolding padded
  padded-returns offset b grants = elim (Bool-cases (offset - length b == 0)) [
    | inl e ↦
        let zero_diff : offset - length b ≡ 0 = ground arith in rw (zero_diff, append-nil b) refl
    | inr e ↦ rw (e, grants (offset - length b) (omega arith)) refl
  ]

  written-overwrite :
      (offset : ℕ) (value p : Bytes)
      → offset ≤ length p
      → written offset value (some p)
        ≡ some (take offset p ++ (value ++ drop (length value) (drop offset p)))
  unfolding written
  written-overwrite offset [] p h = ap some (sym (take-append-drop offset p))
  written-overwrite offset (v ∷ value) p h = ap some (
      ap (write_bytes (length p) offset (v ∷ value)) (sym (take-append-drop offset p))
      ∙ write_bytes-within (length p) offset (v ∷ value) (take offset p) (drop offset p)
          (omega (arith, length-take offset p))
          (omega (arith, length-take offset p, length-drop offset p)))

  -- SETRANGE on a string that is visible, with an offset that is not negative and whose padding the
  -- runtime can allocate, pads the string with zeros up to the offset, writes the value over what stands
  -- there, and replies the new length; the expiry time and the other keys are as before.
  pub exec_set_range-SetsText :
      (now : ℤ) (key old raw_offset value : Bytes) (args : List Bytes) (offset : ℕ) (db : Db)
      → visible now db key ≡ some (text (some old))
      → parse_int raw_offset ≡ some (pos offset)
      → ((n : ℕ) → n ≤ offset → allocates n ≡ true)
      → SetsText now key db
          (overwrite offset value old)
          (exec_set_range allocates parse_error now (key ∷ raw_offset ∷ value ∷ args) db)
  unfolding exec_set_range set_range
  exec_set_range-SetsText now key old raw_offset value args offset db h e grants =
      rw (e, exec_set_range)
        (rw (get_as_string-text now key db (some old) h) (
          rw (padded-returns offset old grants) (
            rw
              (written-overwrite offset value (zero_padded offset old)
                (zero_padded_reaches offset old))
              (put_length-SetsText now key old (overwrite offset value old) _ db h))))
