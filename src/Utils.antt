-- ===== src/Utils.antt =====
-- lib/utils/utils.go: byte strings, index ranges and duplicates.
pub mod Range
mod Tests
use godis.Base.{
  ℕ, zero, suc, ◌+◌, ◌-◌, Bool, true, false, Option, none, some, List, [], ◌∷◌, Bytes, bytes_eq,
  ltb, leb, if◌then◌else◌,
}
use godis.Base.Int.{ℤ, pos, negsuc}

-- `ToCmdLine3`: the command's name in front of its arguments.
unfoldable pub to_cmd_line3 : Bytes → List Bytes → List Bytes
to_cmd_line3 name args = name ∷ args

-- The part of `ConvertRange` that reads `start`, and the part that reads `end`; `none` where it
-- returns -1, -1. Sizes are lengths, so that no sum here leaves int64.
start_index : ℤ → ℕ → Option ℕ
start_index (pos start) size = if leb size start then none else some start
start_index (negsuc m) size = if ltb size (suc m) then none else some (size - suc m)

end_index : ℤ → ℕ → Option ℕ
end_index (pos end) size = some (if ltb end size then end + 1 else size)
end_index (negsuc m) size = if ltb size (suc m) then none else some (size - m)

in_order : Option ℕ → Option ℕ → Option (ℕ × ℕ)
in_order none e = none
in_order (some start) none = none
in_order (some start) (some end) = if ltb end start then none else some (start, end)

unfoldable pub convert_range : ℤ → ℤ → ℕ → Option (ℕ × ℕ)
unfolding start_index end_index in_order
convert_range start end size = in_order (start_index start size) (end_index end size)

contains_bytes : Bytes → List Bytes → Bool
contains_bytes b [] = false
contains_bytes b (x ∷ xs) = let rest = contains_bytes b xs in if bytes_eq b x then true else rest

-- The loop of `RemoveDuplicates`: `unique` has the keys of `uniqueMap`.
unique_loop : List Bytes → List Bytes → List Bytes
unfolding contains_bytes
unique_loop unique [] = []
unique_loop unique (item ∷ input) =
    if contains_bytes item unique
    then unique_loop unique input
    else item ∷ unique_loop (item ∷ unique) input

unfoldable pub remove_duplicates : List Bytes → List Bytes
unfolding unique_loop
remove_duplicates input = unique_loop [] input
