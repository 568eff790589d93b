-- ===== src/Utils/Tests.antt =====
-- lib/utils/utils.go: ranges of small strings.
use godis.Base.{◌↔◌, ◌≤◌, ◌≡◌, refl, some, [], ◌∷◌, codes, bytes_eq, arith}
use godis.Base.Int.{pos, negsuc, neg_part, ◌≤ℤ◌}
use godis.Utils.{convert_range, remove_duplicates}
use godis.Utils.Range.{Selects, from_end, convert_range-Selects}

last_two : convert_range (negsuc 1) (pos 9) 5 ≡ some (3, 5)
unfolding convert_range
last_two = refl

no_repeats : remove_duplicates (codes "a" ∷ codes "b" ∷ codes "a" ∷ []) ≡ codes "a" ∷ codes "b" ∷ []
unfolding remove_duplicates bytes_eq
no_repeats = refl

convert_range-Selects_example :
    Selects (convert_range (negsuc 1) (pos 9) 5) 4
    ↔ ((neg_part (negsuc 1) ≤ 5) × (from_end (negsuc 1) 5 ≤ℤ pos 4) × (pos 4 ≤ℤ from_end (pos 9) 5))
convert_range-Selects_example = convert_range-Selects (negsuc 1) (pos 9) 5 4 (omega arith)
