-- ===== src/Features.antt =====
-- libmultipath/structs.c, `add_feature` and `remove_feature`: the feature string of a map, a count and
-- then the features, with blanks between. `asprintf` and `malloc` are taken to succeed, and the counts
-- to fit an `int`; the count has no sign. A count below the number of the words to be removed, which the
-- code would print as a negative number, is outside the model.
use multipath_tools.Base.{
  ltb, leb, ◌==◌, if◌then◌else◌, length, take, drop, ℕ, zero, suc, ◌+◌, ◌-◌, ◌*◌, ◌/◌, ◌%◌, ◌≡◌,
  refl, Bool, true, false, not, ◌&&◌, ◌||◌, Option, none, some, [], ◌∷◌, ◌++◌,
}
use multipath_tools.Base.Text.{Text, codes, is_space, is_digit, starts_with}

-- `%0d` of a number, for any fuel above it.
unfoldable pub show_digits : ℕ → ℕ → Text → Text
show_digits zero n s = s
show_digits (suc f) n s =
    let more = show_digits f (n / 10) ((48 + n % 10) ∷ s) in if ltb n 10 then (48 + n) ∷ s else more

unfoldable pub show_nat : ℕ → Text
unfolding show_digits
show_nat n = show_digits (suc n) n []

-- The digits that `strtoul` reads on, from a value so far.
unfoldable pub read_digits : ℕ → Text → ℕ × Text
read_digits acc [] = (acc, [])
read_digits acc (c ∷ s) =
    let more = read_digits (10 * acc + (c - 48)) s in if is_digit c then more else (acc, c ∷ s)

-- `strtoul(s, &end, 10)`: `none` if there is no digit, so that `end` is `s`.
unfoldable pub strtoul : Text → Option (ℕ × Text)
unfolding read_digits
strtoul [] = none
strtoul (c ∷ s) =
    let later = strtoul s in
    if is_space c then later else if is_digit c then some (read_digits 0 (c ∷ s)) else none

-- The words after the first in a text without blanks at its ends.
unfoldable pub count_gaps : Text → ℕ
count_gaps [] = 0
count_gaps (c ∷ []) = 0
count_gaps (c ∷ d ∷ s) =
    let more = count_gaps (d ∷ s) in if is_space c && not (is_space d) then suc more else more

abbrev pub ends_word : Text → Bool
ends_word [] = true
ends_word (c ∷ s) = is_space c

-- The `strstr` loop: the position of the first match that has a blank before it and ends a word.
-- Where a match is not such a word, the search goes on behind it; `skip` counts what is left of it.
-- `prev` is the byte before the text.
unfoldable pub find_feature : Text → ℕ → ℕ → Text → Option ℕ
find_feature feat skip prev [] = none
find_feature feat (suc skip) prev (c ∷ s) = elim (find_feature feat skip c s) [
  | none ↦ none
  | some i ↦ some (suc i)
]
find_feature feat zero prev (c ∷ s) =
    let hit = starts_with feat (c ∷ s) in
    let here = hit && is_space prev && ends_word (drop (length feat) (c ∷ s)) in
    let later = find_feature feat (if hit then length feat - 1 else 0) c s in
    if here then some 0 else elim later [ none ↦ none | some i ↦ some (suc i) ]

abbrev pub last_or : ℕ → Text → ℕ
last_or d [] = d
last_or d (c ∷ s) = last_or c s

-- A feature with a blank at its start or end is refused.
abbrev pub has_outer_blank : Text → Bool
has_outer_blank [] = false
has_outer_blank (c ∷ s) = is_space c || is_space (last_or c s)

-- The new feature string; `none` is the return value 1, which leaves the string alone. The byte before
-- the string, which the code would read on a match at its start, is taken to be no blank.
unfoldable pub add_feature : Option Text → Text → Option (Option Text)
unfolding show_nat strtoul count_gaps find_feature starts_with
add_feature features [] = some features
add_feature none (c ∷ s) =
    let new_feat = c ∷ s in
    if has_outer_blank new_feat
    then none
    else some (some (show_nat (suc (count_gaps new_feat)) ++ 32 ∷ new_feat))
add_feature (some feats) (c ∷ s) =
    let new_feat = c ∷ s in
    if has_outer_blank new_feat then none else elim (find_feature new_feat 0 0 feats) [
      | some i ↦ some (some feats)
      | none ↦ elim (strtoul feats) [
        | none ↦ none
        | some (count, tmp) ↦
            if not (ends_word tmp)
            then none
            else some
                (some (show_nat (count + suc (count_gaps new_feat)) ++ (tmp ++ 32 ∷ new_feat)))
      ]
    ]

unfoldable pub skip_blanks : Text → Text
skip_blanks [] = []
skip_blanks (c ∷ s) = let rest = skip_blanks s in if is_space c then rest else c ∷ s

-- `strchop`: without the blanks at the end.
unfoldable pub strchop : Text → Text
strchop [] = []
strchop (c ∷ s) = elim (strchop s) [ [] ↦ if is_space c then [] else c ∷ [] | d ∷ r ↦ c ∷ d ∷ r ]

-- What is left when the feature at position `i` is taken out. `tmp` is the string behind the count.
unfoldable pub cut_feature : Text → Text → ℕ → ℕ → ℕ → Text
unfolding show_nat skip_blanks strchop
cut_feature feats tmp len i count =
    let before = take (i - (length feats - length tmp)) tmp in
    let behind = skip_blanks (drop (i + len) feats) in
    elim behind [
      | [] ↦ strchop (show_nat count ++ before)
      | d ∷ r ↦ show_nat count ++ (before ++ d ∷ r)
    ]

unfoldable pub remove_feature : Option Text → Text → Option (Option Text)
unfolding cut_feature strtoul count_gaps find_feature starts_with
remove_feature none old_feat = none
remove_feature (some feats) [] = some (some feats)
remove_feature (some []) (c ∷ s) = if has_outer_blank (c ∷ s) then none else some (some [])
remove_feature (some (b ∷ feats)) (c ∷ s) =
    let old_feat = c ∷ s in
    if has_outer_blank old_feat then none else elim (find_feature old_feat 0 b feats) [
      | none ↦ some (some (b ∷ feats))
      | some i ↦ elim (strtoul (b ∷ feats)) [
        | none ↦ none
        | some (count, tmp) ↦
            if leb (length tmp) 0 || not (ends_word tmp)
            then none
            else if count == suc (count_gaps old_feat)
            then some (some (codes "0"))
            else some (
                some (
                  cut_feature (b ∷ feats) tmp (length old_feat) (suc i)
                    (count - suc (count_gaps old_feat))))
      ]
    ]

add_feature_runs :
    add_feature (some (codes "1 foo")) (codes "queue_if_no_path")
    ≡ some (some (codes "2 foo queue_if_no_path"))
unfolding add_feature
add_feature_runs = refl

remove_feature_runs :
    remove_feature (some (codes "2 foo queue_if_no_path")) (codes "queue_if_no_path")
    ≡ some (some (codes "1 foo"))
unfolding remove_feature
remove_feature_runs = refl
