-- ===== src/Dmparser/Words.antt =====
-- libmultipath/dmparser.c: the arguments that are gathered are those of the table.
use multipath_tools.Base.{
  ◌==◌, length, drop, length-append, All, ℕ, suc, ◌+◌, ◌<◌, ◌≡◌, refl, sym, ap, ◌∙◌, false, Option,
  some, List, [], ◌∷◌, ◌++◌, append-nil, append_assoc, arith,
}
use multipath_tools.Base.Text.{Text}
use multipath_tools.Features.{strchop}
use multipath_tools.Dmparser.{
  skip_spaces, before_space, get_word, get_word_length, merge_words, gather_words, skip_words,
}

-- A word as a table has it: not empty, without spaces, and without other blanks at its end.
abbrev pub IsWord : Text → Type 0
IsWord w = (0 < length w) × All (λ c. (c == 32) ≡ false) w × (strchop w ≡ w)

-- Words, each behind a space.
abbrev pub line : List Text → Text
line [] = []
line (w ∷ ws) = 32 ∷ w ++ line ws

pub before_space_lem :
    (w rest : Text)
    → All (λ c. (c == 32) ≡ false) w
    → before_space (w ++ 32 ∷ rest) ≡ (w, 32 ∷ rest)
before_space_lem [] rest h = refl
before_space_lem (c ∷ w) rest (e, h) =
    let ih = before_space_lem w rest h in rw (before_space, e, ih) refl

pub skip_spaces_lem : (w rest : Text) → IsWord w → skip_spaces (32 ∷ (w ++ rest)) ≡ (w ++ rest, 1)
skip_spaces_lem [] rest (n, h, s) = absurd (omega arith)
skip_spaces_lem (c ∷ w) rest (n, (e, h), s) = rw (skip_spaces, e) refl

pub get_word_lem :
    (w rest : Text) → IsWord w → get_word (32 ∷ (w ++ 32 ∷ rest)) ≡ (some w, suc (length w))
unfolding get_word
get_word_lem w rest k =
    let (n, h, s) = k in
    let l = length-append w (32 ∷ rest) in
    let e : (length (w ++ 32 ∷ rest) == 0) ≡ false = ground arith in
    let f : (suc (length rest) == 0) ≡ false = ground arith in
    let y : (skip_spaces (32 ∷ (w ++ 32 ∷ rest))).1 ≡ 1 =
      ap (λ (x : Text × ℕ). x.1) (skip_spaces_lem w (32 ∷ rest) k) in
    let z : 1 + length w ≡ suc (length w) = omega arith in
    rw (get_word, skip_spaces_lem w (32 ∷ rest) k, before_space_lem w rest h, e, f, s, y, z) refl

pub drop-append : (w rest : Text) → drop (length w) (w ++ rest) ≡ rest
drop-append [] rest = refl
drop-append (c ∷ w) rest = drop-append w rest

pub get_word_length_lem :
    (w rest : Text) → IsWord w → get_word_length (32 ∷ (w ++ 32 ∷ rest)) ≡ suc (length w)
unfolding get_word_length
get_word_length_lem w rest k =
    let (n, h, s) = k in
    let l = length-append w (32 ∷ rest) in
    let e : (length (w ++ 32 ∷ rest) == 0) ≡ false = ground arith in
    let y : (skip_spaces (32 ∷ (w ++ 32 ∷ rest))).1 ≡ 1 =
      ap (λ (x : Text × ℕ). x.1) (skip_spaces_lem w (32 ∷ rest) k) in
    let z : 1 + length w ≡ suc (length w) = omega arith in
    rw (get_word_length, skip_spaces_lem w (32 ∷ rest) k, before_space_lem w rest h, e, y, z) refl

gather_words-next :
    (n : ℕ) (dst p w : Text) (len : ℕ)
    → get_word p ≡ (some w, len)
    → gather_words (suc n) dst p ≡ gather_words n (merge_words dst w) (drop len p)
unfolding gather_words
gather_words-next n dst p w len e =
    rw (gather_words, e)
      (ap (λ l. gather_words n (merge_words dst w) (drop l p))
        (ap (λ (x : Option Text × ℕ). x.1) e))

line-next : (w : Text) (ws : List Text) (rest : Text) → (t : Text) × (line ws ++ 32 ∷ rest ≡ 32 ∷ t)
line-next w [] rest = (rest, refl)
line-next w (v ∷ ws) rest = ((v ++ line ws) ++ 32 ∷ rest, refl)

-- Gathering as many words as there are in a line, with more behind it: the words are put behind the
-- string as they stand in the table, and the place is behind the line. Passing over as many ends there
-- too.
pub gather_words-line :
    (ws : List Text) (dst rest : Text)
    → All IsWord ws
    → (gather_words (length ws) dst (line ws ++ 32 ∷ rest) ≡ some (dst ++ line ws, 32 ∷ rest))
      × (skip_words (length ws) (line ws ++ 32 ∷ rest) ≡ 32 ∷ rest)
unfolding gather_words skip_words
gather_words-line [] dst rest h = (ap (λ d. some (d, 32 ∷ rest)) (sym (append-nil dst)), refl)
gather_words-line (w ∷ ws) dst rest (k, h) =
    let (t, e) = line-next w ws rest in
    let a : line (w ∷ ws) ++ 32 ∷ rest ≡ 32 ∷ (w ++ 32 ∷ t) =
      ap (λ x. 32 ∷ x) (append_assoc w (line ws) (32 ∷ rest) ∙ ap (λ x. w ++ x) e) in
    let (i, j) = gather_words-line ws (merge_words dst w) rest h in
    let d : drop (length w) (w ++ 32 ∷ t) ≡ line ws ++ 32 ∷ rest = drop-append w (32 ∷ t) ∙ sym e in
    (
      ap (gather_words (suc (length ws)) dst) a
          ∙ gather_words-next (length ws) dst (32 ∷ (w ++ 32 ∷ t)) w (suc (length w))
              (get_word_lem w t k)
          ∙ ap (gather_words (length ws) (merge_words dst w)) d
          ∙ i
          ∙ ap (λ x. some (x, 32 ∷ rest)) (append_assoc dst (32 ∷ w) (line ws)),
      ap (skip_words (suc (length ws))) a
          ∙ ap (λ n. skip_words (length ws) (drop n (32 ∷ (w ++ 32 ∷ t))))
              (get_word_length_lem w t k)
          ∙ ap (skip_words (length ws)) d
          ∙ j,
    )
