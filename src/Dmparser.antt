-- ===== src/Dmparser.antt =====
-- libmpathutil/util.c, `get_word`, and the loops of libmultipath/dmparser.c that gather words of a device
-- mapper table. Memory suffices.
pub mod Words
pub mod Assemble
pub mod Disassemble
pub mod Status
pub mod Unharmed
pub mod Numbers
pub mod Reading
pub mod Paths
pub mod Selector
pub mod Groups
pub mod Printed
pub mod RoundTrip
use multipath_tools.Base.{
  ◌==◌, if◌then◌else◌, length, drop, ℕ, zero, suc, ◌+◌, ◌-◌, ◌/◌, not, Option, none, some, [], ◌∷◌,
  ◌++◌,
}
use multipath_tools.Base.Text.{Text}
use multipath_tools.Features.{strchop}

-- The sentence behind its leading spaces, and their number.
abbrev pub skip_spaces : Text → Text × ℕ
skip_spaces [] = ([], 0)
skip_spaces (c ∷ s) = let (t, n) = skip_spaces s in if c == 32 then (t, suc n) else (c ∷ s, 0)

-- What stands before the next space or the end, and the rest.
abbrev pub before_space : Text → Text × Text
before_space [] = ([], [])
before_space (c ∷ s) = let (w, t) = before_space s in if c == 32 then ([], c ∷ s) else (c ∷ w, t)

-- The word, and how far the caller moves on: not past the last word.
unfoldable pub get_word : Text → Option Text × ℕ
unfolding strchop
get_word sentence =
    let (s, skip) = skip_spaces sentence in
    let (w, rest) = before_space s in
    if length s == 0
    then (none, 0)
    else (some (strchop w), if length rest == 0 then 0 else skip + length w)

-- `get_word(sentence, NULL)`: how far the caller moves on, past the last word too.
unfoldable pub get_word_length : Text → ℕ
get_word_length sentence =
    let (s, skip) = skip_spaces sentence in
    if length s == 0 then 0 else skip + length (before_space s).0

-- `merge_words`.
abbrev pub merge_words : Text → Text → Text
merge_words dst word = dst ++ 32 ∷ word

-- The loops of `disassemble_map` that gather the arguments of the features and of the hardware handler:
-- the string and the place in the table.
unfoldable pub gather_words : ℕ → Text → Text → Option (Text × Text)
gather_words zero dst p = some (dst, p)
gather_words (suc n) dst p =
    let (word, len) = get_word p in
    elim word [ none ↦ none | some w ↦ gather_words n (merge_words dst w) (drop len p) ]

-- The loops that pass over arguments.
unfoldable pub skip_words : ℕ → Text → Text
skip_words zero p = p
skip_words (suc n) p = skip_words n (drop (get_word_length p) p)
