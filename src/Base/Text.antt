-- ===== src/Base/Text.antt =====
-- C strings as lists of bytes without the final NUL, and the calls of string.h and ctype.h that the
-- code makes of them.
use Prim.Native.Char.{code}
use Prim.Native.String.{String}
use multipath_tools.Base.Tests.{leb, ◌==◌}
use multipath_tools.Base.Lists.{take}
use Prim.Native.Nat.{ℕ}
use mathlib.Core.Path.{◌≡◌, refl}
use mathlib.Core.Bool.{Bool, true, false, ◌&&◌, ◌||◌}
use mathlib.Core.List.{List, [], ◌∷◌}
use native.Mathlib.Omega.{arith}

abbrev pub Text : Type 0
Text = List ℕ

-- The bytes of a literal.
abbrev pub codes : String → Text
codes String.[] = []
codes (String.◌∷◌ c s) = code c ∷ codes s

-- `!strcmp(s, t)`.
unfoldable pub str_eq : Text → Text → Bool
str_eq [] [] = true
str_eq [] (d ∷ t) = false
str_eq (c ∷ s) [] = false
str_eq (c ∷ s) (d ∷ t) = (c == d) && str_eq s t

-- `!strncmp(s, t, n)`: both strings end in NUL, so what is compared is the first n bytes of each.
unfoldable pub strn_eq : ℕ → Text → Text → Bool
unfolding str_eq
strn_eq n s t = str_eq (take n s) (take n t)

-- `isspace` in the C locale.
abbrev pub is_space : ℕ → Bool
is_space c = (c == 32) || (leb 9 c && leb c 13)

abbrev pub is_digit : ℕ → Bool
is_digit c = leb 48 c && leb c 57

-- Is `p` a prefix of `s`?
unfoldable pub starts_with : Text → Text → Bool
starts_with [] s = true
starts_with (c ∷ p) [] = false
starts_with (c ∷ p) (d ∷ s) = (c == d) && starts_with p s

-- `strstr(s, t) != NULL`.
unfoldable pub contains : Text → Text → Bool
unfolding starts_with
contains [] t = starts_with t []
contains (c ∷ s) t = starts_with t (c ∷ s) || contains s t

pub str_eq→eq : (s t : Text) → str_eq s t ≡ true → s ≡ t
unfolding str_eq
str_eq→eq [] [] h = refl
str_eq→eq [] (d ∷ t) h = cc
str_eq→eq (c ∷ s) [] h = cc
str_eq→eq (c ∷ s) (d ∷ t) h = ground (arith, str_eq→eq s t)

pub str_eq_refl : (s : Text) → str_eq s s ≡ true
unfolding str_eq
str_eq_refl [] = refl
str_eq_refl (c ∷ s) = ground (arith, str_eq_refl s)
