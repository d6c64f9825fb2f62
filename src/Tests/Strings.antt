-- ===== src/Tests/Strings.antt =====
-- Copies of strings, and the theorems at work on them.
use multipath_tools.Base.{length, take, drop, ◌+◌, ◌≡◌, refl, some, [], ◌∷◌, ◌++◌, arith}
use multipath_tools.Base.Text.{Text, codes, starts_with, contains}
use multipath_tools.Features.{strchop}
use multipath_tools.Strbuf.{c_string, poke}
use multipath_tools.Strings.{copy_loop, libmp_strlcpy, libmp_strlcat, libmp_basename, basenamecpy}
use multipath_tools.Strings.Copies.{libmp_strlcpy_copies, libmp_strlcat_appends}

abbrev eight_bytes : Text
eight_bytes = codes "sd" ++ 0 ∷ 7 ∷ 7 ∷ 7 ∷ 7 ∷ 7 ∷ []

copied_name :
    basenamecpy (some (codes "/dev/sdb \n")) eight_bytes 8
    ≡ (3, codes "sdb" ++ 0 ∷ 7 ∷ 7 ∷ 7 ∷ 7 ∷ [])
unfolding basenamecpy libmp_basename contains starts_with strchop libmp_strlcpy copy_loop poke
    c_string
copied_name = refl

too_long_name : basenamecpy (some (codes "/dev/sdabcdefg")) eight_bytes 8 ≡ (0, eight_bytes)
unfolding basenamecpy libmp_basename contains starts_with strchop libmp_strlcpy copy_loop poke
    c_string
too_long_name = refl

-- A size of 1 is taken for the largest one: two bytes are written.
one_byte :
    basenamecpy (some (codes "a")) eight_bytes 1 ≡ (1, codes "a" ++ 0 ∷ 0 ∷ 7 ∷ 7 ∷ 7 ∷ 7 ∷ 7 ∷ [])
unfolding basenamecpy libmp_basename contains starts_with strchop libmp_strlcpy copy_loop poke
    c_string
one_byte = refl

libmp_strlcpy_copies_example :
    let t = take 3 (codes "nvme") in
    libmp_strlcpy eight_bytes (codes "nvme") 4 ≡ (4, t ++ 0 ∷ drop (length t + 1) eight_bytes)
libmp_strlcpy_copies_example =
    libmp_strlcpy_copies eight_bytes (codes "nvme") 4 (omega arith) (omega arith)

append_cut :
    let t = take 3 (codes "abcd") in
    libmp_strlcat eight_bytes (codes "abcd") 6
    ≡ (6, codes "sd" ++ (t ++ 0 ∷ drop (length t) (7 ∷ 7 ∷ 7 ∷ 7 ∷ 7 ∷ [])))
append_cut =
    libmp_strlcat_appends (codes "sd") (7 ∷ 7 ∷ 7 ∷ 7 ∷ 7 ∷ []) (codes "abcd") 6 (refl, (refl, tt))
      (omega arith) (omega arith)
