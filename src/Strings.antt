-- ===== src/Strings.antt =====
-- libmpathutil/util.c: copies of strings into buffers of a fixed size. A buffer is the list of its bytes;
-- `poke` of Strbuf writes to it.
pub mod Copies
use multipath_tools.Base.{
  ltb, ◌==◌, if◌then◌else◌, length, ℕ, zero, suc, ◌+◌, ◌-◌, ◌/◌, ◌%◌, ◌^◌, ◌||◌, Option, none, some,
  [], ◌∷◌,
}
use multipath_tools.Base.Text.{Text, codes, contains}
use multipath_tools.Features.{strchop}
use multipath_tools.Strbuf.{Strbuf, c_string, poke}

-- The loop of `libmp_strlcpy` and `libmp_strlcat`, with `d` for `dst`: the buffer, `dst` and `bytes`.
unfoldable pub copy_loop : ℕ → Text → ℕ → ℕ → Text → Text × ℕ × ℕ
unfolding poke
copy_loop size [] d bytes mem = (mem, d, bytes)
copy_loop size (ch ∷ src) d bytes mem =
    let stored = copy_loop size src (d + 1) (bytes + 1) (poke d (ch ∷ []) mem) in
    let passed = copy_loop size src d (bytes + 1) mem in
    if ltb (bytes + 1) size then stored else passed

unfoldable pub libmp_strlcpy : Text → Text → ℕ → ℕ × Text
unfolding copy_loop
libmp_strlcpy mem src size =
    let (mem', d, bytes) = copy_loop size src 0 0 mem in
    (bytes, if size == 0 then mem' else poke d (0 ∷ []) mem')

-- The first loop of `libmp_strlcat`: how many bytes it passes.
unfoldable pub find_end : ℕ → Text → ℕ
find_end zero mem = 0
find_end (suc size) [] = 0
find_end (suc size) (c ∷ mem) = let n = find_end size mem in if c == 0 then 0 else suc n

unfoldable pub libmp_strlcat : Text → Text → ℕ → ℕ × Text
unfolding find_end copy_loop
libmp_strlcat mem src size =
    let start = find_end size mem in
    let (mem', d, bytes) = copy_loop size src start start mem in
    if start == size then (start + length src, mem) else (bytes, poke d (0 ∷ []) mem')

-- What follows the last slash, or the whole name.
unfoldable pub libmp_basename : Text → Text
libmp_basename [] = []
libmp_basename (c ∷ name) =
    let rest = libmp_basename name in
    if contains name (codes "/") then rest else if c == 47 then name else c ∷ name

unfoldable pub basenamecpy : Option Text → Text → ℕ → ℕ × Text
unfolding libmp_basename libmp_strlcpy strchop
basenamecpy none mem size = (0, mem)
basenamecpy (some src) mem size =
    let n = length (strchop (libmp_basename src)) in
    let r = libmp_strlcpy mem (libmp_basename src) (n + 1) in
    if length src == 0
    then (0, mem)
    else if (n == 0) || ltb ((size + 2 ^ 64 - 2) % 2 ^ 64) (n - 1)
    then (0, mem)
    else (length (c_string r.1), r.1)
