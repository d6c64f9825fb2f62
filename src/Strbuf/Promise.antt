-- ===== src/Strbuf/Promise.antt =====
-- libmpathutil/strbuf.c: what the calls on a string buffer promise.
use multipath_tools.Base.{
  ltb, if◌then◌else◌, length, take, ℤ, pos, negsuc, ℕ, ◌+◌, ◌<◌, ◌≡◌, Option, none, some, ◌++◌,
}
use multipath_tools.Base.Text.{Text}
use multipath_tools.Strbuf.{
  Strbuf, efault, erange, einval, eoverflow, enomem, Ret, ok, error, int_max, size_max,
  reset_strbuf, truncate_strbuf, append_strbuf_str, replicate, fill_strbuf, append_strbuf_quoted,
}
use multipath_tools.Strbuf.Room.{Represents, string_of}
use multipath_tools.Strbuf.Quoting.{quoted}

pub data Call : Type 0 where
  append append_quoted : Option Text → Call
  fill : ℕ → ℤ → Call
  truncate : ℕ → Call
  reset : Call

abbrev pub perform : (ℕ → Option Text) → Strbuf → Call → Ret × Strbuf
perform realloc b (append str) = append_strbuf_str realloc b str
perform realloc b (append_quoted str) = append_strbuf_quoted realloc b str
perform realloc b (fill c slen) = fill_strbuf realloc b c slen
perform realloc b (truncate offs) = truncate_strbuf b offs
perform realloc b reset = (ok 0, reset_strbuf b)

-- What the calls promise for the string of the buffer, if memory suffices: `none` is the string of a
-- buffer without memory.
abbrev pub extend : Option Text → Text → Ret × Option Text
extend t s = (ok (length s), some (string_of t ++ s))

abbrev pub extend_bounded : Option Text → Text → Ret × Option Text
extend_bounded t s = if ltb int_max (length s) then (error erange, t) else extend t s

abbrev pub promised : Option Text → Call → Ret × Option Text
promised t (append none) = (error einval, t)
promised t (append (some str)) = extend_bounded t str
promised t (append_quoted none) = (error einval, t)
promised t (append_quoted (some str)) = extend_bounded t (quoted str)
promised t (fill c (negsuc n)) = (error einval, t)
promised t (fill c (pos n)) = extend t (replicate n c)
promised none (truncate offs) = (error efault, none)
promised (some t) (truncate offs) =
    if ltb (length t) offs then (error erange, some t) else (ok 0, some (take offs t))
promised t reset = (ok 0, none)

-- The call does what is promised, with the value that is promised, or fails and changes nothing: where
-- the size would overflow, or where `realloc` fails. A call that is promised to fail fails in that way.
pub data Refines (realloc : ℕ → Option Text) (b : Strbuf)
    : Ret × Strbuf → Ret × Option Text → Type 0 where
  agrees :
      {r : Ret} {b' : Strbuf} {t' : Option Text}
      → Represents b' t'
      → Refines realloc b (r, b') (r, t')
  overflowed :
      {n : ℕ} {t' : Option Text}
      → size_max < b.size + (n + 1)
      → Refines realloc b (error eoverflow, b) (ok n, t')
  exhausted :
      {n : ℕ} {t' : Option Text} (add : ℕ)
      → realloc add ≡ none
      → Refines realloc b (error enomem, b) (ok n, t')
