-- ===== src/Tests/Strbufs.antt =====
-- String buffers in use, and the theorems at work on them.
use multipath_tools.Strbuf.Promise.{Call, append, append_quoted, fill, truncate, perform}
use multipath_tools.Base.{ltb, if◌then◌else◌, pos, ℕ, ◌≡◌, refl, Option, none, some, List, [], ◌∷◌}
use multipath_tools.Base.Text.{Text, codes}
use multipath_tools.Strbuf.{
  enomem, error, c_string, get_strbuf_str, empty_strbuf, poke, truncate_strbuf, growth,
  expand_strbuf, append_strbuf_str__, append_strbuf_str, replicate, fill_strbuf, quote_loop,
  append_strbuf_quoted,
}
use multipath_tools.Strbuf.Refinement.{perform_all}

-- Memory that is full of the byte 7, at most a thousand bytes at once.
abbrev sevens : ℕ → Option Text
sevens n = if ltb 1000 n then none else some (replicate n 7)

abbrev calls : List Call
calls =
    append (some (codes "dm"))
    ∷ append_quoted (some (codes "a\"b"))
    ∷ fill 45 (pos 3)
    ∷ truncate 7
    ∷ append none
    ∷ []

filled_string : get_strbuf_str (perform_all sevens empty_strbuf calls) ≡ codes "dm\"a\"\"b"
unfolding get_strbuf_str c_string append_strbuf_str append_strbuf_str__ append_strbuf_quoted
    fill_strbuf truncate_strbuf expand_strbuf growth poke quote_loop
filled_string = refl

too_long : (perform sevens empty_strbuf (fill 45 (pos 2000))).0 ≡ error enomem
unfolding fill_strbuf expand_strbuf growth poke
too_long = refl
