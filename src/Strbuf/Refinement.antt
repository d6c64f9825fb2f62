-- ===== src/Strbuf/Refinement.antt =====
-- libmpathutil/strbuf.c: string buffers implement strings.
use multipath_tools.Base.{◌==◌, All, ℕ, ◌≡◌, false, Option, List, [], ◌∷◌}
use multipath_tools.Base.Text.{Text}
use multipath_tools.Strbuf.{Strbuf}
use multipath_tools.Strbuf.Promise.{Call, perform}

-- Calls in a row.
abbrev pub perform_all : (ℕ → Option Text) → Strbuf → List Call → Strbuf
perform_all realloc b [] = b
perform_all realloc b (call ∷ calls) = perform_all realloc (perform realloc b call).1 calls

-- A string without a NUL byte.
abbrev pub HasNoNul : Text → Type 0
HasNoNul s = All (λ c. (c == 0) ≡ false) s
