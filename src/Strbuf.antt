-- ===== src/Strbuf.antt =====
-- libmpathutil/strbuf.c: string buffers that grow. `realloc` is a parameter: the bytes that it adds for a
-- number of them, or `none` where it fails. A pointer into the buffer is its offset.
pub mod Memory
pub mod Room
pub mod Quoting
pub mod Refinement
pub mod Promise
use multipath_tools.Base.{
  ltb, leb, ◌==◌, if◌then◌else◌, length, ℤ, pos, negsuc, pos_part, ℕ, zero, suc, ◌+◌, ◌-◌, ◌*◌, ◌/◌,
  ◌^◌, Bool, true, false, not, ◌&&◌, Option, none, some, [], ◌∷◌, ◌++◌,
}
use multipath_tools.Base.Text.{Text}

pub record Strbuf : Type 0 where
  pub buf : Option Text
  pub size : ℕ
  pub offs : ℕ

pub data Errno : Type 0 where
  efault erange einval eoverflow enomem : Errno

-- An `int` that is negative for an error.
pub data Ret : Type 0 where
  ok : ℕ → Ret
  error : Errno → Ret

abbrev pub int_max : ℕ
int_max = 2 ^ 31 - 1

abbrev pub size_max : ℕ
size_max = 2 ^ 64 - 1

abbrev pub buf_chunk : ℕ
buf_chunk = 64

-- The string up to the first NUL.
unfoldable pub c_string : Text → Text
c_string [] = []
c_string (c ∷ s) = if c == 0 then [] else c ∷ c_string s

unfoldable pub get_strbuf_str : Strbuf → Text
unfolding c_string
get_strbuf_str b = elim b.buf [ none ↦ [] | some m ↦ c_string m ]

abbrev pub empty_strbuf : Strbuf
empty_strbuf = record { buf = none; size = 0; offs = 0 }

-- A null pointer is not modelled.
unfoldable pub strbuf_is_sane : Strbuf → Bool
strbuf_is_sane b = elim b.buf [
  | none ↦ (b.size == 0) && (b.offs == 0)
  | some m ↦ not (b.size == 0) && ltb b.offs b.size
]

unfoldable pub steal_strbuf_str : Strbuf → Option Text × Strbuf
steal_strbuf_str b = (b.buf, empty_strbuf)

unfoldable pub reset_strbuf : Strbuf → Strbuf
reset_strbuf b = empty_strbuf

-- `memcpy` to an offset; what would lie outside is not written.
unfoldable pub poke : ℕ → Text → Text → Text
poke i [] m = m
poke i (c ∷ s) [] = []
poke zero (c ∷ s) (d ∷ m) = c ∷ poke zero s m
poke (suc i) (c ∷ s) (d ∷ m) = d ∷ poke i (c ∷ s) m

-- A write to the buffer.
abbrev pub write_at : ℕ → Text → Strbuf → Strbuf
write_at i s b = elim b.buf [ none ↦ b | some m ↦ record b { buf = some (poke i s m) } ]

unfoldable pub truncate_strbuf : Strbuf → ℕ → Ret × Strbuf
unfolding poke
truncate_strbuf b offs =
    if elim b.buf [ none ↦ true | some m ↦ false ]
    then (error efault, b)
    else if ltb b.offs offs
    then (error erange, b)
    else (ok 0, write_at offs (0 ∷ []) (record b { offs = offs }))

-- The bytes to add, or `none` where the size would overflow.
unfoldable pub growth : ℕ → ℕ → ℕ → Option ℕ
growth size offs addsz =
    let add = ((addsz - (size - offs)) / buf_chunk + 1) * buf_chunk in
    if leb (size_max - add) size
    then (if ltb (size_max - size) (addsz + 1) then none else some (size_max - size))
    else some add

abbrev pub grow : Strbuf → ℕ → Option Text → Ret × Strbuf
grow b add none = (error enomem, b)
grow b add (some fresh) = (
  ok 0,
  write_at b.offs (0 ∷ []) (record b {
    buf = some (elim b.buf [ none ↦ fresh | some m ↦ m ++ fresh ]);
    size = b.size + add;
  }),
)

unfoldable pub expand_strbuf : (ℕ → Option Text) → Strbuf → ℤ → Ret × Strbuf
unfolding growth poke
expand_strbuf realloc b (negsuc n) = (error einval, b)
expand_strbuf realloc b (pos addsz) =
    if leb (addsz + 1) (b.size - b.offs) then (ok 0, b) else elim (growth b.size b.offs addsz) [
      | none ↦ (error eoverflow, b)
      | some add ↦ grow b add (realloc add)
    ]

-- What follows a call that has made room.
abbrev pub when_ok : Ret × Strbuf → (Strbuf → Ret × Strbuf) → Ret × Strbuf
when_ok (ok n, b) f = f b
when_ok (error e, b) f = (error e, b)

-- Copies to the end, with a NUL behind it.
abbrev pub put : Text → Strbuf → Ret × Strbuf
put str b =
    let b' = write_at b.offs str b in
    let b'' = record b' { offs = b.offs + length str } in
    (ok (length str), write_at b''.offs (0 ∷ []) b'')

unfoldable pub append_strbuf_str__ : (ℕ → Option Text) → Strbuf → Text → Ret × Strbuf
unfolding expand_strbuf
append_strbuf_str__ realloc b str = when_ok (expand_strbuf realloc b (pos (length str))) (put str)

unfoldable pub append_strbuf_str : (ℕ → Option Text) → Strbuf → Option Text → Ret × Strbuf
unfolding append_strbuf_str__
append_strbuf_str realloc b none = (error einval, b)
append_strbuf_str realloc b (some str) =
    if ltb int_max (length str) then (error erange, b) else append_strbuf_str__ realloc b str

abbrev pub replicate : ℕ → ℕ → Text
replicate zero c = []
replicate (suc n) c = c ∷ replicate n c

unfoldable pub fill_strbuf : (ℕ → Option Text) → Strbuf → ℕ → ℤ → Ret × Strbuf
unfolding expand_strbuf
fill_strbuf realloc b c slen =
    when_ok (expand_strbuf realloc b slen) (put (replicate (pos_part slen) c))

abbrev pub quote : ℕ
quote = 34

abbrev pub count_quotes : Text → ℕ
count_quotes [] = 0
count_quotes (c ∷ s) = if c == quote then suc (count_quotes s) else count_quotes s

-- What `memccpy` copies up to a quote, the quote included, and the rest.
abbrev pub through_quote : Text → Text × Text
through_quote [] = ([], [])
through_quote (c ∷ s) =
    let (a, b) = through_quote s in if c == quote then (c ∷ [], s) else (c ∷ a, b)

-- The loop over the quotes: from the offset `q` on, the rest `p` of the string is copied. The parts are
-- the buffer, the offset and the rest after it.
unfoldable pub quote_loop : ℕ → ℕ → Text → Strbuf → Strbuf × ℕ × Text
unfolding poke
quote_loop zero q p b = (b, q, p)
quote_loop (suc n) q p b =
    let (part, rest) = through_quote p in
    let q1 = q + length part in
    quote_loop n (q1 + 1) rest (write_at q1 (quote ∷ []) (write_at q part b))

-- The end of the string, the closing quote and the NUL.
abbrev pub finish_quoted : ℕ → Strbuf × ℕ × Text → Ret × Strbuf
finish_quoted offs (b, q, p) =
    let q1 = q + length p in
    let b' = write_at (q1 + 1) (0 ∷ []) (write_at q1 (quote ∷ []) (write_at q p b)) in
    let ret = q1 + 1 - offs in (ok ret, record b' { offs = offs + ret })

abbrev pub put_quoted : Text → Strbuf → Ret × Strbuf
put_quoted str b =
    finish_quoted b.offs
      (quote_loop (count_quotes str) (b.offs + 1) str (write_at b.offs (quote ∷ []) b))

unfoldable pub append_strbuf_quoted : (ℕ → Option Text) → Strbuf → Option Text → Ret × Strbuf
unfolding expand_strbuf quote_loop
append_strbuf_quoted realloc b none = (error einval, b)
append_strbuf_quoted realloc b (some str) =
    let qlen = length str + 2 + count_quotes str in
    if ltb int_max qlen
    then (error erange, b)
    else when_ok (expand_strbuf realloc b (pos qlen)) (put_quoted str)
