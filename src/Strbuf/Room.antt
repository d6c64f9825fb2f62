-- ===== src/Strbuf/Room.antt =====
-- libmpathutil/strbuf.c: what a buffer holds, and how it grows.
use multipath_tools.Base.{
  ltb, leb, ltb→lt, leb→le, Bool-cases, Option-cases, length, length-append, pos, ℕ, suc, ◌+◌, ◌-◌,
  ◌*◌, ◌/◌, ◌≤◌, ◌<◌, ◌≡◌, refl, sym, ap, ◌∙◌, subst, inl, inr, Option, none, some, [], ◌∷◌, ◌++◌,
  append_assoc, arith,
}
use multipath_tools.Base.Text.{Text}
use multipath_tools.Strbuf.{
  Strbuf, eoverflow, enomem, Ret, ok, error, size_max, buf_chunk, empty_strbuf, poke, growth, grow,
  expand_strbuf,
}
use multipath_tools.Strbuf.Memory.{poke_lem}

-- A buffer with the string `t`, a NUL, and room for more.
abbrev pub holding : Text → Text → Strbuf
holding t room = record {
  buf = some (t ++ 0 ∷ room);
  size = length (t ++ 0 ∷ room);
  offs = length t;
}

-- The string of a buffer: none as long as nothing was allocated.
pub data Represents : Strbuf → Option Text → Type 0 where
  nothing : Represents empty_strbuf none
  holds : (t room : Text) → Represents (holding t room) (some t)

abbrev pub string_of : Option Text → Text
string_of none = []
string_of (some t) = t

-- What a call of `expand_strbuf` for `n` bytes leaves: room for them behind the string, or an error and
-- the buffer as it was, where the size would overflow or `realloc` fails.
pub data Expanded (realloc : ℕ → Option Text) (b : Strbuf) (t : Text) (n : ℕ)
    : Ret × Strbuf → Type 0 where
  roomy : (room : Text) → n ≤ length room → Expanded realloc b t n (ok 0, holding t room)
  overflows : size_max < b.size + (n + 1) → Expanded realloc b t n (error eoverflow, b)
  no_memory : (add : ℕ) → realloc add ≡ none → Expanded realloc b t n (error enomem, b)

-- `realloc` adds as many bytes as it is asked for.
abbrev pub IsRealloc : (ℕ → Option Text) → Type 0
IsRealloc realloc = (n : ℕ) (fresh : Text) → realloc n ≡ some fresh → length fresh ≡ n

pub length-holding : (t room : Text) → length (t ++ 0 ∷ room) ≡ length t + (length room + 1)
length-holding t room = let e = length-append t (0 ∷ room) in omega arith

some-injective : {x y : ℕ} → some x ≡ some y → x ≡ y
some-injective e = ground arith

-- The growth makes the room that is asked for.
growth-enough :
    (size offs addsz add : ℕ)
    → offs ≤ size
    → size - offs < addsz + 1
    → growth size offs addsz ≡ some add
    → addsz < size + add - offs
unfolding growth
growth-enough size offs addsz add h k e =
    let n = ((addsz - (size - offs)) / buf_chunk + 1) * buf_chunk in
    elim (Bool-cases (leb (size_max - n) size)) [
      | inl x ↦ elim (Bool-cases (ltb (size_max - size) (addsz + 1))) [
        | inl y ↦ absurd (let z : none ≡ some add = rw (growth, x, y) at e in ground arith)
        | inr y ↦
            let z : some (size_max - size) ≡ some add = rw (growth, x, y) at e in
            let w = some-injective z in
            let v : addsz + 1 ≤ size_max - size = ground arith in omega arith
      ]
      | inr x ↦
          let z : some n ≡ some add = rw (growth, x) at e in let w = some-injective z in omega arith
    ]

growth-overflows :
    (size offs addsz : ℕ)
    → offs ≤ size
    → size - offs < addsz + 1
    → growth size offs addsz ≡ none
    → size_max < size + (addsz + 1)
unfolding growth
growth-overflows size offs addsz h k e =
    let n = ((addsz - (size - offs)) / buf_chunk + 1) * buf_chunk in
    elim (Bool-cases (leb (size_max - n) size)) [
      | inl x ↦ elim (Bool-cases (ltb (size_max - size) (addsz + 1))) [
        | inl y ↦ let v = ltb→lt (size_max - size) (addsz + 1) y in omega arith
        | inr y ↦
            absurd (let z : some (size_max - size) ≡ none = rw (growth, x, y) at e in ground arith)
      ]
      | inr x ↦ absurd (let z : some n ≡ none = rw (growth, x) at e in ground arith)
    ]

grow-holding :
    (t room fresh : Text)
    → grow (holding t room) (length fresh) (some fresh) ≡ (ok 0, holding t (room ++ fresh))
grow-holding t room fresh =
    let m =
      ap (λ x. poke (length t) (0 ∷ []) x) (append_assoc t (0 ∷ room) fresh)
      ∙ poke_lem t (0 ∷ []) (0 ∷ (room ++ fresh)) (omega arith) in
    let l : length (t ++ 0 ∷ room) + length fresh ≡ length (t ++ 0 ∷ (room ++ fresh)) =
      let a = length-holding t room in
      let b = length-holding t (room ++ fresh) in let c = length-append room fresh in omega arith in
    rw (m, l) refl

grow_nothing :
    (c : ℕ) (fresh : Text)
    → grow empty_strbuf (length (c ∷ fresh)) (some (c ∷ fresh)) ≡ (ok 0, holding [] fresh)
unfolding poke
grow_nothing c fresh =
    let l : 0 + suc (length fresh) ≡ suc (length fresh) = omega arith in rw l refl

grown :
    (realloc : ℕ → Option Text) (b : Strbuf) (t : Option Text)
    → Represents b t
    → (n : ℕ) (fresh : Text) → n < b.size + length fresh - b.offs
    → b.size - b.offs < n + 1
    → Expanded realloc b (string_of t) n (grow b (length fresh) (some fresh))
grown realloc _ _ nothing n [] k l = absurd (omega arith)
grown realloc _ _ nothing n (c ∷ fresh) k l =
    subst (Expanded realloc empty_strbuf [] n) (sym (grow_nothing c fresh))
      (roomy fresh (omega arith))
grown realloc _ _ (holds t room) n fresh k l =
    let a = length-holding t room in
    let c = length-append room fresh in
    subst (Expanded realloc (holding t room) t n) (sym (grow-holding t room fresh))
      (roomy (room ++ fresh) (omega arith))

-- The call of `realloc` for the growth.
expand_grown :
    (realloc : ℕ → Option Text)
    → IsRealloc realloc
    → (b : Strbuf) (t : Option Text) → Represents b t
    → (n add : ℕ) → n < b.size + add - b.offs
    → b.size - b.offs < n + 1
    → Expanded realloc b (string_of t) n (grow b add (realloc add))
expand_grown realloc h b t r n add k l = elim (Option-cases (realloc add)) [
  | inl e ↦ rw e (no_memory add e)
  | inr (fresh, e) ↦
      let f = h add fresh e in rw (e, ← f) (grown realloc b t r n fresh (rw (← f) at k) l)
]

offs-size : (b : Strbuf) (t : Option Text) → Represents b t → b.offs ≤ b.size
offs-size _ _ nothing = omega arith
offs-size _ _ (holds t room) = let a = length-holding t room in omega arith

roomy_already :
    (realloc : ℕ → Option Text) (b : Strbuf) (t : Option Text)
    → Represents b t
    → (n : ℕ) → n + 1 ≤ b.size - b.offs
    → Expanded realloc b (string_of t) n (ok 0, b)
roomy_already realloc _ _ nothing n h = absurd (omega arith)
roomy_already realloc _ _ (holds t room) n h =
    let a = length-holding t room in roomy room (omega arith)

pub expand_strbuf-Expanded :
    (realloc : ℕ → Option Text)
    → IsRealloc realloc
    → (b : Strbuf) (t : Option Text) → Represents b t
    → (n : ℕ) → Expanded realloc b (string_of t) n (expand_strbuf realloc b (pos n))
unfolding expand_strbuf
expand_strbuf-Expanded realloc h b t r n = elim (Bool-cases (leb (n + 1) (b.size - b.offs))) [
  | inl e ↦ rw e (roomy_already realloc b t r n (leb→le (n + 1) (b.size - b.offs) e))
  | inr e ↦ elim (Option-cases (growth b.size b.offs n)) [
    | inl g ↦
        rw (e, g) (overflows (growth-overflows b.size b.offs n (offs-size b t r) (ground arith) g))
    | inr (add, g) ↦
        let l : b.size - b.offs < n + 1 = ground arith in
        rw (e, g)
          (expand_grown realloc h b t r n add
            (growth-enough b.size b.offs n add (offs-size b t r) l g) l)
  ]
]
