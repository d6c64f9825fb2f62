-- ===== src/Strbuf/Quoting.antt =====
-- libmpathutil/strbuf.c: strings behind the end of a buffer, plain and quoted.
use multipath_tools.Base.{
  ◌==◌, if◌then◌else◌, ==→eq, Bool-cases, length, drop, length-append, ℕ, zero, suc, ◌+◌, ◌-◌, ◌≤◌,
  ◌≡◌, refl, sym, ap, ◌∙◌, inl, inr, some, [], ◌∷◌, ◌++◌, append_assoc, arith,
}
use multipath_tools.Base.Text.{Text}
use multipath_tools.Strbuf.{
  ok, poke, put, quote, count_quotes, through_quote, quote_loop, finish_quoted, put_quoted,
}
use multipath_tools.Strbuf.Memory.{length-drop, poke-append, poke_end}
use multipath_tools.Strbuf.Room.{holding, length-holding}

-- A string with its NUL behind the end makes the buffer hold both.
written :
    (t s room : Text)
    → length s ≤ length room
    → (record {
      buf = some (poke (length t) (s ++ 0 ∷ []) (t ++ 0 ∷ room));
      size = length (t ++ 0 ∷ room);
      offs = length t + length s;
    })
      ≡ holding (t ++ s) (drop (length s) room)
written t s room h =
    let a = poke_end t s room h in
    let b = length-append t s in
    let c : length (t ++ 0 ∷ room) ≡ length ((t ++ s) ++ 0 ∷ drop (length s) room) =
      let x = length-holding t room in
      let y = length-holding (t ++ s) (drop (length s) room) in
      let z = length-drop (length s) room h in omega arith in
    rw (a, c, b) refl

pub put_lem :
    (t s room : Text)
    → length s ≤ length room
    → put s (holding t room) ≡ (ok (length s), holding (t ++ s) (drop (length s) room))
put_lem t s room h =
    rw
      (
        poke-append (length t) (length t + length s) s (0 ∷ []) (t ++ 0 ∷ room) refl,
        written t s room h,
      )
      refl

-- Every quote twice.
abbrev pub doubled : Text → Text
doubled [] = []
doubled (c ∷ s) = if c == quote then c ∷ c ∷ doubled s else c ∷ doubled s

abbrev pub quoted : Text → Text
quoted s = quote ∷ doubled s ++ quote ∷ []

pub length-doubled : (s : Text) → length (doubled s) ≡ length s + count_quotes s
length-doubled [] = omega arith
length-doubled (c ∷ s) =
    let ih = length-doubled s in
    elim (Bool-cases (c == quote)) [ inl e ↦ rw e (omega arith) | inr e ↦ rw e (omega arith) ]

no_quotes : (s : Text) → count_quotes s ≡ 0 → doubled s ≡ s
no_quotes [] h = refl
no_quotes (c ∷ s) h = elim (Bool-cases (c == quote)) [
  | inl e ↦ absurd (let z : suc (count_quotes s) ≡ 0 = rw e at h in omega arith)
  | inr e ↦ rw e (ap (◌∷◌ c) (no_quotes s (rw e at h)))
]

through_quote_lem :
    (s : Text) (n : ℕ)
    → count_quotes s ≡ suc n
    → (count_quotes (through_quote s).1 ≡ n)
      × (doubled s ≡ (through_quote s).0 ++ quote ∷ doubled (through_quote s).1)
through_quote_lem [] n h = absurd (omega arith)
through_quote_lem (c ∷ s) n h = elim (Bool-cases (c == quote)) [
  | inl e ↦
      let z : suc (count_quotes s) ≡ suc n = rw e at h in
      let w = ==→eq c quote e in rw e (omega arith, ap (λ x. c ∷ x ∷ doubled s) w)
  | inr e ↦ let (i, j) = through_quote_lem s n (rw e at h) in rw e (i, ap (◌∷◌ c) j)
]

-- What the loop over the quotes does: it writes `part`, and leaves `rest` to be written.
pub quote_loop_lem :
    (n q : ℕ) (p m : Text) (size offs : ℕ)
    → count_quotes p ≡ n
    → (part : Text) × (rest : Text) × (part ++ rest ≡ doubled p)
      × (quote_loop n q p (record { buf = some m; size = size; offs = offs }) ≡ (
        record { buf = some (poke q part m); size = size; offs = offs },
        q + length part,
        rest,
      ))
unfolding quote_loop
quote_loop_lem zero q p m size offs h =
    ([], p, sym (no_quotes p h), let z : q + 0 ≡ q = omega arith in rw z refl)
quote_loop_lem (suc n) q p m size offs h =
    let (k, e) = through_quote_lem p n h in
    let r = through_quote p in
    let (part, rest, f, g) =
      quote_loop_lem n (q + length r.0 + 1) r.1 (poke q (r.0 ++ quote ∷ []) m) size offs k in
    let front = r.0 ++ quote ∷ [] in
    let a = poke-append q (q + length r.0) r.0 (quote ∷ []) m refl in
    let l = length-append r.0 (quote ∷ []) in
    let b = poke-append q (q + length r.0 + 1) front part m (omega arith) in
    let l' = length-append front part in
    let i : q + length r.0 + 1 + length part ≡ q + length (front ++ part) = omega arith in
    (
      front ++ part,
      rest,
      append_assoc front part rest
          ∙ ap (λ x. front ++ x) f
          ∙ append_assoc r.0 (quote ∷ []) (doubled r.1)
          ∙ sym e,
      rw a (g ∙ rw (b, i) refl),
    )

pub put_quoted_lem :
    (t s room : Text)
    → length (quoted s) ≤ length room
    → put_quoted s (holding t room)
      ≡ (ok (length (quoted s)), holding (t ++ quoted s) (drop (length (quoted s)) room))
put_quoted_lem t s room h =
    let m = poke (length t) (quote ∷ []) (t ++ 0 ∷ room) in
    let (part, rest, f, g) =
      quote_loop_lem (count_quotes s) (length t + 1) s m (length (t ++ 0 ∷ room)) (length t) refl in
    let n = length t in
    let lf = ap length f in
    let l1 = length-append part rest in
    let l2 = length-append (part ++ rest) (quote ∷ []) in
    let l3 = length-append (doubled s) (quote ∷ []) in
    let x = poke-append n (n + 1) (quote ∷ []) part (t ++ 0 ∷ room) refl in
    let y = poke-append n (n + 1 + length part) (quote ∷ part) rest (t ++ 0 ∷ room) (omega arith) in
    let z =
      poke-append n (n + 1 + length part + length rest) (quote ∷ part ++ rest) (quote ∷ [])
        (t ++ 0 ∷ room) (omega arith) in
    let w =
      poke-append n (n + 1 + length part + length rest + 1) (quote ∷ part ++ rest ++ quote ∷ [])
        (0 ∷ []) (t ++ 0 ∷ room) (omega arith) in
    let k : n + 1 + length part + length rest + 1 - n ≡ length (quoted s) = omega arith in
    ap (finish_quoted n) g ∙ rw (x, y, z, w, f, k, written t (quoted s) room h) refl
