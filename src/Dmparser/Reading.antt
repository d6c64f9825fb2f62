-- ===== src/Dmparser/Reading.antt =====
-- libmultipath/dmparser.c: how the words of a table are read one after the other.
use multipath_tools.Base.{
  ◌==◌, length, drop, length-append, All, pos_part, ℕ, suc, ◌+◌, ◌≡◌, refl, sym, ap, ◌∙◌, false,
  Option, none, some, List, [], ◌∷◌, ◌++◌, append_assoc, arith,
}
use multipath_tools.Base.Text.{Text}
use multipath_tools.Features.{show_nat}
use multipath_tools.Dmparser.{skip_spaces, before_space, get_word, gather_words}
use multipath_tools.Dmparser.Words.{
  IsWord, line, before_space_lem, skip_spaces_lem, get_word_lem, drop-append, gather_words-line,
}
use multipath_tools.Dmparser.Numbers.{atoi-show_nat, show_nat-IsWord}
use multipath_tools.Dmparser.Disassemble.{
  atoi, Reader, parsed, refused, Parse, ◌>>=◌, next_word, unchecked_word, counted_words,
}

-- The place behind a word that more words follow; behind the last word the place stays before it.
abbrev pub place_after : Text → List Text → Text
place_after w [] = line (w ∷ [])
place_after w (v ∷ ws) = line (v ∷ ws)

pub line-append : (ws vs : List Text) → line (ws ++ vs) ≡ line ws ++ line vs
line-append [] vs = refl
line-append (w ∷ ws) vs =
    ap (λ x. 32 ∷ (w ++ x)) (line-append ws vs) ∙ sym (append_assoc (32 ∷ w) (line ws) (line vs))

before_space_end : (w : Text) → All (λ c. (c == 32) ≡ false) w → before_space (w ++ []) ≡ (w, [])
before_space_end [] h = refl
before_space_end (c ∷ w) (e, h) = let ih = before_space_end w h in rw (before_space, e, ih) refl

get_word_end : (w : Text) → IsWord w → get_word (32 ∷ (w ++ [])) ≡ (some w, 0)
unfolding get_word
get_word_end w k =
    let (n, h, s) = k in
    let l = length-append w [] in
    let e : (length (w ++ []) == 0) ≡ false = ground arith in
    rw (get_word, skip_spaces_lem w [] k, before_space_end w h, e, s) refl

get_word_start : (w rest : Text) → IsWord w → get_word (w ++ 32 ∷ rest) ≡ (some w, length w)
unfolding get_word
get_word_start [] rest (n, h, s) = elim n [ ]
get_word_start (c ∷ w) rest k =
    let (n, (d, h), s) = k in
    let l = length-append w (32 ∷ rest) in
    let e : (length (c ∷ w ++ 32 ∷ rest) == 0) ≡ false = ground arith in
    let f : (length (32 ∷ rest) == 0) ≡ false = ground arith in
    let z : 0 + length (c ∷ w) ≡ length (c ∷ w) = omega arith in
    rw (get_word, skip_spaces, d, before_space, d, before_space_lem w rest h, e, f, s)
      (ap (λ n. (some (c ∷ w), n)) z)

get_word-line :
    (w : Text) (ws : List Text)
    → IsWord w
    → (n : ℕ) × (get_word (line (w ∷ ws)) ≡ (some w, n))
      × (drop n (line (w ∷ ws)) ≡ place_after w ws)
get_word-line w [] k = (0, get_word_end w k, refl)
get_word-line w (v ∷ ws) k =
    (suc (length w), get_word_lem w (v ++ line ws) k, drop-append w (line (v ∷ ws)))

next_word_lem :
    (r : Reader) (w : Text) (n : ℕ)
    → get_word r.place ≡ (some w, n)
    → next_word r ≡ parsed w (record r { place = drop n r.place })
unfolding next_word
next_word_lem r w n e =
    rw (next_word, e)
      (ap (λ (x : Option Text × ℕ). parsed w (record r { place = drop (x.1) r.place })) e)

unchecked_word_lem :
    (r : Reader) (w : Text) (n : ℕ)
    → get_word r.place ≡ (some w, n)
    → unchecked_word r ≡ parsed w (record r { place = drop n r.place })
unfolding unchecked_word
unchecked_word_lem r w n e =
    rw (unchecked_word, e)
      (ap (λ (x : Option Text × ℕ). parsed w (record r { place = drop (x.1) r.place })) e)

module _ (r : Reader) (w : Text) (ws : List Text) (k : IsWord w) (e : r.place ≡ line (w ∷ ws)) where
  pub next_word-line : next_word r ≡ parsed w (record r { place = place_after w ws })
  next_word-line =
      let (n, f, g) = get_word-line w ws k in
      next_word_lem r w n (ap get_word e ∙ f)
      ∙ ap (λ p. parsed w (record r { place = p })) (ap (drop n) e ∙ g)

  pub unchecked_word-line : unchecked_word r ≡ parsed w (record r { place = place_after w ws })
  unchecked_word-line =
      let (n, f, g) = get_word-line w ws k in
      unchecked_word_lem r w n (ap get_word e ∙ f)
      ∙ ap (λ p. parsed w (record r { place = p })) (ap (drop n) e ∙ g)

pub next_word-start :
    (r : Reader) (w v : Text) (ws : List Text)
    → IsWord w
    → r.place ≡ w ++ line (v ∷ ws)
    → next_word r ≡ parsed w (record r { place = line (v ∷ ws) })
next_word-start r w v ws k e =
    next_word_lem r w (length w) (ap get_word e ∙ get_word_start w (v ++ line ws) k)
    ∙ ap (λ p. parsed w (record r { place = p }))
        (ap (drop (length w)) e ∙ drop-append w (line (v ∷ ws)))

-- `>>=` on a part that goes on.
pub parsed_step :
    {A B : Type 0} (m : Parse A) (f : A → Parse B) (r : Reader) {a : A} {s : Reader}
    → m r ≡ parsed a s
    → (m >>= f) r ≡ f a s
parsed_step m f r e = rw (◌>>=◌, e) refl

-- A count and its words, as a string of its own.
abbrev pub counted : List Text → Text
counted ws = show_nat (length ws) ++ line ws

gather_step :
    (n : ℕ) (w text p : Text) (r : Reader)
    → gather_words n w r.place ≡ some (text, p)
    → (elim (gather_words n w r.place) [
      | none ↦ refused
      | some (t, q) ↦ parsed t (record r { place = q })
    ])
      ≡ parsed text (record r { place = p })
gather_step n w text p r e = rw e refl

gather_counted :
    (r : Reader) (ws : List Text) (v : Text) (vs : List Text)
    → All IsWord ws
    → r.place ≡ line (ws ++ v ∷ vs)
    → gather_words (pos_part (atoi (show_nat (length ws)))) (show_nat (length ws)) r.place
      ≡ some (counted ws, line (v ∷ vs))
gather_counted r ws v vs h e =
    ap (λ z. gather_words (pos_part z) (show_nat (length ws)) r.place) (atoi-show_nat (length ws))
    ∙ ap (gather_words (length ws) (show_nat (length ws))) (e ∙ line-append ws (v ∷ vs))
    ∙ (gather_words-line ws (show_nat (length ws)) (v ++ line vs) h).0

rest_of_counted : Text → Parse Text
rest_of_counted w r = elim (gather_words (pos_part (atoi w)) w r.place) [
  | none ↦ refused
  | some (text, p) ↦ parsed text (record r { place = p })
]

counted_words_lem :
    (r : Reader) (p : Text) (ws : List Text) (v : Text) (vs : List Text)
    → All IsWord ws
    → next_word r ≡ parsed (show_nat (length ws)) (record r { place = p })
    → p ≡ line (ws ++ v ∷ vs)
    → counted_words r ≡ parsed (counted ws) (record r { place = line (v ∷ vs) })
unfolding counted_words rest_of_counted
counted_words_lem r p ws v vs h e f =
    parsed_step next_word rest_of_counted r e
    ∙ gather_step (pos_part (atoi (show_nat (length ws)))) (show_nat (length ws)) (counted ws)
        (line (v ∷ vs)) (record r { place = p })
        (gather_counted (record r { place = p }) ws v vs h f)

module _ (r : Reader) (ws : List Text) (v : Text) (vs : List Text) (h : All IsWord ws) where
  pub counted_words-line :
      r.place ≡ line (show_nat (length ws) ∷ (ws ++ v ∷ vs))
      → counted_words r ≡ parsed (counted ws) (record r { place = line (v ∷ vs) })
  counted_words-line e =
      counted_words_lem r (place_after (show_nat (length ws)) (ws ++ v ∷ vs)) ws v vs h
        (next_word-line r (show_nat (length ws)) (ws ++ v ∷ vs) (show_nat-IsWord (length ws)) e)
        (after_line ws)
    where
      after_line :
          (us : List Text) → place_after (show_nat (length ws)) (us ++ v ∷ vs) ≡ line (us ++ v ∷ vs)
      after_line [] = refl
      after_line (u ∷ us) = refl

  pub counted_words-start :
      r.place ≡ show_nat (length ws) ++ line (ws ++ v ∷ vs)
      → counted_words r ≡ parsed (counted ws) (record r { place = line (v ∷ vs) })
  counted_words-start e = counted_words_lem r (line (ws ++ v ∷ vs)) ws v vs h (start ws e) refl
    where
      start :
          (us : List Text)
          → r.place ≡ show_nat (length ws) ++ line (us ++ v ∷ vs)
          → next_word r ≡ parsed (show_nat (length ws)) (record r { place = line (us ++ v ∷ vs) })
      start [] f = next_word-start r (show_nat (length ws)) v vs (show_nat-IsWord (length ws)) f
      start (u ∷ us) f =
          next_word-start r (show_nat (length ws)) u (us ++ v ∷ vs) (show_nat-IsWord (length ws)) f
