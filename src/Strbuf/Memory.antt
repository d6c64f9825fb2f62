-- ===== src/Strbuf/Memory.antt =====
-- libmpathutil/strbuf.c: writes to the memory of a buffer.
use multipath_tools.Base.{
  length, take, drop, length-append, ℕ, zero, suc, ◌+◌, ◌≤◌, ◌≡◌, refl, sym, ap, ◌∙◌, [], ◌∷◌, ◌++◌,
  append_assoc, arith,
}
use multipath_tools.Base.Text.{Text}
use multipath_tools.Strbuf.{poke}

-- A write at the end of `t` leaves `t`.
poke-past : (t s m : Text) → poke (length t) s (t ++ m) ≡ t ++ poke 0 s m
unfolding poke
poke-past [] s m = refl
poke-past (c ∷ t) [] m = refl
poke-past (c ∷ t) (d ∷ s) m = ap (◌∷◌ c) (poke-past t (d ∷ s) m)

poke-here : (s m : Text) → length s ≤ length m → poke 0 s m ≡ s ++ drop (length s) m
unfolding poke
poke-here [] m h = refl
poke-here (c ∷ s) [] h = absurd (omega arith)
poke-here (c ∷ s) (d ∷ m) h = ap (◌∷◌ c) (poke-here s m (omega arith))

-- A write that fits replaces what stood there.
pub poke_lem :
    (t s m : Text)
    → length s ≤ length m
    → poke (length t) s (t ++ m) ≡ t ++ (s ++ drop (length s) m)
poke_lem t s m h = poke-past t s m ∙ ap (λ x. t ++ x) (poke-here s m h)

pub length-drop : (n : ℕ) (m : Text) → n ≤ length m → n + length (drop n m) ≡ length m
length-drop zero m h = omega arith
length-drop (suc n) [] h = absurd (omega arith)
length-drop (suc n) (c ∷ m) h = let k = length-drop n m (omega arith) in omega arith

poke-nil : (i : ℕ) (s : Text) → poke i s [] ≡ []
unfolding poke
poke-nil i [] = refl
poke-nil i (c ∷ s) = refl

poke-suc : (i : ℕ) (s : Text) (d : ℕ) (m : Text) → poke (suc i) s (d ∷ m) ≡ d ∷ poke i s m
unfolding poke
poke-suc i [] d m = refl
poke-suc i (c ∷ s) d m = refl

-- Two writes, one behind the other, are one.
pub poke-append :
    (i j : ℕ) (s u m : Text) → j ≡ i + length s → poke j u (poke i s m) ≡ poke i (s ++ u) m
unfolding poke
poke-append i j [] u m h = let e : j ≡ i = omega arith in rw e refl
poke-append i j (c ∷ s) u [] h = poke-nil j u
poke-append zero zero (c ∷ s) u (d ∷ m) h = absurd (omega arith)
poke-append zero (suc j) (c ∷ s) u (d ∷ m) h =
    poke-suc j u c (poke 0 s m) ∙ ap (◌∷◌ c) (poke-append zero j s u m (omega arith))
poke-append (suc i) zero (c ∷ s) u (d ∷ m) h = absurd (omega arith)
poke-append (suc i) (suc j) (c ∷ s) u (d ∷ m) h =
    poke-suc j u d (poke i (c ∷ s) m) ∙ ap (◌∷◌ d) (poke-append i j (c ∷ s) u m (omega arith))

drop-suc : (n c : ℕ) (m : Text) → drop (suc n) (c ∷ m) ≡ drop n m
drop-suc n c m = refl

-- A string with its NUL, written at the end of `t`.
pub poke_end :
    (t s room : Text)
    → length s ≤ length room
    → poke (length t) (s ++ 0 ∷ []) (t ++ 0 ∷ room) ≡ (t ++ s) ++ 0 ∷ drop (length s) room
poke_end t s room h =
    let l = length-append s (0 ∷ []) in
    let k : length (s ++ 0 ∷ []) ≡ suc (length s) = omega arith in
    poke_lem t (s ++ 0 ∷ []) (0 ∷ room) (omega arith)
    ∙ ap (λ n. t ++ ((s ++ 0 ∷ []) ++ drop n (0 ∷ room))) k
    ∙ ap (λ x. t ++ x) (append_assoc s (0 ∷ []) (drop (length s) room))
    ∙ sym (append_assoc t s (0 ∷ drop (length s) room))

-- A NUL inside or at the end of a string cuts it.
pub poke_inside :
    (n : ℕ) (t room : Text)
    → n ≤ length t
    → poke n (0 ∷ []) (t ++ 0 ∷ room) ≡ take n t ++ 0 ∷ drop (suc n) (t ++ 0 ∷ room)
unfolding poke
poke_inside zero [] room h = refl
poke_inside zero (c ∷ t) room h = refl
poke_inside (suc n) [] room h = absurd (omega arith)
poke_inside (suc n) (c ∷ t) room h = ap (◌∷◌ c) (poke_inside n t room (omega arith))

pub length-take : (n : ℕ) (t : Text) → n ≤ length t → length (take n t) ≡ n
length-take zero t h = refl
length-take (suc n) [] h = absurd (omega arith)
length-take (suc n) (c ∷ t) h = ap suc (length-take n t (omega arith))
