-- ===== src/Alias/Flipped.antt =====
-- libmultipath/alias.c, `alias_compar`: what it tells of two strings in the other order.
use multipath_tools.Base.{length, ℕ, ◌≡◌, refl, [], ◌∷◌, arith}
use multipath_tools.Base.Text.{Text}
use multipath_tools.Alias.{Sign, less, same, more, first_sign, sign_ℕ, strcmp, alias_compar}

unfoldable pub flip : Sign → Sign
flip less = more
flip same = same
flip more = less

sign_ℕ-flip : (a b : ℕ) → sign_ℕ b a ≡ flip (sign_ℕ a b)
unfolding flip
sign_ℕ-flip a b = ground arith

first_sign-flip : (s t : Sign) → first_sign (flip s) (flip t) ≡ flip (first_sign s t)
unfolding flip
first_sign-flip less t = refl
first_sign-flip same t = refl
first_sign-flip more t = refl

strcmp-flip : (s t : Text) → strcmp t s ≡ flip (strcmp s t)
unfolding strcmp flip
strcmp-flip [] [] = refl
strcmp-flip [] (d ∷ t) = refl
strcmp-flip (c ∷ s) [] = refl
strcmp-flip (c ∷ s) (d ∷ t) =
    rw (sign_ℕ-flip c d, strcmp-flip s t) (first_sign-flip (sign_ℕ c d) (strcmp s t))

pub alias_compar-flip : (s t : Text) → alias_compar t s ≡ flip (alias_compar s t)
unfolding alias_compar
alias_compar-flip s t =
    rw (sign_ℕ-flip (length s) (length t), strcmp-flip s t)
      (first_sign-flip (sign_ℕ (length s) (length t)) (strcmp s t))
