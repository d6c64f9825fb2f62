-- ===== src/Dmparser/Selector.antt =====
-- libmultipath/dmparser.c: the selector of a group is read back as `assemble_map` has written it.
use multipath_tools.Base.{
  pos, pos_part, ℕ, ◌≡◌, refl, ap, ◌∙◌, ◌⊎◌, inl, inr, Option, none, some, List, [], ◌∷◌, ◌++◌,
  arith,
}
use multipath_tools.Base.Text.{Text, codes}
use multipath_tools.Features.{strchop}
use multipath_tools.Dmparser.{merge_words, skip_words}
use multipath_tools.Dmparser.Words.{IsWord, line, gather_words-line}
use multipath_tools.Dmparser.Reading.{line-append, next_word-line, parsed_step}
use multipath_tools.Dmparser.Paths.{pass_words_zero}
use multipath_tools.Dmparser.Assemble.{MapTable}
use multipath_tools.Dmparser.Disassemble.{
  atoi, Reader, parsed, Parse, ◌>>=◌, ◌>>◌, return, next_word, pass_words, set_table, selector_from,
  parse_selector,
}

abbrev pub none_word : Text
none_word = codes "0"

abbrev pub one_word : Text
one_word = codes "1"

abbrev pub full_selector : Text → Text
full_selector sel = merge_words sel none_word

-- No group has been read yet, or one with this selector.
abbrev pub SelectorFits : Text → Option Text → ℕ → Type 0
SelectorFits sel o args = (o ≡ none) ⊎ ((o ≡ some (full_selector sel)) × (args ≡ 0))

none_word-IsWord : IsWord none_word
unfolding strchop
none_word-IsWord = (omega arith, (refl, tt), refl)

pub one_word-IsWord : IsWord one_word
unfolding strchop
one_word-IsWord = (omega arith, (refl, tt), refl)

same_selector : (m : MapTable) (o : Option Text) → m.selector ≡ o → m ≡ record m { selector = o }
same_selector m o e = ap (λ x. record m { selector = x }) e

pass_two :
    (r : Reader) (sel v : Text) (ws : List Text)
    → IsWord sel
    → r.place ≡ line (sel ∷ none_word ∷ v ∷ ws)
    → pass_words 2 r ≡ parsed tt (record r { place = line (v ∷ ws) })
unfolding pass_words
pass_two r sel v ws k e =
    ap (λ p. parsed tt (record r { place = p }))
      (ap (skip_words 2) (e ∙ line-append (sel ∷ none_word ∷ []) (v ∷ ws))
        ∙ (gather_words-line (sel ∷ none_word ∷ []) [] (v ++ line ws)
            (k, (none_word-IsWord, tt))).1)

atoi_none : atoi none_word ≡ pos 0
unfolding atoi
atoi_none = refl

pub atoi_one : atoi one_word ≡ pos 1
unfolding atoi
atoi_one = refl

finish_none :
    (r : Reader) (sel v : Text) (ws : List Text)
    → pass_words (pos_part (atoi none_word)) (record r {
      table = record (r.table) { selector = some (full_selector sel) };
      place = line (v ∷ ws);
    })
      ≡ parsed tt (record r {
        table = record (r.table) { selector = some (full_selector sel) };
        place = line (v ∷ ws);
      })
finish_none r sel v ws = rw atoi_none (pass_words_zero _)

module _ (r : Reader) (sel v : Text) (ws : List Text) (k : IsWord sel)
    (e : r.place ≡ line (sel ∷ none_word ∷ v ∷ ws)) where
  abbrev pub after_selector : Reader
  after_selector = record r {
    table = record (r.table) { selector = some (full_selector sel) };
    place = line (v ∷ ws);
  }

  parse_selector-first :
      (args : ℕ) → r.table.selector ≡ none → parse_selector args r ≡ parsed 0 after_selector
  unfolding parse_selector
  parse_selector-first args f =
      let r1 : Reader = record r { place = line (none_word ∷ v ∷ ws) } in
      let finish : Text → Text → Parse ℕ = λ name word.
        set_table (λ m. record m { selector = some (merge_words name word) })
        >> pass_words (pos_part (atoi word))
        >> return (pos_part (atoi word)) in
      ap (λ o. selector_from o args r) f
      ∙ parsed_step next_word (λ name. next_word >>= finish name) r
          (next_word-line r sel (none_word ∷ v ∷ ws) k e)
      ∙ parsed_step next_word (finish sel) r1
          (next_word-line r1 none_word (v ∷ ws) none_word-IsWord refl)
      ∙ parsed_step (pass_words (pos_part (atoi none_word)))
          (λ _. return (pos_part (atoi none_word))) after_selector (finish_none r sel v ws)
      ∙ ap (λ x. parsed (pos_part x) after_selector) atoi_none

  parse_selector-later :
      r.table.selector ≡ some (full_selector sel) → parse_selector 0 r ≡ parsed 0 after_selector
  unfolding parse_selector
  parse_selector-later f =
      let r1 : Reader = record r { place = line (v ∷ ws) } in
      ap (λ o. selector_from o 0 r) f
      ∙ parsed_step (pass_words 2) (λ _. pass_words 0 >> return 0) r (pass_two r sel v ws k e)
      ∙ parsed_step (pass_words 0) (λ _. return 0) r1 (pass_words_zero r1)
      ∙ ap (λ m. parsed 0 (record r1 { table = m })) (same_selector r.table _ f)

  pub parse_selector-fits :
      (args : ℕ)
      → SelectorFits sel r.table.selector args
      → parse_selector args r ≡ parsed 0 after_selector
  parse_selector-fits args (inl f) = parse_selector-first args f
  parse_selector-fits args (inr (f, z)) = ap (λ n. parse_selector n r) z ∙ parse_selector-later f
