-- ===== src/Dmparser/Groups.antt =====
-- libmultipath/dmparser.c: the groups of a table are read back as `assemble_map` has written them.
use multipath_tools.Base.{
  length, All, ℤ, pos_part, ℕ, suc, ◌≡◌, refl, sym, ap, ◌∙◌, inl, inr, Option, none, some, List, [],
  ◌∷◌, ◌++◌, map, append-nil, append_assoc,
}
use multipath_tools.Base.Text.{Text}
use multipath_tools.Structs.{Heap, PathGroup, new_pathgroup}
use multipath_tools.Features.{show_nat}
use multipath_tools.Dmparser.{merge_words}
use multipath_tools.Dmparser.Words.{IsWord, line}
use multipath_tools.Dmparser.Numbers.{atoi-show_nat, show_nat-IsWord}
use multipath_tools.Dmparser.Reading.{place_after, next_word-line, parsed_step}
use multipath_tools.Dmparser.Paths.{
  path_words, IsKnown, number_paths, minio_after, SameNumbers, parse_paths-words,
}
use multipath_tools.Dmparser.Selector.{
  none_word, one_word, full_selector, SelectorFits, one_word-IsWord, atoi_one, after_selector,
  parse_selector-fits,
}
use multipath_tools.Dmparser.Assemble.{MapTable, groups_of}
use multipath_tools.Dmparser.Disassemble.{
  atoi, Reader, parsed, Parse, ◌>>=◌, ◌>>◌, next_word, set_table, parse_paths, parse_selector,
  add_group, parse_groups,
}

-- The words of a group whose selector has no arguments, before others.
abbrev pub group_words : Text → Heap → ℤ → PathGroup → List Text → List Text
group_words sel h z g ws =
    sel ∷ none_word ∷ show_nat (length g.paths) ∷ one_word ∷ (path_words h z g.paths ++ ws)

abbrev pub groups_words : Text → Heap → ℤ → List PathGroup → List Text
groups_words sel h z [] = []
groups_words sel h z (g ∷ groups) = group_words sel h z g (groups_words sel h z groups)

abbrev pub bare_group : PathGroup → PathGroup
bare_group g = record new_pathgroup { paths = g.paths }

-- The paths with the numbers of their groups, from `i` on.
abbrev pub number_groups : ℕ → List PathGroup → Heap → Heap
number_groups i [] h = h
number_groups i (g ∷ groups) h = number_groups (suc i) groups (number_paths i g.paths h)

abbrev pub minio_of_groups : List PathGroup → ℤ → ℤ → ℤ
minio_of_groups [] new old = old
minio_of_groups (g ∷ groups) new old = minio_of_groups groups new (minio_after g.paths new old)

one_word_lem : pos_part (atoi one_word) ≡ 1
one_word_lem = ap pos_part atoi_one

-- One group of the loop.
parse_groups-next :
    (h : Heap) (pathvec : List ℕ) (i n args : ℕ) (z : ℤ) (sel : Text) (g : PathGroup)
    (ws : List Text) (r : Reader)
    → IsWord sel
    → SelectorFits sel r.table.selector args
    → SameNumbers r.heap h
    → All (IsKnown h pathvec) g.paths
    → r.place ≡ line (group_words sel h z g ws)
    → (v : Text) × (parse_groups pathvec (suc n) i args r
        ≡ parse_groups pathvec n (suc i) 0 (record r {
          heap = number_paths i g.paths r.heap;
          table = add_group (bare_group g) (record (r.table) {
            selector = some (full_selector sel);
            minio = minio_after g.paths z r.table.minio;
          });
          place = place_after v ws;
        }))
      × SameNumbers (number_paths i g.paths r.heap) h
unfolding parse_groups
parse_groups-next h pathvec i n args z sel g ws r k sf s kn e =
    let number : Text = show_nat (length g.paths) in
    let words : List Text = path_words h z g.paths ++ ws in
    let r1 : Reader = after_selector r sel number (one_word ∷ words) k e in
    let r2 : Reader = record r1 { place = line (one_word ∷ words) } in
    let r3 : Reader = record r1 { place = place_after one_word words } in
    let last : List ℕ → Parse (Unit {0}) = λ paths.
      set_table (add_group (record new_pathgroup { paths = paths }))
      >> parse_groups pathvec n (suc i) 0 in
    let paths_of : Text → Text → Parse (Unit {0}) = λ num_paths num_paths_args.
      parse_paths pathvec i (pos_part (atoi num_paths_args)) (pos_part (atoi num_paths)) []
      >>= last in
    let (v, f, t) = parse_paths-words h pathvec i z g.paths [] one_word ws r3 s kn refl in
    (
      v,
      parsed_step (parse_selector args)
            (λ args'. next_word >>= λ num_paths. next_word >>= λ num_paths_args.
              parse_paths pathvec i (pos_part (atoi num_paths_args)) (pos_part (atoi num_paths)) []
              >>= λ paths.
                  set_table (add_group (record new_pathgroup { paths = paths }))
                  >> parse_groups pathvec n (suc i) args')
            r (parse_selector-fits r sel number (one_word ∷ words) k e args sf)
          ∙ parsed_step next_word (λ num_paths. next_word >>= paths_of num_paths) r1
              (next_word-line r1 number (one_word ∷ words) (show_nat-IsWord (length g.paths)) refl)
          ∙ parsed_step next_word (paths_of number) r2
              (next_word-line r2 one_word words one_word-IsWord refl)
          ∙ parsed_step
              (parse_paths pathvec i (pos_part (atoi one_word)) (pos_part (atoi number)) []) last r3
              (ap (λ m. parse_paths pathvec i (pos_part (atoi one_word)) m [] r3)
                  (ap pos_part (atoi-show_nat (length g.paths)))
                ∙ ap (λ m. parse_paths pathvec i m (length g.paths) [] r3) one_word_lem
                ∙ f),
      t,
    )

-- The map after some groups.
table_after : Text → ℤ → List PathGroup → MapTable → MapTable
table_after sel z [] m = m
table_after sel z (g ∷ groups) m = table_after sel z groups (
    add_group (bare_group g)
      (record m { selector = some (full_selector sel); minio = minio_after g.paths z m.minio }))

parse_groups-words :
    (h : Heap) (pathvec : List ℕ) (z : ℤ) (sel w : Text)
    → IsWord sel
    → (groups : List PathGroup) (i args : ℕ) (r : Reader) → SelectorFits sel r.table.selector args
    → SameNumbers r.heap h
    → All (λ g. All (IsKnown h pathvec) g.paths) groups
    → r.place ≡ place_after w (groups_words sel h z groups)
    → (p : Text) × (parse_groups pathvec (length groups) i args r
        ≡ parsed tt (record r {
          heap = number_groups i groups r.heap;
          table = table_after sel z groups r.table;
          place = p;
        }))
unfolding table_after parse_groups
parse_groups-words h pathvec z sel w k [] i args r sf s kn e = (r.place, refl)
parse_groups-words h pathvec z sel w k (g ∷ groups) i args r sf s (j, kn) e =
    let (v, f, t) =
      parse_groups-next h pathvec i (length groups) args z sel g (groups_words sel h z groups) r k
        sf s j e in
    let (p, q) =
      parse_groups-words h pathvec z sel v k groups (suc i) 0
        (record r {
          heap = number_paths i g.paths r.heap;
          table = add_group (bare_group g) (record (r.table) {
            selector = some (full_selector sel);
            minio = minio_after g.paths z r.table.minio;
          });
          place = place_after v (groups_words sel h z groups);
        })
        (inr (refl, refl)) t kn refl in
    (p, f ∙ q)

selector_after : Text → List PathGroup → Option Text → Option Text
selector_after sel [] o = o
selector_after sel (g ∷ groups) o = some (full_selector sel)

selector_idem :
    (sel : Text) (groups : List PathGroup)
    → selector_after sel groups (some (full_selector sel)) ≡ some (full_selector sel)
unfolding selector_after
selector_idem sel [] = refl
selector_idem sel (g ∷ groups) = refl

-- The map with what the groups have given, if it had the groups `xs`.
table_with : Text → ℤ → List PathGroup → List PathGroup → MapTable → MapTable
table_with sel z xs groups m = record m {
  selector = selector_after sel groups m.selector;
  minio = minio_of_groups groups z m.minio;
  mpp = record (m.mpp) { pg = some (xs ++ map bare_group groups) };
}

table_after_lem :
    (sel : Text) (z : ℤ) (groups xs : List PathGroup) (m : MapTable)
    → m.mpp.pg ≡ some xs
    → table_after sel z groups m ≡ table_with sel z xs groups m
unfolding table_after table_with selector_after
table_after_lem sel z [] xs m e =
    ap (λ p. record m { mpp = record (m.mpp) { pg = p } }) (e ∙ ap some (sym (append-nil xs)))
table_after_lem sel z (g ∷ groups) xs m e =
    let b : PathGroup = bare_group g in
    let m' : MapTable =
      add_group b
        (record m { selector = some (full_selector sel); minio = minio_after g.paths z m.minio }) in
    let put : Option Text → Option (List PathGroup) → MapTable = λ o p. record m' {
      selector = o;
      minio = minio_of_groups groups z m'.minio;
      mpp = record (m.mpp) { pg = p };
    } in
    table_after_lem sel z groups (xs ++ b ∷ []) m' (ap (λ o. some (groups_of o ++ b ∷ [])) e)
    ∙ ap (λ o. put o (some ((xs ++ b ∷ []) ++ map bare_group groups))) (selector_idem sel groups)
    ∙ ap (λ l. put (some (full_selector sel)) (some l))
        (append_assoc xs (b ∷ []) (map bare_group groups))

-- The loop over the groups of a map that had none.
pub parse_groups-map :
    (h : Heap) (pathvec : List ℕ) (z : ℤ) (sel w : Text) (g : PathGroup) (groups : List PathGroup)
    (r : Reader)
    → IsWord sel
    → r.table.selector ≡ none
    → r.table.mpp.pg ≡ some []
    → r.heap ≡ h
    → All (λ g. All (IsKnown h pathvec) g.paths) (g ∷ groups)
    → r.place ≡ place_after w (groups_words sel h z (g ∷ groups))
    → (p : Text) × (parse_groups pathvec (length (g ∷ groups)) 1 0 r
        ≡ parsed tt (record r {
          heap = number_groups 1 (g ∷ groups) r.heap;
          table = record (r.table) {
            selector = some (merge_words sel none_word);
            minio = minio_of_groups (g ∷ groups) z r.table.minio;
            mpp = record (r.table.mpp) { pg = some (map bare_group (g ∷ groups)) };
          };
          place = p;
        }))
unfolding table_with selector_after
parse_groups-map h pathvec z sel w g groups r k s x y kn e =
    let (p, f) =
      parse_groups-words h pathvec z sel w k (g ∷ groups) 1 0 r (inl s)
        (λ a. ap (λ (c : Heap). (c a).dev_t) y) kn e in
    let t = table_after_lem sel z (g ∷ groups) [] r.table x in
    (
      p,
      f
          ∙ ap
              (λ m.
                parsed tt
                  (record r { heap = number_groups 1 (g ∷ groups) r.heap; table = m; place = p }))
              t,
    )
