-- ===== src/Dmparser/Printed.antt =====
-- libmultipath/dmparser.c: the words that `assemble_map` writes.
use multipath_tools.Base.{
  ◌==◌, length, All, ℤ, ℕ, ◌≡◌, refl, ap, ◌∙◌, Bool, false, Option, none, some, List, [], ◌∷◌, ◌++◌,
  append_assoc, arith,
}
use multipath_tools.Base.Text.{Text}
use multipath_tools.Structs.{Heap, PathGroup}
use multipath_tools.Features.{show_nat}
use multipath_tools.Dmparser.{merge_words}
use multipath_tools.Dmparser.Words.{line}
use multipath_tools.Dmparser.Reading.{line-append, counted}
use multipath_tools.Dmparser.Paths.{path_words, IsKnown}
use multipath_tools.Dmparser.Selector.{none_word}
use multipath_tools.Dmparser.Groups.{group_words, groups_words}
use multipath_tools.Dmparser.Assemble.{
  MapTable, show_int, show_str, table_features, print_paths, print_groups, groups_of, initial_pg,
  assemble_map,
}

print_paths-line :
    (h : Heap) (pathvec : List ℕ) (z : ℤ) (paths : List ℕ)
    → All (IsKnown h pathvec) paths
    → print_paths h z paths ≡ some (line (path_words h z paths))
unfolding print_paths
print_paths-line h pathvec z [] k = refl
print_paths-line h pathvec z (a ∷ paths) (((n, _, _), _), k) =
    let e : (length (h a).dev_t == 0) ≡ false = ground arith in
    rw (print_paths, e, print_paths-line h pathvec z paths k)
      (ap (λ t. some (32 ∷ t))
        (append_assoc (h a).dev_t (32 ∷ show_int z) (line (path_words h z paths))))

group_line :
    (sel : Text) (h : Heap) (z : ℤ) (g : PathGroup) (ws : List Text)
    → 32 ∷ merge_words sel none_word
        ++ 32 ∷ show_nat (length g.paths)
        ++ 32 ∷ 49 ∷ line (path_words h z g.paths)
        ++ line ws
      ≡ line (group_words sel h z g ws)
group_line sel h z g ws = simp (append_assoc, line-append)

print_groups-line :
    (h : Heap) (pathvec : List ℕ) (m : MapTable) (sel : Text) (groups : List PathGroup)
    → m.selector ≡ some (merge_words sel none_word)
    → All (λ g. All (IsKnown h pathvec) g.paths) groups
    → print_groups h m groups ≡ some (line (groups_words sel h m.minio groups))
unfolding print_groups
print_groups-line h pathvec m sel [] s k = refl
print_groups-line h pathvec m sel (g ∷ groups) s (j, k) =
    rw
      (
        print_groups,
        print_paths-line h pathvec m.minio g.paths j,
        print_groups-line h pathvec m sel groups s k,
      )
      (ap
          (λ o. some (
            32 ∷ show_str o
            ++ 32 ∷ show_nat (length g.paths)
            ++ 32 ∷ 49 ∷ line (path_words h m.minio g.paths)
            ++ line (groups_words sel h m.minio groups)))
          s
        ∙ ap some (group_line sel h m.minio g (groups_words sel h m.minio groups)))

-- The words of a table behind the first.
abbrev pub words_of : List Text → List Text → ℕ → ℕ → List Text → List Text
words_of fs hs n b ws = fs ++ show_nat (length hs) ∷ (hs ++ show_nat n ∷ show_nat b ∷ ws)

head_line :
    (fs hs : List Text) (n b : ℕ) (ws : List Text)
    → (counted fs ++ 32 ∷ counted hs ++ 32 ∷ show_nat n ++ 32 ∷ show_nat b) ++ line ws
      ≡ show_nat (length fs) ++ line (words_of fs hs n b ws)
head_line fs hs n b ws = simp (append_assoc, line-append)

-- The table of a map with groups, as text.
pub assemble_map-line :
    (old_kernel : Bool) (h : Heap) (pathvec : List ℕ) (m : MapTable) (fs hs : List Text)
    (sel : Text) (g : PathGroup) (groups : List PathGroup)
    → table_features old_kernel h m ≡ some (counted fs)
    → m.hwhandler ≡ some (counted hs)
    → m.selector ≡ some (merge_words sel none_word)
    → m.mpp.pg ≡ some (g ∷ groups)
    → All (λ g. All (IsKnown h pathvec) g.paths) (g ∷ groups)
    → (assemble_map old_kernel h m).1
      ≡ some (
          show_nat (length fs)
          ++ line (
              words_of fs hs
                (length (g ∷ groups))
                m.mpp.bestpg
                (groups_words sel h m.minio (g ∷ groups))))
unfolding assemble_map
assemble_map-line old_kernel h pathvec m fs hs sel g groups f w s p k =
    let text : Option Text → Option Text → Option Text → ℕ → ℕ → Option Text =
      λ features hwhandler body n b. elim body [
        | none ↦ none
        | some t ↦ some (
            (show_str features ++ 32 ∷ show_str hwhandler ++ 32 ∷ show_nat n ++ 32 ∷ show_nat b)
            ++ t)
      ] in
    ap
      (λ o.
        text (table_features old_kernel h m) m.hwhandler (print_groups h m (groups_of o))
          (length (groups_of o)) (initial_pg (groups_of o) m.mpp.bestpg))
      p
    ∙ ap
        (λ o. text o m.hwhandler (print_groups h m (g ∷ groups)) (length (g ∷ groups)) m.mpp.bestpg)
        f
    ∙ ap
        (λ o.
          text (some (counted fs)) o (print_groups h m (g ∷ groups)) (length (g ∷ groups))
            m.mpp.bestpg)
        w
    ∙ ap (λ o. text (some (counted fs)) (some (counted hs)) o (length (g ∷ groups)) m.mpp.bestpg)
        (print_groups-line h pathvec m sel (g ∷ groups) s k)
    ∙ ap some (
        head_line fs hs (length (g ∷ groups)) m.mpp.bestpg
          (groups_words sel h m.minio (g ∷ groups)))
