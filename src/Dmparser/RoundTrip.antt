-- ===== src/Dmparser/RoundTrip.antt =====
-- libmultipath/dmparser.c: `disassemble_map` reads what `assemble_map` has written.
use multipath_tools.Base.{
  length, All, ℤ, pos_part, ℕ, ◌≡◌, refl, ap, ◌∙◌, Bool, none, some, List, [], ◌∷◌, ◌++◌, map,
}
use multipath_tools.Base.Text.{Text, codes, contains}
use multipath_tools.Structs.{Heap, PathGroup}
use multipath_tools.Features.{show_nat}
use multipath_tools.Dmparser.{merge_words}
use multipath_tools.Dmparser.Words.{IsWord, line}
use multipath_tools.Dmparser.Numbers.{atoi-show_nat, show_nat-IsWord}
use multipath_tools.Dmparser.Reading.{
  place_after, next_word-line, parsed_step, counted, counted_words-line, counted_words-start,
}
use multipath_tools.Dmparser.Paths.{IsKnown}
use multipath_tools.Dmparser.Selector.{none_word}
use multipath_tools.Dmparser.Groups.{
  groups_words, bare_group, number_groups, minio_of_groups, parse_groups-map,
}
use multipath_tools.Dmparser.Assemble.{MapTable, table_features, groups_of, assemble_map}
use multipath_tools.Dmparser.Disassemble.{
  atoi, Reader, parsed, Parse, ◌>>=◌, ◌>>◌, next_word, counted_words, set_table, parse_groups,
  start_groups, parse_map, disassemble_map,
}
use multipath_tools.Dmparser.Printed.{words_of, assemble_map-line}

-- The map `old` after it has read such a table.
abbrev pub map_read : MapTable → List Text → List Text → Text → ℤ → ℕ → List PathGroup → MapTable
map_read old fs hs sel z b groups = record old {
  mpp = record (old.mpp) {
    features = some (counted fs);
    nextpg = b;
    pg = some (map bare_group groups);
  };
  hwhandler = some (counted hs);
  selector = some (merge_words sel none_word);
  minio = minio_of_groups groups z old.minio;
  queue_mode_bio = contains (counted fs) (codes "queue_mode bio");
}

parse_map-line :
    (pathvec : List ℕ) (fs hs : List Text) (sel : Text) (z : ℤ) (b : ℕ) (g : PathGroup)
    (groups : List PathGroup) (r : Reader)
    → All IsWord fs
    → All IsWord hs
    → IsWord sel
    → All (λ g. All (IsKnown r.heap pathvec) g.paths) (g ∷ groups)
    → r.table.selector ≡ none
    → r.table.mpp.pg ≡ none
    → r.place
      ≡ show_nat (length fs)
        ++ line (words_of fs hs (length (g ∷ groups)) b (groups_words sel r.heap z (g ∷ groups)))
    → (p : Text) × (parse_map pathvec r
        ≡ parsed tt (record r {
          heap = number_groups 1 (g ∷ groups) r.heap;
          table = map_read r.table fs hs sel z b (g ∷ groups);
          place = p;
        }))
unfolding parse_map
parse_map-line pathvec fs hs sel z b g groups r kf kh ks kn s pg e =
    let n : ℕ = length (g ∷ groups) in
    let gw : List Text = groups_words sel r.heap z (g ∷ groups) in
    let after_b : List Text = show_nat b ∷ gw in
    let after_n : List Text = show_nat n ∷ after_b in
    let m1 : MapTable = record (r.table) {
      mpp = record (r.table.mpp) { features = some (counted fs) };
      queue_mode_bio = contains (counted fs) (codes "queue_mode bio");
    } in
    let m2 : MapTable = record m1 { hwhandler = some (counted hs) } in
    let m3 : MapTable = record m2 { mpp = record (m2.mpp) { pg = some [] } } in
    let m4 : MapTable = record m3 { mpp = record (m3.mpp) { nextpg = b } } in
    let r1 : Reader = record r {
      table = m1;
      place = line (show_nat (length hs) ∷ (hs ++ after_n));
    } in
    let r2 : Reader = record r { table = m2; place = line after_n } in
    let r3 : Reader = record r { table = m3; place = line after_b } in
    let r4 : Reader = record r { table = m4; place = place_after (show_nat b) gw } in
    let groups_from : ℕ → ℕ → Parse (Unit {0}) = λ k c.
      set_table (λ m. record m { mpp = record (m.mpp) { nextpg = c } })
      >> parse_groups pathvec k 1 0 in
    let first_from : ℕ → Parse (Unit {0}) = λ k.
      set_table (start_groups k) >> next_word >>= λ first. groups_from k (pos_part (atoi first)) in
    let hw_from : Text → Parse (Unit {0}) = λ hwhandler.
      set_table (λ m. record m { hwhandler = some hwhandler }) >> next_word >>= λ num_pg.
      first_from (pos_part (atoi num_pg)) in
    let (p, q) =
      parse_groups-map r.heap pathvec z sel (show_nat b) g groups r4 ks s refl refl kn refl in
    (
      p,
      parsed_step counted_words
            (λ features.
              set_table (λ m. record m {
                mpp = record (m.mpp) { features = some features };
                queue_mode_bio = contains features (codes "queue_mode bio");
              })
              >> counted_words
              >>= hw_from)
            r (counted_words-start r fs (show_nat (length hs)) (hs ++ after_n) kf e)
          ∙ parsed_step counted_words hw_from r1
              (counted_words-line r1 hs (show_nat n) after_b kh refl)
          ∙ parsed_step next_word (λ num_pg. first_from (pos_part (atoi num_pg))) r2
              (next_word-line r2 (show_nat n) after_b (show_nat-IsWord n) refl)
          ∙ ap (λ x. first_from (pos_part x) (record r2 { place = line after_b })) (atoi-show_nat n)
          ∙ ap
              (λ o. (next_word >>= λ first. groups_from n (pos_part (atoi first))) (record r {
                table = record m2 { mpp = record (m2.mpp) { pg = some (groups_of o) } };
                place = line after_b;
              }))
              pg
          ∙ parsed_step next_word (λ first. groups_from n (pos_part (atoi first))) r3
              (next_word-line r3 (show_nat b) gw (show_nat-IsWord b) refl)
          ∙ ap (λ x. groups_from n (pos_part x) (record r3 { place = place_after (show_nat b) gw }))
              (atoi-show_nat b)
          ∙ q,
    )

-- A map with groups, whose features (with those that `assemble_map` adds) and hardware handler are a count
-- and as many words, whose selector is a name without arguments, and whose paths have numbers by which
-- the path vector has them: `assemble_map` succeeds, and `disassemble_map` succeeds on its table and a
-- map without selector and groups. That map then has these features, the queue mode that they name,
-- this hardware handler and selector, the best group as its next one, and groups with the same paths in
-- the same order; it has this `minio`, if there is a path. The paths have the numbers of their groups,
-- no path was made, and nothing else has changed.
pub disassemble_map-assemble_map :
    (old_kernel : Bool) (h : Heap) (pathvec : List ℕ) (fresh : ℕ) (m old : MapTable)
    (fs hs : List Text) (sel : Text) (g : PathGroup) (groups : List PathGroup)
    → table_features old_kernel h m ≡ some (counted fs)
    → m.hwhandler ≡ some (counted hs)
    → m.selector ≡ some (merge_words sel none_word)
    → m.mpp.pg ≡ some (g ∷ groups)
    → All (λ g. All (IsKnown h pathvec) g.paths) (g ∷ groups)
    → All IsWord fs
    → All IsWord hs
    → IsWord sel
    → old.selector ≡ none
    → old.mpp.pg ≡ none
    → (text : Text) × ((assemble_map old_kernel h m).1 ≡ some text)
      × (place : Text) × (disassemble_map pathvec text h fresh old
          ≡ parsed tt (record {
            heap = number_groups 1 (g ∷ groups) h;
            fresh = fresh;
            table = map_read old fs hs sel m.minio m.mpp.bestpg (g ∷ groups);
            place = place;
          }))
unfolding disassemble_map
disassemble_map-assemble_map k h pathvec fresh m old fs hs sel g groups f w s p kn kf kh ks os op =
    let (place, e) =
      parse_map-line pathvec fs hs sel m.minio m.mpp.bestpg g groups
        (record {
          heap = h;
          fresh = fresh;
          table = old;
          place =
              show_nat (length fs)
              ++ line (
                  words_of fs hs (length (g ∷ groups)) m.mpp.bestpg
                    (groups_words sel h m.minio (g ∷ groups)));
        })
        kf kh ks kn os op refl in
    (_, assemble_map-line k h pathvec m fs hs sel g groups f w s p kn, place, e)
