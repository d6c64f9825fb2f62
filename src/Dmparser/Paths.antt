-- ===== src/Dmparser/Paths.antt =====
-- libmultipath/dmparser.c: the paths of a group are read back as `assemble_map` has written them.
use multipath_tools.Base.{
  ◌==◌, if◌then◌else◌, ==→eq, Bool-cases, length, All, ℤ, eqb_ℤ, eq_of_parts, ℕ, suc, ◌≡◌, refl,
  sym, ap, ◌∙◌, inl, inr, false, not, some, List, [], ◌∷◌, ◌++◌, append-nil, append_assoc, arith,
}
use multipath_tools.Base.Text.{Text}
use multipath_tools.Structs.{Heap, write}
use multipath_tools.Members.{find_path_by_devt}
use multipath_tools.Dmparser.{skip_words}
use multipath_tools.Dmparser.Words.{IsWord, line}
use multipath_tools.Dmparser.Numbers.{atoi-show_int, show_int-IsWord}
use multipath_tools.Dmparser.Reading.{place_after, next_word-line, unchecked_word-line, parsed_step}
use multipath_tools.Dmparser.Assemble.{MapTable, show_int}
use multipath_tools.Dmparser.Disassemble.{
  atoi, Reader, parsed, Parse, ◌>>=◌, ◌>>◌, next_word, unchecked_word, pass_words, set_table,
  path_of_word, set_pgindex, path_args, stored, parse_paths,
}

abbrev pub path_words : Heap → ℤ → List ℕ → List Text
path_words h minio [] = []
path_words h minio (a ∷ paths) = (h a).dev_t ∷ show_int minio ∷ path_words h minio paths

-- A path whose number is a word, and that the path vector has at this address.
abbrev pub IsKnown : Heap → List ℕ → ℕ → Type 0
IsKnown h pathvec a = IsWord (h a).dev_t × (find_path_by_devt h pathvec (h a).dev_t ≡ some a)

-- The cells with the number of their group.
abbrev pub number_paths : ℕ → List ℕ → Heap → Heap
number_paths i [] h = h
number_paths i (a ∷ paths) h = number_paths i paths (write h a (record (h a) { pgindex = i }))

abbrev pub minio_after : List ℕ → ℤ → ℤ → ℤ
minio_after [] new old = old
minio_after (a ∷ paths) new old = new

abbrev pub SameNumbers : Heap → Heap → Type 0
SameNumbers g h = (a : ℕ) → (g a).dev_t ≡ (h a).dev_t

find_same :
    (g h : Heap) (pathvec : List ℕ) (t : Text)
    → SameNumbers g h
    → find_path_by_devt g pathvec t ≡ find_path_by_devt h pathvec t
unfolding find_path_by_devt
find_same g h [] t s = refl
find_same g h (a ∷ pathvec) t s =
    let ih = find_same g h pathvec t s in rw (find_path_by_devt, s a, ih) refl

write_same :
    (g h : Heap) (a i : ℕ)
    → SameNumbers g h
    → SameNumbers (write g a (record (g a) { pgindex = i })) h
write_same g h a i s b = elim (Bool-cases (b == a)) [
  | inl e ↦ rw e (s a ∙ ap (λ c. (h c).dev_t) (sym (==→eq b a e)))
  | inr e ↦ rw e (s b)
]

path_of_word-known :
    (r : Reader) (h : Heap) (pathvec : List ℕ) (a : ℕ)
    → SameNumbers r.heap h
    → IsKnown h pathvec a
    → path_of_word pathvec (h a).dev_t r ≡ parsed a r
unfolding path_of_word
path_of_word-known r h pathvec a s (w, f) =
    rw (path_of_word, find_same r.heap h pathvec (h a).dev_t s ∙ f) refl

stored_known :
    (r : Reader) (h : Heap) (pathvec paths : List ℕ) (a : ℕ)
    → SameNumbers r.heap h
    → IsKnown h pathvec a
    → stored paths a r ≡ parsed (paths ++ a ∷ []) r
unfolding stored
stored_known r h pathvec paths a s ((n, _, _), f) =
    let e : (length (r.heap a).dev_t == 0) ≡ false = rw (s a) (ground arith) in rw (stored, e) refl

set_minio :
    (m : MapTable) (z : ℤ)
    → (if not (eqb_ℤ z m.minio) then record m { minio = z } else m) ≡ record m { minio = z }
set_minio m z = ground (arith, eq_of_parts z m.minio)

pub pass_words_zero : (r : Reader) → pass_words 0 r ≡ parsed tt r
unfolding pass_words skip_words
pass_words_zero r = refl

path_args-line :
    (r : Reader) (z : ℤ) (ws : List Text)
    → r.place ≡ line (show_int z ∷ ws)
    → path_args 1 r
      ≡ parsed tt
          (record r { place = place_after (show_int z) ws; table = record (r.table) { minio = z } })
unfolding path_args
path_args-line r z ws e =
    parsed_step unchecked_word
      (λ w.
        set_table (λ m. if not (eqb_ℤ (atoi w) m.minio) then record m { minio = atoi w } else m)
        >> pass_words 0)
      r (unchecked_word-line r (show_int z) ws (show_int-IsWord z) e)
    ∙ rw (atoi-show_int z, set_minio r.table z)
        (pass_words_zero (record r {
          place = place_after (show_int z) ws;
          table = record (r.table) { minio = z };
        }))

-- One path of the loop.
parse_paths-next :
    (h : Heap) (pathvec : List ℕ) (i n : ℕ) (acc : List ℕ) (a : ℕ) (z : ℤ) (ws : List Text)
    (r : Reader)
    → SameNumbers r.heap h
    → IsKnown h pathvec a
    → r.place ≡ line ((h a).dev_t ∷ show_int z ∷ ws)
    → parse_paths pathvec i 1 (suc n) acc r
      ≡ parse_paths pathvec i 1 n (acc ++ a ∷ []) (record r {
        heap = write r.heap a (record (r.heap a) { pgindex = i });
        table = record (r.table) { minio = z };
        place = place_after (show_int z) ws;
      })
unfolding parse_paths
parse_paths-next h pathvec i n acc a z ws r s k e =
    let r1 : Reader = record r { place = line (show_int z ∷ ws) } in
    let r2 : Reader = record r1 { heap = write r.heap a (record (r.heap a) { pgindex = i }) } in
    let last : List ℕ → Parse (List ℕ) = λ more. path_args 1 >> parse_paths pathvec i 1 n more in
    parsed_step next_word
      (λ word.
        path_of_word pathvec word >>= λ b. stored acc b >>= λ more. set_pgindex b i >> last more)
      r (next_word-line r (h a).dev_t (show_int z ∷ ws) k.0 e)
    ∙ parsed_step (path_of_word pathvec (h a).dev_t)
        (λ b. stored acc b >>= λ more. set_pgindex b i >> last more) r1
        (path_of_word-known r1 h pathvec a s k)
    ∙ parsed_step (stored acc a) (λ more. set_pgindex a i >> last more) r1
        (stored_known r1 h pathvec acc a s k)
    ∙ parsed_step (path_args 1) (λ _. parse_paths pathvec i 1 n (acc ++ a ∷ [])) r2
        (path_args-line r2 z ws refl)

parse_paths-end :
    (pathvec : List ℕ) (i : ℕ) (acc : List ℕ) (r : Reader)
    → parse_paths pathvec i 1 0 acc r ≡ parsed acc r
unfolding parse_paths
parse_paths-end pathvec i acc r = refl

minio_idem : (paths : List ℕ) (z : ℤ) → minio_after paths z z ≡ z
minio_idem [] z = refl
minio_idem (a ∷ paths) z = refl

-- The loop over the paths reads those that were written, and the next words are behind them.
pub parse_paths-words :
    (h : Heap) (pathvec : List ℕ) (i : ℕ) (z : ℤ) (paths acc : List ℕ) (w : Text) (ws : List Text)
    (r : Reader)
    → SameNumbers r.heap h
    → All (IsKnown h pathvec) paths
    → r.place ≡ place_after w (path_words h z paths ++ ws)
    → (v : Text) × (parse_paths pathvec i 1 (length paths) acc r
        ≡ parsed (acc ++ paths) (record r {
          heap = number_paths i paths r.heap;
          table = record (r.table) { minio = minio_after paths z r.table.minio };
          place = place_after v ws;
        }))
      × SameNumbers (number_paths i paths r.heap) h
parse_paths-words h pathvec i z [] acc w ws r s k e = (
  w,
  parse_paths-end pathvec i acc r
      ∙ rw (append-nil acc) (ap (λ p. parsed acc (record r { place = p })) e),
  s,
)
parse_paths-words h pathvec i z (a ∷ paths) acc w ws r s (j, k) e =
    let r' : Reader = record r {
      heap = write r.heap a (record (r.heap a) { pgindex = i });
      table = record (r.table) { minio = z };
      place = place_after (show_int z) (path_words h z paths ++ ws);
    } in
    let (v, f, t) =
      parse_paths-words h pathvec i z paths (acc ++ a ∷ []) (show_int z) ws r'
        (write_same r.heap h a i s) k refl in
    (
      v,
      parse_paths-next h pathvec i (length paths) acc a z (path_words h z paths ++ ws) r s j e
          ∙ f
          ∙ rw (minio_idem paths z, append_assoc acc (a ∷ []) paths) refl,
      t,
    )
