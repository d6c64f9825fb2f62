-- ===== src/Dmparser/Disassemble.antt =====
-- libmultipath/dmparser.c, `disassemble_map`: the groups of a map from its table. Memory suffices. A call
-- that refuses the table returns 1 with no groups; what else it has read by then is not modelled.
use multipath_tools.Base.{
  ◌==◌, if◌then◌else◌, length, take, drop, ℤ, pos, negsuc, pos_part, sub_ℕ, eqb_ℤ, ℕ, zero, suc,
  ◌+◌, ◌-◌, ◌^◌, false, not, ◌&&◌, Option, none, some, List, [], ◌∷◌, ◌++◌,
}
use multipath_tools.Base.Text.{Text, codes, is_space, contains}
use multipath_tools.Structs.{
  path_wild, pstate_undef, not_disconnected, init_new, PathInfo, Heap, write, PathGroup,
  new_pathgroup,
}
use multipath_tools.Features.{read_digits}
use multipath_tools.Members.{find_path_by_devt}
use multipath_tools.Dmparser.{get_word, get_word_length, merge_words, gather_words, skip_words}
use multipath_tools.Dmparser.Assemble.{MapTable, groups_of}

abbrev pub digits_value : Text → ℕ
digits_value s = (read_digits 0 s).0

-- `atoi`, for numbers that an `int` holds.
unfoldable pub atoi : Text → ℤ
unfolding read_digits
atoi [] = pos 0
atoi (c ∷ s) =
    let later = atoi s in
    if is_space c
    then later
    else if c == 45
    then sub_ℕ 0 (digits_value s)
    else if c == 43
    then pos (digits_value s)
    else pos (digits_value (c ∷ s))

-- The paths, the map and the place in the table. Cells from `fresh` on are free.
pub record Reader : Type 0 where
  pub heap : Heap
  pub fresh : ℕ
  pub table : MapTable
  pub place : Text

-- A part of `disassemble_map`: it goes on, makes it return 1, or reads through NULL.
pub data Parsed {ℓ} (A : Type ℓ) : Type ℓ where
  parsed : A → Reader → Parsed A
  refused crashed : Parsed A

abbrev pub Parse : Type 0 → Type 0
Parse A = Reader → Parsed A

infixl 5 ◌>>=◌ ◌>>◌
abbrev pub ◌>>=◌ : {A B : Type 0} → Parse A → (A → Parse B) → Parse B
◌>>=◌ m f r = elim (m r) [ parsed a r' ↦ f a r' | refused ↦ refused | crashed ↦ crashed ]

abbrev pub ◌>>◌ : {A B : Type 0} → Parse A → Parse B → Parse B
m >> n = m >>= λ _. n

abbrev pub return : {A : Type 0} → A → Parse A
return a r = parsed a r

-- `p += get_word(p, &word)`, and the test of the word.
unfoldable pub next_word : Parse Text
unfolding get_word
next_word r =
    let (word, len) = get_word r.place in
    elim word [ none ↦ refused | some w ↦ parsed w (record r { place = drop len r.place }) ]

-- The same without the test: the word goes to `atoi`.
unfoldable pub unchecked_word : Parse Text
unfolding get_word
unchecked_word r =
    let (word, len) = get_word r.place in
    elim word [ none ↦ crashed | some w ↦ parsed w (record r { place = drop len r.place }) ]

-- `p += get_word(p, NULL)`, some times.
unfoldable pub pass_words : ℕ → Parse (Unit {0})
unfolding skip_words get_word_length
pass_words n r = parsed tt (record r { place = skip_words n r.place })

-- A count and as many words, put together.
unfoldable pub counted_words : Parse Text
counted_words = do
  w ← next_word
  λ r. elim (gather_words (pos_part (atoi w)) w r.place) [
    | none ↦ refused
    | some (text, p) ↦ parsed text (record r { place = p })
  ]

abbrev pub set_table : (MapTable → MapTable) → Parse (Unit {0})
set_table f r = parsed tt (record r { table = f r.table })

-- structs.c.
abbrev pub alloc_path : PathInfo
alloc_path = record {
  dev = [];
  dev_t = [];
  wwid = [];
  vendor_id = [];
  product_id = [];
  serial = [];
  tgt_node_name = [];
  bus = pos 0;
  proto_id = negsuc 0;
  checkint = 2 ^ 32 - 1;
  tick = 0;
  pending_ticks = 0;
  retriggers = pos 0;
  add_when_online = false;
  sysfs_state = path_wild;
  state = path_wild;
  dmstate = pstate_undef;
  chkrstate = path_wild;
  disconnected = not_disconnected;
  failcount = pos 0;
  priority = negsuc 0;
  pgindex = 0;
  initialized = init_new;
  path_failures = 0;
  dis_reinstate_time = 0;
  disable_reinstate = false;
  san_path_err_forget_rate = 0;
  marginal = false;
  recheck_wwid = false;
  tpg_id = negsuc 0;
}

-- A path that is in the path vector, or a new one with the number.
unfoldable pub path_of_word : List ℕ → Text → Parse ℕ
path_of_word pathvec word r = elim (find_path_by_devt r.heap pathvec word) [
  | some a ↦ parsed a r
  | none ↦
      let p = record alloc_path { dev_t = take 32 word } in
      parsed (r.fresh) (record r { heap = write r.heap r.fresh p; fresh = r.fresh + 1 })
]

abbrev pub set_pgindex : ℕ → ℕ → Parse (Unit {0})
set_pgindex a i r =
    parsed tt (record r { heap = write r.heap a (record (r.heap a) { pgindex = i }) })

-- The arguments of a path: the first is `minio`.
unfoldable pub path_args : ℕ → Parse (Unit {0})
path_args zero = return tt
path_args (suc k) = do
  w ← unchecked_word
  set_table (λ m. if not (eqb_ℤ (atoi w) m.minio) then record m { minio = atoi w } else m)
  pass_words k

-- structs.c, `store_path`, and what happens where it refuses the path.
unfoldable pub stored : List ℕ → ℕ → Parse (List ℕ)
stored paths a r =
    let pp = r.heap a in
    if (length pp.dev_t == 0) && (length pp.dev == 0) then refused else parsed (paths ++ a ∷ []) r

-- The loop over the paths of the group `i`.
unfoldable pub parse_paths : List ℕ → ℕ → ℕ → ℕ → List ℕ → Parse (List ℕ)
parse_paths pathvec i args zero paths = return paths
parse_paths pathvec i args (suc n) paths = do
  word ← next_word
  a ← path_of_word pathvec word
  more ← stored paths a
  set_pgindex a i
  path_args args
  parse_paths pathvec i args n more

-- The selector is taken from the first group, and its arguments are passed over in every group. The
-- result is their number.
abbrev pub selector_from : Option Text → ℕ → Parse ℕ
selector_from none args = do
  name ← next_word
  word ← next_word
  set_table (λ m. record m { selector = some (merge_words name word) })
  pass_words (pos_part (atoi word))
  return (pos_part (atoi word))
selector_from (some s) args = do pass_words 2; pass_words args; return args

unfoldable pub parse_selector : ℕ → Parse ℕ
parse_selector args r = selector_from r.table.selector args r

abbrev pub add_group : PathGroup → MapTable → MapTable
add_group g m = record m { mpp = record (m.mpp) { pg = some (groups_of m.mpp.pg ++ g ∷ []) } }

-- The loop over the groups, from the group `i`.
unfoldable pub parse_groups : List ℕ → ℕ → ℕ → ℕ → Parse (Unit {0})
parse_groups pathvec zero i args = return tt
parse_groups pathvec (suc n) i args = do
  args' ← parse_selector args
  num_paths ← next_word
  num_paths_args ← next_word
  paths ← parse_paths pathvec i (pos_part (atoi num_paths_args)) (pos_part (atoi num_paths)) []
  set_table (add_group (record new_pathgroup { paths = paths }))
  parse_groups pathvec n (suc i) args'

abbrev pub start_groups : ℕ → MapTable → MapTable
start_groups zero m = record m { mpp = record (m.mpp) { pg = none } }
start_groups (suc n) m = record m { mpp = record (m.mpp) { pg = some (groups_of m.mpp.pg) } }

unfoldable pub parse_map : List ℕ → Parse (Unit {0})
parse_map pathvec = do
  features ← counted_words
  set_table (λ m. record m {
    mpp = record (m.mpp) { features = some features };
    queue_mode_bio = contains features (codes "queue_mode bio");
  })
  hwhandler ← counted_words
  set_table (λ m. record m { hwhandler = some hwhandler })
  num_pg ← next_word
  set_table (start_groups (pos_part (atoi num_pg)))
  first ← next_word
  set_table (λ m. record m { mpp = record (m.mpp) { nextpg = pos_part (atoi first) } })
  parse_groups pathvec (pos_part (atoi num_pg)) 1 0

-- The call on a table, with the free cells of the heap: the paths and the map are in the reader that it
-- ends with.
unfoldable pub disassemble_map : List ℕ → Text → Heap → ℕ → MapTable → Parsed (Unit {0})
disassemble_map pathvec params h fresh m =
    parse_map pathvec (record { heap = h; fresh = fresh; table = m; place = params })
