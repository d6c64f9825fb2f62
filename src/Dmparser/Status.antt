-- ===== src/Dmparser/Status.antt =====
-- libmultipath/dmparser.c, `disassemble_status`: the states of groups and paths from a status line.
use multipath_tools.Base.{
  ltb, ◌==◌, if◌then◌else◌, length, drop, ℤ, pos, pos_part, eqb_ℤ, ℕ, zero, suc, Option, none, some,
  List, [], ◌∷◌,
}
use multipath_tools.Base.Text.{Text}
use multipath_tools.Structs.{
  DmState, pstate_failed, pstate_active, PgState, pgstate_undef, pgstate_enabled, pgstate_disabled,
  pgstate_active, Heap, write, PathGroup,
}
use multipath_tools.Dmparser.{get_word, skip_words}
use multipath_tools.Dmparser.Disassemble.{atoi}

-- The return values 0 and 1, and the use of a slot that the vector does not have.
pub data Outcome : Type 0 where
  accepted rejected out_of_bounds : Outcome

-- What a part of the function leaves: the outcome so far, the paths, and the place.
abbrev pub Going : Type 0
Going = Outcome × Heap × Text

-- What follows if there is a word, and if there is none.
abbrev pub with_word : {B : Type 0} → Option Text → B → (Text → B) → B
with_word none b f = b
with_word (some w) b f = f w

-- The place behind the word at a place.
abbrev pub behind : Text → Text
behind p = drop (get_word p).1 p

abbrev pub first_letter : Text → ℕ
first_letter [] = 0
first_letter (c ∷ s) = c

abbrev pub pg_status : ℕ → PgState
pg_status c =
    if c == b'D'
    then pgstate_disabled
    else if c == b'A'
    then pgstate_active
    else if c == b'E'
    then pgstate_enabled
    else pgstate_undef

abbrev pub path_dmstate : ℕ → DmState → DmState
path_dmstate c old = if c == b'F' then pstate_failed else if c == b'A' then pstate_active else old

abbrev pub set_dmstate : ℕ → Text → Heap → Heap
set_dmstate a w h =
    write h a (record (h a) { dmstate = path_dmstate (first_letter w) (h a).dmstate })

abbrev pub set_failcount : ℕ → Text → Heap → Heap
set_failcount a w h = write h a (record (h a) { failcount = atoi w })

-- The status word and the fail count of a path, and its arguments.
unfoldable pub status_path : ℕ → ℕ → Heap → Text → Going
status_path args a h p =
    let p1 = skip_words 1 p in
    with_word (get_word p1).0 (rejected, h, p1)
      λ w.
        let h1 = set_dmstate a w h in
        let p2 = behind p1 in
        with_word (get_word p2).0 (rejected, h1, p2)
          λ v. (accepted, set_failcount a v h1, skip_words args (behind p2))

-- The rest of the loop, unless the function is over.
abbrev pub go_on : Going → Going → Going
go_on (accepted, h, p) rest = rest
go_on (rejected, h, p) rest = (rejected, h, p)
go_on (out_of_bounds, h, p) rest = (out_of_bounds, h, p)

abbrev pub status_paths : ℕ → ℕ → List ℕ → Heap → Text → Going
status_paths args zero paths h p = (accepted, h, p)
status_paths args (suc n) [] h p = (out_of_bounds, h, p)
status_paths args (suc n) (a ∷ paths) h p =
    let r = status_path args a h p in go_on r (status_paths args n paths r.1 r.2)

-- The counts of a group and its paths.
unfoldable pub status_counts : List ℕ → Heap → Text → Going
status_counts paths h p =
    with_word (get_word p).0 (rejected, h, p)
      λ num_pg_args.
        let p1 = skip_words (pos_part (atoi num_pg_args)) (behind p) in
        with_word (get_word p1).0 (rejected, h, p1)
          λ num_paths.
            let p2 = behind p1 in
            let n = pos_part (atoi num_paths) in
            with_word (get_word p2).0 (rejected, h, p2)
              λ args.
                let r = status_paths (pos_part (atoi args)) n paths h (behind p2) in
                if ltb (length paths) n then (rejected, h, behind p2) else r

-- The outcome, the paths and the groups.
abbrev pub Told : Type 0
Told = Outcome × Heap × List PathGroup

abbrev pub tell_group : PathGroup → List PathGroup → Going → (Heap → Text → Told) → Told
tell_group g pg (accepted, h, p) rest = ((rest h p).0, (rest h p).1, g ∷ (rest h p).2)
tell_group g pg (rejected, h, p) rest = (rejected, h, g ∷ pg)
tell_group g pg (out_of_bounds, h, p) rest = (out_of_bounds, h, g ∷ pg)

-- The loop over the groups.
unfoldable pub status_groups : ℕ → List PathGroup → Heap → Text → Told
status_groups zero pg h p = (accepted, h, pg)
status_groups (suc n) [] h p = (out_of_bounds, h, [])
status_groups (suc n) (g ∷ pg) h p =
    with_word (get_word p).0 (rejected, h, g ∷ pg)
      λ w.
        tell_group (record g { status = pg_status (first_letter w) }) pg
          (status_counts g.paths h (behind p)) (status_groups n pg)

-- From the number of the groups on.
abbrev pub status_from : ℤ → List PathGroup → Heap → Text → Told
status_from num_pg pg h p =
    if eqb_ℤ num_pg (pos 0)
    then (accepted, h, pg)
    else if ltb (length pg) (pos_part num_pg)
    then (rejected, h, pg)
    else status_groups (pos_part num_pg) pg h (skip_words 1 p)

-- The arguments of the features: the number of queued I/Os, which is the second one, and the place
-- behind them, if the second one is there.
unfoldable pub status_features : ℕ → ℤ → Text → ℤ × Option Text
status_features zero queuedio p = (queuedio, some p)
status_features (suc zero) queuedio p = (queuedio, some (skip_words 1 p))
status_features (suc (suc n)) queuedio p =
    let p1 = skip_words 1 p in
    with_word (get_word p1).0 (queuedio, none) λ w. (atoi w, some (skip_words n (behind p1)))

-- From the hardware handler on.
abbrev pub status_handler : List PathGroup → Heap → Text → Told
status_handler pg h p =
    with_word (get_word p).0 (rejected, h, pg)
      λ v.
        let p1 = skip_words (pos_part (atoi v)) (behind p) in
        with_word (get_word p1).0 (rejected, h, pg) λ u. status_from (atoi u) pg h (behind p1)

-- The number of queued I/Os of the map, and what the line tells of the rest.
unfoldable pub disassemble_status : Text → ℤ → List PathGroup → Heap → ℤ × Told
disassemble_status params queuedio pg h =
    with_word (get_word params).0 (queuedio, (rejected, h, pg))
      λ w.
        let (queued, place) = status_features (pos_part (atoi w)) queuedio (behind params) in
        (queued, with_word place (rejected, h, pg) (status_handler pg h))
