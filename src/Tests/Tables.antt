-- ===== src/Tests/Tables.antt =====
-- Words of a device mapper table, and the theorem at work on them.
use multipath_tools.Dmparser.Unharmed.{
  is_inside, SamePaths, SameGroups, disassemble_status-IsUnharmed,
}
use multipath_tools.Dmparser.Status.{
  Outcome, accepted, rejected, status_path, status_counts, status_groups, status_features,
  disassemble_status,
}
use multipath_tools.Tests.Paths.{three_paths, group_of, a_map}
use multipath_tools.Dmparser.RoundTrip.{map_read, disassemble_map-assemble_map}
use multipath_tools.Dmparser.Disassemble.{
  atoi, parsed, crashed, next_word, unchecked_word, pass_words, counted_words, path_of_word,
  path_args, stored, parse_paths, parse_selector, parse_groups, parse_map, disassemble_map,
}
use multipath_tools.Dmparser.Assemble.{retain_hwhandler_off, MapTable, table_features, assemble_map}
use multipath_tools.Dmparser.Groups.{number_groups}
use multipath_tools.Dmparser.Paths.{IsKnown}
use multipath_tools.Dmparser.Numbers.{text-IsWord}
use multipath_tools.Members.{find_path_by_devt}
use multipath_tools.Structs.{DmState, pstate_failed, pstate_active, Heap, PathGroup}
use multipath_tools.Base.{
  ◌==◌, if◌then◌else◌, ℤ, pos, negsuc, ℕ, ◌≡◌, refl, Bool, true, false, ◌||◌, none, some, List, [],
  ◌∷◌,
}
use multipath_tools.Base.Text.{Text, codes, str_eq, starts_with, contains}
use multipath_tools.Features.{show_nat, read_digits, strchop}
use multipath_tools.Dmparser.{get_word, get_word_length, gather_words, skip_words}

abbrev two_words : List Text
two_words = codes "pg_init_retries" ∷ codes "50" ∷ []

-- The last word is read again and again.
last_word : get_word (codes " 8:16") ≡ (some (codes "8:16"), 0)
unfolding get_word strchop
last_word = refl

-- Two paths with numbers of their own.
abbrev pub numbered_paths : Heap
numbered_paths a = record (three_paths a) { dev_t = if a == 1 then codes "8:0" else codes "8:16" }

abbrev pub a_table : MapTable
a_table = record {
  mpp = record a_map {
    features = some (codes "1 foo");
    no_path_retry = negsuc 1;
    bestpg = 2;
    pg = some (group_of (1 ∷ []) ∷ group_of (2 ∷ []) ∷ []);
  };
  hwhandler = some (codes "1 alua");
  selector = some (codes "service-time 0");
  minio = pos 1;
  retain_hwhandler = retain_hwhandler_off;
  queue_mode_bio = false;
}

abbrev pub an_empty_table : MapTable
an_empty_table = record a_table { mpp = record (a_table.mpp) { pg = none }; selector = none }

pub table_text :
    (assemble_map true numbered_paths a_table).1
    ≡ some (
        codes
          "2 foo queue_if_no_path 1 alua 2 2 service-time 0 1 1 8:0 1 service-time 0 1 1 8:16 1")
unfolding assemble_map
table_text = refl

abbrev pub table_groups : List PathGroup
table_groups = group_of (1 ∷ []) ∷ group_of (2 ∷ []) ∷ []

pub IsKnown-numbered_paths :
    (IsKnown numbered_paths (2 ∷ 1 ∷ []) 1 × Unit {0})
    × (IsKnown numbered_paths (2 ∷ 1 ∷ []) 2 × Unit {0})
    × Unit {0}
unfolding find_path_by_devt
IsKnown-numbered_paths = (
  ((text-IsWord b'8' (codes ":0") refl, refl), tt),
  ((text-IsWord b'8' (codes ":16") refl, refl), tt),
  tt,
)

disassemble_map-assemble_map_example :
    (text : Text) × ((assemble_map true numbered_paths a_table).1 ≡ some text)
    × (place : Text) × (disassemble_map (2 ∷ 1 ∷ []) text numbered_paths 9 an_empty_table
        ≡ parsed tt (record {
          heap = number_groups 1 table_groups numbered_paths;
          fresh = 9;
          table =
              map_read an_empty_table
                (codes "foo" ∷ codes "queue_if_no_path" ∷ [])
                (codes "alua" ∷ [])
                (codes "service-time")
                (pos 1)
                2
                table_groups;
          place = place;
        }))
unfolding table_features show_nat
disassemble_map-assemble_map_example =
    disassemble_map-assemble_map true numbered_paths (2 ∷ 1 ∷ []) 9 a_table an_empty_table
      (codes "foo" ∷ codes "queue_if_no_path" ∷ []) (codes "alua" ∷ []) (codes "service-time")
      (group_of (1 ∷ [])) (group_of (2 ∷ []) ∷ []) refl refl refl refl
      (IsKnown-numbered_paths.0, (IsKnown-numbered_paths.1, tt))
      (text-IsWord b'f' (codes "oo") refl, (text-IsWord b'q' (codes "ueue_if_no_path") refl, tt))
      (text-IsWord b'a' (codes "lua") refl, tt) (text-IsWord b's' (codes "ervice-time") refl) refl
      refl

-- The argument of the path is missing behind a blank.
blank_end :
    disassemble_map (2 ∷ 1 ∷ []) (codes "0 0 1 1 rr 0 1 1 8:0 ") numbered_paths 9 an_empty_table
    ≡ crashed
unfolding disassemble_map parse_map counted_words next_word gather_words get_word strchop atoi
    read_digits parse_groups parse_selector pass_words skip_words get_word_length parse_paths
    path_of_word find_path_by_devt str_eq stored path_args unchecked_word contains starts_with
blank_end = refl

abbrev a_status : Text
a_status = codes "2 0 0 0 2 1 D 0 1 2 8:0 F 3 0 0 A 0 1 2 8:16 A 0 0 0 "

status_read :
    let r = (disassemble_status a_status (pos 0) table_groups numbered_paths).1 in
    ◌≡◌ {A = Outcome × DmState × ℤ × DmState}
      (r.0, (r.1 1).dmstate, (r.1 1).failcount, (r.1 2).dmstate)
      (accepted, pstate_failed, pos 3, pstate_active)
unfolding disassemble_status status_features status_groups status_counts status_path get_word
    strchop atoi skip_words get_word_length
status_read = refl

-- A line that ends too early and in a blank is refused, but its first path has its state by then.
broken_status :
    let r =
      (disassemble_status
        (codes "2 0 0 0 2 1 D 0 1 2 8:0 F 3 0 0 A ")
        (pos 0)
        table_groups
        numbered_paths).1 in
    ◌≡◌ {A = Outcome × DmState} (r.0, (r.1 1).dmstate) (rejected, pstate_failed)
unfolding disassemble_status status_features status_groups status_counts status_path get_word
    strchop atoi skip_words get_word_length
broken_status = refl

-- One that ends in a word is accepted, since the last word is read again for all that follow.
cut_status :
    let r =
      (disassemble_status
        (codes "2 0 0 0 2 1 D 0 1 2 8:0 F 3 0 0 A")
        (pos 0)
        table_groups
        numbered_paths).1 in
    ◌≡◌ {A = Outcome × DmState} (r.0, (r.1 2).dmstate) (accepted, (numbered_paths 2).dmstate)
unfolding disassemble_status status_features status_groups status_counts status_path get_word
    strchop atoi skip_words get_word_length
cut_status = refl

abbrev in_table : ℕ → Bool
in_table a = (a == 1) || (a == 2)

disassemble_status-IsUnharmed_example :
    let told = (disassemble_status a_status (pos 0) table_groups numbered_paths).1 in
    SamePaths in_table numbered_paths told.1
    × SameGroups table_groups told.2
    × (is_inside told.0 ≡ true)
disassemble_status-IsUnharmed_example =
    disassemble_status-IsUnharmed in_table a_status (pos 0) table_groups numbered_paths
      ((refl, tt), ((refl, tt), tt))

queued : (disassemble_status (codes "2 0 7 0 0 ") (pos 0) table_groups numbered_paths).0 ≡ pos 7
unfolding disassemble_status status_features get_word strchop atoi skip_words get_word_length
queued = refl
