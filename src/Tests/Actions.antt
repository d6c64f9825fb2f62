-- ===== src/Tests/Actions.antt =====
-- A map that is set up again, and the kernel's map with the table that it gave before.
use multipath_tools.Configure.Pgcmp.{find_same, pgcmp}
use multipath_tools.Base.{length, All, pos, ℕ, ◌≡◌, refl, true, false, Option, some, [], ◌∷◌, arith}
use multipath_tools.Base.Text.{Text, codes, str_eq, strn_eq, starts_with, contains}
use multipath_tools.Features.{show_nat, read_digits, strchop, remove_feature}
use multipath_tools.Members.{find_path_by_devt}
use multipath_tools.Dmparser.{get_word, get_word_length, gather_words, skip_words}
use multipath_tools.Dmparser.Numbers.{text-IsWord}
use multipath_tools.Dmparser.Groups.{number_groups}
use multipath_tools.Dmparser.Assemble.{table_features, groups_of, assemble_map}
use multipath_tools.Dmparser.Disassemble.{
  atoi, Reader, parsed, next_word, unchecked_word, pass_words, counted_words, path_of_word,
  path_args, stored, parse_paths, parse_selector, parse_groups, parse_map, disassemble_map,
}
use multipath_tools.Dmparser.RoundTrip.{map_read}
use multipath_tools.Configure.{
  act_undef, act_nothing, MapConf, find_mp_by_wwid, find_mp_by_alias, is_udev_ready,
  feature_differs, hwhandler_differs, other_features, selector_differs, needs_reload, select_for,
  select_action,
}
use multipath_tools.Configure.Topology.{IsFoundIn}
use multipath_tools.Configure.Unchanged.{select_action-unchanged}
use multipath_tools.Configure.Nothing.{select_action-nothing}
use multipath_tools.Tests.Paths.{group_of}
use multipath_tools.Tests.Tables.{
  numbered_paths, a_table, an_empty_table, table_text, table_groups, IsKnown-numbered_paths,
}

abbrev table_reader : Reader
table_reader = record {
  heap = number_groups 1 table_groups numbered_paths;
  fresh = 9;
  table =
      map_read an_empty_table (codes "foo" ∷ codes "queue_if_no_path" ∷ []) (codes "alua" ∷ [])
        (codes "service-time") (pos 1) 2 table_groups;
  place = codes " 1";
}

abbrev kernel_map : MapConf
kernel_map = record {
  table = table_reader.table;
  wwid = codes "3600";
  alias = codes "mpatha";
  alias_old = [];
  size = 2048;
  action = act_undef;
}

abbrev new_map : MapConf
new_map = record kernel_map { table = (assemble_map true numbered_paths a_table).0 }

abbrev ready : MapConf → Option (Option Text)
ready m = some (some (codes "1"))

read_table :
    disassemble_map
      (2 ∷ 1 ∷ [])
      (codes "2 foo queue_if_no_path 1 alua 2 2 service-time 0 1 1 8:0 1 service-time 0 1 1 8:16 1")
      numbered_paths
      9
      an_empty_table
    ≡ parsed tt table_reader
unfolding disassemble_map parse_map counted_words next_word gather_words get_word strchop atoi
    read_digits parse_groups parse_selector pass_words skip_words get_word_length parse_paths
    path_of_word find_path_by_devt str_eq stored path_args unchecked_word contains starts_with
    show_nat
read_table = refl

abbrev unchanged : MapConf
unchanged = select_action true ready numbered_paths (kernel_map ∷ []) false new_map

select_action-unchanged_example : unchanged ≡ record new_map { action = act_nothing }
unfolding table_features show_nat find_mp_by_wwid find_mp_by_alias is_udev_ready
select_action-unchanged_example =
    select_action-unchanged true ready numbered_paths numbered_paths (2 ∷ 1 ∷ []) 9 0 a_table
      an_empty_table (codes "foo" ∷ codes "queue_if_no_path" ∷ []) (codes "alua" ∷ [])
      (codes "service-time") (group_of (1 ∷ [])) (group_of (2 ∷ []) ∷ [])
      (codes "2 foo queue_if_no_path 1 alua 2 2 service-time 0 1 1 8:0 1 service-time 0 1 1 8:16 1")
      table_reader new_map kernel_map (kernel_map ∷ []) refl refl refl refl
      (IsKnown-numbered_paths.0, (IsKnown-numbered_paths.1, tt))
      (text-IsWord b'f' (codes "oo") refl, (text-IsWord b'q' (codes "ueue_if_no_path") refl, tt))
      (text-IsWord b'a' (codes "lua") refl, tt) (text-IsWord b's' (codes "ervice-time") refl) refl
      refl (omega arith) ((refl, tt), (tt, tt)) table_text read_table refl refl refl refl refl refl

nothing_to_do : unchanged.action ≡ act_nothing
unfolding select_action select_for find_mp_by_wwid find_mp_by_alias is_udev_ready needs_reload
    feature_differs hwhandler_differs other_features selector_differs pgcmp table_features show_nat
    contains starts_with str_eq strn_eq remove_feature assemble_map find_same
nothing_to_do = refl

select_action-nothing_example :
    (i : ℕ) × (c : MapConf) × (d : MapConf) × (find_mp_by_wwid (kernel_map ∷ []) new_map.wwid
      ≡ some (i, c))
    × (find_mp_by_alias (kernel_map ∷ []) new_map.alias ≡ some (i, d))
    × (false ≡ false)
    × (c.size ≡ new_map.size)
    × (c.table.minio ≡ new_map.table.minio)
    × (c.table.mpp.nextpg ≡ new_map.table.mpp.bestpg)
    × (length (groups_of new_map.table.mpp.pg) ≡ length (groups_of c.table.mpp.pg))
    × All (IsFoundIn (groups_of c.table.mpp.pg)) (groups_of new_map.table.mpp.pg)
select_action-nothing_example =
    select_action-nothing true ready numbered_paths (kernel_map ∷ []) false new_map nothing_to_do
