-- ===== src/Checking/Intervals.antt =====
-- libmultipath/config.c, `_init_config`: the check intervals that are not configured, and `adjust_int`,
-- by which the checks are spread. The numbers are `unsigned int`.
pub mod Multiples
use multipath_tools.Base.{
  ltb, leb, ◌==◌, if◌then◌else◌, ℕ, zero, suc, ◌-◌, ◌*◌, ◌/◌, ◌%◌, ◌^◌, not, Option, none, some,
}

abbrev pub uint_max : ℕ
uint_max = 2 ^ 32 - 1

abbrev pub checkint_undef : ℕ
checkint_undef = uint_max

abbrev pub default_checkint : ℕ
default_checkint = 5

-- The two intervals, from what is configured: 0 and `checkint_undef` where nothing is.
unfoldable pub fill_intervals : ℕ → ℕ → ℕ × ℕ
fill_intervals checkint max_checkint =
    if max_checkint == 0
    then (let c = if checkint == checkint_undef then default_checkint else checkint in
        (c, if ltb c (uint_max / 4) then c * 4 else uint_max))
    else if checkint == checkint_undef
    then (if leb 4 max_checkint then max_checkint / 4 else 1, max_checkint)
    else if ltb max_checkint checkint
    then (max_checkint, max_checkint)
    else (checkint, max_checkint)

-- The loop that doubles `adjust_int`; it does not end within the fuel where the result is `none`.
unfoldable pub adjust_loop : ℕ → ℕ → ℕ → Option ℕ
adjust_loop zero adjust max_checkint = none
adjust_loop (suc f) adjust max_checkint =
    let rest = adjust_loop f (2 * adjust % 2 ^ 32) max_checkint in
    if ltb (2 * adjust % 2 ^ 32) max_checkint then rest else some adjust

pub data Adjust : Type 0 where
  adjusted : ℕ → Adjust
  division_by_zero endless : Adjust

-- The number is even after the first round and 0 after the 32nd, and then it stays 0: a loop that has
-- not ended after 33 rounds does not end.
unfoldable pub adjust_int : ℕ → ℕ → Adjust
unfolding adjust_loop
adjust_int checkint max_checkint =
    if checkint == 0
    then division_by_zero
    else if max_checkint % checkint == 0
    then adjusted max_checkint
    else elim (adjust_loop 33 checkint max_checkint) [
      | none ↦ endless
      | some adjust ↦ adjusted (adjust * max_checkint % 2 ^ 32)
    ]
