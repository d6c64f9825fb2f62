-- ===== src/Tests/Intervals.antt =====
-- Check intervals and a path that is checked, and the theorems at work on them.
use multipath_tools.Tests.Paths.{path_with}
use multipath_tools.Base.{pos, ℕ, ◌+◌, ◌*◌, ◌%◌, ◌≤◌, ◌≡◌, refl, inl, false, arith}
use multipath_tools.Base.Text.{codes}
use multipath_tools.Structs.{path_up, PathInfo}
use multipath_tools.Checking.{Conf}
use multipath_tools.Checking.Intervals.{
  checkint_undef, fill_intervals, adjust_loop, adjusted, division_by_zero, endless, adjust_int,
}
use multipath_tools.Checking.Intervals.Multiples.{
  Interval, IsMultiple, adjust_int-IsMultiple, adjust_int_misses,
}
use multipath_tools.Checking.Schedule.{schedule_next}
use multipath_tools.Checking.Schedule.Alignment.{seconds, IsDue}
use multipath_tools.Checking.Schedule.Goal.{checks_align}

abbrev intervals : ℕ → ℕ → ℕ → Conf
intervals checkint max_checkint adjust = record {
  checkint = checkint;
  max_checkint = max_checkint;
  adjust_int = adjust;
  retrigger_tries = pos 3;
  marginal_pathgroups = false;
}

-- A configured interval of 0 is a division by zero.
division : adjust_int 0 20 ≡ division_by_zero
unfolding adjust_int
division = refl

defaults : fill_intervals checkint_undef 0 ≡ (5, 20)
unfolding fill_intervals
defaults = refl

-- The loop does not end for the largest even number but one, and three quarters of its range.
hangs : adjust_int 3221225472 4294967294 ≡ endless
unfolding adjust_int adjust_loop
hangs = refl

adjust_int-IsMultiple_example :
    (adjust : ℕ) × (adjust_int 5 23 ≡ adjusted adjust) × IsMultiple (intervals 5 23 0) adjust
adjust_int-IsMultiple_example =
    adjust_int-IsMultiple (intervals 5 23 0) (omega arith) (omega arith) (omega arith)
      (inl (λ e. omega arith))

adjust_int_misses_example :
    (adjust_int 2 12 ≡ adjusted 12) × Interval (intervals 2 12 0) (4 * 2) × (12 % (4 * 2) ≡ 2 * 2)
adjust_int_misses_example = adjust_int_misses (intervals 2 12 0) (omega arith) refl

abbrev due_path : PathInfo
due_path = path_with path_up (pos 10) (codes "a")

-- The goal index is 0, so the check after one in the second 7 comes a second early.
next_check : (schedule_next (intervals 5 20 20) 0 7 (record due_path { tick = 0 })).tick ≡ 4
unfolding schedule_next
next_check = refl

checks_align_example :
    (n : ℕ) × (n ≤ 5 * 5)
    × ((m : ℕ)
        → IsDue 5 (seconds (intervals 5 20 20) path_up 0 (n + m * 5) 7 due_path)
          × (0 % 5 ≡ (7 + (n + m * 5)) % 5))
checks_align_example =
    checks_align (intervals 5 20 20) path_up 0 5 7 due_path (omega arith) (omega arith) refl
      (refl, refl, refl, refl)
