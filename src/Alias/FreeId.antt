-- ===== src/Alias/FreeId.antt =====
-- libmultipath/alias.c, `get_free_id`: the number it gives is free.
use multipath_tools.Base.{
  ltb, leb, ◌==◌, ltb→lt, leb→le, Bool-cases, Option-cases, length, drop, All, All-mono, ℕ, zero,
  suc, ◌+◌, ◌-◌, ◌*◌, ◌/◌, ◌%◌, ◌≤◌, ◌<◌, ◌≡◌, subst, ◌≢◌, ◌⊎◌, inl, inr, Bool, false, not, ◌&&◌,
  ◌||◌, Option, none, some, List, [], ◌∷◌, arith,
}
use multipath_tools.Base.Text.{Text, starts_with}
use multipath_tools.Alias.{
  int_max, scan_loop, scan_devname, Binding, skip_taken, Free, not_sorted, found, next, free_loop,
  finish_search, get_free_id,
}

abbrev with_id : Option ℕ → List ℕ → List ℕ
with_id none ns = ns
with_id (some n) ns = n ∷ ns

-- The numbers of the aliases that have the prefix.
abbrev pub ids : Text → List Binding → List ℕ
ids prefix [] = []
ids prefix (b ∷ bindings) = with_id (scan_devname b.alias prefix) (ids prefix bindings)

-- The numbers rise, from `lo` on.
abbrev pub IsIncreasing : ℕ → List ℕ → Type 0
IsIncreasing lo [] = Unit
IsIncreasing lo (n ∷ ns) = (lo ≤ n) × IsIncreasing (suc n) ns

IsIncreasing-differ : (lo r : ℕ) (ns : List ℕ) → IsIncreasing lo ns → r < lo → All (λ n. n ≢ r) ns
IsIncreasing-differ lo r [] h k = tt
IsIncreasing-differ lo r (n ∷ ns) (le, h) k =
    ((λ e. omega arith), IsIncreasing-differ (suc n) r ns h (omega arith))

some_injective : {a b : ℕ} → some a ≡ some b → a ≡ b
some_injective e = cc e

none-some : {b : ℕ} → none ≡ some b → ⊥
none-some e = ground arith

overflow_bound :
    (n c : ℕ)
    → (ltb (int_max / 26) n || ((n == int_max / 26) && leb (int_max % 26) (c - 97))) ≡ false
    → (ltb c 97 || ltb 122 c) ≡ false
    → n * 26 + (c - 97) + 1 ≤ int_max
overflow_bound n c h k = ground arith

scan_loop_bound : (s : Text) (n m : ℕ) → n ≤ int_max → scan_loop n s ≡ some m → m ≤ int_max
unfolding scan_loop
scan_loop_bound [] n m h e = omega (arith, some_injective e)
scan_loop_bound (c ∷ s) n m h e =
    let later = scan_loop_bound s (n * 26 + (c - 97) + 1) m in
    elim (Bool-cases ((c == 32) || (c == 9))) [
      | inl b ↦ omega (arith, some_injective (rw b at e))
      | inr b ↦ elim (Bool-cases (ltb c 97 || ltb 122 c)) [
        | inl k ↦ absurd (none-some (rw (b, k) at e))
        | inr k ↦
            elim (Bool-cases
              (ltb (int_max / 26) n || ((n == int_max / 26) && leb (int_max % 26) (c - 97)))) [
                | inl o ↦ absurd (none-some (rw (b, k, o) at e))
                | inr o ↦ later (overflow_bound n c o k) (rw (b, k, o) at e)
              ]
      ]
    ]

scan_devname_bound :
    (alias prefix : Text) (m : ℕ) → scan_devname alias prefix ≡ some m → m ≤ int_max
unfolding scan_devname
scan_devname_bound alias prefix m e =
    let bound = scan_loop_bound (drop (length prefix) alias) 0 m (omega arith) in
    elim (Bool-cases (not (starts_with prefix alias))) [
      | inl a ↦ absurd (none-some (rw a at e))
      | inr a ↦ elim (Bool-cases (length alias == length prefix)) [
        | inl b ↦ absurd (none-some (rw (a, b) at e))
        | inr b ↦ elim (Bool-cases (ltb (length prefix + 7) (length alias))) [
          | inl c ↦ absurd (none-some (rw (a, b, c) at e))
          | inr c ↦ bound (rw (a, b, c) at e)
        ]
      ]
    ]

-- A positive `int` that is not taken and not among the numbers.
abbrev pub IsFree : (ℕ → Bool) → List ℕ → ℕ → Type 0
IsFree taken ns id = (1 ≤ id) × (id ≤ int_max) × (taken id ≡ false) × All (λ n. n ≢ id) ns

module _ (taken : ℕ → Bool) (prefix : Text) where
  IsFree-same : (ns : List ℕ) (a b : ℕ) → a ≡ b → IsFree taken ns a → IsFree taken ns b
  IsFree-same ns a b e h = subst (IsFree taken ns) e h

  -- The search goes up, and stops early only at a number that is not taken.
  skip_taken_lem :
      (n id : ℕ)
      → let r = skip_taken taken n id in (id ≤ r) × (r ≤ id + n) × (r < id + n → taken r ≡ false)
  unfolding skip_taken
  skip_taken_lem zero id = (omega arith, omega arith, λ h. absurd (omega arith))
  skip_taken_lem (suc n) id =
      let (lo, hi, free) = skip_taken_lem n (suc id) in
      elim (Bool-cases (taken id)) [
        | inl e ↦ rw (e, skip_taken) (omega arith, omega arith, λ h. free (omega arith))
        | inr e ↦ rw (e, skip_taken) (omega arith, omega arith, λ h. e)
      ]

  -- What the loop has found out when it ends.
  abbrev LoopSpec : ℕ → List ℕ → Free → Type 0
  LoopSpec id ns not_sorted = Unit
  LoopSpec id ns (found r) = (id ≤ r) × (r ≤ int_max) × (taken r ≡ false) × All (λ n. n ≢ r) ns
  LoopSpec id ns (next r) = (id ≤ r) × (All (λ n. n < r) ns ⊎ (int_max < r))

  LoopSpec-later :
      (id c : ℕ) (ns : List ℕ) (f : Free) → id ≤ c → LoopSpec (suc c) ns f → LoopSpec id (c ∷ ns) f
  LoopSpec-later id c ns not_sorted le h = tt
  LoopSpec-later id c ns (found r) le (lo, hi, free, h) =
      (omega arith, hi, free, ((λ e. omega arith), h))
  LoopSpec-later id c ns (next r) le (lo, inl h) = (omega arith, inl (omega arith, h))
  LoopSpec-later id c ns (next r) le (lo, inr h) = (omega arith, inr h)

  free_loop_lem :
      (bindings : List Binding) (id : ℕ)
      → IsIncreasing id (ids prefix bindings)
      → LoopSpec id (ids prefix bindings) (free_loop taken prefix bindings id)
  unfolding free_loop
  free_loop_lem [] id h = (omega arith, inl tt)
  free_loop_lem (b ∷ bindings) id h = elim (Option-cases (scan_devname b.alias prefix)) [
    | inl e ↦ rw (e, free_loop) (free_loop_lem bindings id (rw e at h))
    | inr (c, e) ↦
        let (le, rises) = rw e at h in
        let bound = scan_devname_bound b.alias prefix c e in
        let (lo, hi, free) = skip_taken_lem (c - id) id in
        let id' = skip_taken taken (c - id) id in
        elim (Bool-cases (ltb c id)) [
          | inl a ↦ rw (e, free_loop, a) tt
          | inr a ↦ elim (Bool-cases (ltb id' c)) [
            | inl t ↦
                let lt = ltb→lt id' c t in
                rw (e, free_loop, a, t)
                  (
                    lo,
                    omega arith,
                    free (omega arith),
                    (
                      (λ k. omega arith),
                      IsIncreasing-differ (suc c) id' (ids prefix bindings) rises (omega arith),
                    ),
                  )
            | inr t ↦ elim (Bool-cases (ltb c int_max)) [
              | inl m ↦
                  rw (e, free_loop, a, t, m)
                    (LoopSpec-later id c (ids prefix bindings)
                      (free_loop taken prefix bindings (suc c)) le
                      (free_loop_lem bindings (suc c) rises))
              | inr m ↦ rw (e, free_loop, a, t, m) (omega arith, inr (omega arith))
            ]
          ]
        ]
  ]

  from_loop :
      (ns : List ℕ) (f : Free) (id : ℕ)
      → LoopSpec 1 ns f
      → finish_search taken f ≡ some id
      → IsFree taken ns id
  unfolding finish_search
  from_loop ns not_sorted id h e = absurd (none-some e)
  from_loop ns (found r) id (lo, hi, free, other) e =
      IsFree-same ns r id (some_injective e) (lo, hi, free, other)
  from_loop ns (next r) id (lo, h) e =
      let (above, below, free) = skip_taken_lem (suc int_max - r) r in
      let id' = skip_taken taken (suc int_max - r) r in
      elim (Bool-cases (leb id' int_max)) [
        | inr t ↦ absurd (none-some (rw t at e))
        | inl t ↦
            let le = leb→le id' int_max t in
            let same = some_injective (rw t at e) in
            let spec : IsFree taken ns (skip_taken taken (suc int_max - r) r) = (
              omega arith,
              le,
              free (omega arith),
              elim h [
                | inl k ↦ All-mono (λ n. n < r) (λ n. n ≢ id') (λ n lt k. omega arith) ns k
                | inr k ↦ absurd (omega arith)
              ],
            ) in
            IsFree-same ns id' id same spec
      ]

-- If the numbers of the aliases rise, a number that `get_free_id` gives is a positive `int` that is not
-- taken, and no alias has it.
pub get_free_id-IsFree :
    (taken : ℕ → Bool) (bindings : List Binding) (prefix : Text) (id : ℕ)
    → IsIncreasing 1 (ids prefix bindings)
    → get_free_id taken bindings prefix ≡ some id
    → IsFree taken (ids prefix bindings) id
unfolding get_free_id
get_free_id-IsFree taken bindings prefix id h e =
    from_loop taken prefix (ids prefix bindings) (free_loop taken prefix bindings 1) id
      (free_loop_lem taken prefix bindings 1 h) e
