-- ===== src/Base/Try.antt =====
-- Code that allocates. The outcomes of the coming allocations are a list, true for success, and past
-- its end all succeed. A failure stops the computation, as the `goto` to the clean-up does.
use mathlib.Core.Path.{◌≡◌, refl}
use mathlib.Core.Bool.{Bool, true, false}
use mathlib.Core.Option.{Option, none, some}
use mathlib.Core.List.{List, [], ◌∷◌}
use native.Mathlib.Omega.{arith}

abbrev pub Outcomes : Type 0
Outcomes = List Bool

abbrev pub Try {ℓ} : Type ℓ → Type ℓ
Try A = Outcomes → Option A × Outcomes

abbrev pub and_then {ℓ κ} :
    {A : Type ℓ} {B : Type κ} → Option A × Outcomes → (A → Try B) → Option B × Outcomes
and_then (none, o) f = (none, o)
and_then (some a, o) f = f a o

infixl 5 ◌>>=◌ ◌>>◌
abbrev pub ◌>>=◌ {ℓ κ} : {A : Type ℓ} {B : Type κ} → Try A → (A → Try B) → Try B
◌>>=◌ m f o = and_then (m o) f

abbrev pub ◌>>◌ {ℓ κ} : {A : Type ℓ} {B : Type κ} → Try A → Try B → Try B
m >> k = m >>= λ _. k

abbrev pub return {ℓ} : {A : Type ℓ} → A → Try A
return a o = (some a, o)

abbrev pub fail {ℓ} : {A : Type ℓ} → Try A
fail o = (none, o)

-- `malloc`, `calloc` or `realloc` of a value.
abbrev pub alloc {ℓ} : {A : Type ℓ} → A → Try A
alloc a [] = (some a, [])
alloc a (true ∷ o) = (some a, o)
alloc a (false ∷ o) = (none, o)

-- What a chain gave, it gave through its parts.
pub and_then-eq-some {ℓ κ} :
    {A : Type ℓ} {B : Type κ} (r : Option A × Outcomes) (f : A → Try B) {b : B} {o : Outcomes}
    → and_then r f ≡ (some b, o)
    → (a : A) × (o' : Outcomes) × (r ≡ (some a, o')) × (f a o' ≡ (some b, o))
and_then-eq-some (none, o') f h = absurd (ground arith)
and_then-eq-some (some a, o') f h = (a, o', refl, h)
