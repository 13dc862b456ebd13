-- ===== src/Base/Maps.antt =====
-- A `HashMap` as an association list. The order of the list stands for the unspecified order in
-- which a `HashMap` is iterated over.
use Prim.Native.Nat.{ℕ, suc, ◌+◌, ◌≤◌}
use mathlib.Core.Path.{◌≡◌, refl}
use mathlib.Core.Logic.{inl, inr}
use mathlib.Core.Bool.{Bool}
use mathlib.Core.Option.{Option, none, some}
use mathlib.Core.List.{List, [], ◌∷◌}
use native.Mathlib.Omega.{arith}
use qscheduler.Base.Tests.{if◌then◌else◌, Bool-cases, Key}

abbrev pub Map : Type 0 → Type 0 → Type 0
Map K V = List (K × V)

abbrev pub length {ℓ} : {A : Type ℓ} → List A → ℕ
length [] = 0
length (x ∷ xs) = suc (length xs)

abbrev pub weight : {V : Type 0} → (V → ℕ) → Option V → ℕ
weight w none = 0
weight w (some v) = w v

-- The sum of a measure of the values.
unfoldable pub total : {K V : Type 0} → (V → ℕ) → Map K V → ℕ
total w [] = 0
total w ((k, v) ∷ m) = w v + total w m

-- `HashMap::retain` with a test of the value.
unfoldable pub retain : {K V : Type 0} → (V → Bool) → Map K V → Map K V
retain p [] = []
retain p ((k, v) ∷ m) = if p v then (k, v) ∷ retain p m else retain p m

abbrev pub keep_if : {V : Type 0} → (V → Bool) → Option V → Option V
keep_if p none = none
keep_if p (some v) = if p v then some v else none

-- Every value replaced, the keys kept.
unfoldable pub map_values : {K V W : Type 0} → (V → W) → Map K V → Map K W
map_values f [] = []
map_values f ((k, v) ∷ m) = (k, f v) ∷ map_values f m

-- `position` of the first hit and `remove` there: the rest of the list, if there is a hit.
unfoldable pub remove_first : {A : Type 0} → (A → Bool) → List A → Option (List A)
remove_first p [] = none
remove_first p (x ∷ xs) =
    let rest = remove_first p xs in
    if p x then some xs else elim rest [ none ↦ none | some ys ↦ some (x ∷ ys) ]

module _ {K V : Type 0} ⦃e : Key K⦄ where
  unfoldable pub get : K → Map K V → Option V
  get k [] = none
  get k ((j, v) ∷ m) = if e.beq j k then some v else get k m

  unfoldable pub insert : K → V → Map K V → Map K V
  insert k v [] = (k, v) ∷ []
  insert k v ((j, u) ∷ m) = if e.beq j k then (j, v) ∷ m else (j, u) ∷ insert k v m

  unfoldable pub remove : K → Map K V → Map K V
  remove k [] = []
  remove k ((j, v) ∷ m) = if e.beq j k then remove k m else (j, v) ∷ remove k m

  -- No key stands twice.
  abbrev pub IsUnique : Map K V → Type 0
  IsUnique [] = Unit
  IsUnique ((k, v) ∷ m) = (get k m ≡ none) × IsUnique m

  pub get-insert :
      (k j : K) (v : V) (m : Map K V)
      → get j (insert k v m) ≡ (if e.beq k j then some v else get j m)
  unfolding get insert
  get-insert k j v [] = refl
  get-insert k j v ((i, u) ∷ m) =
      ground (arith, e.beq_iff k j, e.beq_iff i k, e.beq_iff i j, get-insert k j v m)

  pub get-insert_self : (k : K) (v : V) (m : Map K V) → get k (insert k v m) ≡ some v
  get-insert_self k v m = ground (arith, get-insert k k v m, e.beq_iff k k)

  pub get-remove :
      (k j : K) (m : Map K V) → get j (remove k m) ≡ (if e.beq k j then none else get j m)
  unfolding get remove
  get-remove k j [] = ground arith
  get-remove k j ((i, u) ∷ m) =
      ground (arith, e.beq_iff k j, e.beq_iff i k, e.beq_iff i j, get-remove k j m)

  pub total-insert :
      (w : V → ℕ) (k : K) (v : V) (m : Map K V)
      → total w (insert k v m) + weight w (get k m) ≡ total w m + w v
  unfolding get insert total
  total-insert w k v [] = omega arith
  total-insert w k v ((i, u) ∷ m) = ground (arith, total-insert w k v m)

  pub get-le-total : (w : V → ℕ) (k : K) (m : Map K V) → weight w (get k m) ≤ total w m
  unfolding get total
  get-le-total w k [] = omega arith
  get-le-total w k ((i, u) ∷ m) = ground (arith, get-le-total w k m)

  get-retain_none :
      (p : V → Bool) (k : K) (m : Map K V) → get k m ≡ none → get k (retain p m) ≡ none
  unfolding get retain
  get-retain_none p k [] h = refl
  get-retain_none p k ((i, u) ∷ m) h = ground (arith, get-retain_none p k m)

  pub get-retain :
      (p : V → Bool) (k : K) (m : Map K V) → IsUnique m → get k (retain p m) ≡ keep_if p (get k m)
  unfolding get retain
  get-retain p k [] h = refl
  get-retain p k ((i, u) ∷ m) h =
      ground (arith, e.beq_iff i k, get-retain p k m h.1, get-retain_none p k m)

  pub insert-IsUnique : (k : K) (v : V) (m : Map K V) → IsUnique m → IsUnique (insert k v m)
  unfolding get insert
  insert-IsUnique k v [] h = (refl, tt)
  insert-IsUnique k v ((i, u) ∷ m) h = elim (Bool-cases (e.beq i k)) [
    | inl same ↦ rw same h
    | inr other ↦ rw other (
      ground (arith, get-insert k i v m, e.beq_iff k i, e.beq_iff i k),
      insert-IsUnique k v m h.1,
    )
  ]

  pub retain-IsUnique : (p : V → Bool) (m : Map K V) → IsUnique m → IsUnique (retain p m)
  unfolding get retain
  retain-IsUnique p [] h = tt
  retain-IsUnique p ((i, u) ∷ m) h = elim (Bool-cases (p u)) [
    | inl kept ↦ rw kept (get-retain_none p i m h.0, retain-IsUnique p m h.1)
    | inr gone ↦ rw gone (retain-IsUnique p m h.1)
  ]

  pub remove-IsUnique : (k : K) (m : Map K V) → IsUnique m → IsUnique (remove k m)
  unfolding get remove
  remove-IsUnique k [] h = tt
  remove-IsUnique k ((i, u) ∷ m) h = elim (Bool-cases (e.beq i k)) [
    | inl same ↦ rw same (remove-IsUnique k m h.1)
    | inr other ↦
        rw other
          (ground (arith, get-remove k i m, e.beq_iff k i, e.beq_iff i k), remove-IsUnique k m h.1)
  ]

-- What a `retain` drops and what it keeps add up.
pub total-retain :
    {K V : Type 0} (w : V → ℕ) (p : V → Bool) (m : Map K V)
    → total w (retain p m) + total (λ v. if p v then 0 else w v) m ≡ total w m
unfolding total retain
total-retain w p [] = omega arith
total-retain w p ((k, v) ∷ m) = ground (arith, total-retain w p m)

abbrev pub on_value : {V W : Type 0} → (V → W) → Option V → Option W
on_value g none = none
on_value g (some v) = some (g v)

pub get-map_values :
    {K V W : Type 0} ⦃e : Key K⦄ (g : V → W) (k : K) (m : Map K V)
    → get k (map_values g m) ≡ on_value g (get k m)
unfolding get map_values
get-map_values g k [] = refl
get-map_values g k ((j, v) ∷ m) = ground (arith, get-map_values g k m)

pub map_values-IsUnique :
    {K V W : Type 0} ⦃e : Key K⦄ (g : V → W) (m : Map K V) → IsUnique m → IsUnique (map_values g m)
unfolding map_values
map_values-IsUnique g [] h = tt
map_values-IsUnique g ((j, v) ∷ m) h =
    (ground (arith, get-map_values g j m), map_values-IsUnique g m h.1)

-- A measure that is zero at every entry adds up to zero.
pub total-eq-zero :
    {K V : Type 0} ⦃e : Key K⦄ (w : V → ℕ) (m : Map K V)
    → IsUnique m
    → ((k : K) (v : V) → get k m ≡ some v → w v ≡ 0)
    → total w m ≡ 0
unfolding total get
total-eq-zero w [] unique h = refl
total-eq-zero ⦃e⦄ w ((j, u) ∷ m) unique h = omega (
  arith,
  h j u (ground (arith, e.beq_iff j j)),
  total-eq-zero w m unique.1 (λ k v found. h k v (ground (arith, e.beq_iff j k, unique.0))),
)

remove-absent :
    {K V : Type 0} ⦃e : Key K⦄ (w : V → ℕ) (k : K) (m : Map K V)
    → get k m ≡ none
    → total w (remove k m) ≡ total w m
unfolding total get remove
remove-absent w k [] h = refl
remove-absent ⦃e⦄ w k ((j, v) ∷ m) h = ground (arith, remove-absent w k m)

-- Removing an entry takes its measure out of the sum.
pub total-remove :
    {K V : Type 0} ⦃e : Key K⦄ (w : V → ℕ) (k : K) (m : Map K V)
    → IsUnique m
    → total w (remove k m) + weight w (get k m) ≡ total w m
unfolding total get remove
total-remove w k [] unique = omega arith
total-remove ⦃e⦄ w k ((j, v) ∷ m) unique =
    ground (arith, e.beq_iff j k, total-remove w k m unique.1, remove-absent w k m, unique.0)
