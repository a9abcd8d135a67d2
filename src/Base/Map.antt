-- ===== src/Base/Map.antt =====
-- std::unordered_map as an association list. The order of the list stands for the order in which the
-- map is iterated.
use mathlib.Core.Path.{◌≡◌, refl}
use mathlib.Core.Option.{Option, none, some}
use mathlib.Core.List.{List, [], ◌∷◌}
use native.Mathlib.Omega.{arith}
use multi_threaded_tcp_chat.Base.Tests.{if◌then◌else◌}
use multi_threaded_tcp_chat.Base.Eq.{IsEq, ◌==◌}

abbrev pub Map {ℓ κ} : Type ℓ → Type κ → Type (ℓ ⊔ κ)
Map K V = List (K × V)

module _ {ℓ κ} {K : Type ℓ} {V : Type κ} ⦃e : IsEq K⦄ where
  -- map.find(k)
  unfoldable pub lookup : K → Map K V → Option V
  lookup k [] = none
  lookup k ((j, v) ∷ m) = if j == k then some v else lookup k m

  -- map[k] = v
  unfoldable pub insert : K → V → Map K V → Map K V
  insert k v [] = (k, v) ∷ []
  insert k v ((j, w) ∷ m) = if j == k then (k, v) ∷ m else (j, w) ∷ insert k v m

  -- map.erase(k)
  unfoldable pub erase : K → Map K V → Map K V
  erase k [] = []
  erase k ((j, v) ∷ m) = let rest = erase k m in if j == k then rest else (j, v) ∷ rest

  -- map[k] on the right-hand side, where `d` is the default-constructed value
  abbrev pub lookup_or : V → K → Map K V → V
  lookup_or d k m = elim (lookup k m) [ none ↦ d | some v ↦ v ]

  pub lookup-insert :
      (new asked : K) (value : V) (m : Map K V)
      → lookup asked (insert new value m) ≡ (if new == asked then some value else lookup asked m)
  unfolding lookup insert
  lookup-insert new asked value [] = refl
  lookup-insert new asked value ((k, old) ∷ m) =
      let below = lookup-insert new asked value m in
      ground (arith, below, e.beq_iff k new, e.beq_iff new asked, e.beq_iff k asked)

  pub lookup-erase :
      (k j : K) (m : Map K V) → lookup j (erase k m) ≡ (if k == j then none else lookup j m)
  unfolding lookup erase
  lookup-erase k j [] = ground arith
  lookup-erase k j ((i, v) ∷ m) =
      ground (arith, e.beq_iff k j, e.beq_iff i k, e.beq_iff i j, lookup-erase k j m)

  pub lookup-insert_self : (k : K) (v : V) (m : Map K V) → lookup k (insert k v m) ≡ some v
  lookup-insert_self k v m = ground (arith, lookup-insert k k v m, e.beq_iff k k)

  pub lookup-erase_self : (k : K) (m : Map K V) → lookup k (erase k m) ≡ none
  lookup-erase_self k m = ground (arith, lookup-erase k k m, e.beq_iff k k)

  pub lookup_or-none : (d : V) (k : K) (m : Map K V) → lookup k m ≡ none → lookup_or d k m ≡ d
  lookup_or-none d k m h = ground (arith, h)

  pub lookup_or-some :
      (d : V) (k : K) (m : Map K V) {v : V} → lookup k m ≡ some v → lookup_or d k m ≡ v
  lookup_or-some d k m h = ground (arith, h)

  pub lookup_or-insert :
      (d : V) (k j : K) (v : V) (m : Map K V)
      → lookup_or d j (insert k v m) ≡ (if k == j then v else lookup_or d j m)
  lookup_or-insert d k j v m = ground (arith, lookup-insert k j v m)

  pub lookup_or-erase :
      (d : V) (k j : K) (m : Map K V)
      → lookup_or d j (erase k m) ≡ (if k == j then d else lookup_or d j m)
  lookup_or-erase d k j m = ground (arith, lookup-erase k j m)

  -- No key stands twice, as in every map.
  abbrev pub Distinct : Map K V → Type κ
  Distinct [] = Unit
  Distinct ((k, v) ∷ m) = (lookup k m ≡ none) × Distinct m

  pub insert-Distinct : (k : K) (v : V) (m : Map K V) → Distinct m → Distinct (insert k v m)
  unfolding lookup insert
  insert-Distinct k v [] d = (refl, tt)
  insert-Distinct k v ((j, w) ∷ m) d = ground (
    arith,
    e.beq_iff j k,
    e.beq_iff k j,
    lookup-insert k j v m,
    insert-Distinct k v m d.1,
    d.0,
    d.1,
  )

  pub erase-Distinct : (k : K) (m : Map K V) → Distinct m → Distinct (erase k m)
  unfolding lookup erase
  erase-Distinct k [] d = tt
  erase-Distinct k ((j, w) ∷ m) d =
      ground (arith, lookup-erase k j m, erase-Distinct k m d.1, d.0, d.1)
