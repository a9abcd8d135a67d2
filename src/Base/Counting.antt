-- ===== src/Base/Counting.antt =====
-- How often a number (a socket, a handle) stands in a list, and in what the values of a map hold.
use Prim.Native.Nat.{ℕ, suc, ◌+◌, ◌-◌, ◌<◌}
use multi_threaded_tcp_chat.Base.Lists.{length}
use mathlib.Core.Path.{◌≡◌, refl}
use mathlib.Core.Logic.{inl, inr}
use mathlib.Core.Option.{none, some}
use mathlib.Core.List.{List, [], ◌∷◌, ◌++◌}
use native.Mathlib.Omega.{arith}
use multi_threaded_tcp_chat.Base.Tests.{if◌then◌else◌, Bool-cases}
use multi_threaded_tcp_chat.Base.Eq.{◌==◌, nat_eq}
use multi_threaded_tcp_chat.Base.Map.{Map, lookup, insert, erase, Distinct}

abbrev pub count : ℕ → List ℕ → ℕ
count k [] = 0
count k (s ∷ ss) = (if s == k then 1 else 0) + count k ss

pub count-append : (k : ℕ) (xs ys : List ℕ) → count k (xs ++ ys) ≡ count k xs + count k ys
count-append k [] ys = omega arith
count-append k (x ∷ xs) ys = omega (arith, count-append k xs ys)

-- The same items, as often.
abbrev pub SameItems : List ℕ → List ℕ → Type 0
SameItems xs ys = (a : ℕ) → count a xs ≡ count a ys

-- One copy of an item is taken out.
pub take_out : ℕ → List ℕ → List ℕ
take_out a [] = []
take_out a (x ∷ xs) = let rest = take_out a xs in if x == a then xs else x ∷ rest

pub count-take_out :
    (a b : ℕ) (xs : List ℕ)
    → count b (take_out a xs) ≡ (if a == b then count b xs - 1 else count b xs)
unfolding take_out
count-take_out a b [] = ground arith
count-take_out a b (x ∷ xs) = ground (arith, count-take_out a b xs)

length-take_out : (a : ℕ) (xs : List ℕ) → 0 < count a xs → length xs ≡ suc (length (take_out a xs))
unfolding take_out
length-take_out a [] h = absurd (omega arith)
length-take_out a (x ∷ xs) h = ground (arith, length-take_out a xs, h)

pub length-SameItems : (xs ys : List ℕ) → SameItems xs ys → length xs ≡ length ys
length-SameItems [] [] h = refl
length-SameItems [] (y ∷ ys) h = absurd (ground (arith, h y))
length-SameItems (x ∷ xs) ys h =
    let rest =
      length-SameItems xs (take_out x ys) (λ a. ground (arith, h a, count-take_out x a ys)) in
    ground (arith, rest, length-take_out x ys, h x)

module _ {ℓ} {V : Type ℓ} where
  -- What all values hold, in the order of the map.
  abbrev pub gather : (V → List ℕ) → Map ℕ V → List ℕ
  gather held [] = []
  gather held ((_, v) ∷ m) = held v ++ gather held m

  erase-absent : (id : ℕ) (m : Map ℕ V) → lookup id m ≡ none → erase id m ≡ m
  unfolding lookup erase
  erase-absent id [] h = refl
  erase-absent id ((j, c) ∷ m) h = ground (arith, erase-absent id m, h)

  pub count-erase :
      (held : V → List ℕ) (k id : ℕ) (c : V) (m : Map ℕ V)
      → Distinct m
      → lookup id m ≡ some c
      → count k (gather held (erase id m)) + count k (held c) ≡ count k (gather held m)
  unfolding lookup erase
  count-erase held k id c [] d h = absurd (cc)
  count-erase held k id c ((j, b) ∷ m) (fresh, d) h = elim (Bool-cases (j == id)) [
    | inl here ↦
        ground (arith, here, h, erase-absent id m, fresh, count-append k (held b) (gather held m))
    | inr there ↦ ground (
      arith,
      there,
      h,
      count-erase held k id c m d,
      count-append k (held b) (gather held m),
      count-append k (held b) (gather held (erase id m)),
    )
  ]

  pub count-insert_new :
      (held : V → List ℕ) (k id : ℕ) (c : V) (m : Map ℕ V)
      → lookup id m ≡ none
      → count k (gather held (insert id c m)) ≡ count k (gather held m) + count k (held c)
  unfolding lookup insert
  count-insert_new held k id c [] h = omega (arith, count-append k (held c) [])
  count-insert_new held k id c ((j, b) ∷ m) h = ground (
    arith,
    h,
    count-insert_new held k id c m,
    count-append k (held b) (gather held m),
    count-append k (held b) (gather held (insert id c m)),
  )

  -- A value takes the place of another.
  pub count-insert_old :
      (held : V → List ℕ) (k id : ℕ) (old new : V) (m : Map ℕ V)
      → lookup id m ≡ some old
      → count k (gather held (insert id new m)) + count k (held old)
        ≡ count k (gather held m) + count k (held new)
  unfolding lookup insert
  count-insert_old held k id old new [] h = absurd (cc)
  count-insert_old held k id old new ((j, b) ∷ m) h = elim (Bool-cases (j == id)) [
    | inl here ↦ ground (
      arith,
      here,
      h,
      count-append k (held b) (gather held m),
      count-append k (held new) (gather held m),
    )
    | inr there ↦ ground (
      arith,
      there,
      h,
      count-insert_old held k id old new m,
      count-append k (held b) (gather held m),
      count-append k (held b) (gather held (insert id new m)),
    )
  ]
