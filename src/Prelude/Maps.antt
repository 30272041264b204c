-- ===== src/Prelude/Maps.antt =====
-- A hash map or a tree map as an association list that holds each key once.
use Prim.Native.Nat.{suc}
use mathlib.Core.Path.{◌≡◌, refl, sym, ap}
use mathlib.Core.Logic.{inl, inr, ◌⊎◌, ◌↔◌}
use mathlib.Core.Bool.{not}
use mathlib.Core.Option.{Option, none, some}
use mathlib.Core.List.{List, [], ◌∷◌, map}
use native.Mathlib.Omega.{arith}
use luchta.Prelude.Tests.{if◌then◌else◌, Bool-cases}
use luchta.Prelude.Classes.{PartialEq, ◌==◌, beq_refl}
use luchta.Prelude.Lists.{In, In-map, Distinct, filter, length}

abbrev pub Map : Type 0 → Type 0 → Type 0
Map K V = List (K × V)

module _ {K V : Type 0} where
  abbrev pub keys : Map K V → List K
  keys m = map (λ e. e.0) m

  abbrev pub values : Map K V → List V
  values m = map (λ e. e.1) m

module _ {K V : Type 0} ⦃e : PartialEq K⦄ where
  unfoldable pub lookup : K → Map K V → Option V
  lookup key [] = none
  lookup key ((other, value) ∷ rest) = if other == key then some value else lookup key rest

  -- The value of a key that is there is replaced, and a new key stands last.
  unfoldable pub insert : K → V → Map K V → Map K V
  insert key new [] = (key, new) ∷ []
  insert key new ((other, value) ∷ rest) =
      if other == key then (key, new) ∷ rest else (other, value) ∷ insert key new rest

  unfoldable pub remove : K → Map K V → Map K V
  remove k m = filter (λ p. not (p.0 == k)) m

  abbrev pub lookup_or : V → K → Map K V → V
  lookup_or d k m = elim (lookup k m) [ none ↦ d | some v ↦ v ]

  pub lookup-insert :
      (k j : K) (new : V) (m : Map K V)
      → lookup j (insert k new m) ≡ (if k == j then some new else lookup j m)
  unfolding lookup insert
  lookup-insert key j new [] = refl
  lookup-insert key j new ((other, value) ∷ rest) = ground (
    arith,
    lookup-insert key j new rest,
    e.same_iff other key,
    e.same_iff other j,
    e.same_iff key j,
  )

  pub lookup-insert_self : (k : K) (v : V) (m : Map K V) → lookup k (insert k v m) ≡ some v
  lookup-insert_self k v m = rw (lookup-insert, beq_refl)

  pub lookup_or-insert :
      (d : V) (k j : K) (v : V) (m : Map K V)
      → lookup_or d j (insert k v m) ≡ (if k == j then v else lookup_or d j m)
  lookup_or-insert d k j v m = ground (arith, lookup-insert k j v m)

  pub lookup-remove :
      (k j : K) (m : Map K V) → lookup j (remove k m) ≡ (if k == j then none else lookup j m)
  unfolding lookup remove
  lookup-remove k j [] = ground arith
  lookup-remove k j ((i, w) ∷ m) =
      ground (arith, e.same_iff k j, e.same_iff i k, e.same_iff i j, lookup-remove k j m)

  pub In-keys-insert :
      (k j : K) (v : V) (m : Map K V) → In k (keys (insert j v m)) ↔ ((k ≡ j) ⊎ In k (keys m))
  unfolding insert
  In-keys-insert k j v [] = (λ i. i, λ i. i)
  In-keys-insert k j v ((i, w) ∷ m) = elim (Bool-cases (i == j)) [
    | inl same ↦ rw same (replaced ((e.same_iff i j).0 same))
    | inr other ↦ rw other (ground (arith, In-keys-insert k j v m))
  ]
    where
      replaced : i ≡ j → ((k ≡ j) ⊎ In k (keys m)) ↔ ((k ≡ j) ⊎ ((k ≡ i) ⊎ In k (keys m)))
      replaced q = ground arith

  pub In-keys_of_lookup : (k : K) {v : V} (m : Map K V) → lookup k m ≡ some v → In k (keys m)
  unfolding lookup
  In-keys_of_lookup k [] h = cc
  In-keys_of_lookup k ((j, w) ∷ m) h = elim (Bool-cases (j == k)) [
    | inl now ↦ inl (sym ((e.same_iff j k).0 now))
    | inr later ↦ inr (In-keys_of_lookup k m (rw later at h))
  ]

  pub lookup_of_In-keys : (k : K) (m : Map K V) → In k (keys m) → (v : V) × (lookup k m ≡ some v)
  unfolding lookup
  lookup_of_In-keys k [] h = absurd h
  lookup_of_In-keys k ((j, w) ∷ m) (inl q) = (w, rw (← q, beq_refl))
  lookup_of_In-keys k ((j, w) ∷ m) (inr h) = elim (Bool-cases (j == k)) [
    | inl now ↦ (w, rw now)
    | inr later ↦ let (v, q) = lookup_of_In-keys k m h in (v, rw later q)
  ]

  pub In-of_lookup : (k : K) (v : V) (m : Map K V) → lookup k m ≡ some v → In (k, v) m
  unfolding lookup
  In-of_lookup k v [] h = cc
  In-of_lookup k v ((j, w) ∷ m) h = elim (Bool-cases (j == k)) [
    | inl now ↦ inl (ground (arith, e.same_iff j k))
    | inr later ↦ inr (In-of_lookup k v m (rw later at h))
  ]

  pub lookup_of_In :
      (k : K) (v : V) (m : Map K V) → Distinct (keys m) → In (k, v) m → lookup k m ≡ some v
  unfolding lookup
  lookup_of_In k v [] d h = absurd h
  lookup_of_In k v ((j, w) ∷ m) d (inl q) = ground (arith, e.same_iff j k)
  lookup_of_In k v ((j, w) ∷ m) d (inr h) =
      ground
        (arith, e.same_iff j k, lookup_of_In k v m d.1 h, In-map (λ (p : K × V). p.0) (k, v) m h)

  pub lookup_or-found :
      (d : V) (k : K) (v : V) (m : Map K V) → lookup k m ≡ some v → lookup_or d k m ≡ v
  lookup_or-found d k v m h = rw (h, lookup_or) refl

module _ {K V : Type 0} where
  pub length-keys : (m : Map K V) → length (keys m) ≡ length m
  length-keys [] = refl
  length-keys (e ∷ m) = ap suc (length-keys m)
