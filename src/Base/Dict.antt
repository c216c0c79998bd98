-- ===== src/Base/Dict.antt =====
-- A Python dict in insertion order, keyed by numbers; `lookup` is `d.get(k)`.
use Prim.Native.Nat.{ℕ}
use mathlib.Core.Path.{◌≡◌, refl, subst}
use mathlib.Core.Option
use mathlib.Core.Option.{Option, none, some}
use mathlib.Core.List.{List, [], ◌∷◌, ◌++◌}
use native.Mathlib.Omega.{arith}
use vehicle_bench_candidate.Base.Tests.{◌==◌, if◌then◌else◌, Bool-cases}
use mathlib.Core.Logic.{inl, inr}
use vehicle_bench_candidate.Base.Lists.{All}

abbrev pub Dict {ℓ} : Type ℓ → Type ℓ
Dict V = List (ℕ × V)

module _ {ℓ} {V : Type ℓ} where
  abbrev pub lookup : ℕ → Dict V → Option V
  lookup k [] = none
  lookup k (e ∷ d) = if k == e.0 then some e.1 else lookup k d

  -- `d[k] = v`: an old key keeps its place, a new one goes to the end.
  abbrev pub insert : ℕ → V → Dict V → Dict V
  insert k v [] = (k, v) ∷ []
  insert k v (e ∷ d) = if k == e.0 then (k, v) ∷ d else e ∷ insert k v d

  pub lookup-insert :
      (j k : ℕ) (v : V) (d : Dict V)
      → lookup j (insert k v d) ≡ (if j == k then some v else lookup j d)
  lookup-insert j k v [] = ground arith
  lookup-insert j k v (e ∷ d) = ground (arith, lookup-insert j k v d)

  -- An unused key is appended.
  pub insert_new :
      (k : ℕ) (v : V) (d : Dict V) → lookup k d ≡ none → insert k v d ≡ d ++ (k, v) ∷ []
  insert_new k v [] h = refl
  insert_new k v (e ∷ d) h = ground (arith, insert_new k v d)

  -- The same key with every value changed by `f`.
  abbrev pub map_values : (V → V) → Dict V → Dict V
  map_values f [] = []
  map_values f (e ∷ d) = (e.0, f e.1) ∷ map_values f d

  pub lookup-map_values :
      (k : ℕ) (f : V → V) (d : Dict V) → lookup k (map_values f d) ≡ Option.map f (lookup k d)
  lookup-map_values k f [] = refl
  lookup-map_values k f (e ∷ d) = elim (Bool-cases (k == e.0)) [
    | inl same ↦ rw same refl
    | inr other ↦ rw other (lookup-map_values k f d)
  ]

pub All-map_values {ℓ κ} :
    {V : Type ℓ} (P : ℕ × V → Type κ) (f : V → V) (d : Dict V)
    → ((k : ℕ) (v : V) → P (k, v) → P (k, f v))
    → All P d
    → All P (map_values f d)
All-map_values P f [] keep h = tt
All-map_values P f ((k, v) ∷ d) keep h = (keep k v h.0, All-map_values P f d keep h.1)

pub All-insert {ℓ κ} :
    {V : Type ℓ} (P : ℕ × V → Type κ) (k : ℕ) (v : V) (d : Dict V)
    → All P d
    → P (k, v)
    → All P (insert k v d)
All-insert P k v [] h p = (p, tt)
All-insert P k v (e ∷ d) h p = elim (Bool-cases (k == e.0)) [
  | inl same ↦ rw same (p, h.1)
  | inr other ↦ rw other (h.0, All-insert P k v d h.1 p)
]

pub All-lookup {ℓ κ} :
    {V : Type ℓ} (P : ℕ × V → Type κ) (k : ℕ) {v : V} (d : Dict V)
    → All P d
    → lookup k d ≡ some v
    → P (k, v)
All-lookup P k [] h e = absurd (cc e)
All-lookup P k {v} (x ∷ d) h e = elim (Bool-cases (k == x.0)) [
  | inl same ↦ let q : x ≡ (k, v) = ground arith in subst P q h.0
  | inr other ↦ All-lookup P k d h.1 (rw other at e)
]
