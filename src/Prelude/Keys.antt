-- ===== src/Prelude/Keys.antt =====
-- Dicts whose keys are distinct, as those of Python are, and sums over their values.
use Prim.Native.Nat.{ℕ, ◌+◌}
use Prim.Native.String.{String}
use text.Mathlib.TextEquality.{eq_iff}
use mathlib.Core.Path.{◌≡◌, refl}
use mathlib.Core.Option.{Option, none, some}
use mathlib.Core.List.{[], ◌∷◌}
use native.Mathlib.Omega.{arith}
use lumenos_hiper_v.Prelude.Lists.{sum_of, All}
use lumenos_hiper_v.Prelude.DictDefs.{
  Dict, lookup, insert, erase, values, lookup-insert, lookup-erase,
}

module _ {ℓ} {V : Type ℓ} where
  -- No key stands twice.
  abbrev pub Distinct : Dict V → Type ℓ
  Distinct [] = Unit
  Distinct ((k, v) ∷ d) = (lookup k d ≡ none) × Distinct d

  -- What `f` gives for the value of a key; 0 for a missing key.
  abbrev pub at_key : (V → ℕ) → Option V → ℕ
  at_key f none = 0
  at_key f (some v) = f v

  pub Distinct-insert : (k : String) (v : V) (d : Dict V) → Distinct d → Distinct (insert k v d)
  unfolding lookup insert
  Distinct-insert k v [] h = ground arith
  Distinct-insert k v ((j, w) ∷ d) h =
      ground (arith, eq_iff j k, eq_iff k j, lookup-insert k j v d, Distinct-insert k v d h.1)

  pub Distinct-erase : (k : String) (d : Dict V) → Distinct d → Distinct (erase k d)
  unfolding lookup erase
  Distinct-erase k [] h = ground arith
  Distinct-erase k ((j, w) ∷ d) h = ground (arith, lookup-erase k j d, Distinct-erase k d h.1)

  pub sum-insert :
      (f : V → ℕ) (k : String) (v : V) (d : Dict V)
      → sum_of f (values (insert k v d)) + at_key f (lookup k d) ≡ sum_of f (values d) + f v
  unfolding lookup insert values
  sum-insert f k v [] = omega arith
  sum-insert f k v ((j, w) ∷ d) = ground (arith, eq_iff j k, sum-insert f k v d)

  pub sum-erase :
      (f : V → ℕ) (k : String) (d : Dict V)
      → Distinct d
      → sum_of f (values (erase k d)) + at_key f (lookup k d) ≡ sum_of f (values d)
  unfolding lookup erase values
  sum-erase f k [] h = refl
  sum-erase f k ((j, w) ∷ d) h = ground (arith, eq_iff j k, sum-erase f k d h.1)

  -- A property of every value of a dict.
  pub All-insert :
      (P : V → Type ℓ) (k : String) (v : V) (d : Dict V)
      → P v
      → All P (values d)
      → All P (values (insert k v d))
  unfolding insert values
  All-insert P k v [] p h = (p, tt)
  All-insert P k v ((j, w) ∷ d) p h = ground (arith, All-insert P k v d p h.1)

  pub All-erase :
      (P : V → Type ℓ) (k : String) (d : Dict V) → All P (values d) → All P (values (erase k d))
  unfolding erase values
  All-erase P k [] h = h
  All-erase P k ((j, w) ∷ d) h = ground (arith, All-erase P k d h.1)

  pub All-lookup :
      (P : V → Type ℓ) (k : String) (v : V) (d : Dict V)
      → All P (values d)
      → lookup k d ≡ some v
      → P v
  unfolding lookup values
  All-lookup P k v [] h e = ground arith
  All-lookup P k v ((j, w) ∷ d) h e = ground (arith, All-lookup P k v d h.1)
