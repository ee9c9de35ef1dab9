-- ===== src/Prelude/Table.antt =====
-- `std::collections::HashMap<usize, V>` as an association list. A new key goes to the end;
-- a hash map leaves the order of its entries open, and this is one of those that it may have.
use Prim.Native.Nat.{ℕ, ◌+◌}
use mathlib.Core.Path.{◌≡◌, refl}
use mathlib.Core.Bool.{false}
use mathlib.Core.Option.{Option, none, some}
use mathlib.Core.List.{List, [], ◌∷◌}
use native.Mathlib.Omega.{arith}
use zzrpc.Prelude.Tests.{◌==◌, if◌then◌else◌, weight, is_some}

abbrev pub Table {ℓ} : Type ℓ → Type ℓ
Table A = List (ℕ × A)

module _ {ℓ} {A : Type ℓ} where
  unfoldable pub lookup : ℕ → Table A → Option A
  lookup id [] = none
  lookup id ((j, x) ∷ t) = if j == id then some x else lookup id t

  -- `insert` without the old value that it returns: see `lookup` for that one.
  unfoldable pub insert : ℕ → A → Table A → Table A
  insert id x [] = (id, x) ∷ []
  insert id x ((j, w) ∷ t) = if j == id then (id, x) ∷ t else (j, w) ∷ insert id x t

  unfoldable pub remove : ℕ → Table A → Table A
  remove id [] = []
  remove id ((j, w) ∷ t) = if j == id then t else (j, w) ∷ remove id t

  -- No key stands twice, which a hash map guarantees.
  unfoldable pub Distinct : Table A → Type 0
  Distinct [] = Unit {0}
  Distinct ((id, x) ∷ t) = (is_some (lookup id t) ≡ false) × Distinct t

  -- The sum of the weights of the values.
  unfoldable pub weigh : (A → ℕ) → Table A → ℕ
  weigh w [] = 0
  weigh w ((id, x) ∷ t) = w x + weigh w t

module _ {ℓ} {A : Type ℓ} where
  pub lookup-insert :
      (id j : ℕ) (x : A) (t : Table A)
      → lookup j (insert id x t) ≡ (if id == j then some x else lookup j t)
  unfolding lookup insert
  lookup-insert id j x [] = refl
  lookup-insert id j x ((i, w) ∷ t) = ground (arith, lookup-insert id j x t)

  pub lookup-remove_ne :
      (id j : ℕ) (t : Table A) → (id == j) ≡ false → lookup j (remove id t) ≡ lookup j t
  unfolding lookup remove
  lookup-remove_ne id j [] h = refl
  lookup-remove_ne id j ((i, w) ∷ t) h = ground (arith, lookup-remove_ne id j t h)

  pub lookup-remove_self : (id : ℕ) (t : Table A) → Distinct t → lookup id (remove id t) ≡ none
  unfolding lookup remove Distinct
  lookup-remove_self id [] d = refl
  lookup-remove_self id ((i, w) ∷ t) d = ground (arith, lookup-remove_self id t d.1)

  pub remove-insert :
      (id : ℕ) (x : A) (t : Table A) → lookup id t ≡ none → remove id (insert id x t) ≡ t
  unfolding lookup insert remove
  remove-insert id x [] h = ground arith
  remove-insert id x ((i, w) ∷ t) h = ground (arith, remove-insert id x t)

  pub insert-insert : (id : ℕ) (x w : A) (t : Table A) → insert id w (insert id x t) ≡ insert id w t
  unfolding insert
  insert-insert id x w [] = ground arith
  insert-insert id x w ((i, u) ∷ t) = ground (arith, insert-insert id x w t)

  pub weigh-remove :
      (w : A → ℕ) (id : ℕ) (t : Table A)
      → weigh w (remove id t) + weight w (lookup id t) ≡ weigh w t
  unfolding lookup remove weigh
  weigh-remove w id [] = omega arith
  weigh-remove w id ((j, x) ∷ t) = ground (arith, weigh-remove w id t)

  pub weigh-insert :
      (w : A → ℕ) (id : ℕ) (x : A) (t : Table A)
      → weigh w (insert id x t) + weight w (lookup id t) ≡ weigh w t + w x
  unfolding lookup insert weigh
  weigh-insert w id x [] = omega arith
  weigh-insert w id x ((j, u) ∷ t) = ground (arith, weigh-insert w id x t)

  pub lookup-remove-none :
      (id j : ℕ) (t : Table A)
      → is_some (lookup j t) ≡ false
      → is_some (lookup j (remove id t)) ≡ false
  unfolding lookup remove
  lookup-remove-none id j [] h = refl
  lookup-remove-none id j ((i, w) ∷ t) h = ground (arith, lookup-remove-none id j t)

  pub remove-Distinct : (id : ℕ) (t : Table A) → Distinct t → Distinct (remove id t)
  unfolding Distinct remove
  remove-Distinct id [] d = tt
  remove-Distinct id ((j, x) ∷ t) d =
      ground (arith, lookup-remove-none id j t d.0, remove-Distinct id t d.1)

  pub insert-Distinct : (id : ℕ) (x : A) (t : Table A) → Distinct t → Distinct (insert id x t)
  unfolding Distinct insert lookup
  insert-Distinct id x [] d = (refl, tt)
  insert-Distinct id x ((j, w) ∷ t) d =
      ground (arith, lookup-insert id j x t, insert-Distinct id x t d.1)

  pub lookup-insert_self : (id : ℕ) (x : A) (t : Table A) → lookup id (insert id x t) ≡ some x
  lookup-insert_self id x t = ground (arith, lookup-insert id id x t)

  pub remove_absent : (id : ℕ) (t : Table A) → lookup id t ≡ none → remove id t ≡ t
  unfolding lookup remove
  remove_absent id [] h = refl
  remove_absent id ((i, w) ∷ t) h = ground (arith, remove_absent id t)
