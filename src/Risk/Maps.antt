-- ===== src/Risk/Maps.antt =====
-- A JavaScript `Map` with number keys, as a list of entries.
use apiv.Base.{ℕ, ◌≡◌, ◌≢◌, refl, Option, none, some, List, [], ◌∷◌, arith, ◌==◌, if◌then◌else◌}

module _ {ℓ} {A : Type ℓ} where
  unfoldable pub lookup : ℕ → List (ℕ × A) → Option A
  lookup k [] = none
  lookup k ((j, a) ∷ m) = if j == k then some a else lookup k m

  unfoldable pub assign : ℕ → A → List (ℕ × A) → List (ℕ × A)
  assign k b [] = (k, b) ∷ []
  assign k b ((j, a) ∷ m) = if j == k then (j, b) ∷ m else (j, a) ∷ assign k b m

  unfoldable pub erase : ℕ → List (ℕ × A) → List (ℕ × A)
  erase k [] = []
  erase k ((j, a) ∷ m) = let rest = erase k m in if j == k then rest else (j, a) ∷ rest

module _ {ℓ} {A : Type ℓ} where
  pub lookup-assign : (k : ℕ) (b : A) (m : List (ℕ × A)) → lookup k (assign k b m) ≡ some b
  unfolding lookup assign
  lookup-assign k b [] = ground arith
  lookup-assign k b ((j, a) ∷ m) = ground (arith, lookup-assign k b m)

  pub lookup-assign_other :
      (j k : ℕ) (b : A) (m : List (ℕ × A)) → j ≢ k → lookup j (assign k b m) ≡ lookup j m
  unfolding lookup assign
  lookup-assign_other j k b [] other = ground arith
  lookup-assign_other j k b ((i, a) ∷ m) other = ground (arith, lookup-assign_other j k b m other)

  pub lookup-erase : (k : ℕ) (m : List (ℕ × A)) → lookup k (erase k m) ≡ none
  unfolding lookup erase
  lookup-erase k [] = refl
  lookup-erase k ((j, a) ∷ m) = ground (arith, lookup-erase k m)

  pub lookup-erase-none :
      (j k : ℕ) (m : List (ℕ × A)) → lookup j m ≡ none → lookup j (erase k m) ≡ none
  unfolding lookup erase
  lookup-erase-none j k [] gone = refl
  lookup-erase-none j k ((i, a) ∷ m) gone = ground (arith, lookup-erase-none j k m)
