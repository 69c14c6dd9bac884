-- ===== src/ThreadPool/Totals.antt =====
-- Sums over the threads of a pool.
use buildat.Base.{
  ℕ, zero, suc, ◌+◌, ◌≤◌, ◌≡◌, refl, some, List, [], ◌∷◌, map, arith, get_elem?, set, ◌⊎◌, inl, inr,
}

module _ {ℓ} {A : Type ℓ} where
  abbrev pub total : (A → ℕ) → List A → ℕ
  total f [] = 0
  total f (x ∷ xs) = f x + total f xs

  -- A sum after one element was replaced.
  pub total-set :
      (f : A → ℕ) (xs : List A) (i : ℕ) (x y : A)
      → get_elem? xs i ≡ some x
      → total f (set xs i y) + f x ≡ total f xs + f y
  total-set f [] i x y h = absurd cc
  total-set f (z ∷ xs) zero x y h = ground arith
  total-set f (z ∷ xs) (suc i) x y h = omega (arith, total-set f xs i x y h)

  pub total-le :
      (f : A → ℕ) (xs : List A) (i : ℕ) (x : A) → get_elem? xs i ≡ some x → f x ≤ total f xs
  total-le f [] i x h = absurd cc
  total-le f (z ∷ xs) zero x h = ground arith
  total-le f (z ∷ xs) (suc i) x h = omega (arith, total-le f xs i x h)

  pub total-map :
      (f g : A → ℕ) (h : A → A) (xs : List A)
      → ((x : A) → f (h x) ≡ g x)
      → total f (map h xs) ≡ total g xs
  total-map f g h [] e = refl
  total-map f g h (x ∷ xs) e = omega (arith, e x, total-map f g h xs e)

  -- What stands in a list after one element was replaced.
  pub get_elem?-set_cases :
      (xs : List A) (i j : ℕ) (y z : A)
      → get_elem? (set xs i y) j ≡ some z
      → (y ≡ z) ⊎ (get_elem? xs j ≡ some z)
  get_elem?-set_cases [] i j y z h = inr h
  get_elem?-set_cases (x ∷ xs) zero zero y z h = inl (ground arith)
  get_elem?-set_cases (x ∷ xs) zero (suc j) y z h = inr h
  get_elem?-set_cases (x ∷ xs) (suc i) zero y z h = inr h
  get_elem?-set_cases (x ∷ xs) (suc i) (suc j) y z h = get_elem?-set_cases xs i j y z h
