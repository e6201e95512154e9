-- ===== src/Fat/Table/Chains.antt =====
-- Cluster chains of a table as lists.
use coffee_os_aurora_refresh.Base.{
  ℕ, suc, ◌≤◌, ◌≡◌, inl, inr, refl, sym, ◌∙◌, ap, subst, Bool, true, false, ◌||◌, List, [], ◌∷◌,
  length, ◌==◌, Bool-cases, eq_cases, ==_self, ==_ne, arith,
}
use coffee_os_aurora_refresh.Fat.Cache.{Fat32Volume}
use coffee_os_aurora_refresh.Fat.Table.{in_volume, last_value}

-- The chain of a table `f` from cluster c on, with the clusters behind c listed.
abbrev pub Chain : Fat32Volume → (ℕ → ℕ) → ℕ → List ℕ → Type 0
Chain vol f c [] = (in_volume vol c ≡ true) × (last_value (f c) ≡ true)
Chain vol f c (d ∷ r) =
    (in_volume vol c ≡ true) × (f c ≡ d) × (last_value d ≡ false) × Chain vol f d r

abbrev pub among : List ℕ → ℕ → Bool
among [] e = false
among (c ∷ r) e = e == c || among r e

pub Chain-low :
    (vol : Fat32Volume) (f : ℕ → ℕ) (c : ℕ) (r : List ℕ) → Chain vol f c r → in_volume vol c ≡ true
Chain-low vol f c [] p = p.0
Chain-low vol f c (d ∷ r) p = p.0

-- A chain is determined by its first cluster.
Chain-unique :
    (vol : Fat32Volume) (f : ℕ → ℕ) (c : ℕ) (xs ys : List ℕ)
    → Chain vol f c xs
    → Chain vol f c ys
    → length xs ≡ length ys
Chain-unique vol f c [] [] p q = refl
Chain-unique vol f c [] (d ∷ ys) (i, l) (j, e, n, q) =
    let l' : last_value d ≡ true = subst (λ v. last_value v ≡ true) e l in absurd cc
Chain-unique vol f c (d ∷ xs) [] (j, e, n, q) (i, l) =
    let l' : last_value d ≡ true = subst (λ v. last_value v ≡ true) e l in absurd cc
Chain-unique vol f c (d ∷ xs) (d' ∷ ys) (i, e, n, p) (j, e', n', q) =
    ap suc (Chain-unique vol f d xs ys p (subst (λ v. Chain vol f v ys) (sym e' ∙ e) q))

-- A cluster of a chain starts a chain that is no longer.
Chain-suffix :
    (vol : Fat32Volume) (f : ℕ → ℕ) (c e : ℕ) (xs : List ℕ)
    → Chain vol f c xs
    → among (c ∷ xs) e ≡ true
    → (ys : List ℕ) × Chain vol f e ys × (length ys ≤ length xs)
Chain-suffix vol f c e [] p m =
    let same : e ≡ c = ground arith in ([], subst (λ v. Chain vol f v []) (sym same) p, omega arith)
Chain-suffix vol f c e (d ∷ xs) (i, l, n, p) m = elim (eq_cases e c) [
  | inl same ↦ (d ∷ xs, subst (λ v. Chain vol f v (d ∷ xs)) (sym same) (i, l, n, p), omega arith)
  | inr ne ↦
      let (ys, q, h) = Chain-suffix vol f d e xs p (rw (==_ne e c ne) at m) in (ys, q, omega arith)
]

-- No cluster comes twice in a chain.
pub Chain-once :
    (vol : Fat32Volume) (f : ℕ → ℕ) (c d : ℕ) (xs : List ℕ)
    → Chain vol f c (d ∷ xs)
    → among (d ∷ xs) c ≡ false
Chain-once vol f c d xs p = elim (Bool-cases (among (d ∷ xs) c)) [
  | inl m ↦
      let (ys, q, h) = Chain-suffix vol f d c xs p.3 m in
      absurd (omega (arith, Chain-unique vol f c (d ∷ xs) ys p q))
  | inr n ↦ n
]

-- The clusters of a chain are clusters of the volume, and a table that agrees on them has the chain.
pub Chain-agree :
    (vol : Fat32Volume) (f g : ℕ → ℕ) (c : ℕ) (xs : List ℕ)
    → ((e : ℕ) → among (c ∷ xs) e ≡ true → in_volume vol e ≡ true → g e ≡ f e)
    → Chain vol f c xs
    → Chain vol g c xs
Chain-agree vol f g c [] a (i, l) =
    (i, subst (λ v. last_value v ≡ true) (sym (a c (rw (==_self c) refl) i)) l)
Chain-agree vol f g c (d ∷ xs) a (i, e, n, p) =
    (i, a c (rw (==_self c) refl) i ∙ e, n, Chain-agree vol f g d xs (λ k m. a k (ground arith)) p)
