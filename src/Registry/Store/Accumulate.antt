-- ===== src/Registry/Store/Accumulate.antt =====
-- Loops that refuse what they have seen before, against lists without repetition.
use blind_age.Base.{false, List, [], ◌∷◌, ◌++◌, ◌≡◌, ◌≢◌, ◌↔◌, refl, arith, contains, All, Eq}

module _ {ℓ} {A : Type ℓ} where
  -- Nothing occurs twice.
  abbrev pub Distinct : List A → Type ℓ
  Distinct [] = Unit
  Distinct (x ∷ xs) = All (λ y. y ≢ x) xs × Distinct xs

  -- What a loop that puts each item in front ends with.
  abbrev pub push_all : List A → List A → List A
  push_all seen [] = seen
  push_all seen (x ∷ xs) = push_all (x ∷ seen) xs

  pub push_all-append :
      (seen xs ys : List A) → push_all seen (xs ++ ys) ≡ push_all (push_all seen xs) ys
  push_all-append seen [] ys = refl
  push_all-append seen (x ∷ xs) ys = push_all-append (x ∷ seen) xs ys

module _ {ℓ} {A : Type ℓ} ⦃e : Eq A⦄ where
  -- The loop's tests: no item is among those seen before it.
  abbrev pub Fresh : List A → List A → Type 0
  Fresh seen [] = Unit
  Fresh seen (x ∷ xs) = (contains seen x ≡ false) × Fresh (x ∷ seen) xs

  pub Fresh-append :
      (seen xs ys : List A) → Fresh seen (xs ++ ys) ↔ (Fresh seen xs × Fresh (push_all seen xs) ys)
  Fresh-append seen [] ys = (λ h. (tt, h), λ h. h.1)
  Fresh-append seen (x ∷ xs) ys =
      let ih = Fresh-append (x ∷ seen) xs ys in
      (λ h. ((h.0, (ih.0 h.1).0), (ih.0 h.1).1), λ h. (h.0.0, ih.1 (h.0.1, h.1)))

  Unseen : List A → A → Type 0
  Unseen seen x = contains seen x ≡ false

  unseen_cons :
      (y x : A) (seen : List A)
      → (contains (y ∷ seen) x ≡ false) ↔ ((x ≢ y) × (contains seen x ≡ false))
  unfolding contains
  unseen_cons y x seen = ground (arith, e.beq_iff x y)

  All-unseen_cons :
      (y : A) (seen xs : List A)
      → All (λ x. contains (y ∷ seen) x ≡ false) xs
        ↔ (All (λ x. x ≢ y) xs × All (λ x. contains seen x ≡ false) xs)
  All-unseen_cons y seen [] = (λ h. (tt, tt), λ h. tt)
  All-unseen_cons y seen (x ∷ xs) =
      let ih = All-unseen_cons y seen xs in
      let here = unseen_cons y x seen in
      (
        λ h. (((here.0 h.0).0, (ih.0 h.1).0), ((here.0 h.0).1, (ih.0 h.1).1)),
        λ h. (here.1 (h.0.0, h.1.0), ih.1 (h.0.1, h.1.1)),
      )

  pub Fresh-Distinct :
      (seen xs : List A) → Fresh seen xs ↔ (Distinct xs × All (λ x. contains seen x ≡ false) xs)
  Fresh-Distinct seen [] = (λ h. (tt, tt), λ h. tt)
  Fresh-Distinct seen (x ∷ xs) =
      let ih = Fresh-Distinct (x ∷ seen) xs in
      let split = All-unseen_cons x seen xs in
      (
        λ h. let (d, un) = ih.0 h.1 in let (ne, un') = split.0 un in ((ne, d), (h.0, un')),
        λ h. (h.1.0, ih.1 (h.0.1, split.1 (h.0.0, h.1.1))),
      )

  All-contains_nil : (xs : List A) → All (λ x. contains [] x ≡ false) xs
  unfolding contains
  All-contains_nil [] = tt
  All-contains_nil (x ∷ xs) = (refl, All-contains_nil xs)

  -- From nothing seen, the tests pass exactly when nothing occurs twice.
  pub Fresh-nil : (xs : List A) → Fresh [] xs ↔ Distinct xs
  Fresh-nil xs =
      (λ h. ((Fresh-Distinct [] xs).0 h).0, λ d. (Fresh-Distinct [] xs).1 (d, All-contains_nil xs))
