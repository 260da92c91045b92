-- ===== src/Pagination/Walk/Lists.antt =====
-- Prefixes, filters and lists in descending order, for the walk over a listing.
use orbitplay_api.Prelude.{
  ℕ, zero, suc, ◌≤◌, ◌<◌, ◌≡◌, refl, ap, inl, inr, Bool, true, ◌&&◌, some, List, [], ◌∷◌, ◌++◌,
  arith, ltb, length, take, filter, All, Bool-cases,
}
use orbitplay_api.Pagination.{get_last?}

module _ {A : Type 0} where
  abbrev pub drop : ℕ → List A → List A
  drop zero xs = xs
  drop (suc n) [] = []
  drop (suc n) (x ∷ xs) = drop n xs

  pub take_all : (n : ℕ) (xs : List A) → length xs ≤ n → take n xs ≡ xs
  take_all zero [] h = refl
  take_all zero (x ∷ xs) h = absurd (omega arith)
  take_all (suc n) [] h = refl
  take_all (suc n) (x ∷ xs) h = ap (λ ys. x ∷ ys) (take_all n xs (omega arith))

  pub length-take_le : (n : ℕ) (xs : List A) → n ≤ length xs → length (take n xs) ≡ n
  length-take_le zero xs h = refl
  length-take_le (suc n) [] h = absurd (omega arith)
  length-take_le (suc n) (x ∷ xs) h = ap suc (length-take_le n xs (omega arith))

  pub length-take_short : (n : ℕ) (xs : List A) → length xs ≤ n → length (take n xs) ≤ length xs
  length-take_short n xs h = rw (take_all n xs h) (omega arith)

  pub take-take-suc : (n : ℕ) (xs : List A) → take n (take (suc n) xs) ≡ take n xs
  take-take-suc zero xs = refl
  take-take-suc (suc n) [] = refl
  take-take-suc (suc n) (x ∷ xs) = ap (λ ys. x ∷ ys) (take-take-suc n xs)

  pub take-append-drop : (n : ℕ) (xs : List A) → take n xs ++ drop n xs ≡ xs
  take-append-drop zero xs = refl
  take-append-drop (suc n) [] = refl
  take-append-drop (suc n) (x ∷ xs) = ap (λ ys. x ∷ ys) (take-append-drop n xs)

  pub length-drop_lt :
      (n : ℕ) (xs : List A) → 0 < n → n ≤ length xs → length (drop n xs) < length xs
  length-drop_lt zero xs p h = absurd (omega arith)
  length-drop_lt (suc n) [] p h = absurd (omega arith)
  length-drop_lt (suc zero) (x ∷ xs) p h = omega arith
  length-drop_lt (suc (suc n)) (x ∷ xs) p h =
      omega (arith, length-drop_lt (suc n) xs (omega arith) (omega arith))

  -- The last of a list that is not empty, and what stands before it.
  pub split_last :
      (x : A) (xs : List A)
      → (front : List A) × (y : A) × (x ∷ xs ≡ front ++ y ∷ []) × (get_last? (x ∷ xs) ≡ some y)
  split_last x [] = ([], x, refl, refl)
  split_last x (y ∷ ys) =
      let (front, z, e, l) = split_last y ys in (x ∷ front, z, ap (λ zs. x ∷ zs) e, l)

  pub filter-true : (xs : List A) → filter (λ x. true) xs ≡ xs
  filter-true [] = refl
  filter-true (x ∷ xs) = ap (λ ys. x ∷ ys) (filter-true xs)

  pub filter-and :
      (p q : A → Bool) (xs : List A) → filter (λ x. p x && q x) xs ≡ filter q (filter p xs)
  filter-and p q [] = refl
  filter-and p q (x ∷ xs) = ground (arith, filter-and p q xs)

  pub All-filter : (P : A → Type 0) (p : A → Bool) (xs : List A) → All P xs → All P (filter p xs)
  All-filter P p [] h = tt
  All-filter P p (x ∷ xs) h = elim (Bool-cases (p x)) [
    | inl e ↦ rw e (h.0, All-filter P p xs h.1)
    | inr e ↦ rw e (All-filter P p xs h.1)
  ]

module _ {A : Type 0} (id_of : A → ℕ) where
  -- Newest first, no id twice.
  abbrev pub Descending : List A → Type 0
  Descending [] = Unit {0}
  Descending (x ∷ xs) = All (λ y. id_of y < id_of x) xs × Descending xs

  pub Descending-filter : (p : A → Bool) (xs : List A) → Descending xs → Descending (filter p xs)
  Descending-filter p [] h = tt
  Descending-filter p (x ∷ xs) h = elim (Bool-cases (p x)) [
    | inl e ↦ rw e (All-filter (λ y. id_of y < id_of x) p xs h.0, Descending-filter p xs h.1)
    | inr e ↦ rw e (Descending-filter p xs h.1)
  ]

  pub filter-below :
      (c : ℕ) (xs : List A) → All (λ y. id_of y < c) xs → filter (λ r. ltb (id_of r) c) xs ≡ xs
  filter-below c [] h = refl
  filter-below c (x ∷ xs) h = ground (arith, filter-below c xs h.1)

  pub above-of-append :
      (x : A) (front : List A) (y : A) (back : List A)
      → All (λ z. id_of z < id_of x) (front ++ y ∷ back)
      → id_of y < id_of x
  above-of-append x [] y back h = h.0
  above-of-append x (z ∷ front) y back h = above-of-append x front y back h.1

  -- Below the id of a row stands exactly what follows it.
  pub filter-after :
      (front : List A) (y : A) (back : List A)
      → Descending (front ++ y ∷ back)
      → filter (λ r. ltb (id_of r) (id_of y)) (front ++ y ∷ back) ≡ back
  filter-after [] y back h = ground (arith, filter-below (id_of y) back h.0)
  filter-after (x ∷ front) y back h =
      ground (arith, filter-after front y back h.1, above-of-append x front y back h.0)
