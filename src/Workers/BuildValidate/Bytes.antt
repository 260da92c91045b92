-- ===== src/Workers/BuildValidate/Bytes.antt =====
-- The leading bytes of a streamed object, and what the format check reads of them.
use orbitplay_api.Prelude.{
  ℕ, zero, suc, ◌+◌, ◌-◌, ◌≤◌, ◌≡◌, refl, sym, ◌∙◌, ap, subst, Bool, true, false, ◌&&◌, List, [],
  ◌∷◌, ◌++◌, arith, length, take, all, leb, ltb, inl, inr, Bool-cases, if◌then◌else◌, ◌==◌, some,
  find,
}
use orbitplay_api.Uuid.{units_eq}
use orbitplay_api.Workers.BuildValidate.{
  Units, head_bytes, head_chunks, concat, format_signatures, inherited, bytes, listed, is_inherited,
  signature_of,
}

-- `content` begins with the bytes.
abbrev pub begins_with : List ℕ → List ℕ → Bool
begins_with content [] = true
begins_with [] (b ∷ bs) = false
begins_with (c ∷ cs) (b ∷ bs) = (c == b) && begins_with cs bs

take_nil : (n : ℕ) → ◌≡◌ {A = List ℕ} [] (take n [])
take_nil zero = refl
take_nil (suc n) = refl

take_at : (m n : ℕ) (xs : List ℕ) → m ≡ n → take m xs ≡ take n xs
take_at m n xs e = ap (λ k. take k xs) e

take-append : (n : ℕ) (xs ys : List ℕ) → take n (xs ++ ys) ≡ take n xs ++ take (n - length xs) ys
take-append zero xs ys = take_at 0 (0 - length xs) ys (omega arith)
take-append (suc n) [] ys = take_at (suc n) (suc n - 0) ys (omega arith)
take-append (suc n) (x ∷ xs) ys =
    ap (λ r. x ∷ r)
      (take-append n xs ys
        ∙ ap (λ r. take n xs ++ r)
            (take_at (n - length xs) (suc n - suc (length xs)) ys (omega arith)))

pub take-begins_with : (s xs : List ℕ) → units_eq (take (length s) xs) s ≡ begins_with xs s
take-begins_with [] xs = refl
take-begins_with (b ∷ s) [] = refl
take-begins_with (b ∷ s) (x ∷ xs) = ap (λ r. (x == b) && r) (take-begins_with s xs)

not_below : (n : ℕ) → suc n ≤ 0 → ⊥
not_below n l = omega arith

take-take : (n m : ℕ) (xs : List ℕ) → n ≤ m → take n (take m xs) ≡ take n xs
take-take zero m xs l = refl
take-take (suc n) zero xs l = elim (not_below n l) [ ]
take-take (suc n) (suc m) [] l = refl
take-take (suc n) (suc m) (x ∷ xs) l = ap (λ r. x ∷ r) (take-take n m xs (omega arith))

-- The loop collects the first 8 bytes of the content, however it is cut into chunks.
pub head_chunks_lem :
    (n : ℕ) (cs : List (List ℕ)) → head_chunks n cs ≡ take (head_bytes - n) (concat cs)
unfolding head_chunks
head_chunks_lem n [] = take_nil (head_bytes - n)
head_chunks_lem n (c ∷ cs) = elim (Bool-cases (ltb n head_bytes)) [
  | inl e ↦ rw e (
      ap (λ r. take (head_bytes - n) c ++ r)
        (head_chunks_lem (n + length c) cs
          ∙ take_at (head_bytes - (n + length c)) ((head_bytes - n) - length c) (concat cs)
              (omega arith))
      ∙ sym (take-append (head_bytes - n) c (concat cs)))
  | inr e ↦
      let none_left : head_bytes - n ≡ 0 = ground (arith, e) in
      rw e (
        head_chunks_lem n cs
        ∙ take_at (head_bytes - n) 0 (concat cs) none_left
        ∙ sym (take_at (head_bytes - n) 0 (c ++ concat cs) none_left))
]

-- Every signature of the table fits in the leading bytes.
abbrev all_fit : List (Units × List ℕ) → Bool
all_fit rs = all (λ r. leb (length r.1) head_bytes) rs

signatures_fit : all_fit format_signatures ≡ true
signatures_fit = refl

found_fits :
    (e : Units) (s : List ℕ) (rs : List (Units × List ℕ))
    → all_fit rs ≡ true
    → listed (find (λ r. units_eq e r.0) rs) ≡ bytes s
    → length s ≤ head_bytes
found_fits e s [] h q = cc
found_fits e s (r ∷ rs) h q = elim (Bool-cases (units_eq e r.0)) [
  | inl y ↦
      let same : bytes r.1 ≡ bytes s =
        subst (λ b. listed (if b then some r else find (λ x. units_eq e x.0) rs) ≡ bytes s) y q in
      let eq : r.1 ≡ s = cc in subst (λ x. length x ≤ head_bytes) eq (ground (arith, h))
  | inr n ↦
      found_fits e s rs (ground (arith, h))
        (subst (λ b. listed (if b then some r else find (λ x. units_eq e x.0) rs) ≡ bytes s) n q)
]

-- So the check of the leading bytes is one of the whole content.
pub head_begins_with :
    (e : Units) (s : List ℕ) (cs : List (List ℕ))
    → is_inherited e ≡ false
    → signature_of (some e) ≡ bytes s
    → units_eq (take (length s) (head_chunks 0 cs)) s ≡ begins_with (concat cs) s
unfolding signature_of
head_begins_with e s cs n q =
    let fits : length s ≤ head_bytes = found_fits e s format_signatures signatures_fit (
      subst
        (λ b.
          (if b then inherited else listed (find (λ r. units_eq e r.0) format_signatures))
          ≡ bytes s)
        n q) in
    ap (λ h. units_eq h s)
      (ap (take (length s)) (head_chunks_lem 0 cs)
        ∙ take-take (length s) (head_bytes - 0) (concat cs) (omega arith))
    ∙ take-begins_with s (concat cs)
