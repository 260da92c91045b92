-- ===== src/Prelude/Tables.antt =====
-- Tables as lists of rows: the row with a key, the update of that row, and what these change.
use Prim.Native.Nat.{ℕ, ◌+◌}
use mathlib.Core.Path.{◌≡◌, refl, subst}
use mathlib.Core.Logic.{inl, inr}
use mathlib.Core.Bool.{Bool, true, false}
use mathlib.Core.List.{List, [], ◌∷◌, ◌++◌}
use mathlib.Core.Option.{Option, none, some}
use native.Mathlib.Omega.{arith}
use orbitplay_api.Prelude.Tests.{if◌then◌else◌, ◌==◌, option_map, Bool-cases}
use orbitplay_api.Prelude.Lists.{count_if, All}

-- 1 for a test that passes.
abbrev pub one_if : Bool → ℕ
one_if true = 1
one_if false = 0

abbrev pub or_else : {A : Type 0} → Option A → Option A → Option A
or_else none b = b
or_else (some a) b = some a

module _ {A : Type 0} (key : A → ℕ) where
  -- `SELECT … WHERE key = i LIMIT 1`
  unfoldable pub get : ℕ → List A → Option A
  get i [] = none
  get i (r ∷ rs) = if key r == i then some r else get i rs

  -- `UPDATE … SET f WHERE key = i`, for a primary key.
  unfoldable pub update : ℕ → (A → A) → List A → List A
  update i f [] = []
  update i f (r ∷ rs) = if key r == i then f r ∷ rs else r ∷ update i f rs

  pub get-update :
      (i j : ℕ) (f : A → A) (rs : List A)
      → ((r : A) → key (f r) ≡ key r)
      → get j (update i f rs) ≡ (if i == j then option_map f (get j rs) else get j rs)
  unfolding get update
  get-update i j f [] keeps = ground arith
  get-update i j f (r ∷ rs) keeps = ground (arith, get-update i j f rs keeps, keeps r)

  pub get-append :
      (j : ℕ) (rs : List A) (r : A)
      → get j (rs ++ r ∷ []) ≡ or_else (get j rs) (if key r == j then some r else none)
  unfolding get
  get-append j [] r = refl
  get-append j (x ∷ rs) r = ground (arith, get-append j rs r)

  pub get-key : (i : ℕ) (rs : List A) (r : A) → get i rs ≡ some r → key r ≡ i
  unfolding get
  get-key i [] r h = cc
  get-key i (x ∷ rs) r h = ground (arith, get-key i rs r)

  pub get-All : (P : A → Type 0) (i : ℕ) (rs : List A) (r : A) → All P rs → get i rs ≡ some r → P r
  unfolding get
  get-All P i [] r h e = cc
  get-All P i (x ∷ rs) r h e = elim (Bool-cases (key x == i)) [
    | inl y ↦ let same : x ≡ r = ground arith in subst P same h.0
    | inr n ↦ get-All P i rs r h.1 (ground arith)
  ]

  pub All-update :
      (P : A → Type 0) (i : ℕ) (f : A → A) (rs : List A)
      → ((r : A) → P r → P (f r))
      → All P rs
      → All P (update i f rs)
  unfolding update
  All-update P i f [] keeps h = tt
  All-update P i f (x ∷ rs) keeps h = elim (Bool-cases (key x == i)) [
    | inl e ↦ rw e (keeps x h.0, h.1)
    | inr e ↦ rw e (h.0, All-update P i f rs keeps h.1)
  ]

  -- An update changes a count by what it changes at the row that it finds.
  pub count_if-update :
      (p : A → Bool) (i : ℕ) (f : A → A) (rs : List A) (r : A)
      → get i rs ≡ some r
      → count_if p (update i f rs) + one_if (p r) ≡ count_if p rs + one_if (p (f r))
  unfolding get update
  count_if-update p i f [] r h = cc
  count_if-update p i f (x ∷ rs) r h = ground (arith, count_if-update p i f rs r)

  pub count_if-update_same :
      (p : A → Bool) (i : ℕ) (f : A → A) (rs : List A)
      → ((r : A) → p (f r) ≡ p r)
      → count_if p (update i f rs) ≡ count_if p rs
  unfolding update
  count_if-update_same p i f [] same = refl
  count_if-update_same p i f (x ∷ rs) same =
      ground (arith, same x, count_if-update_same p i f rs same)
