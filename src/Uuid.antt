-- ===== src/Uuid.antt =====
-- shared/util/uuid.ts, and texts that may be ids.
use orbitplay_api.Prelude.{
  ℕ, ◌≡◌, refl, ap, Bool, true, false, ◌&&◌, ◌==◌, Option, none, some, List, [], ◌∷◌, arith, length,
}

-- A text of a request: the text by which the database writes the UUID with a number, or any other
-- text, by its UTF-16 units.
pub data Text : Type 0 where
  uuid : ℕ → Text
  other : List ℕ → Text

-- `isUuid`. (Spellings that it accepts and the database does not write count as the id they name.)
abbrev pub is_uuid : Text → Bool
is_uuid (uuid i) = true
is_uuid (other s) = false

-- `isUuid(text) ? text : undefined`
abbrev pub as_uuid : Text → Option ℕ
as_uuid (uuid i) = some i
as_uuid (other s) = none

abbrev pub uuid_length : ℕ
uuid_length = 36

-- `text.length`
abbrev pub text_length : Text → ℕ
text_length (uuid i) = uuid_length
text_length (other s) = length s

abbrev pub units_eq : List ℕ → List ℕ → Bool
units_eq [] [] = true
units_eq (a ∷ s) (b ∷ t) = (a == b) && units_eq s t
units_eq _ _ = false

-- `a === b`
unfoldable pub text_eq : Text → Text → Bool
text_eq (uuid i) (uuid j) = i == j
text_eq (other s) (other t) = units_eq s t
text_eq _ _ = false

pub units_eq_refl : (s : List ℕ) → units_eq s s ≡ true
units_eq_refl [] = refl
units_eq_refl (a ∷ s) = ground (arith, units_eq_refl s)

pub units_eq-eq : (s t : List ℕ) → units_eq s t ≡ true → s ≡ t
units_eq-eq [] [] h = refl
units_eq-eq (a ∷ s) (b ∷ t) h = ground (arith, units_eq-eq s t)
units_eq-eq [] (b ∷ t) h = cc
units_eq-eq (a ∷ s) [] h = cc

pub text_eq_refl : (t : Text) → text_eq t t ≡ true
unfolding text_eq
text_eq_refl (uuid i) = ground arith
text_eq_refl (other s) = units_eq_refl s

pub text_eq-eq : (s t : Text) → text_eq s t ≡ true → s ≡ t
unfolding text_eq
text_eq-eq (uuid i) (uuid j) h = ground arith
text_eq-eq (other s) (other t) h = ap other (units_eq-eq s t h)
text_eq-eq (uuid i) (other t) h = cc
text_eq-eq (other s) (uuid j) h = cc
