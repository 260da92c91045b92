-- ===== src/Exec/Returns.antt =====
-- What an action that returns has done: inversion of its parts.
use orbitplay_api.Prelude.{◌≡◌, refl, Bool, true, false, Option, none, some}
use orbitplay_api.Errors.{AppException, Result, ok, err}
use orbitplay_api.Exec.{Exec, gets, require, ensure, continue, ◌>>=◌}

module _ {S A B : Type 0} where
  continue-eq-ok :
      (r : Result A) (f : A → Exec S B) (s : S) (b : B)
      → (continue r f s).0 ≡ ok b
      → (a : A) × (r ≡ ok a) × ((f a s).0 ≡ ok b)
  continue-eq-ok (ok a) f s b h = (a, refl, h)
  continue-eq-ok (err e) f s b h = cc

  pub >>=-eq-ok :
      (m : Exec S A) (f : A → Exec S B) (s : S) (b : B)
      → ((m >>= f) s).0 ≡ ok b
      → (a : A) × ((m s).0 ≡ ok a) × ((f a (m s).1).0 ≡ ok b)
  unfolding ◌>>=◌
  >>=-eq-ok m f s b h = continue-eq-ok (m s).0 f (m s).1 b h

module _ {S A : Type 0} where
  pub require-eq-ok :
      (o : Option A) (e : AppException) (s : S) (a : A) → (require o e s).0 ≡ ok a → o ≡ some a
  unfolding require
  require-eq-ok none e s a h = cc
  require-eq-ok (some x) e s a h = cc

module _ {S : Type 0} where
  pub ensure-state : (b : Bool) (e : AppException) (s : S) → (ensure b e s).1 ≡ s
  unfolding ensure
  ensure-state true e s = refl
  ensure-state false e s = refl

-- The steps of a chain that returns: a read, a value that is there, and a guard that holds.
module _ {S A B : Type 0} where
  pub read :
      (f : S → A) (rest : A → Exec S B) (s : S) (b : B)
      → ((gets f >>= rest) s).0 ≡ ok b
      → (rest (f s) s).0 ≡ ok b
  unfolding gets ◌>>=◌
  read f rest s b h = h

  pub required :
      (o : Option A) (e : AppException) (rest : A → Exec S B) (s : S) (b : B)
      → ((require o e >>= rest) s).0 ≡ ok b
      → (a : A) × (o ≡ some a) × ((rest a s).0 ≡ ok b)
  unfolding require ◌>>=◌
  required none e rest s b h = cc
  required (some a) e rest s b h = (a, refl, h)

module _ {S B : Type 0} where
  pub ensured :
      (c : Bool) (e : AppException) (rest : Unit {0} → Exec S B) (s : S) (b : B)
      → ((ensure c e >>= rest) s).0 ≡ ok b
      → (c ≡ true) × ((rest tt s).0 ≡ ok b)
  unfolding ensure ◌>>=◌
  ensured true e rest s b h = (refl, h)
  ensured false e rest s b h = cc
