-- ===== src/Exec.antt =====
-- Handlers and repository methods as state passing: a method takes the world and returns its
-- result beside the world that it leaves. A raise keeps the writes made before it, unless they stand
-- in a transaction.
pub mod Keeps
pub mod Returns
use orbitplay_api.Prelude.{Bool, true, false, Option, none, some}
use orbitplay_api.Errors.{AppException, Failure, Result, app, ok, err}

abbrev pub Exec : Type 0 → Type 0 → Type 0
Exec S A = S → Result A × S

module _ {S A : Type 0} where
  unfoldable pub pure : A → Exec S A
  pure a s = (ok a, s)

  unfoldable pub fail : Failure → Exec S A
  fail e s = (err e, s)

  unfoldable pub raise : AppException → Exec S A
  raise e s = (err (app e), s)

  -- A read.
  unfoldable pub gets : (S → A) → Exec S A
  gets f s = (ok (f s), s)

  -- `if (!x) throw e`
  unfoldable pub require : Option A → AppException → Exec S A
  require none e s = (err (app e), s)
  require (some a) e s = (ok a, s)

module _ {S : Type 0} where
  -- A write.
  unfoldable pub modify : (S → S) → Exec S (Unit {0})
  modify f s = (ok tt, f s)

  -- `if (!b) throw e`
  unfoldable pub ensure : Bool → AppException → Exec S (Unit {0})
  ensure true e s = (ok tt, s)
  ensure false e s = (err (app e), s)

module _ {S A : Type 0} where
  -- `try { m } catch (e) { h(e) }`
  abbrev pub on_error : Result A → (Failure → Exec S A) → Exec S A
  on_error (ok a) h s = (ok a, s)
  on_error (err e) h s = h e s

  unfoldable pub catch : Exec S A → (Failure → Exec S A) → Exec S A
  catch m h s = on_error (m s).0 h (m s).1

module _ {S A B : Type 0} where
  abbrev pub continue : Result A → (A → Exec S B) → Exec S B
  continue (ok a) f s = f a s
  continue (err e) f s = (err e, s)

  infixl 10 ◌>>=◌ ◌>>◌
  -- Opening this opens the other actions too.
  unfoldable pub ◌>>=◌ : Exec S A → (A → Exec S B) → Exec S B
  unfolding pure fail raise gets require modify ensure catch
  ◌>>=◌ m f s = continue (m s).0 f (m s).1

  abbrev pub ◌>>◌ : Exec S A → Exec S B → Exec S B
  m >> n = m >>= λ _. n
