-- ===== src/Exec/Keeps.antt =====
-- Invariants of actions, one rule for each way to build an action.
use orbitplay_api.Prelude.{Bool, true, false, Option, none, some, if◌then◌else◌}
use orbitplay_api.Errors.{AppException, Failure, Result, ok, err}
use orbitplay_api.Exec.{
  Exec, pure, fail, raise, gets, require, modify, ensure, on_error, catch, continue, ◌>>=◌,
}

-- `m` keeps `P`, whether it returns or raises.
pub record Keeps {S A : Type 0} (P : S → Type 0) (m : Exec S A) : Type 0 where
  pub at : (s : S) → P s → P (m s).1

module _ {S A : Type 0} {P : S → Type 0} where
  pub Keeps-pure : (a : A) → Keeps P (pure {S = S} a)
  unfolding pure
  Keeps-pure a = record { at = λ s h. h }

  pub Keeps-fail : (e : Failure) → Keeps P (fail {S = S} {A = A} e)
  unfolding fail
  Keeps-fail e = record { at = λ s h. h }

  pub Keeps-raise : (e : AppException) → Keeps P (raise {S = S} {A = A} e)
  unfolding raise
  Keeps-raise e = record { at = λ s h. h }

  pub Keeps-gets : (read : S → A) → Keeps P (gets read)
  unfolding gets
  Keeps-gets read = record { at = λ world kept. kept }

  pub Keeps-require : (o : Option A) (e : AppException) → Keeps P (require {S = S} o e)
  unfolding require
  Keeps-require none e = record { at = λ s h. h }
  Keeps-require (some a) e = record { at = λ s h. h }

  pub Keeps-if : (b : Bool) (m n : Exec S A) → Keeps P m → Keeps P n → Keeps P (if b then m else n)
  Keeps-if true m n km kn = km
  Keeps-if false m n km kn = kn

  pub Keeps-catch :
      (m : Exec S A) (h : Failure → Exec S A)
      → Keeps P m
      → ((e : Failure) → Keeps P (h e))
      → Keeps P (catch m h)
  unfolding catch
  Keeps-catch m h km kh = record { at = λ s p. settled (m s).0 (m s).1 (km.at s p) }
    where
      settled : (r : Result A) (s : S) → P s → P (on_error r h s).1
      settled (ok a) s p = p
      settled (err e) s p = (kh e).at s p

module _ {S : Type 0} {P : S → Type 0} where
  pub Keeps-modify : (f : S → S) → ((s : S) → P s → P (f s)) → Keeps P (modify f)
  unfolding modify
  Keeps-modify f k = record { at = k }

  pub Keeps-ensure : (b : Bool) (e : AppException) → Keeps P (ensure {S = S} b e)
  unfolding ensure
  Keeps-ensure true e = record { at = λ s h. h }
  Keeps-ensure false e = record { at = λ s h. h }

module _ {S A B : Type 0} {P : S → Type 0} where
  pub continued :
      (r : Result A) (rest : A → Exec S B) (after : S)
      → ((a : A) → Keeps P (rest a))
      → P after
      → P (continue r rest after).1
  continued (ok a) rest after k h = (k a).at after h
  continued (err e) rest after k h = h

  pub Keeps-bind :
      (act : Exec S A) (rest : A → Exec S B)
      → Keeps P act
      → ((x : A) → Keeps P (rest x))
      → Keeps P (act >>= rest)
  unfolding ◌>>=◌
  Keeps-bind act rest first next = record {
    at = λ start h. continued (act start).0 rest (act start).1 next (first.at start h);
  }

pub ruleset keeps_rules = (
  Keeps-pure, Keeps-fail, Keeps-raise, Keeps-gets, Keeps-require, Keeps-if, Keeps-catch,
  Keeps-ensure, Keeps-bind,
)
