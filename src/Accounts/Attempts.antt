-- ===== src/Accounts/Attempts.antt =====
-- How many attempts the limit of one email lets through.
use orbitplay_api.Prelude.{
  ℕ, suc, ◌+◌, ◌-◌, ◌<◌, ◌≡◌, refl, ap, ◌∙◌, min, Bool, true, false, ◌||◌, Option, none, some, List,
  [], ◌∷◌, All, arith, length, leb, one_if, ◌==◌, ==_refl, if◌then◌else◌, option_map,
}
use orbitplay_api.Errors.{Result, ok, err}
use orbitplay_api.Exec.{ensure, modify}
use orbitplay_api.Exec.Returns.{ensure-state}
use orbitplay_api.Accounts.{LimitKind, LimitRow, Env, Accounts}
use orbitplay_api.Accounts.Limits.{
  kind_eq, find_limit, without_key, count_attempt, enforce_identifier_limit, clear_identifier_limit,
}

abbrev pub is_ok : {A : Type 0} → Result A → Bool
is_ok (ok a) = true
is_ok (err e) = false

-- How many of the attempts at the times of a list pass, one after the other.
pub passes : Env → LimitKind → ℕ → List ℕ → Accounts → ℕ
passes env kind email [] a = 0
passes env kind email (t ∷ ts) a =
    one_if (is_ok (enforce_identifier_limit env t kind email a).0)
    + passes env kind email ts (enforce_identifier_limit env t kind email a).1

-- The state after the attempts at the times of a list.
pub attempts : Env → LimitKind → ℕ → List ℕ → Accounts → Accounts
attempts env kind email [] a = a
attempts env kind email (t ∷ ts) a =
    attempts env kind email ts (enforce_identifier_limit env t kind email a).1

kind_eq_refl : (k : LimitKind) → kind_eq k k ≡ true
kind_eq_refl LimitKind.login = refl
kind_eq_refl LimitKind.forgot = refl
kind_eq_refl LimitKind.availability = refl

abbrev row_of : LimitKind → ℕ → ℕ → ℕ → LimitRow
row_of kind email n end = record { kind = kind; email = email; count = n; expires_at = some end }

passed : (b : Bool) (e : _) (a : Accounts) → is_ok (ensure b e a).0 ≡ b
unfolding ensure
passed true e a = refl
passed false e a = refl

-- The counter of a window: it stands first, with the end that its first attempt set.
abbrev Window : LimitKind → ℕ → ℕ → ℕ → Accounts → Type 0
Window kind email n end a = (rest : List LimitRow) × (a.limits ≡ row_of kind email n end ∷ rest)

found_row :
    (kind : LimitKind) (email n end now : ℕ) (rest : List LimitRow)
    → now < end
    → find_limit now kind email (row_of kind email n end ∷ rest) ≡ some (row_of kind email n end)
unfolding find_limit
found_row kind email n end now rest h = rw (kind_eq_refl, ==_refl) (ground arith)

abbrev counter : LimitKind → ℕ → ℕ → Option ℕ → LimitRow
counter kind email n end = record { kind = kind; email = email; count = n; expires_at = end }

-- A later attempt keeps the end.
later_end :
    (n : ℕ) (new : Option ℕ) (end : ℕ)
    → (if (suc (suc n) == 1) || false then new else some end) ≡ some end
later_end n new end = ground arith

-- One attempt within the window.
counted_on :
    (env : Env) (kind : LimitKind) (email n end now : ℕ) (a : Accounts)
    → now < end
    → Window kind email (suc n) end a
    → (is_ok (enforce_identifier_limit env now kind email a).0 ≡ leb (suc (suc n)) (env.limit kind))
      × Window kind email (suc (suc n)) end (enforce_identifier_limit env now kind email a).1
unfolding enforce_identifier_limit count_attempt
counted_on env kind email n end now a h (rest, e) =
    let found : find_limit now kind email a.limits ≡ some (row_of kind email (suc n) end) =
      rw e (found_row kind email (suc n) end now rest h) in
    rw found (
      passed _ _ _,
      (
        without_key kind email a.limits,
        ap Accounts.limits (ensure-state _ _ _)
            ∙ ap (λ x. counter kind email (suc (suc n)) x ∷ without_key kind email a.limits)
                (later_end n (some (now + env.limit_ttl_ms kind)) end),
      ),
    )

-- The first attempt opens the window.
opened :
    (env : Env) (kind : LimitKind) (email now : ℕ) (a : Accounts)
    → find_limit now kind email a.limits ≡ none
    → (is_ok (enforce_identifier_limit env now kind email a).0 ≡ leb 1 (env.limit kind))
      × Window kind email 1
          (now + env.limit_ttl_ms kind)
          (enforce_identifier_limit env now kind email a).1
unfolding enforce_identifier_limit count_attempt
opened env kind email now a e =
    rw e (passed _ _ _, (without_key kind email a.limits, ap Accounts.limits (ensure-state _ _ _)))

-- Within the window, after a number of attempts: how many passed, and that each one was counted.
passes_on :
    (env : Env) (kind : LimitKind) (email n end : ℕ) (ts : List ℕ) (a : Accounts)
    → All (λ t. t < end) ts
    → Window kind email (suc n) end a
    → (passes env kind email ts a ≡ min (length ts) (env.limit kind - suc n))
      × Window kind email (suc n + length ts) end (attempts env kind email ts a)
unfolding passes attempts
passes_on env kind email n end [] a h (rest, e) =
    (omega arith, (rest, e ∙ ap (λ k. row_of kind email k end ∷ rest) (omega arith)))
passes_on env kind email n end (t ∷ ts) a h w =
    let (now, later) = counted_on env kind email n end t a h.0 w in
    let (rest, (others, e)) =
      passes_on env kind email (suc n) end ts (enforce_identifier_limit env t kind email a).1 h.1
        later in
    (
      rw (now, rest) (ground arith),
      (others, e ∙ ap (λ k. row_of kind email k end ∷ others) (omega arith)),
    )

-- A login that succeeds clears the counter.
cleared :
    (kind : LimitKind) (email now : ℕ) (rows : List LimitRow)
    → find_limit now kind email (without_key kind email rows) ≡ none
unfolding find_limit
cleared kind email now [] = refl
cleared kind email now (r ∷ rows) = ground (arith, cleared kind email now rows)

-- Of the attempts for one email that fall into one window, which the first of them opens, and with no
-- clearing of the counter in between, exactly as many pass as the limit says. The others are refused
-- and count as well: at any time before the window ends the counter is the number of all attempts.
-- After a clearing of the counter there is none, as before the first attempt.
pub limit_exact :
    (env : Env) (kind : LimitKind) (email now : ℕ) (ts : List ℕ) (a : Accounts)
    → find_limit now kind email a.limits ≡ none
    → All (λ t. t < now + env.limit_ttl_ms kind) ts
    → (passes env kind email (now ∷ ts) a ≡ min (suc (length ts)) (env.limit kind))
      × ((later : ℕ)
          → later < now + env.limit_ttl_ms kind
          → option_map LimitRow.count
              (find_limit later kind email (attempts env kind email (now ∷ ts) a).limits)
            ≡ some (suc (length ts)))
      × ((later : ℕ)
          → find_limit later kind email
              (clear_identifier_limit kind email (attempts env kind email (now ∷ ts) a)).1.limits
            ≡ none)
unfolding passes attempts clear_identifier_limit modify
limit_exact env kind email now ts a none_yet within =
    let (first, w) = opened env kind email now a none_yet in
    let end = now + env.limit_ttl_ms kind in
    let (rest, (others, e)) =
      passes_on env kind email 0 end ts (enforce_identifier_limit env now kind email a).1 within
        w in
    (
      rw (first, rest) (ground arith),
      λ later h. rw e (
          ap (option_map LimitRow.count) (found_row kind email (1 + length ts) end later others h)
          ∙ ap some (omega arith)),
      λ later. cleared kind email later (attempts env kind email (now ∷ ts) a).limits,
    )
