-- ===== src/World/Keeps.antt =====
-- Invariants of the database under transactions, cache invalidations and jobs.
use orbitplay_api.Prelude.{ℕ}
use orbitplay_api.Errors.{Result, ok, err}
use orbitplay_api.Exec.{Exec, modify}
use orbitplay_api.Exec.Keeps.{Keeps}
use orbitplay_api.Queue.{JobId}
use orbitplay_api.World.{Db, World, settle, transaction, invalidate_dashboard_kpis, ensure_enqueued}

-- `m` keeps a predicate of the database.
abbrev pub DbKeeps : {A : Type 0} → (Db → Type 0) → Exec World A → Type 0
DbKeeps Q m = Keeps (λ w. Q w.db) m

settled :
    {A : Type 0} (Q : Db → Type 0) (r : Result A) (w after : World)
    → Q w.db
    → Q after.db
    → Q (settle r w after).1.db
settled Q (ok a) w after h h' = h'
settled Q (err e) w after h h' = h

pub Keeps-transaction :
    {A : Type 0} (Q : Db → Type 0) (m : Exec World A) → DbKeeps Q m → DbKeeps Q (transaction m)
unfolding transaction
Keeps-transaction Q m k = record { at = λ w h. settled Q (m w).0 w (m w).1 h (k.at w h) }

pub Keeps-ensure_enqueued : (Q : Db → Type 0) (i : JobId) → DbKeeps Q (ensure_enqueued i)
unfolding ensure_enqueued
Keeps-ensure_enqueued Q i = record { at = λ w h. h }

pub Keeps-invalidate_kpis : (Q : Db → Type 0) (i : ℕ) → DbKeeps Q (invalidate_dashboard_kpis i)
unfolding invalidate_dashboard_kpis modify
Keeps-invalidate_kpis Q i = record { at = λ w h. h }
