-- ===== src/Accounts/Invariants/Members.antt =====
-- The three changes of a member under the locks are safe, so they keep what every safe change keeps.
use orbitplay_api.Prelude.{
  ℕ, ◌≤◌, ◌≡◌, refl, ap, ◌⊎◌, inl, inr, Bool, true, false, not, ◌&&◌, some, List, arith, leb,
  length, update, Bool-cases, Option-cases,
}
use orbitplay_api.Errors.{ok, err, Failure, repository, RepositoryError}
use orbitplay_api.Exec.{Exec, pure, fail, modify, ◌>>=◌}
use orbitplay_api.Accounts.{
  Role, MembershipStatus, disabled, is_owner, is_active_status, is_invited, MembershipRow,
  RefreshTokenRow, Accounts, atomically,
}
use orbitplay_api.Accounts.Orgs.{
  MemberRecord, find_membership_for_update, lock_active_owners, is_active_owner, counts_as_owner,
  keep_an_owner, update_membership, locked_member, change_role_row, change_status_row, remove_row,
}
use orbitplay_api.Accounts.Invariants.{AccountsKeep, IsSafe, Writes}

abbrev write_member : (MembershipRow → MembershipRow) → MemberRecord → Accounts → Accounts
write_member f c a = record a {
  db = record a.db { memberships = update MembershipRow.id c.membership_id f a.memberships };
}

-- A change of a row that refuses without a write, or writes the row safely.
abbrev IsGuarded :
    {A : Type 0} → ℕ → ℕ → (MemberRecord → List MembershipRow → Exec Accounts A) → Type 0
IsGuarded {A} org id change =
    (c : MemberRecord) (a : Accounts)
    → find_membership_for_update org id a ≡ some c
    → ((e : Failure) × (change c (lock_active_owners org a) a ≡ (err e, a)))
      ⊎ ((x : A) × (f : MembershipRow → MembershipRow) × IsSafe org c f a
          × (change c (lock_active_owners org a) a ≡ (ok x, write_member f c a)))

module _ (R : List MembershipRow → List RefreshTokenRow → ℕ → Type 0) (K : Writes R) where
  pub Keeps-locked :
      {A : Type 0} (org id : ℕ) (change : MemberRecord → List MembershipRow → Exec Accounts A)
      → IsGuarded org id change
      → AccountsKeep R (locked_member org id change)
  unfolding locked_member atomically pure ◌>>=◌
  Keeps-locked org id change g = record {
    at = λ a h. elim (Option-cases (find_membership_for_update org id a)) [
      | inl e ↦ rw e h
      | inr (c, e) ↦ elim (g c a e) [
        | inl (x, r) ↦ rw (e, r) h
        | inr (x, f, safe, r) ↦ rw (e, r) (K.change f org id c a safe e h)
      ]
    ];
  }

-- What the guard on the last owner lets through.
passes : (loses : Bool) (n : ℕ) → (loses && leb n 1) ≡ false → (loses ≡ false) ⊎ (2 ≤ n)
passes true n h = inr (ground arith)
passes false n h = inl refl

-- An active owner that is one of the changes' results too, unless the change loses it.
role_kept :
    (r : Role) (org : ℕ) (c : MemberRecord) (m : MembershipRow)
    → (counts_as_owner c && not (is_owner r)) ≡ false
    → m.role ≡ c.role
    → m.status ≡ c.status
    → is_active_owner org m ≡ true
    → is_active_owner org (record m { role = r }) ≡ true
role_kept r org c m loses e f h = ground (arith, ap is_owner e, ap is_active_status f)

status_kept :
    (s : MembershipStatus) (org : ℕ) (c : MemberRecord) (m : MembershipRow)
    → (counts_as_owner c && not (is_active_status s)) ≡ false
    → m.role ≡ c.role
    → m.status ≡ c.status
    → is_active_owner org m ≡ true
    → is_active_owner org (record m { status = s }) ≡ true
status_kept s org c m loses e f h = ground (arith, ap is_owner e, ap is_active_status f)

leave_kept :
    (now org : ℕ) (c : MemberRecord) (m : MembershipRow)
    → counts_as_owner c ≡ false
    → m.role ≡ c.role
    → m.status ≡ c.status
    → is_active_owner org m ≡ true
    → is_active_owner org (record m { status = disabled; deleted_at = some now }) ≡ true
leave_kept now org c m loses e f h = ground (arith, ap is_owner e, ap is_active_status f)

safe :
    (org : ℕ) (c : MemberRecord) (f : MembershipRow → MembershipRow) (a : Accounts) (loses : Bool)
    → ((m : MembershipRow) → (f m).id ≡ m.id)
    → ((m : MembershipRow) → (f m).organization_id ≡ m.organization_id)
    → (loses ≡ false
        → (m : MembershipRow) → m.role ≡ c.role
        → m.status ≡ c.status
        → is_active_owner org m ≡ true
        → is_active_owner org (f m) ≡ true)
    → (loses && leb (length (lock_active_owners org a)) 1) ≡ false
    → IsSafe org c f a
safe org c f a loses key organization kept h =
    elim (passes loses (length (lock_active_owners org a)) h) [
      | inl keeps ↦ record { key = key; organization = organization; owner = inl (kept keeps) }
      | inr two ↦ record { key = key; organization = organization; owner = inr two }
    ]

role-IsGuarded : (org id : ℕ) (r : Role) → IsGuarded org id (change_role_row r)
unfolding change_role_row keep_an_owner update_membership pure fail modify ◌>>=◌
role-IsGuarded org id r c a e =
    let loses : Bool = counts_as_owner c && not (is_owner r) in
    elim (Bool-cases (loses && leb (length (lock_active_owners org a)) 1)) [
      | inl last ↦ inl (repository RepositoryError.last_owner, rw last refl)
      | inr more ↦ inr (
        record { previous_role = c.role; member = record c.view { role = r } },
        (λ m. record m { role = r }),
        safe org c (λ m. record m { role = r }) a loses (λ m. refl) (λ m. refl)
            (λ keeps m. role_kept r org c m keeps) more,
        rw more refl,
      )
    ]

leave-IsGuarded : (org id now : ℕ) → IsGuarded org id (remove_row now)
unfolding remove_row keep_an_owner update_membership pure fail modify ◌>>=◌
leave-IsGuarded org id now c a e =
    elim (Bool-cases (counts_as_owner c && leb (length (lock_active_owners org a)) 1)) [
      | inl last ↦ inl (repository RepositoryError.last_owner, rw last refl)
      | inr more ↦ inr (
        c.status,
        (λ m. record m { status = disabled; deleted_at = some now }),
        safe org c (λ m. record m { status = disabled; deleted_at = some now }) a
            (counts_as_owner c) (λ m. refl) (λ m. refl) (λ keeps m. leave_kept now org c m keeps)
            more,
        rw more refl,
      )
    ]

status-IsGuarded : (org id : ℕ) (s : MembershipStatus) → IsGuarded org id (change_status_row s)
unfolding change_status_row keep_an_owner update_membership pure fail modify ◌>>=◌
status-IsGuarded org id s c a e =
    let loses : Bool = counts_as_owner c && not (is_active_status s) in
    elim (Bool-cases (is_invited c.status)) [
      | inl pending ↦ inl (repository RepositoryError.pending_invite, rw pending refl)
      | inr settled ↦ elim (Bool-cases (loses && leb (length (lock_active_owners org a)) 1)) [
        | inl last ↦ inl (repository RepositoryError.last_owner, rw (settled, last) refl)
        | inr more ↦ inr (
          record { previous_status = c.status; member = record c.view { status = s } },
          (λ m. record m { status = s }),
          safe org c (λ m. record m { status = s }) a loses (λ m. refl) (λ m. refl)
              (λ keeps m. status_kept s org c m keeps) more,
          rw (settled, more) refl,
        )
      ]
    ]

module _ (R : List MembershipRow → List RefreshTokenRow → ℕ → Type 0) (K : Writes R) where
  pub Keeps-role :
      (org id : ℕ) (r : Role) → AccountsKeep R (locked_member org id (change_role_row r))
  Keeps-role org id r = Keeps-locked R K org id (change_role_row r) (role-IsGuarded org id r)

  pub Keeps-status :
      (org id : ℕ) (s : MembershipStatus)
      → AccountsKeep R (locked_member org id (change_status_row s))
  Keeps-status org id s = Keeps-locked R K org id (change_status_row s) (status-IsGuarded org id s)

  pub Keeps-leave : (org id now : ℕ) → AccountsKeep R (locked_member org id (remove_row now))
  Keeps-leave org id now = Keeps-locked R K org id (remove_row now) (leave-IsGuarded org id now)
