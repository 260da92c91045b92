-- ===== src/Accounts/Owners.antt =====
-- RN-03: an organization never loses its last active owner.
use orbitplay_api.Prelude.{
  ℕ, ◌+◌, ◌≤◌, ◌≡◌, refl, ap, subst, inl, inr, Bool, true, false, Option, none, some, List, [], ◌∷◌,
  ◌++◌, arith, any, find, filter, map, length, count_if, count_if-append, any-count_if,
  count_if-update, one_if, get, option_map, update, ◌==◌, Bool-cases, Option-cases, ==_refl, ==_iff,
  count_if-update_same,
}
use orbitplay_api.Accounts.{Env, UserRow, MembershipRow, RefreshTokenRow, Accounts}
use orbitplay_api.Accounts.Tokens.{accept_row}
use orbitplay_api.Accounts.Orgs.{
  MemberRecord, member_view, is_membership, find_membership_for_update, is_active_owner,
  lock_active_owners,
}
use orbitplay_api.Accounts.Auth.Signup.{Slugs}
use orbitplay_api.Accounts.Invariants.{IsSafe, Writes}
use orbitplay_api.Accounts.Invariants.Steps.{Reach, Reach-keeps}

-- The organization has an active owner, and no two memberships have one key.
abbrev pub IsOwned : ℕ → List MembershipRow → List RefreshTokenRow → ℕ → Type 0
IsOwned org ms ts n =
    (1 ≤ count_if (is_active_owner org) ms)
    × ((i : ℕ) → count_if (λ (m : MembershipRow). m.id == i) ms ≤ 1)

length-filter : {A : Type 0} (p : A → Bool) (xs : List A) → length (filter p xs) ≡ count_if p xs
length-filter p [] = refl
length-filter p (x ∷ xs) = ground (arith, length-filter p xs)

find-holds : {A : Type 0} (p : A → Bool) (xs : List A) (x : A) → find p xs ≡ some x → p x ≡ true
find-holds p [] x h = cc
find-holds p (y ∷ xs) x h = elim (Bool-cases (p y)) [
  | inl e ↦ ground (arith, e)
  | inr e ↦ find-holds p xs x (ground (arith, e))
]

tail_unique :
    (r : MembershipRow) (ms : List MembershipRow) (i : ℕ)
    → count_if (λ (x : MembershipRow). x.id == i) (r ∷ ms) ≤ 1
    → count_if (λ (x : MembershipRow). x.id == i) ms ≤ 1
tail_unique r ms i h = ground arith

-- Where keys are unique, the row that is found is the one that its key finds.
get-find :
    (p : MembershipRow → Bool) (ms : List MembershipRow) (m : MembershipRow)
    → ((i : ℕ) → count_if (λ (r : MembershipRow). r.id == i) ms ≤ 1)
    → find p ms ≡ some m
    → (get MembershipRow.id m.id ms ≡ some m)
      × (1 ≤ count_if (λ (r : MembershipRow). r.id == m.id) ms)
unfolding get
get-find p [] m unique h = cc
get-find p (r ∷ ms) m unique h = elim (Bool-cases (p r)) [
  | inl e ↦
      let same : r ≡ m = ground (arith, e) in
      subst
        (λ (x : MembershipRow).
          (get MembershipRow.id x.id (r ∷ ms) ≡ some x)
          × (1 ≤ count_if (λ (y : MembershipRow). y.id == x.id) (r ∷ ms)))
        same (rw (==_refl r.id) (refl, omega arith))
  | inr e ↦
      let rest : (get MembershipRow.id m.id ms ≡ some m)
          × (1 ≤ count_if (λ (x : MembershipRow). x.id == m.id) ms) =
        get-find p ms m (λ i. tail_unique r ms i (unique i)) (ground (arith, e)) in
      (ground (arith, unique m.id, rest), ground (arith, rest))
]

-- Accepting invitations loses no owner, and keeps every key.
accepted_owner :
    (u org : ℕ) (m : MembershipRow)
    → is_active_owner org m ≡ true
    → is_active_owner org (accept_row u m) ≡ true
accepted_owner u org m h = ground arith

accepted_key : (u : ℕ) (m : MembershipRow) → (accept_row u m).id ≡ m.id
accepted_key u m = ground arith

accept_owners :
    (u org : ℕ) (ms : List MembershipRow)
    → count_if (is_active_owner org) ms ≤ count_if (is_active_owner org) (map (accept_row u) ms)
accept_owners u org [] = omega arith
accept_owners u org (m ∷ ms) = elim (Bool-cases (is_active_owner org m)) [
  | inl e ↦ rw (e, accepted_owner u org m e) (omega (arith, accept_owners u org ms))
  | inr e ↦ rw e (ground (arith, accept_owners u org ms))
]

accept_keys :
    (u i : ℕ) (ms : List MembershipRow)
    → count_if (λ (m : MembershipRow). m.id == i) (map (accept_row u) ms)
      ≡ count_if (λ (m : MembershipRow). m.id == i) ms
accept_keys u i [] = refl
accept_keys u i (m ∷ ms) = rw (accepted_key u m) (ground (arith, accept_keys u i ms))

-- What the record of a found member says of its row.
abbrev IsRowOf : MemberRecord → MembershipRow → Type 0
IsRowOf c m = (m.id ≡ c.membership_id) × (m.role ≡ c.role) × (m.status ≡ c.status)

joined_row :
    (m : MembershipRow) (u : Option UserRow) (c : MemberRecord)
    → option_map (λ v. record { membership_id = m.id; view = member_view m v }) u ≡ some c
    → IsRowOf c m
joined_row m none c h = cc
joined_row m (some u) c h =
    let same : record { membership_id = m.id; view = member_view m u } ≡ c = cc in
    (
      ap MemberRecord.membership_id same,
      ap (λ (x : MemberRecord). x.role) same,
      ap (λ (x : MemberRecord). x.status) same,
    )

found_row :
    (org id : ℕ) (c : MemberRecord) (a : Accounts)
    → find_membership_for_update org id a ≡ some c
    → (m : MembershipRow) × (find (is_membership org id) a.memberships ≡ some m) × IsRowOf c m
unfolding find_membership_for_update
found_row org id c a h = elim (Option-cases (find (is_membership org id) a.memberships)) [
  | inl e ↦ absurd (lost (rw e at h))
  | inr (m, e) ↦ (m, e, joined_row m _ c (rw e at h))
]
  where
    lost : none ≡ some c → ⊥
    lost h = cc

-- An owner that the change of its organization's member must not lose is not lost.
owner_kept :
    (f : MembershipRow → MembershipRow) (org o id : ℕ) (m : MembershipRow)
    → (f m).organization_id ≡ m.organization_id
    → is_membership o id m ≡ true
    → is_active_owner org m ≡ true
    → (is_active_owner o m ≡ true → is_active_owner o (f m) ≡ true)
    → is_active_owner org (f m) ≡ true
owner_kept f org o id m same found owns kept = ground arith

own_organization :
    (org o id : ℕ) (m : MembershipRow)
    → is_membership o id m ≡ true
    → is_active_owner org m ≡ true
    → o ≡ org
own_organization org o id m found owns = ground arith

two_owners :
    (org o : ℕ) (a : Accounts)
    → o ≡ org
    → 2 ≤ length (lock_active_owners o a)
    → 2 ≤ count_if (is_active_owner org) a.memberships
unfolding lock_active_owners
two_owners org o a e h =
    subst (λ x. 2 ≤ count_if (is_active_owner x) a.memberships) e
      (omega (arith, length-filter (is_active_owner o) a.memberships))

-- A safe change of the member that is found leaves an owned organization owned.
changed-IsOwned :
    (f : MembershipRow → MembershipRow) (org o id : ℕ) (c : MemberRecord) (a : Accounts)
    → IsSafe o c f a
    → find_membership_for_update o id a ≡ some c
    → IsOwned org a.memberships a.refresh_tokens a.next_id
    → IsOwned org
        (update MembershipRow.id c.membership_id f a.memberships)
        a.refresh_tokens
        a.next_id
changed-IsOwned f org o id c a safe found h =
    let (m, e, row) = found_row o id c a found in
    let at : get MembershipRow.id c.membership_id a.memberships ≡ some m =
      rw (← row.0) ((get-find (is_membership o id) a.memberships m h.1 e).0) in
    let here : is_membership o id m ≡ true = find-holds (is_membership o id) a.memberships m e in
    let counted : count_if (is_active_owner org)
            (update MembershipRow.id c.membership_id f a.memberships)
          + one_if (is_active_owner org m)
        ≡ count_if (is_active_owner org) a.memberships + one_if (is_active_owner org (f m)) =
      count_if-update MembershipRow.id (is_active_owner org) c.membership_id f a.memberships m at in
    (
      elim (Bool-cases (is_active_owner org m)) [
        | inr no_owner ↦ omega (arith, rw no_owner at counted, h.0)
        | inl owns ↦ elim safe.owner [
          | inl kept ↦ omega (
            arith,
            rw (owns, owner_kept f org o id m (safe.organization m) here owns (kept m row.1 row.2))
                at counted,
            h.0,
          )
          | inr two ↦ omega (
            arith,
            rw owns at counted,
            two_owners org o a (own_organization org o id m here owns) two,
          )
        ]
      ],
      λ i. omega (
        arith,
        count_if-update_same MembershipRow.id (λ (r : MembershipRow). r.id == i) c.membership_id f
            a.memberships (λ r. rw (safe.key r) refl),
        h.1 i,
      ),
    )

no_key :
    (m : MembershipRow) (ms : List MembershipRow)
    → any (λ (r : MembershipRow). r.id == m.id) ms ≡ false
    → count_if (λ (r : MembershipRow). r.id == m.id) ms ≡ 0
no_key m ms h = any-count_if (λ (r : MembershipRow). r.id == m.id) ms h

added-IsOwned :
    (m : MembershipRow) (org : ℕ) (ms : List MembershipRow) (ts : List RefreshTokenRow) (n : ℕ)
    → any (λ (r : MembershipRow). r.id == m.id) ms ≡ false
    → IsOwned org ms ts n
    → IsOwned org (ms ++ m ∷ []) ts n
added-IsOwned m org ms ts n new h = (
  omega (arith, count_if-append (is_active_owner org) ms (m ∷ []), h.0),
  λ i. elim (Bool-cases (m.id == i)) [
    | inr e ↦
        omega
          (arith, rw e at (count_if-append (λ (r : MembershipRow). r.id == i) ms (m ∷ [])), h.1 i)
    | inl e ↦ omega (
      arith,
      rw e at (count_if-append (λ (r : MembershipRow). r.id == i) ms (m ∷ [])),
      subst (λ x. count_if (λ (r : MembershipRow). r.id == x) ms ≡ 0) ((==_iff m.id i).0 e)
          (no_key m ms new),
    )
  ],
)

owned : (org : ℕ) → Writes (IsOwned org)
owned org = record {
  later = λ ms ts n m le h. h;
  add_member = λ m ms ts n new h. added-IsOwned m org ms ts n new h;
  accept = λ u ms ts n h.
      (omega (arith, accept_owners u org ms, h.0), λ i. omega (arith, accept_keys u i ms, h.1 i));
  change = λ f o id c a safe found h. changed-IsOwned f org o id c a safe found h;
  revoke = λ p now ms ts n h. h;
  issue = λ t ms ts n m le lt live h. h;
  rotate = λ now hash stored t ms ts n m e live same new le h. h;
}

-- In whatever order requests change, invite and remove members, reset passwords and sign up, an
-- organization that has an active owner, while no two memberships share a key, has one in every later
-- state.
pub always_owned :
    (env : Env) (slugs : Slugs) (org : ℕ) (a b : Accounts)
    → Reach env slugs a b
    → 1 ≤ count_if (is_active_owner org) a.memberships
    → ((i : ℕ) → count_if (λ (m : MembershipRow). m.id == i) a.memberships ≤ 1)
    → 1 ≤ count_if (is_active_owner org) b.memberships
always_owned env slugs org a b r one unique =
    (Reach-keeps env slugs (IsOwned org) (owned org) a b r (one, unique)).0
