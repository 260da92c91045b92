-- ===== src/Accounts/Families/Refined.antt =====
-- Every history moves the families of refresh tokens forward only.
use orbitplay_api.Prelude.{
  ℕ, suc, ◌≤◌, ◌<◌, ◌≡◌, refl, sym, ◌∙◌, subst, inl, inr, Bool, true, ◌&&◌, some, List, [], ◌∷◌,
  ◌++◌, All-mono, arith, count_if, count_if-append, get, get-All, ◌==◌, Bool-cases, ==_iff, ==_refl,
}
use native.Mathlib.Nat.{le_refl}
use orbitplay_api.Accounts.{Env, RefreshTokenRow, Accounts}
use orbitplay_api.Accounts.Tokens.{is_live_token, revoke_row, replaced_row, update_where}
use orbitplay_api.Accounts.Auth.Signup.{Slugs}
use orbitplay_api.Accounts.Invariants.{Writes}
use orbitplay_api.Accounts.Invariants.Steps.{Reach, Reach-keeps}
use orbitplay_api.Accounts.Families.{
  Come, Fades, HasCome, IsSound, added-IsSound, added_other, age, age_alive, faded, in_family,
  lineage, lineage_of, live_total, lives_in, replace-Fades, revoke-Fades, undrawn, where_dies,
}

age_unborn : (tokens live : ℕ) → tokens ≡ 0 → age (lineage_of tokens live) ≡ 0
age_unborn tokens live h = ground arith

issued :
    (f b : ℕ) (t : RefreshTokenRow) (ts : List RefreshTokenRow) (n m : ℕ)
    → n ≤ t.family_id
    → t.family_id < m
    → HasCome f b ts n
    → HasCome f b (ts ++ t ∷ []) m
issued f b t ts n m le lt h =
    let none_yet : count_if (in_family t.family_id) ts ≡ 0 =
      undrawn t.family_id n ts le h.sound.drawn in
    record {
      sound =
          added-IsSound t ts n m h.sound lt (omega arith)
            (omega (arith, live_total t.family_id ts, none_yet));
      further = elim (Bool-cases (t.family_id == f)) [
        | inr e ↦ rw ((added_other f t ts e).0, (added_other f t ts e).1) h.further
        | inl e ↦
            let zero_before : count_if (in_family f) ts ≡ 0 =
              subst (λ (x : ℕ). count_if (in_family x) ts ≡ 0) ((==_iff t.family_id f).0 e)
                none_yet in
            omega (
              arith,
              h.further,
              age_unborn (count_if (in_family f) ts) (count_if (lives_in f) ts) zero_before,
            )
      ];
    }

rotated :
    (f b now hash : ℕ) (stored t : RefreshTokenRow) (ts : List RefreshTokenRow) (n m : ℕ)
    → get RefreshTokenRow.token_hash hash ts ≡ some stored
    → is_live_token stored ≡ true
    → t.family_id ≡ stored.family_id
    → is_live_token t ≡ true
    → n ≤ m
    → HasCome f b ts n
    → HasCome f b
        (update_where
            (λ (r : RefreshTokenRow). (r.id == stored.id) && is_live_token r)
            (replaced_row now t.id)
            ts
          ++ t ∷ [])
        m
rotated f b now hash stored t ts n m e l same new le h =
    let p : RefreshTokenRow → Bool = λ r. (r.id == stored.id) && is_live_token r in
    let g : RefreshTokenRow → RefreshTokenRow = replaced_row now t.id in
    let d : Fades g = replace-Fades now t.id in
    let rest : List RefreshTokenRow = update_where p g ts in
    let dies : suc (count_if (lives_in stored.family_id) rest)
        ≤ count_if (lives_in stored.family_id) ts =
      where_dies p g d hash ts stored e (rw (==_refl stored.id, l) refl) l refl in
    let kept : HasCome f b rest n = faded p g d f b ts n h in
    let none_alive : count_if (lives_in t.family_id) rest ≡ 0 =
      subst (λ (x : ℕ). count_if (lives_in x) rest ≡ 0) (sym same)
        (omega (arith, dies, h.sound.single stored.family_id)) in
    let known : stored.family_id < n =
      get-All RefreshTokenRow.token_hash (λ (x : RefreshTokenRow). x.family_id < n) hash ts stored
        h.sound.drawn e in
    record {
      sound = added-IsSound t rest n m kept.sound (rw same (omega arith)) le none_alive;
      further = elim (Bool-cases (t.family_id == f)) [
        | inr other ↦
            rw ((added_other f t rest other).0, (added_other f t rest other).1) kept.further
        | inl own ↦
            let here : t.family_id ≡ f = (==_iff t.family_id f).0 own in
            let alive_before : 0 < count_if (lives_in f) ts =
              subst (λ (x : ℕ). 0 < count_if (lives_in x) ts) (sym same ∙ here) (omega arith) in
            let alive_after : 0 < count_if (lives_in f) (rest ++ t ∷ []) =
              ground (arith, count_if-append (lives_in f) rest (t ∷ []), own, new) in
            omega (
              arith,
              h.further,
              age_alive (count_if (in_family f) ts) (count_if (lives_in f) ts) alive_before
                  (live_total f ts),
              age_alive (count_if (in_family f) (rest ++ t ∷ []))
                  (count_if (lives_in f) (rest ++ t ∷ [])) alive_after
                  (live_total f (rest ++ t ∷ [])),
            )
      ];
    }

comes : (f b : ℕ) → Writes (Come f b)
comes f b = record {
  later = λ ms ts n m le h. record {
    sound = record {
      drawn =
          All-mono (λ (x : RefreshTokenRow). x.family_id < n)
            (λ (x : RefreshTokenRow). x.family_id < m) ts (λ x k. omega arith) h.sound.drawn;
      single = h.sound.single;
    };
    further = h.further;
  };
  add_member = λ m ms ts n new h. h;
  accept = λ u ms ts n h. h;
  change = λ g o id c a safe found h. h;
  revoke = λ p now ms ts n h. faded p (revoke_row now) (revoke-Fades now) f b ts n h;
  issue = λ t ms ts n m le lt live h. issued f b t ts n m le lt h;
  rotate = λ now hash stored t ms ts n m e live same new le h.
      rotated f b now hash stored t ts n m e live same new le h;
}

-- Whatever is requested and in whatever order, from a state in which every family of refresh tokens
-- has at most one live token and only ids that were drawn: that holds in every later state, and
-- each family only moves forward, from unborn to alive and from alive to dead.
pub families_refine :
    (env : Env) (slugs : Slugs) (a b : Accounts)
    → Reach env slugs a b
    → IsSound a.refresh_tokens a.next_id
    → IsSound b.refresh_tokens b.next_id
      × ((f : ℕ) → age (lineage f a.refresh_tokens) ≤ age (lineage f b.refresh_tokens))
families_refine env slugs a b r h = ((come 0).sound, λ f. (come f).further)
  where
    come : (f : ℕ) → HasCome f (age (lineage f a.refresh_tokens)) b.refresh_tokens b.next_id
    come f =
        Reach-keeps env slugs (Come f (age (lineage f a.refresh_tokens)))
          (comes f (age (lineage f a.refresh_tokens))) a b r
          (record { sound = h; further = le_refl (age (lineage f a.refresh_tokens)) })
