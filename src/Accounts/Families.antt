-- ===== src/Accounts/Families.antt =====
-- The families of refresh tokens as small automata: a family is born with a login, lives on through its
-- rotations with one live token, and once it is dead it stays so.
pub mod Refined
use orbitplay_api.Prelude.{
  ℕ, suc, ◌≤◌, ◌<◌, ◌≡◌, refl, sym, ◌∙◌, subst, inl, inr, Bool, true, false, ◌&&◌, some, List, [],
  ◌∷◌, ◌++◌, All, All-append_one, All-mono, arith, count_if, count_if-append, get, get-All, ◌==◌,
  Bool-cases, if◌then◌else◌, ==_iff, ==_refl,
}
use native.Mathlib.Nat.{le_refl}
use orbitplay_api.Accounts.{Env, MembershipRow, RefreshTokenRow, Accounts}
use orbitplay_api.Accounts.Tokens.{is_live_token, revoke_row, replaced_row, update_where}
use orbitplay_api.Accounts.Auth.Signup.{Slugs}
use orbitplay_api.Accounts.Invariants.{Writes}
use orbitplay_api.Accounts.Invariants.Steps.{Reach, Reach-keeps}

-- The states of a family.
pub data Lineage : Type 0 where
  unborn alive dead : Lineage

-- A family only moves forward.
abbrev pub age : Lineage → ℕ
age unborn = 0
age alive = 1
age dead = 2

abbrev pub in_family : ℕ → RefreshTokenRow → Bool
in_family f t = t.family_id == f

abbrev pub lives_in : ℕ → RefreshTokenRow → Bool
lives_in f t = (t.family_id == f) && is_live_token t

abbrev pub lineage_of : ℕ → ℕ → Lineage
lineage_of tokens live = if tokens == 0 then unborn else if live == 0 then dead else alive

-- The state of a family, as its rows tell it.
abbrev pub lineage : ℕ → List RefreshTokenRow → Lineage
lineage f ts = lineage_of (count_if (in_family f) ts) (count_if (lives_in f) ts)

-- Families have at most one live token each, and only ids that were drawn.
pub record IsSound (ts : List RefreshTokenRow) (n : ℕ) : Type 0 where
  pub drawn : All (λ (t : RefreshTokenRow). t.family_id < n) ts
  pub single : (f : ℕ) → count_if (lives_in f) ts ≤ 1

-- Sound families, of which one has come at least this far.
pub record HasCome (f age_before : ℕ) (ts : List RefreshTokenRow) (n : ℕ) : Type 0 where
  pub sound : IsSound ts n
  pub further : age_before ≤ age (lineage f ts)

abbrev pub Come : ℕ → ℕ → List MembershipRow → List RefreshTokenRow → ℕ → Type 0
Come f age_before ms ts n = HasCome f age_before ts n

-- A write on a row that keeps its family and makes nothing live.
pub record Fades (g : RefreshTokenRow → RefreshTokenRow) : Type 0 where
  pub family : (t : RefreshTokenRow) → (g t).family_id ≡ t.family_id
  pub fades : (t : RefreshTokenRow) → is_live_token t ≡ false → is_live_token (g t) ≡ false

module _ (p : RefreshTokenRow → Bool) (g : RefreshTokenRow → RefreshTokenRow) (d : Fades g) where
  where_total :
      (f : ℕ) (ts : List RefreshTokenRow)
      → count_if (in_family f) (update_where p g ts) ≡ count_if (in_family f) ts
  where_total f [] = refl
  where_total f (t ∷ ts) = ground (arith, where_total f ts, d.family t)

  where_live :
      (f : ℕ) (ts : List RefreshTokenRow)
      → count_if (lives_in f) (update_where p g ts) ≤ count_if (lives_in f) ts
  where_live f [] = omega arith
  where_live f (t ∷ ts) = ground (arith, where_live f ts, d.family t, d.fades t)

  where_drawn :
      (n : ℕ) (ts : List RefreshTokenRow)
      → All (λ (t : RefreshTokenRow). t.family_id < n) ts
      → All (λ (t : RefreshTokenRow). t.family_id < n) (update_where p g ts)
  where_drawn n [] h = tt
  where_drawn n (t ∷ ts) h = elim (Bool-cases (p t)) [
    | inl e ↦ rw e (rw (d.family t) h.0, where_drawn n ts h.1)
    | inr e ↦ rw e (h.0, where_drawn n ts h.1)
  ]

  head_dies :
      (t : RefreshTokenRow) (ts : List RefreshTokenRow)
      → p t ≡ true
      → is_live_token t ≡ true
      → is_live_token (g t) ≡ false
      → suc (count_if (lives_in t.family_id) (update_where p g (t ∷ ts)))
        ≤ count_if (lives_in t.family_id) (t ∷ ts)
  head_dies t ts s l k =
      rw (s, d.family t, ==_refl t.family_id, l, k) (omega (arith, where_live t.family_id ts))

  -- The live token that the write takes from its family.
  pub where_dies :
      (hash : ℕ) (ts : List RefreshTokenRow) (stored : RefreshTokenRow)
      → get RefreshTokenRow.token_hash hash ts ≡ some stored
      → p stored ≡ true
      → is_live_token stored ≡ true
      → is_live_token (g stored) ≡ false
      → suc (count_if (lives_in stored.family_id) (update_where p g ts))
        ≤ count_if (lives_in stored.family_id) ts
  unfolding get
  where_dies hash [] stored e s l k = cc
  where_dies hash (t ∷ ts) stored e s l k = elim (Bool-cases (t.token_hash == hash)) [
    | inl here ↦
        let same : t ≡ stored = ground (arith, e, here) in
        subst
          (λ (x : RefreshTokenRow).
            suc (count_if (lives_in x.family_id) (update_where p g (t ∷ ts)))
            ≤ count_if (lives_in x.family_id) (t ∷ ts))
          same (head_dies t ts (cc) (cc) (cc))
    | inr there ↦
        ground
          (arith, where_dies hash ts stored (ground (arith, e, there)) s l k, d.family t, d.fades t)
  ]

-- The state of a family of known counts.
age_grows :
    (tokens live tokens' live' : ℕ)
    → tokens ≤ tokens'
    → (0 < tokens → live' ≤ live)
    → age (lineage_of tokens live) ≤ age (lineage_of tokens' live')
age_grows tokens live tokens' live' le fewer = ground arith

pub live_total :
    (f : ℕ) (ts : List RefreshTokenRow) → count_if (lives_in f) ts ≤ count_if (in_family f) ts
live_total f [] = omega arith
live_total f (t ∷ ts) = ground (arith, live_total f ts)

-- A family id that was not drawn has no token.
pub undrawn :
    (f n : ℕ) (ts : List RefreshTokenRow)
    → n ≤ f
    → All (λ (t : RefreshTokenRow). t.family_id < n) ts
    → count_if (in_family f) ts ≡ 0
undrawn f n [] le h = refl
undrawn f n (t ∷ ts) le h = ground (arith, undrawn f n ts le h.1, h.0)

pub revoke-Fades : (now : ℕ) → Fades (revoke_row now)
revoke-Fades now = record { family = λ t. ground arith; fades = λ t h. ground arith }

pub replace-Fades : (now i : ℕ) → Fades (replaced_row now i)
replace-Fades now i = record { family = λ t. refl; fades = λ t h. refl }

-- A write that makes nothing live lets every family come at least as far.
pub faded :
    (p : RefreshTokenRow → Bool) (g : RefreshTokenRow → RefreshTokenRow) (d : Fades g) (f b : ℕ)
    (ts : List RefreshTokenRow) (n : ℕ)
    → HasCome f b ts n
    → HasCome f b (update_where p g ts) n
faded p g d f b ts n h = record {
  sound = record {
    drawn = where_drawn p g d n ts h.sound.drawn;
    single = λ i. omega (arith, where_live p g d i ts, h.sound.single i);
  };
  further = omega (
    arith,
    h.further,
    age_grows (count_if (in_family f) ts) (count_if (lives_in f) ts)
        (count_if (in_family f) (update_where p g ts)) (count_if (lives_in f) (update_where p g ts))
        (omega (arith, where_total p g d f ts)) (λ any_token. where_live p g d f ts),
  );
}

-- A token is appended to rows in which its family has none alive.
pub added-IsSound :
    (t : RefreshTokenRow) (ts : List RefreshTokenRow) (n m : ℕ)
    → IsSound ts n
    → t.family_id < m
    → n ≤ m
    → count_if (lives_in t.family_id) ts ≡ 0
    → IsSound (ts ++ t ∷ []) m
added-IsSound t ts n m h lt le none_alive = record {
  drawn =
      All-append_one (λ (x : RefreshTokenRow). x.family_id < m) ts t
        (All-mono (λ (x : RefreshTokenRow). x.family_id < n)
          (λ (x : RefreshTokenRow). x.family_id < m) ts (λ x k. omega arith) h.drawn)
        lt;
  single = λ f. elim (Bool-cases (t.family_id == f)) [
    | inl e ↦
        let same : t.family_id ≡ f = (==_iff t.family_id f).0 e in
        subst (λ (x : ℕ). count_if (lives_in x) (ts ++ t ∷ []) ≤ 1) same
          (ground (arith, count_if-append (lives_in t.family_id) ts (t ∷ []), none_alive))
    | inr e ↦ ground (arith, count_if-append (lives_in f) ts (t ∷ []), e, h.single f)
  ];
}

-- A family that is not the token's is as it was.
pub added_other :
    (f : ℕ) (t : RefreshTokenRow) (ts : List RefreshTokenRow)
    → (t.family_id == f) ≡ false
    → (count_if (in_family f) (ts ++ t ∷ []) ≡ count_if (in_family f) ts)
      × (count_if (lives_in f) (ts ++ t ∷ []) ≡ count_if (lives_in f) ts)
added_other f t ts e = (
  ground (arith, count_if-append (in_family f) ts (t ∷ []), e),
  ground (arith, count_if-append (lives_in f) ts (t ∷ []), e),
)

-- A family with a live token is alive.
pub age_alive : (tokens live : ℕ) → 0 < live → live ≤ tokens → age (lineage_of tokens live) ≡ 1
age_alive tokens live one le = ground arith
