-- ===== src/Idempotency/Keys.antt =====
-- What the text of a slot's key tells apart.
use orbitplay_api.Prelude.{
  ℕ, suc, ◌+◌, ◌≡◌, ◌≢◌, ◌↔◌, refl, sym, ◌∙◌, ap, false, true, some, [], ◌∷◌, ◌++◌, arith, length,
  length-append, contains,
}
use orbitplay_api.Idempotency.{Request, colon, scope, redis_key}
use orbitplay_api.Idempotency.Payload.{
  Units, Json, Entries, object, entry, is_proto_key, canonicalize, payload, hash_payload,
}
use orbitplay_api.Idempotency.Canonical.{canonicalize-swap, canonicalize-proto}
use orbitplay_api.Uuid.{units_eq}

-- A text without a colon, as a UUID, a method and a hash are.
abbrev pub IsPlain : Units → Type 0
IsPlain x = contains colon x ≡ false

IsPlain-head : (a : ℕ) (x : Units) → IsPlain (a ∷ x) → a ≢ colon
IsPlain-head a x p e = ground (arith, p, e)

IsPlain-tail : (a : ℕ) (x : Units) → IsPlain (a ∷ x) → IsPlain x
IsPlain-tail a x p = ground (arith, p)

-- A text up to its first colon.
cut_at_colon :
    (x y s t : Units) → IsPlain x → IsPlain y → x ++ colon ∷ s ≡ y ++ colon ∷ t → (x ≡ y) × (s ≡ t)
cut_at_colon [] [] s t p q e = (refl, cc)
cut_at_colon [] (b ∷ y) s t p q e = let h : b ≡ colon = cc in elim (IsPlain-head b y q h) [ ]
cut_at_colon (a ∷ x) [] s t p q e = let h : a ≡ colon = cc in elim (IsPlain-head a x p h) [ ]
cut_at_colon (a ∷ x) (b ∷ y) s t p q e =
    let head : a ≡ b = cc in
    let rest : (x ≡ y) × (s ≡ t) =
      cut_at_colon x y s t (IsPlain-tail a x p) (IsPlain-tail b y q) cc in
    let same : x ≡ y = rest.0 in (cc, rest.1)

too_long : (b : ℕ) (y u v : Units) → length u ≡ length v → u ≢ b ∷ (y ++ v)
too_long b y u v l e =
    let h : length u ≡ suc (length y + length v) = ap length e ∙ ap suc (length-append y v) in
    omega arith

-- Texts that end alike and have ends of the same length.
cut_end : (x y u v : Units) → length u ≡ length v → x ++ u ≡ y ++ v → (x ≡ y) × (u ≡ v)
cut_end [] [] u v l e = (refl, e)
cut_end [] (b ∷ y) u v l e = elim (too_long b y u v l e) [ ]
cut_end (a ∷ x) [] u v l e = elim (too_long a x v u (sym l) (sym e)) [ ]
cut_end (a ∷ x) (b ∷ y) u v l e =
    let head : a ≡ b = cc in
    let rest : (x ≡ y) × (u ≡ v) = cut_end x y u v l cc in let same : x ≡ y = rest.0 in (cc, rest.1)

join_ends : (x y z : Units) → x ++ colon ∷ (y ++ colon ∷ z) ≡ (x ++ colon ∷ y) ++ colon ∷ z
join_ends [] y z = refl
join_ends (a ∷ x) y z = ap (λ s. a ∷ s) (join_ends x y z)

-- The text of a key, of its parts.
abbrev joined : Units → Units → Units → Units → Units
joined caller method target hash =
    (105 ∷ 100 ∷ 101 ∷ 109 ∷ colon ∷ [])
    ++ (caller ++ colon ∷ (method ++ colon ∷ (target ++ colon ∷ hash)))

redis_key-joined :
    (digest : Json → Units) (r : Request) (k : Units)
    → redis_key digest r k
      ≡ joined (scope r) r.method (r.original_url ++ colon ∷ k) (hash_payload digest r.body)
unfolding redis_key
redis_key-joined digest r k =
    ap (λ x. (105 ∷ 100 ∷ 101 ∷ 109 ∷ colon ∷ []) ++ (scope r ++ colon ∷ (r.method ++ colon ∷ x)))
      (join_ends r.original_url k (hash_payload digest r.body))

joined_parts :
    (a b c d e f g h : Units)
    → IsPlain a
    → IsPlain b
    → IsPlain c
    → IsPlain d
    → length g ≡ length h
    → joined a c e g ≡ joined b d f h
    → (a ≡ b) × (c ≡ d) × (g ≡ h) × (e ≡ f)
joined_parts a b c d e f g h pa pb pc pd l same =
    let (callers, after_caller) = cut_at_colon a b _ _ pa pb cc in
    let (methods, after_method) = cut_at_colon c d _ _ pc pd after_caller in
    let (targets, hashes) = cut_end e f (colon ∷ g) (colon ∷ h) (ap suc l) after_method in
    (callers, methods, cc, targets)

redis_key_iff :
    (digest : Json → Units) (r q : Request) (k l : Units)
    → ((j : Json) → length (digest j) ≡ 64)
    → IsPlain (scope r)
    → IsPlain (scope q)
    → IsPlain r.method
    → IsPlain q.method
    → (redis_key digest r k ≡ redis_key digest q l) ↔ (
        (scope r ≡ scope q)
        × (r.method ≡ q.method)
        × (digest (canonicalize (payload r.body)) ≡ digest (canonicalize (payload q.body)))
        × (r.original_url ++ colon ∷ k ≡ q.original_url ++ colon ∷ l))
unfolding hash_payload
redis_key_iff digest r q k l size a b c d =
    let left = redis_key-joined digest r k in
    let right = redis_key-joined digest q l in
    (
      λ e.
          joined_parts (scope r) (scope q) r.method q.method _ _ _ _ a b c d
            (size (canonicalize (payload r.body)) ∙ sym (size (canonicalize (payload q.body))))
            (sym left ∙ e ∙ right),
      λ (callers, methods, hashes, targets).
          left
          ∙ ap (λ x. joined x r.method (r.original_url ++ colon ∷ k) (hash_payload digest r.body))
              callers
          ∙ ap (λ x. joined (scope q) x (r.original_url ++ colon ∷ k) (hash_payload digest r.body))
              methods
          ∙ ap (λ x. joined (scope q) q.method x (hash_payload digest r.body)) targets
          ∙ ap (λ x. joined (scope q) q.method (q.original_url ++ colon ∷ l) x) hashes
          ∙ sym right,
    )

pub slot_key_binds :
    (digest : Json → Units) (r q : Request) (k l : Units)
    → ((j : Json) → length (digest j) ≡ 64)
    → IsPlain (scope r)
    → IsPlain (scope q)
    → IsPlain r.method
    → IsPlain q.method
    → ((redis_key digest r k ≡ redis_key digest q l) ↔ (
        (scope r ≡ scope q)
        × (r.method ≡ q.method)
        × (digest (canonicalize (payload r.body)) ≡ digest (canonicalize (payload q.body)))
        × (r.original_url ++ colon ∷ k ≡ q.original_url ++ colon ∷ l)))
      × ((i j : Units) (v x : Json) (es : Entries)
          → units_eq i j ≡ false
          → hash_payload digest (some (object (entry i v (entry j x es))))
            ≡ hash_payload digest (some (object (entry j x (entry i v es)))))
      × ((i : Units) (v : Json) (es : Entries)
          → is_proto_key i ≡ true
          → hash_payload digest (some (object (entry i v es)))
            ≡ hash_payload digest (some (object es)))
unfolding hash_payload
slot_key_binds digest r q k l size a b c d = (
  redis_key_iff digest r q k l size a b c d,
  λ i j v x es n. ap digest (canonicalize-swap i j v x es n),
  λ i v es n. ap digest (canonicalize-proto i v es n),
)
