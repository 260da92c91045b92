-- ===== src/Idempotency/Canonical.antt =====
-- shared/interceptors/idempotency.interceptor.ts: what the canonical form of a body forgets.
use orbitplay_api.Prelude.{◌≡◌, refl, inl, inr, true, false, not, [], ◌∷◌, arith, ap, Bool-cases}
use orbitplay_api.Uuid.{units_eq}
use orbitplay_api.Idempotency.Payload.{
  Units, Json, Entries, end, entry, object, units_before, insert_sorted, sorted, collect, set_key,
  is_proto_key, canonicalize, canonical_values,
}

before_total : (k j : Units) → units_eq k j ≡ false → units_before k j ≡ not (units_before j k)
before_total [] [] h = cc
before_total [] (b ∷ j) h = refl
before_total (a ∷ k) [] h = refl
before_total (a ∷ k) (b ∷ j) h = ground (arith, before_total k j)

before_trans :
    (k j i : Units) → units_before k j ≡ true → units_before j i ≡ true → units_before k i ≡ true
before_trans k j [] h g = ground (arith, g)
before_trans k [] (c ∷ i) h g = ground (arith, h)
before_trans [] (b ∷ j) (c ∷ i) h g = refl
before_trans (a ∷ k) (b ∷ j) (c ∷ i) h g = ground (arith, before_trans k j i)

insert_sorted-swap :
    (k j : Units) (v x : Json) (es : Entries)
    → units_eq k j ≡ false
    → insert_sorted k v (insert_sorted j x es) ≡ insert_sorted j x (insert_sorted k v es)
insert_sorted-swap k j v x end h = ground (arith, before_total k j h)
insert_sorted-swap k j v x (entry i y es) h = ground (
  arith,
  before_total k j h,
  before_trans k j i,
  before_trans j k i,
  insert_sorted-swap k j v x es h,
)

-- The order of two keys is forgotten.
pub canonicalize-swap :
    (k j : Units) (v x : Json) (es : Entries)
    → units_eq k j ≡ false
    → canonicalize (object (entry k v (entry j x es)))
      ≡ canonicalize (object (entry j x (entry k v es)))
unfolding canonicalize canonical_values
canonicalize-swap k j v x es h =
    ap (λ r. object (collect end r))
      (insert_sorted-swap k j (canonicalize v) (canonicalize x) (sorted (canonical_values es)) h)

set_key-proto :
    (k : Units) (v : Json) (acc : Entries) → is_proto_key k ≡ true → set_key k v acc ≡ acc
set_key-proto k v acc h = rw h refl

collect-proto :
    (k : Units) (v : Json) (acc es : Entries)
    → is_proto_key k ≡ true
    → collect acc (insert_sorted k v es) ≡ collect acc es
collect-proto k v acc end h = set_key-proto k v acc h
collect-proto k v acc (entry i y es) h = elim (Bool-cases (units_before k i)) [
  | inl b ↦ rw b (ap (λ a. collect a (entry i y es)) (set_key-proto k v acc h))
  | inr b ↦ rw b (collect-proto k v (set_key i y acc) es h)
]

-- A value under the key `__proto__` is forgotten.
pub canonicalize-proto :
    (k : Units) (v : Json) (es : Entries)
    → is_proto_key k ≡ true
    → canonicalize (object (entry k v es)) ≡ canonicalize (object es)
unfolding canonicalize canonical_values
canonicalize-proto k v es h =
    ap object (collect-proto k (canonicalize v) end (sorted (canonical_values es)) h)
