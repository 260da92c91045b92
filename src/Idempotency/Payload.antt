-- ===== src/Idempotency/Payload.antt =====
-- shared/interceptors/idempotency.interceptor.ts: the canonical form of a request's body and its hash.
use orbitplay_api.Prelude.{
  ℕ, ◌+◌, ◌*◌, ◌-◌, Bool, true, false, ◌&&◌, ◌||◌, ◌==◌, Option, none, some, List, [], ◌∷◌, ltb,
  leb, if◌then◌else◌,
}
use orbitplay_api.Uuid.{units_eq}

-- A text by its UTF-16 units.
abbrev pub Units : Type 0
Units = List ℕ

mutual
  -- A body as `JSON.parse` makes it; a number is one that stands for it. The entries of an object are
  -- its own properties in the language's order.
  pub data Json : Type 0 where
    null : Json
    bool : Bool → Json
    number : ℕ → Json
    text : Units → Json
    array : Items → Json
    object : Entries → Json

  pub data Items : Type 0 where
    last : Items
    item : Json → Items → Items

  pub data Entries : Type 0 where
    end : Entries
    entry : Units → Json → Entries → Entries

abbrev digits_value : ℕ → Units → Option ℕ
digits_value n [] = some n
digits_value n (d ∷ ds) = if leb 48 d && leb d 57 then digits_value (n * 10 + (d - 48)) ds else none

-- An array index is at most 2 ^ 32 - 2.
abbrev index_of : Option ℕ → Option ℕ
index_of none = none
index_of (some n) = if ltb n 4294967295 then some n else none

-- The array index that a key writes, without a leading zero.
abbrev as_index : Units → Option ℕ
as_index [] = none
as_index (d ∷ []) = index_of (digits_value 0 (d ∷ []))
as_index (d ∷ e ∷ ds) = if d == 48 then none else index_of (digits_value 0 (d ∷ e ∷ ds))

-- Properties come in the order of their writing, but array indices come first, by their number.
abbrev comes_first : Units → Units → Bool
comes_first k j = elim (as_index k) [
  | none ↦ false
  | some a ↦ elim (as_index j) [ none ↦ true | some b ↦ ltb a b ]
]

abbrev pub write_key : Units → Json → Entries → Entries
write_key k v end = entry k v end
write_key k v (entry j x es) =
    let rest = write_key k v es in
    if units_eq k j
    then entry j v es
    else if comes_first k j
    then entry k v (entry j x es)
    else entry j x rest

abbrev pub is_proto_key : Units → Bool
is_proto_key k = units_eq k (95 ∷ 95 ∷ 112 ∷ 114 ∷ 111 ∷ 116 ∷ 111 ∷ 95 ∷ 95 ∷ [])

-- `acc[k] = value`: for the key `__proto__` it sets the prototype, or nothing, and no property.
abbrev pub set_key : Units → Json → Entries → Entries
set_key k v acc = if is_proto_key k then acc else write_key k v acc

-- The order of `sort()`, by the units.
abbrev pub units_before : Units → Units → Bool
units_before s [] = false
units_before [] (b ∷ t) = true
units_before (a ∷ s) (b ∷ t) = ltb a b || ((a == b) && units_before s t)

abbrev pub insert_sorted : Units → Json → Entries → Entries
insert_sorted k v end = entry k v end
insert_sorted k v (entry j x es) =
    let rest = insert_sorted k v es in
    if units_before k j then entry k v (entry j x es) else entry j x rest

abbrev pub sorted : Entries → Entries
sorted end = end
sorted (entry k v es) = insert_sorted k v (sorted es)

-- The `reduce` over the sorted keys.
abbrev pub collect : Entries → Entries → Entries
collect acc end = acc
collect acc (entry k v es) = collect (set_key k v acc) es

-- `canonicalize`; the values of an object are put into canonical form before its keys are sorted, which
-- is the same.
unfoldable mutual
  pub canonicalize : Json → Json
  canonicalize (array xs) = array (canonical_items xs)
  canonicalize (object es) = object (collect end (sorted (canonical_values es)))
  canonicalize null = null
  canonicalize (bool b) = bool b
  canonicalize (number n) = number n
  canonicalize (text s) = text s

  canonical_items : Items → Items
  canonical_items last = last
  canonical_items (item x xs) = item (canonicalize x) (canonical_items xs)

  pub canonical_values : Entries → Entries
  canonical_values end = end
  canonical_values (entry k v es) = entry k (canonicalize v) (canonical_values es)

-- `body ?? {}`
abbrev pub payload : Option Json → Json
payload none = object end
payload (some null) = object end
payload (some j) = j

-- `hashPayload`; `digest` is `JSON.stringify`, then the SHA-256 of the text in hexadecimal.
unfoldable pub hash_payload : (Json → Units) → Option Json → Units
hash_payload digest body = digest (canonicalize (payload body))
