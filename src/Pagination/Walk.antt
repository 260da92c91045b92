-- ===== src/Pagination/Walk.antt =====
-- Following `nextCursor` from the first page: the pages together are the whole listing.
pub mod Lists
use orbitplay_api.Prelude.{
  ℕ, zero, suc, ◌+◌, ◌≤◌, ◌<◌, ◌≡◌, refl, sym, ap, ◌∙◌, subst, inl, inr, Bool, true, ◌&&◌, Option,
  none, some, List, [], ◌∷◌, ◌++◌, arith, ltb, length, take, filter, All, Bool-cases, option_map,
}
use mathlib.Core.List.{append_assoc, append-nil}
use native.Mathlib.Numerals.{add-one}
use native.Mathlib.Decide.{dec_le}
use orbitplay_api.Uuid.{uuid}
use orbitplay_api.Pagination.{
  Base64Url, get_last?, is_before, encode_cursor, decode_cursor, build_page, list_page,
}
use orbitplay_api.Pagination.Walk.Lists.{
  drop, take_all, length-take_le, length-take_short, take-take-suc, take-append-drop,
  length-drop_lt, split_last, filter-true, filter-and, All-filter, Descending, Descending-filter,
  filter-below, above-of-append, filter-after,
}

module _ (b : Base64Url) {A : Type 0} (id_of : A → ℕ) where
  decode_cursor-encode_cursor : (id : ℕ) → decode_cursor b (some (encode_cursor b id)) ≡ some id
  unfolding decode_cursor encode_cursor
  decode_cursor-encode_cursor id = rw (b.round_trip (uuid id))

  -- A client that follows `nextCursor` until it is null, at most `fuel` pages long.
  unfoldable pub walk : (A → Bool) → List A → ℕ → ℕ → Option (b.Cursor) → List A
  walk keep index limit zero cursor = []
  walk keep index limit (suc fuel) cursor =
      let page = list_page b id_of keep index limit cursor in
      page.rows
      ++ elim page.next_cursor [ none ↦ [] | some c ↦ walk keep index limit fuel (some c) ]

  -- What the query of one page leaves to show.
  rest : (A → Bool) → List A → Option (b.Cursor) → List A
  rest keep index cursor = filter (is_before b id_of (decode_cursor b cursor)) (filter keep index)

  list_page-rest :
      (keep : A → Bool) (index : List A) (limit : ℕ) (cursor : Option (b.Cursor))
      → list_page b id_of keep index limit cursor
        ≡ build_page b id_of (take (limit + 1) (rest keep index cursor)) limit
  unfolding list_page rest
  list_page-rest keep index limit cursor =
      ap (λ xs. build_page b id_of (take (limit + 1) xs) limit)
        (filter-and keep (is_before b id_of (decode_cursor b cursor)) index)

  build_page-short :
      (rows : List A) (limit : ℕ)
      → length rows ≤ limit
      → build_page b id_of (take (limit + 1) rows) limit
        ≡ record { rows = rows; next_cursor = none }
  unfolding build_page
  build_page-short rows limit h = rw (take_all (limit + 1) rows (omega arith)) (ground arith)

  build_page-long :
      (rows : List A) (limit : ℕ)
      → limit < length rows
      → build_page b id_of (take (limit + 1) rows) limit ≡ record {
        rows = take limit rows;
        next_cursor = option_map (λ r. encode_cursor b (id_of r)) (get_last? (take limit rows));
      }
  unfolding build_page
  build_page-long rows limit h =
      rw add-one
        (rw (take-take-suc limit rows) (rw (length-take_le (suc limit) rows h) (ground arith)))

  -- The page, in terms of what is left to show.
  list_page-short :
      (keep : A → Bool) (index : List A) (limit : ℕ) (cursor : Option (b.Cursor)) (ys : List A)
      → rest keep index cursor ≡ ys
      → length ys ≤ limit
      → list_page b id_of keep index limit cursor ≡ record { rows = ys; next_cursor = none }
  list_page-short keep index limit cursor ys e h =
      rw (list_page-rest keep index limit cursor, e) (build_page-short ys limit h)

  list_page-long :
      (keep : A → Bool) (index : List A) (limit : ℕ) (cursor : Option (b.Cursor)) (ys : List A)
      → rest keep index cursor ≡ ys
      → limit < length ys
      → list_page b id_of keep index limit cursor ≡ record {
        rows = take limit ys;
        next_cursor = option_map (λ r. encode_cursor b (id_of r)) (get_last? (take limit ys));
      }
  list_page-long keep index limit cursor ys e h =
      rw (list_page-rest keep index limit cursor, e) (build_page-long ys limit h)

  rest-after :
      (keep : A → Bool) (index front : List A) (y : A) (back : List A)
      → Descending id_of (front ++ y ∷ back)
      → filter keep index ≡ front ++ y ∷ back
      → rest keep index (some (encode_cursor b (id_of y))) ≡ back
  unfolding rest
  rest-after keep index front y back d e =
      rw (decode_cursor-encode_cursor (id_of y), e) (filter-after id_of front y back d)

  -- The shown rows of a full page end in the row that the next cursor names.
  last_shown :
      (k : ℕ) (ys : List A)
      → suc k < length ys
      → (front : List A) × (y : A) × (take (suc k) ys ≡ front ++ y ∷ [])
        × (get_last? (take (suc k) ys) ≡ some y)
  last_shown k [] h = absurd (omega arith)
  last_shown k (y ∷ ys) h = split_last y (take k ys)

  regroup :
      (outer ys : List A) (n : ℕ) (front : List A) (y : A)
      → take n ys ≡ front ++ y ∷ []
      → outer ++ ys ≡ (outer ++ front) ++ y ∷ drop n ys
  regroup outer ys n front y e =
      ap (λ zs. outer ++ zs) (sym (take-append-drop n ys))
      ∙ ap (λ zs. outer ++ (zs ++ drop n ys)) e
      ∙ simp append_assoc

  -- Past a full page the cursor leaves exactly the rows that the page did not show.
  rest-next :
      (keep : A → Bool) (index : List A) (k : ℕ) (front ys : List A)
      → Descending id_of (front ++ ys)
      → filter keep index ≡ front ++ ys
      → suc k < length ys
      → (y : A) × (get_last? (take (suc k) ys) ≡ some y)
        × (rest keep index (some (encode_cursor b (id_of y))) ≡ drop (suc k) ys)
  rest-next keep index k front ys d e h =
      let (fr, y, shown, last) = last_shown k ys h in
      let q = regroup front ys (suc k) fr y shown in
      (
        y,
        last,
        rest-after keep index (front ++ fr) y (drop (suc k) ys) (subst (Descending id_of) q d)
            (e ∙ q),
      )

  split_page : (front ys : List A) (n : ℕ) → front ++ ys ≡ (front ++ take n ys) ++ drop n ys
  split_page front ys n = ap (λ zs. front ++ zs) (sym (take-append-drop n ys)) ∙ simp append_assoc

  walk_from :
      (keep : A → Bool) (index : List A) (k fuel : ℕ) (front ys : List A)
      (cursor : Option (b.Cursor))
      → Descending id_of (front ++ ys)
      → filter keep index ≡ front ++ ys
      → rest keep index cursor ≡ ys
      → length ys < fuel
      → walk keep index (suc k) fuel cursor ≡ ys
  unfolding walk
  walk_from keep index k zero front ys cursor d e r h = absurd (omega arith)
  walk_from keep index k (suc fuel) front ys cursor d e r h = elim (dec_le (length ys) (suc k)) [
    | yes le ↦ rw (list_page-short keep index (suc k) cursor ys r le) (append-nil ys)
    | no gt ↦
        let (y, last, r') = rest-next keep index k front ys d e (omega arith) in
        let q = split_page front ys (suc k) in
        rw (list_page-long keep index (suc k) cursor ys r (omega arith)) (
          rw last (
            rw
              (walk_from keep index k fuel (front ++ take (suc k) ys) (drop (suc k) ys)
                (some (encode_cursor b (id_of y))) (subst (Descending id_of) q d) (e ∙ q) r'
                (omega (arith, length-drop_lt (suc k) ys (omega arith) (omega arith))))
              (take-append-drop (suc k) ys)))
  ]

  rest-first : (keep : A → Bool) (index : List A) → rest keep index none ≡ filter keep index
  unfolding rest decode_cursor
  rest-first keep index = filter-true (filter keep index)

  -- Over an index in descending order of ids, with pages of at least one row, a client that follows
  -- `nextCursor` from the first page until there is none gets every row that passes the filter,
  -- once, in order; as many pages as there are such rows, and one more, are always enough.
  pub walk-eq-filter :
      (keep : A → Bool) (index : List A) (limit fuel : ℕ)
      → Descending id_of index
      → 1 ≤ limit
      → length (filter keep index) < fuel
      → walk keep index limit fuel none ≡ filter keep index
  walk-eq-filter keep index zero fuel d l h = absurd (omega arith)
  walk-eq-filter keep index (suc k) fuel d l h =
      walk_from keep index k fuel [] (filter keep index) none (Descending-filter id_of keep index d)
        refl (rest-first keep index) h
