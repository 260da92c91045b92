-- ===== src/Pagination.antt =====
-- shared/pagination/pagination.ts: cursors, pages, and the listing query
-- that the repositories build on them. Node's base64url codec is not part of the repository: it is
-- the parameter `Base64Url`, with the round trip of an encoded id as its law.
pub mod Walk
use orbitplay_api.Prelude.{
  ℕ, suc, ◌+◌, ◌≡◌, Bool, true, false, ◌&&◌, Option, none, some, List, [], ◌∷◌, ltb, length, take,
  filter, option_map, if◌then◌else◌,
}
use orbitplay_api.Uuid.{Text, uuid, as_uuid}

-- `Buffer.from(id, 'utf8').toString('base64url')` and back; `none` is a decoder that throws.
pub record Base64Url : Type 1 where
  pub Cursor : Type 0
  pub to_base64url : Text → Cursor
  pub from_base64url : Cursor → Option Text
  pub round_trip : (t : Text) → from_base64url (to_base64url t) ≡ some t

abbrev pub default_page_limit : ℕ
default_page_limit = 20

abbrev pub max_page_limit : ℕ
max_page_limit = 100

pub record Page (A C : Type 0) : Type 0 where
  pub rows : List A
  pub next_cursor : Option C

-- `xs[xs.length - 1]`
abbrev pub get_last? : {A : Type 0} → List A → Option A
get_last? [] = none
get_last? (x ∷ []) = some x
get_last? (x ∷ y ∷ xs) = get_last? (y ∷ xs)

module _ (b : Base64Url) where
  unfoldable pub encode_cursor : ℕ → b.Cursor
  encode_cursor id = b.to_base64url (uuid id)

  abbrev decode_text : Option Text → Option ℕ
  decode_text none = none
  decode_text (some t) = as_uuid t

  -- Undefined, a decoder that throws and a text that is no UUID all mean the first page.
  unfoldable pub decode_cursor : Option (b.Cursor) → Option ℕ
  decode_cursor none = none
  decode_cursor (some c) = decode_text (b.from_base64url c)

-- `buildPage`: rows fetched with `limit + 1`; the extra one means that there is a next page. The
-- schema of the query keeps `limit` at 1 or more (at 0 the source would read past the list).
module _ (b : Base64Url) {A : Type 0} (id_of : A → ℕ) where
  unfoldable pub build_page : List A → ℕ → Page A (b.Cursor)
  build_page rows limit =
      if ltb limit (length rows)
      then (let shown = take limit rows in
          record {
            rows = shown;
            next_cursor = option_map (λ r. encode_cursor b (id_of r)) (get_last? shown);
          })
      else record { rows = rows; next_cursor = none }

  -- `lt(id, cursorId)`, pushed only where there is a cursor.
  abbrev pub is_before : Option ℕ → A → Bool
  is_before none r = true
  is_before (some c) r = ltb (id_of r) c

  -- The query of `listForUser`, `listPlayerTestsForGame` and `listByGameInOrg`: the rows of an
  -- index read newest first, a filter, the cursor, and one row more than the page shows.
  unfoldable pub list_page : (A → Bool) → List A → ℕ → Option (b.Cursor) → Page A (b.Cursor)
  unfolding build_page
  list_page keep index limit cursor =
      let cursor_id = decode_cursor b cursor in
      build_page (take (limit + 1) (filter (λ r. keep r && is_before cursor_id r) index)) limit
