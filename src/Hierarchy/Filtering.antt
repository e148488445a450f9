-- ===== src/Hierarchy/Filtering.antt =====
-- What an accepted scope filter names.
use sha.Base.{
  String, ◌≡◌, refl, Bool, true, false, ◌&&◌, arith, Option, none, some, List, [], ◌∷◌, ok, any,
  find_first, Bool-cases, inl, inr, >>=-eq-ok, or_raise, http,
}
use sha.Text.{normalize_optional}
use sha.Model.{Db}
use sha.Hierarchy.{client_has_id, location_of, filter_rows, filter_scope, validate_scope_filter}

-- The client exists, and so does the location, which is the client's.
abbrev pub names_rows : Db → Option String → Option String → Bool
names_rows db none none = true
names_rows db none (some location_id) = false
names_rows db (some client_id) none = any (client_has_id client_id) db.clients
names_rows db (some client_id) (some location_id) =
    any (client_has_id client_id) db.clients && any (location_of location_id client_id) db.locations

any_of_find_first :
    {A : Type 0} (test : A → Bool) (xs : List A) {x : A}
    → find_first test xs ≡ some x
    → any test xs ≡ true
unfolding any find_first
any_of_find_first test [] h = cc
any_of_find_first test (y ∷ xs) h = elim (Bool-cases (test y)) [
  | inl e ↦ rw e refl
  | inr e ↦ rw e (any_of_find_first test xs (rw e at h))
]

module _ (db : Db) where
  filter_rows_lem :
      (client_id : String) (location_id : Option String) {c l : Option String}
      → filter_rows db client_id location_id ≡ ok (c, l)
      → (c ≡ some client_id)
        × (l ≡ location_id)
        × (names_rows db (some client_id) location_id ≡ true)
  unfolding filter_rows
  filter_rows_lem client_id none h =
      let (client, e, h') =
        >>=-eq-ok
          (or_raise (find_first (client_has_id client_id) db.clients) (http 404 "client not found"))
          h in
      (
        ground arith,
        ground arith,
        any_of_find_first (client_has_id client_id) db.clients {x = client} (ground arith),
      )
  filter_rows_lem client_id (some id) h =
      let (client, e, h') =
        >>=-eq-ok
          (or_raise (find_first (client_has_id client_id) db.clients) (http 404 "client not found"))
          h in
      let (location, e', h'') =
        >>=-eq-ok
          (or_raise (find_first (location_of id client_id) db.locations)
            (http 422 "location does not belong to client"))
          h' in
      let a = any_of_find_first (client_has_id client_id) db.clients {x = client} (ground arith) in
      let b =
        any_of_find_first (location_of id client_id) db.locations {x = location} (ground arith) in
      (ground arith, ground arith, ground arith)

  filter_scope_lem :
      (client_id location_id : Option String) {c l : Option String}
      → filter_scope db client_id location_id ≡ ok (c, l)
      → (c ≡ client_id) × (l ≡ location_id) × (names_rows db client_id location_id ≡ true)
  unfolding filter_scope
  filter_scope_lem none none h = (ground arith, ground arith, refl)
  filter_scope_lem none (some id) h = cc
  filter_scope_lem (some client) location_id h = filter_rows_lem client location_id h

  -- An accepted filter is the trimmed one: it is empty, or names an existing client, or an existing
  -- client and an existing location of that client. A location without a client is not accepted.
  pub validate_scope_filter_lem :
      (raw_client_id raw_location_id : Option String) {c l : Option String}
      → validate_scope_filter db raw_client_id raw_location_id ≡ ok (c, l)
      → (normalize_optional raw_client_id "client_id" ≡ ok c)
        × (normalize_optional raw_location_id "location_id" ≡ ok l)
        × (names_rows db c l ≡ true)
  unfolding validate_scope_filter
  validate_scope_filter_lem raw_client_id raw_location_id h =
      let (c', e, h') = >>=-eq-ok (normalize_optional raw_client_id "client_id") h in
      let (l', e', h'') = >>=-eq-ok (normalize_optional raw_location_id "location_id") h' in
      let (p, q, t) = filter_scope_lem c' l' h'' in (rw p e, rw q e', rw (p, q) t)
