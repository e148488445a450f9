-- ===== src/Hierarchy.antt =====
-- backend/app/hierarchy.py: which client and location a request names. Nothing here writes.
pub mod Resolving
pub mod Filtering
use sha.Base.{
  String, Bool, true, false, not, ◌&&◌, ◌||◌, Option, none, some, List, Result, ok, err, http,
  ◌>>=◌, ◌>>◌, raise_if, or_raise, if◌then◌else◌, str_eq, opt_eq, sql_eq, find_first,
}
use sha.Text.{trim_required, normalize_optional}
use sha.Model.{Db, Client, Location, row_is_archived}

abbrev pub quarantine_client_id : String
quarantine_client_id = "cl_legacy_quarantine"

abbrev pub quarantine_location_id : String
quarantine_location_id = "loc_legacy_quarantine"

pub record ResolvedScope : Type 0 where
  pub client_id : String
  pub location_id : String
  pub tenant_id : Option String
  pub site_id : Option String

abbrev pub client_has_id : String → Client → Bool
client_has_id id client = str_eq client.client_id id

-- `Location.location_id == ..., Location.client_id == ...`
abbrev pub location_of : String → String → Location → Bool
location_of location_id client_id location =
    str_eq location.location_id location_id && str_eq location.client_id client_id

abbrev unknown_scope : String
unknown_scope = "client_id and location_id must identify one location"

-- `load_scope`
unfoldable pub load_scope : Db → String → String → Result (Client × Location)
load_scope db client_id location_id = do
  client ← or_raise (find_first (client_has_id client_id) db.clients) (http 422 unknown_scope)
  location ←
      or_raise (find_first (location_of location_id client_id) db.locations)
        (http 422 unknown_scope)
  raise_if (row_is_archived client.state || row_is_archived location.state)
      (http 409 "client and location must be active")
  ok (client, location)

-- The keyword arguments of `resolve_scope`.
pub record ScopeFields : Type 0 where
  pub client_id : Option String
  pub location_id : Option String
  pub tenant_id : Option String
  pub site_id : Option String
  pub canonical_fields_supplied : Bool
  pub tenant_field_supplied : Bool
  pub site_field_supplied : Bool

-- `Location.key == site_id`: an absent value matches an absent key, as `IS NULL`.
abbrev pub location_keyed : String → Option String → Location → Bool
location_keyed client_id site_id location =
    str_eq location.client_id client_id && opt_eq location.key site_id

unfoldable pub locate : Db → Option Client → Option String → Option (Client × Location)
locate db none site_id = none
locate db (some client) site_id =
    elim (find_first (location_keyed client.client_id site_id) db.locations) [
      | none ↦ none
      | some location ↦ some (client, location)
    ]

-- The rows that the legacy fields name.
unfoldable pub legacy_rows : Db → Option String → Option String → Option (Client × Location)
legacy_rows db (some tenant_id) site_id =
    locate db (find_first (λ c. sql_eq c.key tenant_id) db.clients) site_id
legacy_rows db none none = none
legacy_rows db none (some site_id) =
    locate db (find_first (client_has_id quarantine_client_id) db.clients) (some site_id)

unfoldable pub quarantined : Db → Option String → Option String → Result ResolvedScope
quarantined db tenant_id site_id = do
  scope ← load_scope db quarantine_client_id quarantine_location_id
  ok (record {
    client_id = quarantine_client_id;
    location_id = quarantine_location_id;
    tenant_id = tenant_id;
    site_id = site_id;
  })

-- The branch for `tenant_id` and `site_id`.
unfoldable pub resolve_legacy :
    Db → Option String → Option String → Option (Client × Location) → Result ResolvedScope
resolve_legacy db tenant_id site_id none = quarantined db tenant_id site_id
resolve_legacy db tenant_id site_id (some (client, location)) =
    if row_is_archived client.state || row_is_archived location.state
    then quarantined db tenant_id site_id
    else ok (record {
      client_id = client.client_id;
      location_id = location.location_id;
      tenant_id = tenant_id;
      site_id = site_id;
    })

abbrev pub missing_field : String
missing_field = "client_id and location_id must be supplied together"

-- The branch for `client_id` and `location_id`.
unfoldable pub resolve_canonical :
    Db → ScopeFields → Option String → Option String → Result ResolvedScope
resolve_canonical db fields tenant_id site_id = do
  raw_client_id ← or_raise fields.client_id (http 422 missing_field)
  raw_location_id ← or_raise fields.location_id (http 422 missing_field)
  client_id ← trim_required raw_client_id "client_id"
  location_id ← trim_required raw_location_id "location_id"
  (client, location) ← load_scope db client_id location_id
  raise_if (fields.tenant_field_supplied && not (opt_eq tenant_id client.key))
      (http 422 "tenant_id does not match client_id")
  raise_if (fields.site_field_supplied && not (opt_eq site_id location.key))
      (http 422 "site_id does not match location_id")
  ok (record {
    client_id = client.client_id;
    location_id = location.location_id;
    tenant_id = client.key;
    site_id = location.key;
  })

-- `resolve_scope`
unfoldable pub resolve_scope : Db → ScopeFields → Result ResolvedScope
resolve_scope db fields = do
  tenant_id ← normalize_optional fields.tenant_id "tenant_id"
  site_id ← normalize_optional fields.site_id "site_id"
  if fields.canonical_fields_supplied
      then resolve_canonical db fields tenant_id site_id
      else resolve_legacy db tenant_id site_id (legacy_rows db tenant_id site_id)

-- The last checks of the filter, for a client that is given.
unfoldable pub filter_rows : Db → String → Option String → Result (Option String × Option String)
filter_rows db client_id location_id = do
  client ← or_raise (find_first (client_has_id client_id) db.clients) (http 404 "client not found")
  elim location_id [
    | none ↦ ok (some client_id, none)
    | some id ↦ (do
      location ←
          or_raise (find_first (location_of id client_id) db.locations)
            (http 422 "location does not belong to client")
      ok (some client_id, some id))
  ]

unfoldable pub filter_scope :
    Db → Option String → Option String → Result (Option String × Option String)
filter_scope db none none = ok (none, none)
filter_scope db none (some location_id) = err (http 422 "location_id requires client_id")
filter_scope db (some client_id) location_id = filter_rows db client_id location_id

-- `validate_scope_filter`
unfoldable pub validate_scope_filter :
    Db → Option String → Option String → Result (Option String × Option String)
validate_scope_filter db raw_client_id raw_location_id = do
  client_id ← normalize_optional raw_client_id "client_id"
  location_id ← normalize_optional raw_location_id "location_id"
  filter_scope db client_id location_id
