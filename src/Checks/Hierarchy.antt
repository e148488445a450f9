-- ===== src/Checks/Hierarchy.antt =====
-- Resolving scopes in a database of one client with one location.
use sha.Base.{◌≡◌, refl, true, false, some, none, [], ◌∷◌, ok, find_first}
use sha.Text.{trim_required, normalize_optional}
use sha.Model.{Db, Client, Location, ScopeRowState}
use sha.Hierarchy.{
  filter_rows, filter_scope, validate_scope_filter, ResolvedScope, ScopeFields, resolve_scope,
  resolve_legacy, legacy_rows, locate,
}
use sha.Hierarchy.Filtering.{names_rows, validate_scope_filter_lem}
use sha.Hierarchy.Resolving.{IsStored, resolve_scope-IsStored}
use sha.Checks.World.{start}

abbrev firm : Client
firm = record { client_id = "cl"; key = some "t"; name = "Firm"; state = ScopeRowState.active }

abbrev office : Location
office = record {
  location_id = "lo";
  client_id = "cl";
  key = some "s";
  name = "Office";
  state = ScopeRowState.active;
}

abbrev placed : Db
placed = record start { clients = firm ∷ []; locations = office ∷ [] }

abbrev fields : ScopeFields
fields = record {
  client_id = none;
  location_id = none;
  tenant_id = some " t";
  site_id = some "s";
  canonical_fields_supplied = false;
  tenant_field_supplied = true;
  site_field_supplied = true;
}

abbrev scope : ResolvedScope
scope = record { client_id = "cl"; location_id = "lo"; tenant_id = some "t"; site_id = some "s" }

fields_resolve : resolve_scope placed fields ≡ ok scope
unfolding resolve_scope normalize_optional trim_required legacy_rows find_first locate
    resolve_legacy
fields_resolve = refl

resolve_scope-IsStored_example : IsStored placed scope
resolve_scope-IsStored_example = resolve_scope-IsStored placed fields fields_resolve

filter_runs : validate_scope_filter placed (some "cl") (some " lo ") ≡ ok (some "cl", some "lo")
unfolding validate_scope_filter normalize_optional trim_required filter_scope filter_rows find_first
filter_runs = refl

validate_scope_filter_lem_example :
    (normalize_optional (some "cl") "client_id" ≡ ok (some "cl"))
    × (normalize_optional (some " lo ") "location_id" ≡ ok (some "lo"))
    × (names_rows placed (some "cl") (some "lo") ≡ true)
validate_scope_filter_lem_example =
    validate_scope_filter_lem placed (some "cl") (some " lo ") filter_runs
