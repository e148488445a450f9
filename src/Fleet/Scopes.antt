-- ===== src/Fleet/Scopes.antt =====
-- backend/app/api/endpoints/fleet_metadata.py: the scopes of tags, views and groups, and the
-- clauses that select them for a principal.
use Prim.Native.String.{◌++◌}
use sha.Base.{
  String, Bool, true, false, ◌&&◌, ◌||◌, Option, none, some, List, [], ◌∷◌, ◌++◌ as append, Result,
  ok, err, http, any, if◌then◌else◌, str_eq, sql_eq, find_first, contains, string_eq,
}
use sha.Text.{strip, is_empty}
use sha.Model.{
  ResourceScope, global_scope, client_scope, location_scope, resource_is_client,
  resource_is_location, Endpoint, row_is_archived,
}
use sha.Model.Tx.{Tx, pure, raise, gets, check, or_raise, raise_if, ◌>>=◌, ◌>>◌}
use sha.Authz.{
  ScopeType, ScopeGrant, is_global, Principal, require_global_permission, require_scope,
  clause_holds, scope_clause,
}
use sha.Hierarchy.{load_scope, validate_scope_filter, client_has_id}

-- `_scope_key`
unfoldable pub scope_key : ResourceScope → Option String → Option String → Result String
scope_key global_scope client_id location_id = ok "global"
scope_key client_scope (some c) location_id = ok ("client:" ++ c)
scope_key location_scope (some c) (some l) = ok (("location:" ++ c) ++ (":" ++ l))
scope_key _ _ _ = err (http 422 "invalid fleet metadata scope")

-- `_optional_text`
unfoldable pub optional_text : Option String → Option String
optional_text none = none
optional_text (some value) =
    let normalized = strip value in if is_empty normalized then none else some normalized

-- A client that is given must be active; a location must be one of the client's.
unfoldable pub require_scope_rows : ResourceScope → String → Option String → Tx (Unit {0})
require_scope_rows location_scope client_id none = raise (http 422 "location scope is required")
require_scope_rows location_scope client_id (some location_id) = do
  scope ← gets (λ db. load_scope db client_id location_id)
  scope ← check scope
  pure tt
require_scope_rows scope client_id location_id = do
  found ← gets (λ db. find_first (client_has_id client_id) db.clients)
  client ← or_raise found (http 404 "client not found")
  raise_if (row_is_archived client.state) (http 409 "client must be active")

unfoldable pub require_narrow_scope :
    Principal → String → ResourceScope → Option String → Option String → Tx String
require_narrow_scope principal permission scope raw_client_id raw_location_id = do
  filter ← gets (λ db. validate_scope_filter db raw_client_id raw_location_id)
  filter ← check filter
  client_id ← or_raise filter.0 (http 422 "client scope is required")
  require_scope_rows scope client_id filter.1
  check (require_scope principal permission (some client_id) filter.1 true)
  check (scope_key scope (some client_id) filter.1)

-- `_require_requested_scope`
unfoldable pub require_requested_scope :
    Principal → String → ResourceScope → Option String → Option String → Tx String
require_requested_scope principal permission global_scope client_id location_id = do
  check (require_global_permission principal permission)
  pure "global"
require_requested_scope principal permission scope client_id location_id =
    require_narrow_scope principal permission scope client_id location_id

-- One clause on the columns of a resource.
pub data ResourceTest : Type 0 where
  on_client : String → ResourceTest
  on_places : String → ResourceTest
  on_place : String → String → ResourceTest

-- `true()`, or the disjunction of the tests; `false()` is the empty one.
pub data ResourceClause : Type 0 where
  all_resources : ResourceClause
  some_resources : List ResourceTest → ResourceClause

unfoldable pub resource_test_holds :
    ResourceScope → Option String → Option String → ResourceTest → Bool
resource_test_holds scope client_id location_id (on_client c) =
    resource_is_client scope && sql_eq client_id c
resource_test_holds scope client_id location_id (on_places c) =
    resource_is_location scope && sql_eq client_id c
resource_test_holds scope client_id location_id (on_place c l) =
    resource_is_location scope && (sql_eq client_id c && sql_eq location_id l)

-- Whether a row with these columns is selected.
unfoldable pub resource_clause_holds :
    ResourceClause → ResourceScope → Option String → Option String → Bool
unfolding resource_test_holds
resource_clause_holds all_resources scope client_id location_id = true
resource_clause_holds (some_resources tests) scope client_id location_id =
    any (resource_test_holds scope client_id location_id) tests

-- What a grant that is not global appends.
unfoldable pub resource_tests_of : ScopeType → Option String → Option String → List ResourceTest
resource_tests_of ScopeType.client (some c) l = on_client c ∷ on_places c ∷ []
resource_tests_of ScopeType.location (some c) (some l) = on_client c ∷ on_place c l ∷ []
resource_tests_of ScopeType.location (some c) none = on_client c ∷ []
resource_tests_of _ _ _ = []

-- The loop of `_resource_scope_clause`.
unfoldable pub resource_loop : String → List ResourceTest → List ScopeGrant → ResourceClause
unfolding resource_tests_of
resource_loop permission clauses [] = some_resources clauses
resource_loop permission clauses (g ∷ gs) =
    let held = contains permission g.permissions in
    let more = if held then resource_tests_of g.scope_type g.client_id g.location_id else [] in
    let rest = resource_loop permission (append clauses more) gs in
    if held && is_global g.scope_type then all_resources else rest

-- `_resource_scope_clause`
unfoldable pub resource_scope_clause : Principal → String → ResourceClause
unfolding resource_loop
resource_scope_clause principal permission = resource_loop permission [] principal.grants

-- `_selected_resource_scope_clause`
unfoldable pub selected_resource_scope_clause : Option String → Option String → ResourceClause
selected_resource_scope_clause none location_id = all_resources
selected_resource_scope_clause (some c) none = some_resources (on_client c ∷ on_places c ∷ [])
selected_resource_scope_clause (some c) (some l) = some_resources (on_client c ∷ on_place c l ∷ [])

-- `_owner_clause`, on the columns of the owner.
unfoldable pub owner_clause : Principal → Option String → String → Bool
owner_clause principal owner_user_id owner_actor =
    str_eq owner_actor principal.subject
    || elim principal.user_id [ none ↦ false | some user_id ↦ sql_eq owner_user_id user_id ]

-- `_is_owner`
unfoldable pub is_owner : Principal → Option String → String → Bool
is_owner principal none owner_actor = str_eq owner_actor principal.subject
is_owner principal (some owner) owner_actor =
    str_eq owner_actor principal.subject
    || elim principal.user_id [ none ↦ false | some user_id ↦ str_eq owner user_id ]

-- The scope that a list is asked for, checked for the principal.
unfoldable pub require_list_scope :
    Principal → String → Option String → Option String → Tx (Option String × Option String)
require_list_scope principal permission raw_client_id raw_location_id = do
  filter ← gets (λ db. validate_scope_filter db raw_client_id raw_location_id)
  filter ← check filter
  elim filter.0 [
    | none ↦ pure filter
    | some client_id ↦ (do
      check (require_scope principal permission (some client_id) filter.1 true)
      pure filter)
  ]

-- The rows that a list shows: those of the principal's scopes, in the scope that is asked for.
unfoldable pub is_listed :
    Principal
    → String
    → Option String × Option String
    → ResourceScope
    → Option String
    → Option String
    → Bool
is_listed principal permission filter scope client_id location_id =
    resource_clause_holds (resource_scope_clause principal permission) scope client_id location_id
    && resource_clause_holds (selected_resource_scope_clause filter.0 filter.1) scope client_id
        location_id

-- `_load_endpoint_for_metadata`
unfoldable pub load_endpoint_for_metadata : Principal → String → String → Tx Endpoint
load_endpoint_for_metadata principal permission endpoint_id = do
  found ← gets (λ db.
      find_first
        (λ e.
          str_eq e.endpoint_id endpoint_id
          && clause_holds (scope_clause principal permission) (some e.client_id)
              (some e.location_id))
        db.endpoints)
  or_raise found (http 404 "endpoint not found")
