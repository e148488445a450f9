-- ===== src/Fleet/Views.antt =====
-- backend/app/api/endpoints/fleet_metadata.py: saved views, whose filters are kept version by
-- version. An error that no handler catches is a response with status 500.
use sha.Base.{
  ℕ, ◌+◌, String, Bool, not, ◌&&◌, ◌||◌, ◌==◌, Option, some, List, [], ◌∷◌, http, any,
  if◌then◌else◌, str_eq, find_first, select_where, update_first, order_by, add_row,
}
use sha.Text.{trim_required}
use sha.Model.{
  Db, ResourceScope, Visibility, is_shared, SavedView, SavedViewVersion, FilterField,
  by_endpoint_id, by_hostname, by_platform, by_status, by_connectivity, by_agent_version,
  by_client_id, by_location_id, by_tag, FilterOperator, op_eq, op_neq, op_contains, op_starts_with,
  op_in, FilterMatch, match_all, match_any, FilterValue, one_value, many_values, EndpointFilterRule,
  EndpointFilterDefinition, Json, text, number, array, object, Items, nil, cons, Fields, field, end,
}
use sha.Model.Tx.{Tx, pure, gets, check, or_raise, raise_if, modify, ◌>>=◌, ◌>>◌}
use sha.Outside.{Outside}
use sha.Ids.{generate_prefixed_id}
use sha.Authz.{Principal, audit_call, record_audit_event}
use sha.Fleet.Scopes.{
  optional_text, require_requested_scope, resource_scope_clause, resource_clause_holds,
  owner_clause, is_owner, require_list_scope, is_listed,
}
use sha.Fleet.Tags.{refers}

-- `SavedViewCreateRequest`
pub record ViewPayload : Type 0 where
  pub name : String
  pub description : Option String
  pub visibility : Visibility
  pub filter : EndpointFilterDefinition
  pub scope_type : ResourceScope
  pub client_id : Option String
  pub location_id : Option String

-- `_saved_view_payload`: the view with its current version.
pub record ViewAnswer : Type 0 where
  pub view : SavedView
  pub version : SavedViewVersion

abbrev pub view_has_id : String → SavedView → Bool
view_has_id id view = str_eq view.saved_view_id id

abbrev pub version_is : String → ℕ → SavedViewVersion → Bool
version_is id n v = str_eq v.saved_view_id id && (v.version == n)

-- The unique constraints of `SavedView` and of `SavedViewVersion`.
abbrev pub view_clashes : SavedView → SavedView → Bool
view_clashes new old =
    view_has_id new.saved_view_id old
    || (str_eq old.scope_key new.scope_key && str_eq old.name_normalized new.name_normalized)

abbrev pub version_clashes : SavedViewVersion → SavedViewVersion → Bool
version_clashes new old =
    str_eq old.saved_view_id new.saved_view_id
    && ((old.version == new.version) || str_eq old.content_hash new.content_hash)

unfoldable pub field_text : FilterField → String
field_text by_endpoint_id = "endpoint_id"
field_text by_hostname = "hostname"
field_text by_platform = "platform"
field_text by_status = "status"
field_text by_connectivity = "connectivity_status"
field_text by_agent_version = "agent_version"
field_text by_client_id = "client_id"
field_text by_location_id = "location_id"
field_text by_tag = "tag"

unfoldable pub operator_text : FilterOperator → String
operator_text op_eq = "eq"
operator_text op_neq = "neq"
operator_text op_contains = "contains"
operator_text op_starts_with = "starts_with"
operator_text op_in = "in"

unfoldable pub match_text : FilterMatch → String
match_text match_all = "all"
match_text match_any = "any"

unfoldable pub text_items : List String → Items
text_items [] = nil
text_items (s ∷ ss) = cons (text s) (text_items ss)

unfoldable pub value_json : FilterValue → Json
unfolding text_items
value_json (one_value s) = text s
value_json (many_values ss) = array (text_items ss)

unfoldable pub rule_items : List EndpointFilterRule → Items
unfolding value_json field_text operator_text
rule_items [] = nil
rule_items (r ∷ rs) =
    cons
      (object (
        field "field" (text (field_text r.filter_field))
          (field "op" (text (operator_text r.operator)) (field "value" (value_json r.value) end))))
      (rule_items rs)

-- `model_dump` of the filter, whose schema version is always 1.
unfoldable pub filter_payload : EndpointFilterDefinition → Fields
unfolding rule_items match_text
filter_payload f =
    field "schema_version" (number 1) (
      field "match" (text (match_text f.matching)) (field "rules" (array (rule_items f.rules)) end))

unfoldable pub add_view : SavedView → Db → Db
add_view view db = record db { saved_views = add_row view db.saved_views }

unfoldable pub add_version : SavedViewVersion → Db → Db
add_version version db = record db { view_versions = add_row version db.view_versions }

unfoldable pub write_view : (SavedView → Bool) → (SavedView → SavedView) → Db → Db
write_view test change db = record db { saved_views = update_first test change db.saved_views }

-- `_current_view_version`
unfoldable pub current_view_version : SavedView → Tx SavedViewVersion
current_view_version view = do
  found ←
      gets (λ db. find_first (version_is view.saved_view_id view.current_version) db.view_versions)
  or_raise found (http 500 "saved view current version is missing")

unfoldable pub answer_view : SavedView → Tx ViewAnswer
answer_view view = do
  version ← current_view_version view
  pure (record { view = view; version = version })

unfoldable pub answer_views : List SavedView → Tx (List ViewAnswer)
answer_views [] = pure []
answer_views (view ∷ views) = do
  first ← answer_view view
  rest ← answer_views views
  pure (first ∷ rest)

module _ (outside : Outside) where
  -- The hash of `_canonical_filter`.
  unfoldable pub filter_hash : EndpointFilterDefinition → String
  unfolding filter_payload
  filter_hash filter = outside.sha256_hex (outside.json_text (filter_payload filter))

  abbrev pub view_before : SavedView → SavedView → Bool
  view_before a b =
      if str_eq a.name_normalized b.name_normalized
      then outside.id_le a.saved_view_id b.saved_view_id
      else outside.id_le a.name_normalized b.name_normalized

  -- `list_saved_views`
  unfoldable pub list_saved_views : Principal → Option String → Option String → Tx (List ViewAnswer)
  list_saved_views principal raw_client_id raw_location_id = do
    filter ← require_list_scope principal "saved_view.read" raw_client_id raw_location_id
    views ← gets (λ db. order_by view_before (
        select_where
          (λ v.
            is_listed principal "saved_view.read" filter v.scope_type v.client_id v.location_id
            && (is_shared v.visibility || owner_clause principal v.owner_user_id v.owner_actor))
          db.saved_views))
    answer_views views

module _ (outside : Outside) (now : ℕ) (principal : Principal) where
  -- A version's row, for a filter.
  unfoldable pub version_row : String → ℕ → EndpointFilterDefinition → SavedViewVersion
  version_row id n filter = record {
    saved_view_id = id;
    version = n;
    filter_json = filter;
    content_hash = filter_hash outside filter;
    created_by = principal.subject;
    created_at = now;
  }

  -- The event of a new version.
  unfoldable pub record_version : String → SavedView → SavedViewVersion → Tx (Unit {0})
  record_version event_type view version =
      record_audit_event outside now (record (audit_call event_type principal) {
        client_id = view.client_id;
        location_id = view.location_id;
        target_type = some "saved_view";
        target_id = some view.saved_view_id;
        metadata =
            field "version" (number version.version)
              (field "filter_hash" (text version.content_hash) end);
      })

  unfoldable pub new_view : String → String → String → ViewPayload → SavedView
  new_view id name scope_key payload = record {
    saved_view_id = id;
    name = name;
    name_normalized = outside.casefold name;
    description = optional_text payload.description;
    visibility = payload.visibility;
    scope_type = payload.scope_type;
    scope_key = scope_key;
    client_id = payload.client_id;
    location_id = payload.location_id;
    owner_user_id = principal.user_id;
    owner_actor = principal.subject;
    current_version = 1;
    created_at = now;
    updated_at = now;
  }

  -- The flush of a new version.
  unfoldable pub insert_version : SavedViewVersion → Tx (Unit {0})
  insert_version version = do
    clashes ← gets (λ db. any (version_clashes version) db.view_versions)
    raise_if clashes (http 500 "uq_saved_view_versions_content")
    modify (add_version version)

  unfoldable pub insert_view : SavedView → SavedViewVersion → Tx ViewAnswer
  insert_view view version = do
    clashes ← gets (λ db.
        any (view_clashes view) db.saved_views || not (refers db view.client_id view.location_id))
    raise_if clashes (http 409 "saved view name already exists in scope")
    modify (add_view view)
    insert_version version
    record_version "saved_view_created" view version
    answer_view view

  -- `create_saved_view`
  unfoldable pub create_saved_view : ViewPayload → Tx ViewAnswer
  create_saved_view payload = do
    name ← check (trim_required payload.name "name")
    scope_key ←
        require_requested_scope principal "saved_view.manage" payload.scope_type payload.client_id
          payload.location_id
    id ← generate_prefixed_id outside "view"
    insert_view (new_view id name scope_key payload) (version_row id 1 payload.filter)

  -- The view that the query for an update finds.
  unfoldable pub manageable : String → SavedView → Bool
  manageable id view =
      view_has_id id view
      && resource_clause_holds (resource_scope_clause principal "saved_view.manage") view.scope_type
          view.client_id view.location_id

  unfoldable pub next_version : ℕ → SavedView → SavedView
  next_version n view = record view { current_version = n; updated_at = now }

  unfoldable pub append_version : SavedView → EndpointFilterDefinition → Tx ViewAnswer
  append_version view filter = do
    let version = version_row view.saved_view_id (view.current_version + 1) filter
    let changed = next_version (view.current_version + 1) view
    insert_version version
    modify (write_view (manageable view.saved_view_id) (λ v. changed))
    record_version "saved_view_version_created" changed version
    answer_view changed

  -- The same filter again writes nothing.
  unfoldable pub revise_view : SavedView → EndpointFilterDefinition → Tx ViewAnswer
  revise_view view filter = do
    current ← current_view_version view
    if str_eq current.content_hash (filter_hash outside filter)
        then answer_view view
        else append_version view filter

  -- `update_saved_view`
  unfoldable pub update_saved_view : String → EndpointFilterDefinition → Tx ViewAnswer
  update_saved_view raw_id filter = do
    id ← check (trim_required raw_id "saved_view_id")
    views ← gets (λ db. db.saved_views)
    view ← or_raise (find_first (manageable id) views) (http 404 "saved view not found")
    raise_if (not (is_owner principal view.owner_user_id view.owner_actor))
        (http 404 "saved view not found")
    revise_view view filter
