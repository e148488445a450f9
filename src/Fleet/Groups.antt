-- ===== src/Fleet/Groups.antt =====
-- backend/app/api/endpoints/fleet_metadata.py: dynamic groups, and which endpoints their filter
-- selects.
use package.text.Mathlib.Text.{find?}
use sha.Base.{
  ℕ, zero, suc, ◌+◌, String, Bool, true, false, not, ◌&&◌, ◌||◌, Option, none, some, List, [], ◌∷◌,
  map, http, any, all, length, ltb, if◌then◌else◌, str_eq, find_first, select_where, order_by,
  add_row, contains, string_eq,
}
use sha.Text.{trim_required}
use sha.Model.{
  Db, ResourceScope, global_scope, client_scope, location_scope, is_shared, SavedView,
  SavedViewVersion, DynamicGroup, Endpoint, EndpointStatus, platform_text, Tag,
  EndpointTagAssignment, FilterField, by_endpoint_id, by_hostname, by_platform, by_status,
  by_connectivity, by_agent_version, by_client_id, by_location_id, by_tag, FilterOperator, op_eq,
  op_neq, op_contains, op_starts_with, op_in, match_all, match_any, FilterValue, one_value,
  many_values, EndpointFilterRule, EndpointFilterDefinition, text, number, field, end,
}
use sha.Model.Tx.{Tx, pure, gets, check, or_raise, raise_if, modify, ◌>>=◌, ◌>>◌}
use sha.Outside.{Outside}
use sha.Ids.{generate_prefixed_id}
use sha.Identity.{after_literal}
use sha.Authz.{
  Principal, has_permission, clause_holds, scope_clause, audit_call, record_audit_event,
}
use sha.Fleet.Scopes.{
  optional_text, require_requested_scope, resource_scope_clause, resource_clause_holds,
  owner_clause, require_list_scope, is_listed,
}
use sha.Fleet.Tags.{refers, tag_has_id}
use sha.Fleet.Views.{view_has_id, current_view_version}

-- `DynamicGroupCreateRequest`
pub record GroupPayload : Type 0 where
  pub name : String
  pub description : Option String
  pub saved_view_id : String

-- `_dynamic_group_payload`: the group, its view and the view's current version.
pub record GroupAnswer : Type 0 where
  pub group : DynamicGroup
  pub view : SavedView
  pub version : SavedViewVersion

pub record Preview : Type 0 where
  pub group : DynamicGroup
  pub view : SavedView
  pub version : SavedViewVersion
  pub evaluated_endpoint_count : ℕ
  pub matched_endpoint_count : ℕ
  pub result_limit : ℕ
  pub truncated : Bool
  pub items : List Endpoint

abbrev pub max_group_evaluation_endpoints : ℕ
max_group_evaluation_endpoints = 10000

abbrev pub group_has_id : String → DynamicGroup → Bool
group_has_id id group = str_eq group.dynamic_group_id id

-- The unique constraints of `DynamicGroup`.
abbrev pub group_clashes : DynamicGroup → DynamicGroup → Bool
group_clashes new old =
    group_has_id new.dynamic_group_id old
    || (str_eq old.scope_key new.scope_key && str_eq old.name_normalized new.name_normalized)

unfoldable pub add_group : DynamicGroup → Db → Db
add_group group db = record db { dynamic_groups = add_row group db.dynamic_groups }

-- The first values of a list.
abbrev pub take {ℓ} : {A : Type ℓ} → ℕ → List A → List A
take zero xs = []
take (suc n) [] = []
take (suc n) (x ∷ xs) = x ∷ take n xs

unfoldable pub load_view : String → Tx SavedView
load_view id = do
  found ← gets (λ db. find_first (view_has_id id) db.saved_views)
  or_raise found (http 500 "dynamic group saved view is missing")

unfoldable pub answer_group : DynamicGroup → Tx GroupAnswer
answer_group group = do
  view ← load_view group.saved_view_id
  version ← current_view_version view
  pure (record { group = group; view = view; version = version })

unfoldable pub answer_groups : List DynamicGroup → Tx (List GroupAnswer)
answer_groups [] = pure []
answer_groups (group ∷ groups) = do
  first ← answer_group group
  rest ← answer_groups groups
  pure (first ∷ rest)

-- `_endpoint_scope_clause`, on an endpoint.
unfoldable pub group_covers : ResourceScope → Option String → Option String → Endpoint → Bool
group_covers global_scope client_id location_id e = true
group_covers client_scope (some c) location_id e = str_eq e.client_id c
group_covers location_scope (some c) (some l) e = str_eq e.client_id c && str_eq e.location_id l
group_covers _ _ _ e = false

unfoldable pub endpoint_status_text : EndpointStatus → String
endpoint_status_text EndpointStatus.pending = "pending"
endpoint_status_text EndpointStatus.active = "active"
endpoint_status_text EndpointStatus.stale = "stale"

module _ (outside : Outside) where
  -- The value of a column, where it is not the tags.
  unfoldable pub column_value : FilterField → Endpoint → String
  unfolding endpoint_status_text
  column_value by_endpoint_id e = outside.casefold e.endpoint_id
  column_value by_hostname e = outside.casefold e.hostname
  column_value by_platform e = outside.casefold (platform_text e.platform)
  column_value by_status e = outside.casefold (endpoint_status_text e.status)
  column_value by_connectivity e = elim e.connectivity_status [
    | none ↦ "unknown"
    | some s ↦ outside.casefold s
  ]
  column_value by_agent_version e = outside.casefold e.agent_version
  column_value by_client_id e = outside.casefold e.client_id
  column_value by_location_id e = outside.casefold e.location_id
  column_value by_tag e = ""

  -- `_rule_values`; the tags are a set, whose order no operator sees.
  unfoldable pub rule_values : Endpoint → FilterField → List String → List String
  unfolding column_value
  rule_values e by_tag tags = tags
  rule_values e f tags = column_value f e ∷ []

  abbrev values_of : FilterValue → List String
  values_of (one_value s) = s ∷ []
  values_of (many_values ss) = ss

  -- `[value.casefold() for value in raw_expected]`
  unfoldable pub expected_values : FilterValue → List String
  expected_values value = map outside.casefold (values_of value)

  abbrev is_part : String → String → Bool
  is_part part whole = elim (find? whole part) [ none ↦ false | some _ ↦ true ]

  abbrev starts : String → String → Bool
  starts part whole = elim (after_literal part whole) [ none ↦ false | some _ ↦ true ]

  -- The operators; the schema makes sure that one value is given where only the first is read.
  unfoldable pub operator_holds : FilterOperator → List String → List String → Bool
  operator_holds op_eq actual [] = false
  operator_holds op_eq actual (v ∷ vs) = contains v actual
  operator_holds op_neq actual [] = false
  operator_holds op_neq actual (v ∷ vs) = not (contains v actual)
  operator_holds op_in actual expected = any (λ a. contains a expected) actual
  operator_holds op_contains actual [] = false
  operator_holds op_contains actual (v ∷ vs) = any (is_part v) actual
  operator_holds op_starts_with actual [] = false
  operator_holds op_starts_with actual (v ∷ vs) = any (starts v) actual

  -- `_matches_rule`
  unfoldable pub matches_rule : Endpoint → List String → EndpointFilterRule → Bool
  unfolding operator_holds rule_values expected_values
  matches_rule e tags rule =
      operator_holds rule.operator (rule_values e rule.filter_field tags)
        (expected_values rule.value)

  -- `_matches_filter`
  unfoldable pub matches_filter : Endpoint → EndpointFilterDefinition → List String → Bool
  unfolding matches_rule
  matches_filter e filter tags = elim filter.matching [
    | match_all ↦ all (matches_rule e tags) filter.rules
    | match_any ↦ any (matches_rule e tags) filter.rules
  ]

  -- The identifiers and names of the tags on an endpoint.
  unfoldable pub tag_values : Endpoint → List EndpointTagAssignment → List Tag → List String
  tag_values e [] tags = []
  tag_values e (a ∷ rest) tags =
      let more = tag_values e rest tags in
      if str_eq a.endpoint_id e.endpoint_id
      then elim (find_first (tag_has_id a.tag_id) tags) [
        | none ↦ more
        | some tag ↦ outside.casefold tag.tag_id ∷ outside.casefold tag.name ∷ more
      ]
      else more

  unfoldable pub is_member : Db → EndpointFilterDefinition → Endpoint → Bool
  unfolding matches_filter tag_values
  is_member db filter e = matches_filter e filter (tag_values e db.tag_assignments db.tags)

  abbrev pub endpoint_before : Endpoint → Endpoint → Bool
  endpoint_before a b = outside.id_le a.endpoint_id b.endpoint_id

  abbrev pub group_before : DynamicGroup → DynamicGroup → Bool
  group_before a b =
      if str_eq a.name_normalized b.name_normalized
      then outside.id_le a.dynamic_group_id b.dynamic_group_id
      else outside.id_le a.name_normalized b.name_normalized

  module _ (principal : Principal) where
    -- The endpoints of the group's scope that the principal may read.
    unfoldable pub in_preview : DynamicGroup → Endpoint → Bool
    unfolding group_covers
    in_preview group e =
        group_covers group.scope_type group.client_id group.location_id e
        && clause_holds (scope_clause principal "endpoint.read") (some e.client_id)
            (some e.location_id)

    -- The query, with its limit.
    unfoldable pub preview_rows : Db → DynamicGroup → List Endpoint
    preview_rows db group =
        take (max_group_evaluation_endpoints + 1)
          (order_by endpoint_before (select_where (in_preview group) db.endpoints))

    unfoldable pub preview_of : DynamicGroup → SavedView → SavedViewVersion → ℕ → Tx Preview
    preview_of group view version limit = do
      rows ← gets (λ db. preview_rows db group)
      raise_if (ltb max_group_evaluation_endpoints (length rows))
          (http 413 "authorized preview scope exceeds the endpoint evaluation limit")
      matching ← gets (λ db. select_where (is_member db version.filter_json) rows)
      pure (record {
        group = group;
        view = view;
        version = version;
        evaluated_endpoint_count = length rows;
        matched_endpoint_count = length matching;
        result_limit = limit;
        truncated = ltb limit (length matching);
        items = take limit matching;
      })

    abbrev pub readable_group : String → DynamicGroup → Bool
    readable_group id group =
        group_has_id id group
        && resource_clause_holds (resource_scope_clause principal "dynamic_group.read")
            group.scope_type group.client_id group.location_id

    -- `preview_dynamic_group`
    unfoldable pub preview_dynamic_group : String → ℕ → Tx Preview
    preview_dynamic_group raw_id limit = do
      id ← check (trim_required raw_id "dynamic_group_id")
      raise_if (not (has_permission principal "endpoint.read"))
          (http 403 "endpoint read permission is required")
      groups ← gets (λ db. db.dynamic_groups)
      group ← or_raise (find_first (readable_group id) groups) (http 404 "dynamic group not found")
      view ← load_view group.saved_view_id
      version ← current_view_version view
      preview_of group view version limit

    -- `list_dynamic_groups`
    unfoldable pub list_dynamic_groups : Option String → Option String → Tx (List GroupAnswer)
    list_dynamic_groups raw_client_id raw_location_id = do
      filter ← require_list_scope principal "dynamic_group.read" raw_client_id raw_location_id
      groups ← gets (λ db. order_by group_before (
          select_where
            (λ g.
              is_listed principal "dynamic_group.read" filter g.scope_type g.client_id
                g.location_id)
            db.dynamic_groups))
      answer_groups groups

module _ (outside : Outside) (now : ℕ) (principal : Principal) where
  -- The view that the query for a new group finds.
  unfoldable pub usable_view : String → SavedView → Bool
  usable_view id view =
      view_has_id id view
      && (resource_clause_holds (resource_scope_clause principal "saved_view.read") view.scope_type
            view.client_id view.location_id
          && (is_shared view.visibility
              || owner_clause principal view.owner_user_id view.owner_actor))

  unfoldable pub new_group : String → String → GroupPayload → SavedView → DynamicGroup
  new_group id name payload view = record {
    dynamic_group_id = id;
    name = name;
    name_normalized = outside.casefold name;
    description = optional_text payload.description;
    scope_type = view.scope_type;
    scope_key = view.scope_key;
    client_id = view.client_id;
    location_id = view.location_id;
    saved_view_id = view.saved_view_id;
    owner_user_id = principal.user_id;
    owner_actor = principal.subject;
    created_at = now;
    updated_at = now;
  }

  -- The flush of a new group, and its event.
  unfoldable pub insert_group : DynamicGroup → SavedView → Tx GroupAnswer
  insert_group group view = do
    clashes ← gets (λ db.
        any (group_clashes group) db.dynamic_groups
        || not (refers db group.client_id group.location_id))
    raise_if clashes (http 409 "dynamic group name already exists in scope")
    modify (add_group group)
    version ← current_view_version view
    record_audit_event outside now (record (audit_call "dynamic_group_created" principal) {
      client_id = group.client_id;
      location_id = group.location_id;
      target_type = some "dynamic_group";
      target_id = some group.dynamic_group_id;
      metadata = field "saved_view_id" (text group.saved_view_id) (
          field "saved_view_version" (number view.current_version)
            (field "filter_hash" (text version.content_hash) end));
    })
    answer_group group

  -- `create_dynamic_group`
  unfoldable pub create_dynamic_group : GroupPayload → Tx GroupAnswer
  create_dynamic_group payload = do
    name ← check (trim_required payload.name "name")
    view_id ← check (trim_required payload.saved_view_id "saved_view_id")
    views ← gets (λ db. db.saved_views)
    view ← or_raise (find_first (usable_view view_id) views) (http 404 "saved view not found")
    scope_key ←
        require_requested_scope principal "dynamic_group.manage" view.scope_type view.client_id
          view.location_id
    id ← generate_prefixed_id outside "grp"
    insert_group (new_group id name payload view) view
