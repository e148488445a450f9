-- ===== src/Checks/Fleet.antt =====
-- Fleet metadata in a small world: a tag, a saved view with its versions, and a group.
use sha.Base.{
  subst, min, ◌≤◌, ◌≡◌, refl, true, false, none, some, [], ◌∷◌, ok, err, http, Result, String, Memᴰ,
  All, length, ltb, any, ◌&&◌, str_eq, find_first, select_where, contains, string_eq, update_first,
  order_by, insert_by, all,
}
use sha.Text.{trim_required}
use sha.Ids.{generate_prefixed_id}
use sha.Authz.{
  Principal, scope_clause, clause_holds, synthetic_global_grant, record_audit_event, has_permission,
}
use sha.Model.{
  Endpoint, Db, Tag, global_scope, client_scope, SavedView, SavedViewVersion, shared, DynamicGroup,
  EndpointTagAssignment, EndpointFilterDefinition, match_all, match_any, by_tag, op_eq, one_value,
  Fields, field, text,
}
use sha.Model.Tx.{◌>>=◌}
use sha.Outside.{Outside}
use sha.Fleet.{
  view_has_id, version_is, load_endpoint_for_metadata, resource_scope_clause, resource_clause_holds,
  is_owner, assignable, covers_endpoint, assign_once, assign_tag, assign_endpoint_tag,
  add_assignment, assignment_is, AssignedTag, ViewAnswer, filter_hash, filter_payload,
  current_view_version, answer_view, version_row, record_version, insert_version, manageable,
  next_version, append_version, revise_view, update_saved_view, add_version, write_view, load_view,
  Preview, preview_of, preview_rows, preview_dynamic_group, is_member, in_preview, readable_group,
  max_group_evaluation_endpoints,
}
use sha.Fleet.Covering.{grant_reaches, resource_scope_clause-reaches}
use sha.Fleet.Tagging.{managed, answer_of, assign-twice}
use sha.Fleet.Versions.{IsVersioned, log_of, revised, update-refines, update-rejects_earlier}
use sha.Fleet.Previews.{preview_bounds}
use sha.Checks.World.{world, reviewer, host, start, left_by}

-- The serialised filter shows its match only.
abbrev match_of : Fields → String
match_of (field a b (field c (text m) rest)) = m
match_of _ = ""

abbrev filtering : Outside
filtering = record world { json_text = match_of }

abbrev keeper : Principal
keeper = record reviewer {
  grants =
      synthetic_global_grant "operator"
        ("tag.manage" ∷ "saved_view.manage" ∷ "dynamic_group.read" ∷ "endpoint.read" ∷ [])
      ∷ [];
}

abbrev label : Tag
label = record {
  tag_id = "tag-1";
  name = "db";
  name_normalized = "db";
  description = none;
  scope_type = client_scope;
  scope_key = "client:cl";
  client_id = some "cl";
  location_id = none;
  created_by = "ada";
  created_at = 0;
  updated_at = 0;
}

abbrev tagged : EndpointFilterDefinition
tagged = record {
  matching = match_all;
  rules = record { filter_field = by_tag; operator = op_eq; value = one_value "db" } ∷ [];
}

abbrev loosely : EndpointFilterDefinition
loosely = record tagged { matching = match_any }

abbrev view : SavedView
view = record {
  saved_view_id = "view-1";
  name = "v";
  name_normalized = "v";
  description = none;
  visibility = shared;
  scope_type = global_scope;
  scope_key = "global";
  client_id = none;
  location_id = none;
  owner_user_id = none;
  owner_actor = "ada";
  current_version = 1;
  created_at = 0;
  updated_at = 0;
}

abbrev version : SavedViewVersion
version = record {
  saved_view_id = "view-1";
  version = 1;
  filter_json = tagged;
  content_hash = "#all";
  created_by = "ada";
  created_at = 0;
}

abbrev group : DynamicGroup
group = record {
  dynamic_group_id = "grp-1";
  name = "g";
  name_normalized = "g";
  description = none;
  scope_type = global_scope;
  scope_key = "global";
  client_id = none;
  location_id = none;
  saved_view_id = "view-1";
  owner_user_id = none;
  owner_actor = "ada";
  created_at = 0;
  updated_at = 0;
}

abbrev fleet : Db
fleet = record start {
  tags = label ∷ [];
  saved_views = view ∷ [];
  view_versions = version ∷ [];
  dynamic_groups = group ∷ [];
}

resource_scope_clause-reaches_example :
    resource_clause_holds (resource_scope_clause keeper "tag.manage") client_scope (some "cl") none
    ≡ any (grant_reaches "tag.manage" client_scope (some "cl") none) keeper.grants
resource_scope_clause-reaches_example =
    resource_scope_clause-reaches keeper "tag.manage" client_scope (some "cl") none

abbrev assignment : Result (AssignedTag × Db)
assignment = assign_endpoint_tag filtering 50 keeper "ep-1" "tag-1" fleet

abbrev placed : AssignedTag
placed = record { tag = label; assigned_by = "ada"; assigned_at = 50 }

assignment_runs : assignment ≡ ok (placed, left_by assignment start)
unfolding assign_endpoint_tag trim_required load_endpoint_for_metadata find_first scope_clause
    clause_holds synthetic_global_grant contains assign_tag assignable resource_scope_clause
    resource_clause_holds covers_endpoint assign_once add_assignment record_audit_event
    generate_prefixed_id ◌>>=◌
assignment_runs = refl

assign-twice_example :
    (endpoint_id : String) × (tag_id : String) × (endpoint : Endpoint) × (tag : Tag)
    × (trim_required "ep-1" "endpoint_id" ≡ ok endpoint_id)
    × (trim_required "tag-1" "tag_id" ≡ ok tag_id)
    × (find_first (managed keeper "tag.manage" endpoint_id) fleet.endpoints ≡ some endpoint)
    × Memᴰ tag fleet.tags
    × (str_eq tag.tag_id tag_id ≡ true)
    × (covers_endpoint endpoint tag ≡ true)
    × (resource_clause_holds
          (resource_scope_clause keeper "tag.manage")
          tag.scope_type
          tag.client_id
          tag.location_id
        ≡ true)
    × ((row : EndpointTagAssignment) × (find_first
            (assignment_is endpoint.endpoint_id tag.tag_id)
            (left_by assignment start).tag_assignments
          ≡ some row)
        × (placed ≡ answer_of tag row))
    × (assign_endpoint_tag filtering 60 keeper "ep-1" "tag-1" (left_by assignment start)
        ≡ ok (placed, left_by assignment start))
assign-twice_example = assign-twice filtering 50 keeper "ep-1" "tag-1" fleet 60 assignment_runs

view_named : trim_required "view-1" "saved_view_id" ≡ ok "view-1"
unfolding trim_required
view_named = refl

view_found : find_first (manageable filtering 50 keeper "view-1") fleet.saved_views ≡ some view
unfolding find_first manageable resource_scope_clause resource_clause_holds synthetic_global_grant
    contains
view_found = refl

view_IsVersioned : IsVersioned filtering fleet view
unfolding select_where all filter_hash filter_payload
view_IsVersioned = record {
  before = [];
  current = version;
  history = refl;
  lower = refl;
  number = refl;
  owner = refl;
  hash = refl;
}

abbrev revision : Result (ViewAnswer × Db)
revision = update_saved_view filtering 50 keeper "view-1" loosely fleet

abbrev second : ViewAnswer
second = record {
  view = record view { current_version = 2; updated_at = 50 };
  version = record {
    saved_view_id = "view-1";
    version = 2;
    filter_json = loosely;
    content_hash = "#any";
    created_by = "ada";
    created_at = 50;
  };
}

revision_runs : revision ≡ ok (second, left_by revision start)
unfolding update_saved_view trim_required find_first manageable resource_scope_clause
    resource_clause_holds synthetic_global_grant contains is_owner revise_view current_view_version
    filter_hash filter_payload append_version version_row insert_version any add_version
    next_version write_view update_first record_version record_audit_event generate_prefixed_id
    answer_view ◌>>=◌
revision_runs = refl

fleet_IsVersioned :
    (id : String) (v : SavedView)
    → trim_required "view-1" "saved_view_id" ≡ ok id
    → find_first (manageable filtering 50 keeper id) fleet.saved_views ≡ some v
    → IsVersioned filtering fleet v
fleet_IsVersioned id v named found =
    let i : id ≡ "view-1" = cc (named, view_named) in
    let f : find_first (manageable filtering 50 keeper "view-1") fleet.saved_views ≡ some v =
      subst (λ j. find_first (manageable filtering 50 keeper j) fleet.saved_views ≡ some v) i
        found in
    let e : view ≡ v = cc (view_found, f) in
    subst (λ w. IsVersioned filtering fleet w) e view_IsVersioned

update-refines_example :
    (id : String) × (v : SavedView) × (named : trim_required "view-1" "saved_view_id" ≡ ok id)
    × (found : find_first (manageable filtering 50 keeper id) fleet.saved_views ≡ some v)
    × (is_owner keeper v.owner_user_id v.owner_actor ≡ true)
    × (find_first (manageable filtering 50 keeper id) (left_by revision start).saved_views
        ≡ some second.view)
    × ((after : IsVersioned filtering (left_by revision start) second.view) × (log_of after
          ≡ revised filtering (log_of (fleet_IsVersioned id v named found)) loosely))
update-refines_example =
    update-refines filtering 50 keeper "view-1" loosely fleet fleet_IsVersioned revision_runs

-- The view with a second version: its first filter is the one of an earlier version.
abbrev later_view : SavedView
later_view = record view { current_version = 2 }

abbrev newer : SavedViewVersion
newer = record version { version = 2; filter_json = loosely; content_hash = "#any" }

abbrev revised_fleet : Db
revised_fleet = record fleet { saved_views = later_view ∷ []; view_versions = version ∷ newer ∷ [] }

later_found :
    find_first (manageable filtering 60 keeper "view-1") revised_fleet.saved_views ≡ some later_view
unfolding find_first manageable resource_scope_clause resource_clause_holds synthetic_global_grant
    contains
later_found = refl

later_IsVersioned : IsVersioned filtering revised_fleet later_view
unfolding select_where all filter_hash filter_payload
later_IsVersioned = record {
  before = version ∷ [];
  current = newer;
  history = refl;
  lower = refl;
  number = refl;
  owner = refl;
  hash = refl;
}

keeper_owns : is_owner keeper none "ada" ≡ true
unfolding is_owner
keeper_owns = refl

stored_before :
    any
      (λ v. str_eq v.saved_view_id "view-1" && str_eq v.content_hash (filter_hash filtering tagged))
      revised_fleet.view_versions
    ≡ true
unfolding any filter_hash filter_payload
stored_before = refl

not_last : str_eq newer.content_hash (filter_hash filtering tagged) ≡ false
unfolding filter_hash filter_payload
not_last = refl

update-rejects_earlier_example :
    update_saved_view filtering 60 keeper "view-1" tagged revised_fleet
    ≡ err (http 500 "uq_saved_view_versions_content")
unfolding later_IsVersioned
update-rejects_earlier_example =
    update-rejects_earlier filtering 60 keeper "view-1" tagged revised_fleet view_named later_found
      later_IsVersioned keeper_owns stored_before not_last

abbrev labelled : Db
labelled = left_by assignment start

abbrev preview : Result (Preview × Db)
preview = preview_dynamic_group filtering keeper "grp-1" 1 labelled

abbrev seen : Preview
seen = record {
  group = group;
  view = view;
  version = version;
  evaluated_endpoint_count = 1;
  matched_endpoint_count = 1;
  result_limit = 1;
  truncated = false;
  items = host ∷ [];
}

preview_runs : preview ≡ ok (seen, labelled)
unfolding assign_endpoint_tag trim_required load_endpoint_for_metadata find_first scope_clause
    clause_holds synthetic_global_grant contains assign_tag assignable resource_scope_clause
    resource_clause_holds covers_endpoint assign_once add_assignment record_audit_event
    generate_prefixed_id preview_dynamic_group has_permission any load_view current_view_version
    preview_of preview_rows order_by insert_by select_where in_preview is_member all ◌>>=◌
preview_runs = refl

preview_bounds_example :
    (id : String) × (trim_required "grp-1" "dynamic_group_id" ≡ ok id)
    × (find_first (readable_group filtering keeper id) labelled.dynamic_groups ≡ some group)
    × (find_first (view_has_id "view-1") labelled.saved_views ≡ some view)
    × (find_first (version_is "view-1" 1) labelled.view_versions ≡ some version)
    × (labelled ≡ labelled)
    × (1 ≡ length (select_where (in_preview filtering keeper group) labelled.endpoints))
    × (1 ≤ max_group_evaluation_endpoints)
    × (1
        ≡ length (
            select_where
              (λ e. in_preview filtering keeper group e && is_member filtering labelled tagged e)
              labelled.endpoints))
    × (length seen.items ≡ min 1 1)
    × (false ≡ ltb 1 1)
    × All
        (λ e.
          Memᴰ e labelled.endpoints
          × (in_preview filtering keeper group e ≡ true)
          × (is_member filtering labelled tagged e ≡ true))
        seen.items
preview_bounds_example = preview_bounds filtering keeper "grp-1" 1 labelled preview_runs
