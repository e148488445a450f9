-- ===== src/Fleet/Tags.antt =====
-- backend/app/api/endpoints/fleet_metadata.py: tags and their assignment to endpoints.
use Prim.Native.String.{◌++◌}
use sha.Base.{
  ℕ, String, Bool, true, not, ◌&&◌, ◌||◌, Option, none, some, List, [], ◌∷◌, http, any,
  if◌then◌else◌, str_eq, find_first, select_where, order_by, add_row,
}
use sha.Text.{trim_required}
use sha.Model.{
  Db, ResourceScope, resource_scope_text, Endpoint, Tag, EndpointTagAssignment, text, field, end,
}
use sha.Model.Tx.{Tx, pure, gets, check, or_raise, raise_if, modify, ◌>>=◌, ◌>>◌}
use sha.Outside.{Outside}
use sha.Ids.{generate_prefixed_id}
use sha.Authz.{Principal, audit_call, record_audit_event}
use sha.Hierarchy.{client_has_id, location_of}
use sha.Fleet.Scopes.{
  optional_text, require_requested_scope, resource_scope_clause, resource_clause_holds,
  require_list_scope, is_listed, load_endpoint_for_metadata,
}

-- `TagCreateRequest`
pub record TagPayload : Type 0 where
  pub name : String
  pub description : Option String
  pub scope_type : ResourceScope
  pub client_id : Option String
  pub location_id : Option String

-- A tag as it stands on an endpoint.
pub record AssignedTag : Type 0 where
  pub tag : Tag
  pub assigned_by : String
  pub assigned_at : ℕ

abbrev pub tag_has_id : String → Tag → Bool
tag_has_id id tag = str_eq tag.tag_id id

abbrev pub assignment_is : String → String → EndpointTagAssignment → Bool
assignment_is endpoint_id tag_id a = str_eq a.endpoint_id endpoint_id && str_eq a.tag_id tag_id

-- The foreign keys of a row with a scope: an absent column refers to nothing.
unfoldable pub refers : Db → Option String → Option String → Bool
refers db none location_id = true
refers db (some c) none = any (client_has_id c) db.clients
refers db (some c) (some l) = any (client_has_id c) db.clients && any (location_of l c) db.locations

-- The unique constraints of `Tag`.
abbrev pub tag_clashes : Tag → Tag → Bool
tag_clashes new old =
    str_eq old.tag_id new.tag_id
    || (str_eq old.scope_key new.scope_key && str_eq old.name_normalized new.name_normalized)

unfoldable pub add_tag : Tag → Db → Db
add_tag tag db = record db { tags = add_row tag db.tags }

unfoldable pub add_assignment : EndpointTagAssignment → Db → Db
add_assignment a db = record db { tag_assignments = add_row a db.tag_assignments }

-- The delete of a row by its primary key.
unfoldable pub delete_assignment : String → String → Db → Db
delete_assignment endpoint_id tag_id db = record db {
  tag_assignments = select_where (λ a. not (assignment_is endpoint_id tag_id a)) db.tag_assignments;
}

-- The scopes whose tags an endpoint may carry.
unfoldable pub covers_endpoint : Endpoint → Tag → Bool
covers_endpoint endpoint tag =
    str_eq tag.scope_key "global"
    || (str_eq tag.scope_key ("client:" ++ endpoint.client_id)
        || str_eq tag.scope_key
            (("location:" ++ endpoint.client_id) ++ (":" ++ endpoint.location_id)))

module _ (outside : Outside) where
  -- `name_normalized.asc(), tag_id.asc()`
  abbrev pub tag_before : Tag → Tag → Bool
  tag_before a b =
      if str_eq a.name_normalized b.name_normalized
      then outside.id_le a.tag_id b.tag_id
      else outside.id_le a.name_normalized b.name_normalized

  abbrev pub assigned_before : AssignedTag → AssignedTag → Bool
  assigned_before a b = tag_before a.tag b.tag

module _ (outside : Outside) (principal : Principal) where
  -- `list_tags`
  unfoldable pub list_tags : Option String → Option String → Tx (List Tag)
  list_tags raw_client_id raw_location_id = do
    filter ← require_list_scope principal "tag.read" raw_client_id raw_location_id
    gets (λ db. order_by (tag_before outside) (
        select_where
          (λ t. is_listed principal "tag.read" filter t.scope_type t.client_id t.location_id)
          db.tags))

  -- The join of the tags with an endpoint's assignments.
  unfoldable pub tags_on : Endpoint → List EndpointTagAssignment → List Tag → List AssignedTag
  tags_on endpoint [] tags = []
  tags_on endpoint (a ∷ rest) tags =
      let more = tags_on endpoint rest tags in
      let own =
        str_eq a.endpoint_id endpoint.endpoint_id
        && (str_eq a.client_id endpoint.client_id && str_eq a.location_id endpoint.location_id) in
      elim (find_first (tag_has_id a.tag_id) tags) [
        | none ↦ more
        | some tag ↦
            if own
            then record { tag = tag; assigned_by = a.assigned_by; assigned_at = a.assigned_at }
              ∷ more
            else more
      ]

  -- `list_endpoint_tags`
  unfoldable pub list_endpoint_tags : String → Tx (List AssignedTag)
  list_endpoint_tags raw_endpoint_id = do
    endpoint_id ← check (trim_required raw_endpoint_id "endpoint_id")
    endpoint ← load_endpoint_for_metadata principal "tag.read" endpoint_id
    gets (λ db. order_by (assigned_before outside) (tags_on endpoint db.tag_assignments db.tags))

module _ (outside : Outside) (now : ℕ) (principal : Principal) where
  -- The flush of a new tag, and its event.
  unfoldable pub insert_tag : Tag → Tx Tag
  insert_tag tag = do
    clashes ←
        gets (λ db. any (tag_clashes tag) db.tags || not (refers db tag.client_id tag.location_id))
    raise_if clashes (http 409 "tag name already exists in scope")
    modify (add_tag tag)
    record_audit_event outside now (record (audit_call "tag_created" principal) {
      client_id = tag.client_id;
      location_id = tag.location_id;
      target_type = some "tag";
      target_id = some tag.tag_id;
      metadata =
          field "scope_type" (text (resource_scope_text tag.scope_type))
            (field "name" (text tag.name) end);
    })
    pure tag

  -- The row of a new tag.
  unfoldable pub new_tag : String → String → String → TagPayload → Tag
  new_tag tag_id name scope_key payload = record {
    tag_id = tag_id;
    name = name;
    name_normalized = outside.casefold name;
    description = optional_text payload.description;
    scope_type = payload.scope_type;
    scope_key = scope_key;
    client_id = payload.client_id;
    location_id = payload.location_id;
    created_by = principal.subject;
    created_at = now;
    updated_at = now;
  }

  -- `create_tag`
  unfoldable pub create_tag : TagPayload → Tx Tag
  create_tag payload = do
    name ← check (trim_required payload.name "name")
    scope_key ←
        require_requested_scope principal "tag.manage" payload.scope_type payload.client_id
          payload.location_id
    tag_id ← generate_prefixed_id outside "tag"
    insert_tag (new_tag tag_id name scope_key payload)

  -- The tag that the query for an assignment finds.
  unfoldable pub assignable : Endpoint → String → Tag → Bool
  assignable endpoint tag_id tag =
      tag_has_id tag_id tag
      && (resource_clause_holds (resource_scope_clause principal "tag.manage") tag.scope_type
            tag.client_id tag.location_id
          && covers_endpoint endpoint tag)

  unfoldable pub assign_once : Endpoint → Tag → Option EndpointTagAssignment → Tx AssignedTag
  assign_once endpoint tag (some a) =
      pure (record { tag = tag; assigned_by = a.assigned_by; assigned_at = a.assigned_at })
  assign_once endpoint tag none = do
    modify (
        add_assignment (record {
          endpoint_id = endpoint.endpoint_id;
          tag_id = tag.tag_id;
          client_id = endpoint.client_id;
          location_id = endpoint.location_id;
          tag_scope_key = tag.scope_key;
          assigned_by = principal.subject;
          assigned_at = now;
        }))
    record_audit_event outside now (record (audit_call "endpoint_tag_assigned" principal) {
      client_id = some endpoint.client_id;
      location_id = some endpoint.location_id;
      endpoint_id = some endpoint.endpoint_id;
      target_type = some "tag";
      target_id = some tag.tag_id;
    })
    pure (record { tag = tag; assigned_by = principal.subject; assigned_at = now })

  unfoldable pub assign_tag : Endpoint → String → Tx AssignedTag
  assign_tag endpoint tag_id = do
    tags ← gets (λ db. db.tags)
    tag ← or_raise (find_first (assignable endpoint tag_id) tags) (http 404 "tag not found")
    existing ←
        gets (λ db. find_first (assignment_is endpoint.endpoint_id tag.tag_id) db.tag_assignments)
    assign_once endpoint tag existing

  -- `assign_endpoint_tag`
  unfoldable pub assign_endpoint_tag : String → String → Tx AssignedTag
  assign_endpoint_tag raw_endpoint_id raw_tag_id = do
    endpoint_id ← check (trim_required raw_endpoint_id "endpoint_id")
    tag_id ← check (trim_required raw_tag_id "tag_id")
    endpoint ← load_endpoint_for_metadata principal "tag.manage" endpoint_id
    assign_tag endpoint tag_id

  unfoldable pub remove_tag : Endpoint → String → Tx (Unit {0})
  remove_tag endpoint tag_id = do
    found ← gets (λ db. any (assignment_is endpoint.endpoint_id tag_id) db.tag_assignments)
    raise_if (not found) (http 404 "tag assignment not found")
    modify (delete_assignment endpoint.endpoint_id tag_id)
    record_audit_event outside now (record (audit_call "endpoint_tag_removed" principal) {
      client_id = some endpoint.client_id;
      location_id = some endpoint.location_id;
      endpoint_id = some endpoint.endpoint_id;
      target_type = some "tag";
      target_id = some tag_id;
    })

  -- `remove_endpoint_tag`
  unfoldable pub remove_endpoint_tag : String → String → Tx (Unit {0})
  remove_endpoint_tag raw_endpoint_id raw_tag_id = do
    endpoint_id ← check (trim_required raw_endpoint_id "endpoint_id")
    tag_id ← check (trim_required raw_tag_id "tag_id")
    endpoint ← load_endpoint_for_metadata principal "tag.manage" endpoint_id
    remove_tag endpoint tag_id
