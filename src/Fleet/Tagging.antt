-- ===== src/Fleet/Tagging.antt =====
-- Which tags an endpoint may carry, and that assigning one twice is assigning it once.
use sha.Base.{
  Memᴰ, ℕ, String, ◌≡◌, refl, Bool, true, ◌&&◌, Option, none, some, arith, ok, str_eq, str_refl,
  find_first, find_first-some, find_first-add_row,
}
use sha.Text.{trim_required}
use sha.Model.{Db, Endpoint, Tag, EndpointTagAssignment}
use sha.Model.Tx.{◌>>=◌}
use sha.Model.Tx.Keeps.{>>=-check, >>=-or_raise}
use sha.Outside.{Outside}
use sha.Ids.{generate_prefixed_id}
use sha.Authz.{Principal, clause_holds, scope_clause, record_audit_event}
use sha.Fleet.Scopes.{load_endpoint_for_metadata, resource_clause_holds, resource_scope_clause}
use sha.Fleet.Tags.{
  AssignedTag, assignment_is, covers_endpoint, add_assignment, assignable, assign_once, assign_tag,
  assign_endpoint_tag,
}

-- The endpoint that the query finds.
abbrev pub managed : Principal → String → String → Endpoint → Bool
managed p permission id e =
    str_eq e.endpoint_id id
    && clause_holds (scope_clause p permission) (some e.client_id) (some e.location_id)

abbrev pub answer_of : Tag → EndpointTagAssignment → AssignedTag
answer_of tag row = record {
  tag = tag;
  assigned_by = row.assigned_by;
  assigned_at = row.assigned_at;
}

module _ (o : Outside) (now : ℕ) (p : Principal) (endpoint : Endpoint) (tag : Tag) where
  -- What an assignment leaves: its row is in the table, and the other tables that it reads stay.
  once_steps :
      (existing : Option EndpointTagAssignment) (db : Db) {a : AssignedTag} {db' : Db}
      → find_first (assignment_is endpoint.endpoint_id tag.tag_id) db.tag_assignments ≡ existing
      → assign_once o now p endpoint tag existing db ≡ ok (a, db')
      → (row : EndpointTagAssignment) × (find_first
            (assignment_is endpoint.endpoint_id tag.tag_id)
            db'.tag_assignments
          ≡ some row)
        × (a ≡ answer_of tag row)
        × (db'.endpoints ≡ db.endpoints)
        × (db'.tags ≡ db.tags)
  unfolding assign_once add_assignment record_audit_event generate_prefixed_id ◌>>=◌
  once_steps (some row) db {a} {db'} f h =
      let same : db' ≡ db = ground arith in
      (row, rw same f, ground arith, ground arith, ground arith)
  once_steps none db {a} {db'} f h =
      let new : EndpointTagAssignment = record {
        endpoint_id = endpoint.endpoint_id;
        tag_id = tag.tag_id;
        client_id = endpoint.client_id;
        location_id = endpoint.location_id;
        tag_scope_key = tag.scope_key;
        assigned_by = p.subject;
        assigned_at = now;
      } in
      let own : assignment_is endpoint.endpoint_id tag.tag_id new ≡ true =
        ground (arith, str_refl endpoint.endpoint_id, str_refl tag.tag_id) in
      let stored =
        find_first-add_row (assignment_is endpoint.endpoint_id tag.tag_id) new db.tag_assignments f
          own in
      (new, ground arith, ground arith, ground arith, ground arith)

module _ (o : Outside) (now : ℕ) (p : Principal) (raw_endpoint raw_tag : String)
    {endpoint_id tag_id : String} (db : Db) {endpoint : Endpoint} {tag : Tag}
    (endpoint_named : trim_required raw_endpoint "endpoint_id" ≡ ok endpoint_id)
    (tag_named : trim_required raw_tag "tag_id" ≡ ok tag_id)
    (found : find_first (managed p "tag.manage" endpoint_id) db.endpoints ≡ some endpoint)
    (tag_found : find_first (assignable o now p endpoint tag_id) db.tags ≡ some tag) where
  assign_opens :
      {a : AssignedTag} {db' : Db}
      → assign_endpoint_tag o now p raw_endpoint raw_tag db ≡ ok (a, db')
      → assign_once o now p endpoint tag
          (find_first (assignment_is endpoint.endpoint_id tag.tag_id) db.tag_assignments)
          db
        ≡ ok (a, db')
  unfolding assign_endpoint_tag load_endpoint_for_metadata assign_tag ◌>>=◌
  assign_opens h = ground arith

  allowed : (assignable o now p endpoint tag_id tag ≡ true)
  allowed = (find_first-some (assignable o now p endpoint tag_id) db.tags tag_found).0

  covered :
      (str_eq tag.tag_id tag_id ≡ true)
      × (covers_endpoint endpoint tag ≡ true)
      × (resource_clause_holds
            (resource_scope_clause p "tag.manage")
            tag.scope_type
            tag.client_id
            tag.location_id
          ≡ true)
  unfolding assignable
  covered = let a = allowed in (ground arith, ground arith, ground arith)

  repeats :
      (later : ℕ) (mid : Db) {row : EndpointTagAssignment}
      → mid.endpoints ≡ db.endpoints
      → mid.tags ≡ db.tags
      → find_first (assignment_is endpoint.endpoint_id tag.tag_id) mid.tag_assignments ≡ some row
      → assign_endpoint_tag o later p raw_endpoint raw_tag mid ≡ ok (answer_of tag row, mid)
  unfolding assign_endpoint_tag load_endpoint_for_metadata assign_tag assign_once assignable ◌>>=◌
  repeats later mid {row} es ts f =
      let fe : find_first (managed p "tag.manage" endpoint_id) mid.endpoints ≡ some endpoint =
        rw es found in
      let ft : find_first (assignable o later p endpoint tag_id) mid.tags ≡ some tag =
        rw ts tag_found in
      ground arith

module _ (o : Outside) (now : ℕ) (p : Principal) (raw_endpoint raw_tag : String) (db : Db) where
  assign_found :
      {a : AssignedTag} {db' : Db}
      → assign_endpoint_tag o now p raw_endpoint raw_tag db ≡ ok (a, db')
      → (endpoint_id : String) × (tag_id : String) × (endpoint : Endpoint) × (tag : Tag)
        × (trim_required raw_endpoint "endpoint_id" ≡ ok endpoint_id)
        × (trim_required raw_tag "tag_id" ≡ ok tag_id)
        × (find_first (managed p "tag.manage" endpoint_id) db.endpoints ≡ some endpoint)
        × (find_first (assignable o now p endpoint tag_id) db.tags ≡ some tag)
  unfolding assign_endpoint_tag load_endpoint_for_metadata assign_tag ◌>>=◌
  assign_found h =
      let (endpoint_id, n, h1) = >>=-check (trim_required raw_endpoint "endpoint_id") _ db h in
      let (tag_id, m, h2) = >>=-check (trim_required raw_tag "tag_id") _ db h1 in
      let (endpoint, fe, h3) =
        >>=-or_raise (find_first (managed p "tag.manage" endpoint_id) db.endpoints) _ _ db h2 in
      let (tag, ft, h4) =
        >>=-or_raise (find_first (assignable o now p endpoint tag_id) db.tags) _ _ db h3 in
      (endpoint_id, tag_id, endpoint, tag, n, m, fe, ft)

  -- An assignment that succeeds puts a stored tag on a stored endpoint of the tag's scope, and the
  -- principal may manage both. Its row is stored, and the same assignment at any later time gives
  -- the same answer and writes nothing.
  pub assign-twice :
      (later : ℕ) {a : AssignedTag} {db' : Db}
      → assign_endpoint_tag o now p raw_endpoint raw_tag db ≡ ok (a, db')
      → (endpoint_id : String) × (tag_id : String) × (endpoint : Endpoint) × (tag : Tag)
        × (trim_required raw_endpoint "endpoint_id" ≡ ok endpoint_id)
        × (trim_required raw_tag "tag_id" ≡ ok tag_id)
        × (find_first (managed p "tag.manage" endpoint_id) db.endpoints ≡ some endpoint)
        × Memᴰ tag db.tags
        × (str_eq tag.tag_id tag_id ≡ true)
        × (covers_endpoint endpoint tag ≡ true)
        × (resource_clause_holds
              (resource_scope_clause p "tag.manage")
              tag.scope_type
              tag.client_id
              tag.location_id
            ≡ true)
        × ((row : EndpointTagAssignment) × (find_first
                (assignment_is endpoint.endpoint_id tag.tag_id)
                db'.tag_assignments
              ≡ some row)
            × (a ≡ answer_of tag row))
        × (assign_endpoint_tag o later p raw_endpoint raw_tag db' ≡ ok (a, db'))
  assign-twice later {a} {db'} h =
      let (endpoint_id, tag_id, endpoint, tag, n, m, fe, ft) = assign_found h in
      let (row, stored, same, es, ts) =
        once_steps o now p endpoint tag _ db refl
          (assign_opens o now p raw_endpoint raw_tag db n m fe ft h) in
      let (named, c, r) = covered o now p raw_endpoint raw_tag db n m fe ft in
      (
        endpoint_id,
        tag_id,
        endpoint,
        tag,
        n,
        m,
        fe,
        (find_first-some (assignable o now p endpoint tag_id) db.tags ft).1,
        named,
        c,
        r,
        (row, stored, same),
        rw same (repeats o now p raw_endpoint raw_tag db n m fe ft later db' es ts stored),
      )
