-- ===== src/Hierarchy/Resolving.antt =====
-- What a resolved scope names.
use sha.Base.{
  String, ◌≡◌, refl, Bool, true, false, not, ◌&&◌, ◌||◌, arith, Option, none, some, ok, err, Result,
  http, or_raise, raise_if, opt_eq, >>=-eq-ok, >>-eq-ok, Bool-cases, ◌⊎◌, inl, inr, if◌then◌else◌,
  find_first, find_first-some, Memᴰ, eq_iff,
}
use sha.Text.{trim_required, normalize_optional}
use sha.Model.{Db, Client, Location, row_is_archived}
use sha.Hierarchy.{
  ResolvedScope, ScopeFields, client_has_id, location_of, location_keyed, load_scope, locate,
  legacy_rows, quarantined, missing_field, resolve_legacy, resolve_canonical, resolve_scope,
  quarantine_client_id, quarantine_location_id,
}

-- The scope names a stored location of a stored client, and neither is archived.
abbrev pub IsStored : Db → ResolvedScope → Type 0
IsStored db scope =
    (client : Client) × (location : Location) × Memᴰ client db.clients
    × Memᴰ location db.locations
    × (scope.client_id ≡ client.client_id)
    × (scope.location_id ≡ location.location_id)
    × (location.client_id ≡ client.client_id)
    × (row_is_archived client.state ≡ false)
    × (row_is_archived location.state ≡ false)

either_branch :
    (b : Bool) (m n : Result ResolvedScope) {scope : ResolvedScope}
    → (if b then m else n) ≡ ok scope
    → (m ≡ ok scope) ⊎ (n ≡ ok scope)
either_branch true m n h = inl h
either_branch false m n h = inr h

module _ (db : Db) where
  load_scope_stored :
      (client_id location_id : String) {client : Client} {location : Location}
      → load_scope db client_id location_id ≡ ok (client, location)
      → (find_first (client_has_id client_id) db.clients ≡ some client)
        × (find_first (location_of location_id client_id) db.locations ≡ some location)
        × (row_is_archived client.state ≡ false)
        × (row_is_archived location.state ≡ false)
  unfolding load_scope
  load_scope_stored client_id location_id h = ground arith

  -- Rows that were loaded make a stored scope.
  load_scope-IsStored :
      (client_id location_id : String) {client : Client} {location : Location}
      (scope : ResolvedScope)
      → load_scope db client_id location_id ≡ ok (client, location)
      → scope.client_id ≡ client.client_id
      → scope.location_id ≡ location.location_id
      → IsStored db scope
  load_scope-IsStored client_id location_id {client} {location} scope h c l =
      let (fc, fl, ac, al) = load_scope_stored client_id location_id h in
      let (tc, mc) = find_first-some _ db.clients fc in
      let (tl, ml) = find_first-some _ db.locations fl in
      let ec = (eq_iff client.client_id client_id).0 tc in
      let el = (eq_iff location.client_id client_id).0 (ground arith) in
      (client, location, mc, ml, c, l, cc, ac, al)

  quarantined-IsStored :
      (tenant_id site_id : Option String) {scope : ResolvedScope}
      → quarantined db tenant_id site_id ≡ ok scope
      → IsStored db scope
  unfolding quarantined
  quarantined-IsStored tenant_id site_id {scope} h =
      by_load (load_scope db quarantine_client_id quarantine_location_id) refl
    where
      by_load :
          (r : Result (Client × Location))
          → load_scope db quarantine_client_id quarantine_location_id ≡ r
          → IsStored db scope
      by_load (err x) e = absurd (ground arith)
      by_load (ok (client, location)) e =
          let (fc, fl, ac, al) = load_scope_stored quarantine_client_id quarantine_location_id e in
          let (tc, mc) = find_first-some _ db.clients fc in
          let (tl, ml) = find_first-some _ db.locations fl in
          let ec = (eq_iff client.client_id quarantine_client_id).0 tc in
          let el = (eq_iff location.location_id quarantine_location_id).0 (ground arith) in
          load_scope-IsStored quarantine_client_id quarantine_location_id scope e (ground arith)
            (ground arith)

  resolve_canonical-IsStored :
      (fields : ScopeFields) (tenant_id site_id : Option String) {scope : ResolvedScope}
      → resolve_canonical db fields tenant_id site_id ≡ ok scope
      → (client_id location_id : String) × (client : Client) × (location : Location) × (load_scope
            db client_id location_id
          ≡ ok (client, location))
        × (scope.client_id ≡ client.client_id)
        × (scope.location_id ≡ location.location_id)
  unfolding resolve_canonical
  resolve_canonical-IsStored fields tenant_id site_id {scope} h =
      let (raw_client, e, h) = >>=-eq-ok (or_raise fields.client_id (http 422 missing_field)) h in
      let (raw_location, e, h) =
        >>=-eq-ok (or_raise fields.location_id (http 422 missing_field)) h in
      let (client_id, e, h) = >>=-eq-ok (trim_required raw_client "client_id") h in
      let (location_id, e, h) = >>=-eq-ok (trim_required raw_location "location_id") h in
      let (rows, loaded, h) = >>=-eq-ok (load_scope db client_id location_id) h in
      let (e, h) =
        >>-eq-ok
          (raise_if (fields.tenant_field_supplied && not (opt_eq tenant_id rows.0.key))
            (http 422 "tenant_id does not match client_id"))
          h in
      let (e, h) =
        >>-eq-ok
          (raise_if (fields.site_field_supplied && not (opt_eq site_id rows.1.key))
            (http 422 "site_id does not match location_id"))
          h in
      (client_id, location_id, rows.0, rows.1, loaded, ground arith, ground arith)

  locate_lem :
      (c : Option Client) (site_id : Option String) {client : Client} {location : Location}
      → locate db c site_id ≡ some (client, location)
      → (c ≡ some client)
        × (find_first (location_keyed client.client_id site_id) db.locations ≡ some location)
  unfolding locate
  locate_lem none site_id h = cc
  locate_lem (some c) site_id h = ground arith

  legacy_rows_lem :
      (tenant_id site_id : Option String) {client : Client} {location : Location}
      → legacy_rows db tenant_id site_id ≡ some (client, location)
      → Memᴰ client db.clients
        × Memᴰ location db.locations
        × (location.client_id ≡ client.client_id)
  unfolding legacy_rows
  legacy_rows_lem (some t) site_id {client} {location} h =
      let (c, l) = locate_lem _ site_id h in
      let (tc, mc) = find_first-some _ db.clients c in
      let (tl, ml) = find_first-some _ db.locations l in
      (mc, ml, (eq_iff location.client_id client.client_id).0 (ground arith))
  legacy_rows_lem none (some site_id) {client} {location} h =
      let (c, l) = locate_lem _ (some site_id) h in
      let (tc, mc) = find_first-some _ db.clients c in
      let (tl, ml) = find_first-some _ db.locations l in
      (mc, ml, (eq_iff location.client_id client.client_id).0 (ground arith))
  legacy_rows_lem none none h = cc

  resolve_legacy-IsStored :
      (tenant_id site_id : Option String) (rows : Option (Client × Location))
      {scope : ResolvedScope}
      → legacy_rows db tenant_id site_id ≡ rows
      → resolve_legacy db tenant_id site_id rows ≡ ok scope
      → IsStored db scope
  unfolding resolve_legacy
  resolve_legacy-IsStored tenant_id site_id none e h = quarantined-IsStored tenant_id site_id h
  resolve_legacy-IsStored tenant_id site_id (some (client, location)) {scope} e h =
      elim (Bool-cases (row_is_archived client.state || row_is_archived location.state)) [
        | inl t ↦ quarantined-IsStored tenant_id site_id (rw t at h)
        | inr f ↦
            let (mc, ml, same) = legacy_rows_lem tenant_id site_id e in
            (client, location, mc, ml, ground arith, ground arith, same, ground arith, ground arith)
      ]

  -- A scope that is resolved, from whichever fields, names a stored location of a stored client,
  -- neither of which is archived.
  pub resolve_scope-IsStored :
      (fields : ScopeFields) {scope : ResolvedScope}
      → resolve_scope db fields ≡ ok scope
      → IsStored db scope
  unfolding resolve_scope
  resolve_scope-IsStored fields {scope} h =
      let (tenant_id, e, h) = >>=-eq-ok (normalize_optional fields.tenant_id "tenant_id") h in
      let (site_id, e, h) = >>=-eq-ok (normalize_optional fields.site_id "site_id") h in
      elim (either_branch fields.canonical_fields_supplied _ _ h) [
        | inl canonical ↦
            let (c, l, client, location, loaded, p, q) =
              resolve_canonical-IsStored fields tenant_id site_id canonical in
            load_scope-IsStored c l scope loaded p q
        | inr legacy ↦ resolve_legacy-IsStored tenant_id site_id _ refl legacy
      ]
