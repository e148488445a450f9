-- ===== src/Approvals/Current.antt =====
-- After `_sync_expired_grants` no grant is left that says approved and has run out.
use sha.Base.{
  ℕ, ◌≤◌, ◌<◌, String, ◌≡◌, refl, ap, ◌∙◌, ◌⊎◌, inl, inr, Bool, true, false, ◌&&◌, Option, none,
  some, List, [], ◌∷◌, arith, ok, ltb, ltb_iff, eq_iff, select_where, order_by, Memᴰ,
  mem-select_where, mem-order_by, mem-update_where, Bool-cases, if◌then◌else◌, any, sym, subst, all,
  all_of_mem, not, ◌||◌,
}
use sha.Model.{Db, ApprovalGrant, ApprovalRequest, GrantStatus, grant_is_approved, EventType}
use sha.Model.Tx.{Tx, pure, gets, modify, ◌>>=◌}
use sha.Outside.{Outside}
use sha.Ids.{generate_prefixed_id}
use sha.Approvals.Grants.{
  make_event, add_event, create_event_or_skip, expire_grant, expire_request, sync_request,
  sync_link, sync_grant, sync_loop, sync_expired_grants, grant_has_id, grant_before, event_clashes,
}

-- `m` succeeds and leaves the grants alone.
record Quiet {ℓ} {A : Type ℓ} (m : Tx A) : Type ℓ where
  at : (db : Db) → (a : A) × (db' : Db) × (m db ≡ ok (a, db')) × (db'.grants ≡ db.grants)

module _ {ℓ} {A : Type ℓ} where
  Quiet-pure : (a : A) → Quiet (pure a)
  unfolding pure
  Quiet-pure a = record { at = λ db. (a, db, refl, refl) }

  Quiet-gets : (f : Db → A) → Quiet (gets f)
  unfolding gets
  Quiet-gets f = record { at = λ db. (f db, db, refl, refl) }

  Quiet-if : (b : Bool) (m n : Tx A) → Quiet m → Quiet n → Quiet (if b then m else n)
  Quiet-if true m n k l = k
  Quiet-if false m n k l = l

Quiet-modify : (f : Db → Db) → ((db : Db) → (f db).grants ≡ db.grants) → Quiet (modify f)
unfolding modify
Quiet-modify f h = record { at = λ db. (tt, f db, refl, h db) }

Quiet-draw : (o : Outside) (prefix : String) → Quiet (generate_prefixed_id o prefix)
unfolding generate_prefixed_id
Quiet-draw o prefix = record { at = λ db. (_, _, refl, refl) }

Quiet-bind :
    {A B : Type 0} (m : Tx A) (f : A → Tx B) → Quiet m → ((a : A) → Quiet (f a)) → Quiet (m >>= f)
unfolding ◌>>=◌
Quiet-bind m f k l = record {
  at = λ db.
      let (a, mid, e, same) = k.at db in
      let (b, db', e', same') = (l a).at mid in (b, db', rw (e, ◌>>=◌) e', same' ∙ same);
}

ruleset quiet_rules = (Quiet-pure, Quiet-gets, Quiet-if, Quiet-draw, Quiet-bind)

Quiet-make_event :
    (o : Outside) (id : String) (t : EventType) (actor comment : String) (now : ℕ)
    → Quiet (make_event o id t actor comment now)
unfolding make_event
Quiet-make_event o id t actor comment now = search quiet_rules

Quiet-create_event_or_skip :
    (o : Outside) (id : String) (t : EventType) (actor comment : String) (now : ℕ)
    → Quiet (create_event_or_skip o id t actor comment now)
unfolding create_event_or_skip
Quiet-create_event_or_skip o id t actor comment now =
    Quiet-bind _ _ (Quiet-make_event o id t actor comment now) λ event.
      Quiet-bind _ _ (Quiet-gets _) λ rows.
        Quiet-if (any (event_clashes event) rows) _ _ (Quiet-pure tt)
          (Quiet-modify (add_event event) (λ db. refl))

Quiet-expire_request : (now : ℕ) (id : String) → Quiet (modify (expire_request now id))
unfolding expire_request
Quiet-expire_request now id = Quiet-modify _ (λ db. refl)

module _ (o : Outside) (now : ℕ) where
  Quiet-sync_request : (r : Option ApprovalRequest) → Quiet (sync_request o now r)
  unfolding sync_request
  Quiet-sync_request none = search quiet_rules
  Quiet-sync_request (some r) =
      search (quiet_rules, Quiet-expire_request, Quiet-create_event_or_skip)

  Quiet-sync_link : (id : Option String) → Quiet (sync_link o now id)
  unfolding sync_link
  Quiet-sync_link none = search quiet_rules
  Quiet-sync_link (some id) = search (quiet_rules, Quiet-sync_request)

  -- A grant that says approved is in time, or stands in the rest of the loop as one to expire.
  abbrev IsDue : List ApprovalGrant → ApprovalGrant → Type 0
  IsDue rest g =
      (h : ApprovalGrant) × Memᴰ h rest
      × (h.approval_grant_id ≡ g.approval_grant_id)
      × (h.expires_at ≤ now)

  abbrev Settles : List ApprovalGrant → List ApprovalGrant → Type 0
  Settles rest grants =
      (g : ApprovalGrant)
      → Memᴰ g grants
      → grant_is_approved g.status ≡ true
      → (now < g.expires_at) ⊎ IsDue rest g

  skip_round :
      (h : ApprovalGrant) (rest grants : List ApprovalGrant)
      → now < h.expires_at
      → Settles (h ∷ rest) grants
      → Settles rest grants
  skip_round h rest grants late inv g m a = still (inv g m a)
    where
      still : (now < g.expires_at) ⊎ IsDue (h ∷ rest) g → (now < g.expires_at) ⊎ IsDue rest g
      still (inl t) = inl t
      still (inr (k, Memᴰ.head p, id, due)) =
          absurd (omega (arith, ap (λ (x : ApprovalGrant). x.expires_at) p))
      still (inr (k, Memᴰ.tail n, id, due)) = inr (k, n, id, due)

  -- A row that the update did not select is not the one of this round.
  still-IsDue :
      (h : ApprovalGrant) (rest : List ApprovalGrant) (x : ApprovalGrant)
      → (grant_has_id h.approval_grant_id x && grant_is_approved x.status) ≡ false
      → (now < x.expires_at) ⊎ IsDue (h ∷ rest) x
      → grant_is_approved x.status ≡ true
      → (now < x.expires_at) ⊎ IsDue rest x
  still-IsDue h rest x f (inl t) a = inl t
  still-IsDue h rest x f (inr (k, Memᴰ.tail n, id, due)) a = inr (k, n, id, due)
  still-IsDue h rest x f (inr (k, Memᴰ.head p, id, due)) a = absurd (
      ground (
        arith,
        sym id ∙ ap (λ (y : ApprovalGrant). y.approval_grant_id) p,
        eq_iff x.approval_grant_id h.approval_grant_id,
      ))

  expire_round :
      (h : ApprovalGrant) (rest : List ApprovalGrant) (db : Db)
      → Settles (h ∷ rest) db.grants
      → Settles rest (expire_grant now h.approval_grant_id db).grants
  unfolding expire_grant
  expire_round h rest db inv g m a =
      let (x, mx, e) = mem-update_where _ _ db.grants m in
      elim (Bool-cases (grant_has_id h.approval_grant_id x && grant_is_approved x.status)) [
        | inl t ↦ absurd (gone x (rw t at e) a)
        | inr f ↦ kept x f (rw f at e) (inv x mx)
      ]
    where
      gone :
          (x : ApprovalGrant)
          → g ≡ record x { status = GrantStatus.expired; updated_at = now }
          → grant_is_approved g.status ≡ true
          → ⊥
      gone x e' a' = cc (ap (λ (y : ApprovalGrant). grant_is_approved y.status) e')

      kept :
          (x : ApprovalGrant)
          → (grant_has_id h.approval_grant_id x && grant_is_approved x.status) ≡ false
          → g ≡ x
          → (grant_is_approved x.status ≡ true → (now < x.expires_at) ⊎ IsDue (h ∷ rest) x)
          → (now < g.expires_at) ⊎ IsDue rest g
      kept x f e' due = rw e' (
          still-IsDue h rest x f
            (due (subst (λ (y : ApprovalGrant). grant_is_approved y.status ≡ true) e' a))
            (subst (λ (y : ApprovalGrant). grant_is_approved y.status ≡ true) e' a))

  -- After the loop over `rest`.
  sync_loop-Settles :
      (rest : List ApprovalGrant) (db : Db)
      → Settles rest db.grants
      → (db' : Db) × (sync_loop o now rest db ≡ ok (tt, db')) × Settles [] db'.grants
  unfolding sync_loop sync_grant ◌>>=◌
  sync_loop-Settles [] db inv = (db, refl, inv)
  sync_loop-Settles (h ∷ rest) db inv = elim (Bool-cases (ltb now h.expires_at)) [
    | inl late ↦
        let (db', e, s) =
          sync_loop-Settles rest db (skip_round h rest db.grants ((ltb_iff _ _).0 late) inv) in
        (db', rw (late, ◌>>=◌) e, s)
    | inr due ↦
        let ready = expire_round h rest db inv in
        let (u, mid, q, same) =
          (Quiet-sync_link h.approval_request_id).at (expire_grant now h.approval_grant_id db) in
        let (db', e, s) = sync_loop-Settles rest mid (subst (Settles rest) (sym same) ready) in
        (db', rw (due, q, ◌>>=◌) e, s)
  ]

  -- A grant that says approved expires after now.
  abbrev pub is_current : ApprovalGrant → Bool
  is_current g = not (grant_is_approved g.status) || ltb now g.expires_at

  settled_current :
      (g : ApprovalGrant)
      → (grant_is_approved g.status ≡ true → (now < g.expires_at) ⊎ IsDue [] g)
      → is_current g ≡ true
  settled_current g h = elim (Bool-cases (grant_is_approved g.status)) [
    | inl e ↦ in_time e (h e)
    | inr e ↦ rw e
  ]
    where
      in_time :
          grant_is_approved g.status ≡ true
          → (now < g.expires_at) ⊎ IsDue [] g
          → is_current g ≡ true
      in_time e (inl t) = rw e ((ltb_iff _ _).1 t)
      in_time e (inr (k, m, same, due)) = elim m [ ]

  start_Settles :
      (grants : List ApprovalGrant)
      → Settles
          (order_by (grant_before o now) (select_where (λ g. grant_is_approved g.status) grants))
          grants
  start_Settles grants g m a = elim (Bool-cases (ltb now g.expires_at)) [
    | inl t ↦ inl ((ltb_iff _ _).0 t)
    | inr f ↦ inr (g, mem-order_by _ _ (mem-select_where _ grants m a), refl, ground arith)
  ]

  -- `_sync_expired_grants` always succeeds, and afterwards every grant whose status is approved
  -- expires strictly later than the time of the call.
  pub sync_expired_grants-current :
      (db : Db)
      → (db' : Db) × (sync_expired_grants o now db ≡ ok (tt, db'))
        × (all is_current db'.grants ≡ true)
  unfolding sync_expired_grants ◌>>=◌
  sync_expired_grants-current db =
      let (db', e, s) = sync_loop-Settles _ db (start_Settles db.grants) in
      (db', e, all_of_mem is_current db'.grants (λ g m. settled_current g (s g m)))
