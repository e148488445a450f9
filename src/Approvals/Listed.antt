-- ===== src/Approvals/Listed.antt =====
-- What the lists of grants and requests show.
use sha.Base.{
  ℕ, ◌≡◌, ◌↔◌, true, List, ok, all, select_where, Memᴰ, mem-select_where, mem-order_by,
  mem-of-order_by, mem-of-select_where, mem-all, all_of_mem,
}
use sha.Model.{Db, ApprovalGrant}
use sha.Model.Tx.{run_tx}
use sha.Outside.{Outside}
use sha.Authz.{Principal}
use sha.Approvals.Grants.{sync_expired_grants, grant_before}
use sha.Approvals.Current.{is_current, sync_expired_grants-current}
use sha.Approvals.Listing.{readable_grant, grants_read, list_approval_grants}

module _ (o : Outside) (now : ℕ) (p : Principal) where
  after_sync_lem :
      (db : Db) {db' : Db}
      → sync_expired_grants o now db ≡ ok (tt, db')
      → list_approval_grants o now p db ≡ (ok (grants_read o now p db'), db')
  unfolding list_approval_grants run_tx
  after_sync_lem db h = cc

  grants_read_iff :
      (db : Db) (g : ApprovalGrant)
      → Memᴰ g (grants_read o now p db) ↔ (Memᴰ g db.grants × (readable_grant p g ≡ true))
  unfolding grants_read
  grants_read_iff db g = (
    (λ m.
        mem-of-select_where (readable_grant p) db.grants
          (mem-of-order_by (grant_before o now) (select_where (readable_grant p) db.grants) m)),
    λ (m, r).
        mem-order_by (grant_before o now) _ (mem-select_where (readable_grant p) db.grants m r),
  )

  -- The list of grants always succeeds. Its rows are the grants of active scope that the caller's
  -- grants let them read, all of these and no others; and no grant, listed or not, is left
  -- approved at its expiry.
  pub list_approval_grants-readable :
      (db : Db)
      → (rows : List ApprovalGrant) × (db' : Db) × (list_approval_grants o now p db
          ≡ (ok rows, db'))
        × ((g : ApprovalGrant) → Memᴰ g rows ↔ (Memᴰ g db'.grants × (readable_grant p g ≡ true)))
        × (all (is_current o now) db'.grants ≡ true)
        × (all (is_current o now) rows ≡ true)
  list_approval_grants-readable db =
      let (db', e, current) = sync_expired_grants-current o now db in
      let rows = grants_read o now p db' in
      (
        rows,
        db',
        after_sync_lem db e,
        grants_read_iff db',
        current,
        all_of_mem (is_current o now) rows
            (λ g m. mem-all (is_current o now) db'.grants current ((grants_read_iff db' g).0 m).0),
      )
