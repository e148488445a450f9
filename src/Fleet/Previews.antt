-- ===== src/Fleet/Previews.antt =====
-- What the preview of a dynamic group shows.
use sha.Base.{
  Bool, min, ◌<◌, ◌&&◌, ap, order_by, length-order_by, count-order_by, select_where-select_where, ℕ,
  zero, suc, ◌+◌, ◌≤◌, String, ◌≡◌, refl, ◌∙◌, true, some, List, [], ◌∷◌, arith, ok, length, ltb,
  Memᴰ, All, find_first, select_where, mem-of-order_by, mem-of-select_where,
}
use sha.Text.{trim_required}
use sha.Model.{Db, Endpoint, DynamicGroup, SavedView, SavedViewVersion}
use sha.Model.Tx.{◌>>=◌}
use sha.Outside.{Outside}
use sha.Authz.{Principal}
use sha.Fleet.Views.{view_has_id, version_is, current_view_version}
use sha.Fleet.Groups.{
  Preview, max_group_evaluation_endpoints, take, load_view, is_member, in_preview, preview_rows,
  preview_of, readable_group, preview_dynamic_group, endpoint_before,
}

module _ {ℓ} {A : Type ℓ} where
  length-take : (n : ℕ) (xs : List A) → length (take n xs) ≡ min n (length xs)
  length-take zero xs = omega arith
  length-take (suc n) [] = omega arith
  length-take (suc n) (x ∷ xs) = let r = length-take n xs in omega arith

  -- A list that is cut below the limit was not cut.
  take_all : (n : ℕ) (xs : List A) → length xs < suc n → take n xs ≡ xs
  take_all zero [] h = refl
  take_all zero (x ∷ xs) h = absurd (omega arith)
  take_all (suc n) [] h = refl
  take_all (suc n) (x ∷ xs) h = ap (λ t. x ∷ t) (take_all n xs (omega arith))

  mem-take : (n : ℕ) {x : A} (xs : List A) → Memᴰ x (take n xs) → Memᴰ x xs
  mem-take zero xs m = elim m [ ]
  mem-take (suc n) [] m = elim m [ ]
  mem-take (suc n) (x ∷ xs) (Memᴰ.head e) = Memᴰ.head e
  mem-take (suc n) (x ∷ xs) (Memᴰ.tail m) = Memᴰ.tail (mem-take n xs m)

All-mem_conv {ℓ} :
    {A : Type ℓ} (P : A → Type 0) (xs : List A) → ((x : A) → Memᴰ x xs → P x) → All P xs
All-mem_conv P [] h = tt
All-mem_conv P (x ∷ xs) h = (h x (Memᴰ.head refl), All-mem_conv P xs (λ y m. h y (Memᴰ.tail m)))

module _ (o : Outside) (p : Principal) where
  -- Where a row of the preview comes from.
  shown :
      (group : DynamicGroup) (version : SavedViewVersion) (limit : ℕ) (db : Db) (e : Endpoint)
      → Memᴰ e (
          take limit
            (select_where (is_member o db version.filter_json) (preview_rows o p db group)))
      → Memᴰ e db.endpoints
        × (in_preview o p group e ≡ true)
        × (is_member o db version.filter_json e ≡ true)
  unfolding preview_rows
  shown group version limit db e m =
      let (k, member) =
        mem-of-select_where (is_member o db version.filter_json) _ (mem-take limit _ m) in
      let (stored, readable) = mem-of-select_where (in_preview o p group) db.endpoints (
        mem-of-order_by (endpoint_before o) _
          (mem-take (max_group_evaluation_endpoints + 1) _ k)) in
      (stored, readable, member)

  preview_steps :
      (group : DynamicGroup) (view : SavedView) (version : SavedViewVersion) (limit : ℕ) (db : Db)
      {pv : Preview} {db' : Db}
      → preview_of o p group view version limit db ≡ ok (pv, db')
      → let rows = preview_rows o p db group in
        let matching = select_where (is_member o db version.filter_json) rows in
        (length rows ≤ max_group_evaluation_endpoints)
        × (pv ≡ record {
          group = group;
          view = view;
          version = version;
          evaluated_endpoint_count = length rows;
          matched_endpoint_count = length matching;
          result_limit = limit;
          truncated = ltb limit (length matching);
          items = take limit matching;
        })
        × (db' ≡ db)
  unfolding preview_of ◌>>=◌
  preview_steps group view version limit db h = ground arith

  -- What is evaluated and matches, where the limit of the evaluation was not met.
  preview_counts :
      (group : DynamicGroup) (db : Db) (test : Endpoint → Bool)
      → length (preview_rows o p db group) ≤ max_group_evaluation_endpoints
      → (length (preview_rows o p db group)
          ≡ length (select_where (in_preview o p group) db.endpoints))
        × (length (select_where test (preview_rows o p db group))
            ≡ length (select_where (λ e. in_preview o p group e && test e) db.endpoints))
  unfolding preview_rows
  preview_counts group db test few =
      let chosen = select_where (in_preview o p group) db.endpoints in
      let ordered = order_by (endpoint_before o) chosen in
      let cut = length-take (max_group_evaluation_endpoints + 1) ordered in
      let whole = take_all (max_group_evaluation_endpoints + 1) ordered (omega arith) in
      (
        ap length whole ∙ length-order_by (endpoint_before o) chosen,
        ap (λ t. length (select_where test t)) whole
            ∙ count-order_by test (endpoint_before o) chosen
            ∙ ap length (select_where-select_where test (in_preview o p group) db.endpoints),
      )

  preview_loads :
      (raw_id : String) (limit : ℕ) (db : Db) {pv : Preview} {db' : Db}
      → preview_dynamic_group o p raw_id limit db ≡ ok (pv, db')
      → (id : String) × (group : DynamicGroup) × (view : SavedView) × (version : SavedViewVersion)
        × (trim_required raw_id "dynamic_group_id" ≡ ok id)
        × (find_first (readable_group o p id) db.dynamic_groups ≡ some group)
        × (find_first (view_has_id group.saved_view_id) db.saved_views ≡ some view)
        × (find_first (version_is view.saved_view_id view.current_version) db.view_versions
            ≡ some version)
        × (preview_of o p group view version limit db ≡ ok (pv, db'))
  unfolding preview_dynamic_group load_view current_view_version ◌>>=◌
  preview_loads raw_id limit db h = ground arith

  module _ (raw_id : String) (limit : ℕ) (db : Db) where
    -- A preview that succeeds writes nothing, and is of a stored group that the principal may read,
    -- with its view and the view's current version. It has evaluated all endpoints of the group's
    -- scope that are readable for the principal, at most 10000, and counts those of them that match
    -- the version's filter. It shows as many of these as the limit allows, all of them stored, and
    -- says that it is cut exactly where more match.
    pub preview_bounds :
        {pv : Preview} {db' : Db}
        → preview_dynamic_group o p raw_id limit db ≡ ok (pv, db')
        → (id : String) × (trim_required raw_id "dynamic_group_id" ≡ ok id)
          × (find_first (readable_group o p id) db.dynamic_groups ≡ some pv.group)
          × (find_first (view_has_id pv.group.saved_view_id) db.saved_views ≡ some pv.view)
          × (find_first (version_is pv.view.saved_view_id pv.view.current_version) db.view_versions
              ≡ some pv.version)
          × (db' ≡ db)
          × (pv.evaluated_endpoint_count
              ≡ length (select_where (in_preview o p pv.group) db.endpoints))
          × (pv.evaluated_endpoint_count ≤ max_group_evaluation_endpoints)
          × (pv.matched_endpoint_count
              ≡ length (
                  select_where
                    (λ e. in_preview o p pv.group e && is_member o db pv.version.filter_json e)
                    db.endpoints))
          × (length pv.items ≡ min limit pv.matched_endpoint_count)
          × (pv.truncated ≡ ltb limit pv.matched_endpoint_count)
          × All
              (λ e.
                Memᴰ e db.endpoints
                × (in_preview o p pv.group e ≡ true)
                × (is_member o db pv.version.filter_json e ≡ true))
              pv.items
    preview_bounds {pv} {db'} h =
        let (id, group, view, version, named, fg, fv, fn, rest) = preview_loads raw_id limit db h in
        let (few, same, kept) = preview_steps group view version limit db rest in
        let test = is_member o db version.filter_json in
        let rows = preview_rows o p db group in
        let (evaluated, matched) = preview_counts group db test few in
        (
          id,
          named,
          rw same fg,
          rw same fv,
          rw same fn,
          kept,
          rw same evaluated,
          rw same few,
          rw same matched,
          rw same (length-take limit (select_where test rows)),
          rw same refl,
          rw same (All-mem_conv _ _ (shown group version limit db)),
        )
