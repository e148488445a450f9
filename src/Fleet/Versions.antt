-- ===== src/Fleet/Versions.antt =====
-- A saved view is a log of filters: an update appends one, unless it is the last one again.
use sha.Base.{
  eq_iff, update_first, find_first-some, find_first-update_first, ℕ, ◌+◌, String, ◌≡◌, ◌⊎◌, refl,
  ◌∙◌, sym, ap, inl, inr, Bool, true, false, ◌&&◌, some, List, [], ◌∷◌, ◌++◌, map, arith, ok, err,
  http, all, any, ltb, if◌then◌else◌, str_eq, str_refl, find_first, select_where, add_row, subst,
  select_where-add_row, find_first-select_where, find_first-last, all-append_last,
}
use sha.Text.{trim_required}
use sha.Model.{Db, SavedView, SavedViewVersion, EndpointFilterDefinition}
use sha.Model.Tx.{◌>>=◌}
use sha.Outside.{Outside}
use sha.Ids.{generate_prefixed_id}
use sha.Authz.{Principal, record_audit_event}
use sha.Fleet.Scopes.{is_owner}
use sha.Fleet.Views.{
  ViewAnswer, version_is, version_clashes, add_version, write_view, current_view_version,
  answer_view, filter_hash, version_row, record_version, insert_version, manageable, next_version,
  append_version, revise_view, update_saved_view,
}

-- The versions of one view.
abbrev pub of_view : String → SavedViewVersion → Bool
of_view id v = str_eq v.saved_view_id id

-- The abstract view: the earlier filters, oldest first, and the last.
pub record FilterLog : Type 0 where
  pub earlier : List EndpointFilterDefinition
  pub last : EndpointFilterDefinition

-- What an update means for the log.
unfoldable pub revised : Outside → FilterLog → EndpointFilterDefinition → FilterLog
revised o log filter =
    if str_eq (filter_hash o log.last) (filter_hash o filter)
    then log
    else record { earlier = log.earlier ++ (log.last ∷ []); last = filter }

-- The versions that are stored for a view are a log, numbered upwards, whose last is the current.
pub record IsVersioned (o : Outside) (db : Db) (view : SavedView) : Type 0 where
  pub before : List SavedViewVersion
  pub current : SavedViewVersion
  pub history :
      select_where (of_view view.saved_view_id) db.view_versions ≡ before ++ (current ∷ [])
  pub lower : all (λ v. ltb v.version view.current_version) before ≡ true
  pub number : current.version ≡ view.current_version
  pub owner : current.saved_view_id ≡ view.saved_view_id
  pub hash : current.content_hash ≡ filter_hash o current.filter_json

-- The abstraction.
unfoldable pub log_of :
    {o : Outside} {db : Db} {view : SavedView} → IsVersioned o db view → FilterLog
log_of inv = record {
  earlier = map (λ v. v.filter_json) inv.before;
  last = inv.current.filter_json;
}

module _ (o : Outside) (db : Db) (view : SavedView) (inv : IsVersioned o db view) where
  -- The version that is loaded is the last of the log.
  current_found :
      find_first (version_is view.saved_view_id view.current_version) db.view_versions
      ≡ some inv.current
  current_found =
      let q = version_is view.saved_view_id view.current_version in
      let p = of_view view.saved_view_id in
      let own : q inv.current ≡ true =
        ground (arith, inv.number, str_refl view.saved_view_id, inv.owner) in
      sym (find_first-select_where p q (λ x h. ground arith) db.view_versions)
      ∙ ap (find_first q) inv.history
      ∙ find_first-last (λ v. ltb v.version view.current_version) q (λ x h. ground arith) inv.before
          inv.current inv.lower own

module _ (o : Outside) (now : ℕ) (p : Principal) where
  append_steps :
      (view : SavedView) (filter : EndpointFilterDefinition) (db : Db) {a : ViewAnswer} {db' : Db}
      → append_version o now p view filter db ≡ ok (a, db')
      → let new = version_row o now p view.saved_view_id (view.current_version + 1) filter in
        (any (version_clashes new) db.view_versions ≡ false)
        × (a.view ≡ next_version o now p (view.current_version + 1) view)
        × (db'.view_versions ≡ add_row new db.view_versions)
        × (db'.saved_views
            ≡ update_first
                (manageable o now p view.saved_view_id)
                (λ v. next_version o now p (view.current_version + 1) view)
                db.saved_views)
  unfolding append_version insert_version add_version write_view record_version record_audit_event
      generate_prefixed_id answer_view current_view_version ◌>>=◌
  append_steps view filter db h = ground arith

  revise_steps :
      (view : SavedView) (filter : EndpointFilterDefinition) (current : SavedViewVersion) (db : Db)
      {a : ViewAnswer} {db' : Db}
      → find_first (version_is view.saved_view_id view.current_version) db.view_versions
        ≡ some current
      → revise_view o now p view filter db ≡ ok (a, db')
      → ((str_eq current.content_hash (filter_hash o filter) ≡ true) × (a.view ≡ view) × (db' ≡ db))
        ⊎ ((str_eq current.content_hash (filter_hash o filter) ≡ false)
            × (append_version o now p view filter db ≡ ok (a, db')))
  unfolding revise_view answer_view current_view_version ◌>>=◌
  revise_steps view filter current db fc h = ground arith

  -- The log after a version was appended.
  appended :
      (view : SavedView) (filter : EndpointFilterDefinition) (db db' : Db)
      (inv : IsVersioned o db view)
      → db'.view_versions
        ≡ add_row
            (version_row o now p view.saved_view_id (view.current_version + 1) filter)
            db.view_versions
      → IsVersioned o db' (next_version o now p (view.current_version + 1) view)
  unfolding version_row next_version
  appended view filter db db' inv after =
      let new = version_row o now p view.saved_view_id (view.current_version + 1) filter in
      record {
        before = inv.before ++ (inv.current ∷ []);
        current = new;
        history =
            ap (select_where (of_view view.saved_view_id)) after
            ∙ select_where-add_row (of_view view.saved_view_id) new db.view_versions
                (str_refl view.saved_view_id)
            ∙ ap (λ t. t ++ (new ∷ [])) inv.history;
        lower =
            all-append_last (λ v. ltb v.version view.current_version)
              (λ v. ltb v.version (view.current_version + 1)) (λ v h. ground arith) inv.before
              inv.current inv.lower (let n = inv.number in ground arith);
        number = refl;
        owner = refl;
        hash = refl;
      }

  -- The result at the view and the database that were left.
  moved :
      (log : FilterLog) {v w : SavedView} {d e : Db}
      → v ≡ w
      → d ≡ e
      → (inv : IsVersioned o e w) × (log_of inv ≡ log)
      → (inv : IsVersioned o d v) × (log_of inv ≡ log)
  moved log {v} {w} {d} {e} a b r =
      subst (λ x. (inv : IsVersioned o d x) × (log_of inv ≡ log)) (sym a)
        (subst (λ y. (inv : IsVersioned o y w) × (log_of inv ≡ log)) (sym b) r)

  map-append_last :
      (xs : List SavedViewVersion) (r : SavedViewVersion)
      → map (λ v. v.filter_json) (xs ++ (r ∷ []))
        ≡ map (λ v. v.filter_json) xs ++ (r.filter_json ∷ [])
  map-append_last [] r = refl
  map-append_last (x ∷ xs) r = ap (λ t. x.filter_json ∷ t) (map-append_last xs r)

  revised_same :
      (db : Db) (view : SavedView) (inv : IsVersioned o db view) (filter : EndpointFilterDefinition)
      → str_eq inv.current.content_hash (filter_hash o filter) ≡ true
      → log_of inv ≡ revised o (log_of inv) filter
  unfolding log_of revised
  revised_same db view inv filter h =
      let e : str_eq (filter_hash o inv.current.filter_json) (filter_hash o filter) ≡ true =
        rw inv.hash at h in
      rw e refl

  revised_other :
      (db db' : Db) (view : SavedView) (inv : IsVersioned o db view)
      (filter : EndpointFilterDefinition)
      (after : db'.view_versions
        ≡ add_row
            (version_row o now p view.saved_view_id (view.current_version + 1) filter)
            db.view_versions)
      → str_eq inv.current.content_hash (filter_hash o filter) ≡ false
      → log_of (appended view filter db db' inv after) ≡ revised o (log_of inv) filter
  unfolding log_of revised appended version_row
  revised_other db db' view inv filter after h =
      let e : str_eq (filter_hash o inv.current.filter_json) (filter_hash o filter) ≡ false =
        rw inv.hash at h in
      rw e
        (ap (λ t. record { earlier = t; last = filter }) (map-append_last inv.before inv.current))

  earlier_clashes :
      (view : SavedView) (filter : EndpointFilterDefinition) (rows : List SavedViewVersion)
      → any
          (λ v.
            str_eq v.saved_view_id view.saved_view_id
            && str_eq v.content_hash (filter_hash o filter))
          rows
        ≡ true
      → any
          (version_clashes
            (version_row o now p view.saved_view_id (view.current_version + 1) filter))
          rows
        ≡ true
  unfolding any version_row
  earlier_clashes view filter [] h = h
  earlier_clashes view filter (v ∷ rows) h = ground (arith, earlier_clashes view filter rows)

  -- The view stays found by the search that found it.
  stays_found :
      (id : String) (view : SavedView) (n : ℕ) (rows : List SavedView)
      → find_first (manageable o now p id) rows ≡ some view
      → find_first (manageable o now p id) (
          update_first
            (manageable o now p view.saved_view_id)
            (λ v. next_version o now p n view)
            rows)
        ≡ some (next_version o now p n view)
  unfolding manageable next_version
  stays_found id view n rows h =
      let found = (find_first-some (manageable o now p id) rows h).0 in
      let same : view.saved_view_id ≡ id = (eq_iff view.saved_view_id id).0 (ground arith) in
      subst
        (λ i.
          find_first (manageable o now p id)
            (update_first (manageable o now p i) (λ v. next_version o now p n view) rows)
          ≡ some (next_version o now p n view))
        (sym same)
        (find_first-update_first (manageable o now p id) (λ v. next_version o now p n view) rows h
          found)

  module _ (raw_id : String) (filter : EndpointFilterDefinition) (db : Db) where
    update_opens :
        {a : ViewAnswer} {db' : Db}
        → update_saved_view o now p raw_id filter db ≡ ok (a, db')
        → (id : String) × (view : SavedView) × (trim_required raw_id "saved_view_id" ≡ ok id)
          × (find_first (manageable o now p id) db.saved_views ≡ some view)
          × (is_owner p view.owner_user_id view.owner_actor ≡ true)
          × (revise_view o now p view filter db ≡ ok (a, db'))
    unfolding update_saved_view ◌>>=◌
    update_opens h = ground arith

    -- An update that succeeds is of a stored view that the principal may manage and owns. Where the
    -- versions of that view were a log, numbered upwards with the current one last, they are one
    -- again for the view of the answer, which is the one that the same search finds in the table
    -- afterwards. This log is the one before with the filter behind, or the same log where the
    -- filter's hash is that of the last.
    pub update-refines :
        (inv : (id : String) (view : SavedView)
          → trim_required raw_id "saved_view_id" ≡ ok id
          → find_first (manageable o now p id) db.saved_views ≡ some view
          → IsVersioned o db view)
        {a : ViewAnswer} {db' : Db}
        → update_saved_view o now p raw_id filter db ≡ ok (a, db')
        → (id : String) × (view : SavedView) × (named : trim_required raw_id "saved_view_id"
            ≡ ok id)
          × (found : find_first (manageable o now p id) db.saved_views ≡ some view) × (is_owner p
                view.owner_user_id view.owner_actor
              ≡ true)
          × (find_first (manageable o now p id) db'.saved_views ≡ some a.view)
          × ((after : IsVersioned o db' a.view) × (log_of after
                ≡ revised o (log_of (inv id view named found)) filter))
    update-refines inv {a} {db'} h =
        let (id, view, named, found, owner, rest) = update_opens h in
        let before = inv id view named found in
        let (stored, log) =
          refined id view before found
            (revise_steps view filter before.current db (current_found o db view before) rest) in
        (id, view, named, found, owner, stored, log)
      where
        refined :
            (id : String) (view : SavedView) (before : IsVersioned o db view)
            → find_first (manageable o now p id) db.saved_views ≡ some view
            → (((str_eq before.current.content_hash (filter_hash o filter) ≡ true)
                  × (a.view ≡ view)
                  × (db' ≡ db))
                ⊎ ((str_eq before.current.content_hash (filter_hash o filter) ≡ false)
                    × (append_version o now p view filter db ≡ ok (a, db'))))
            → (find_first (manageable o now p id) db'.saved_views ≡ some a.view)
              × ((after : IsVersioned o db' a.view) × (log_of after
                    ≡ revised o (log_of before) filter))
        refined id view before found (inl (same, v, d)) = (
          rw (d, v) found,
          moved (revised o (log_of before) filter) v d
              (before, revised_same db view before filter same),
        )
        refined id view before found (inr (other, more)) =
            let (clear, v, after, views) = append_steps view filter db more in
            (
              rw (views, v) (stays_found id view (view.current_version + 1) db.saved_views found),
              moved (revised o (log_of before) filter) v refl (
                appended view filter db db' before after,
                revised_other db db' view before filter after other,
              ),
            )

  module _ (raw_id : String) {id : String} (filter : EndpointFilterDefinition) (db : Db)
      {view : SavedView} (trimmed : trim_required raw_id "saved_view_id" ≡ ok id)
      (found : find_first (manageable o now p id) db.saved_views ≡ some view) where
    -- Where the owner asks for a filter whose hash an earlier version has, and the last has not, the
    -- update ends in the error of a unique constraint that the handler does not catch.
    pub update-rejects_earlier :
        (inv : IsVersioned o db view)
        → is_owner p view.owner_user_id view.owner_actor ≡ true
        → any
            (λ v.
              str_eq v.saved_view_id view.saved_view_id
              && str_eq v.content_hash (filter_hash o filter))
            db.view_versions
          ≡ true
        → str_eq inv.current.content_hash (filter_hash o filter) ≡ false
        → update_saved_view o now p raw_id filter db
          ≡ err (http 500 "uq_saved_view_versions_content")
    unfolding update_saved_view revise_view current_view_version append_version insert_version ◌>>=◌
    update-rejects_earlier inv owner earlier other =
        let new = version_row o now p view.saved_view_id (view.current_version + 1) filter in
        let clash = earlier_clashes view filter db.view_versions earlier in
        let fc = current_found o db view inv in ground arith
