-- ===== src/Identity/Rotating.antt =====
-- A rotation leaves one active credential of the endpoint, the new one.
use sha.Base.{
  Bool-cases, List, [], ◌∷◌, refl, find_first-keeps, find_first-add_row, find_first-none_of_any, ℕ,
  String, ◌≡◌, ◌⊎◌, inl, inr, Bool, true, false, not, ◌&&◌, ◌||◌, arith, some, ok, str_eq, str_refl,
  any, all, find_first, update_first, add_row, all-add_row, all-update_first, all_of_none,
}
use sha.Model.{Db, DeviceCredential, credential_is_active}
use sha.Model.Tx.{◌>>=◌}
use sha.Model.Tx.Keeps.{>>=-check, >>=-or_raise}
use sha.Outside.{Outside}
use sha.Ids.{generate_prefixed_id}
use sha.Authz.{Principal, record_audit_event}
use sha.Identity.Secrets.{device_secret_hash}
use sha.Identity.Credentials.{
  Device, require_device_principal, credential_has_id, credential_clashes, write_credential,
  add_credential, replaced, active_credential, finish_rotation, insert_replacement,
  replace_credential, rotate_current, rotate_device_credential,
}

-- A credential that is active on the endpoint is the one with the identifier.
abbrev pub is_only : String → String → DeviceCredential → Bool
is_only id endpoint_id c =
    not (str_eq c.endpoint_id endpoint_id && credential_is_active c.status)
    || credential_has_id id c

-- A write that keeps what a test asks for makes no row pass it.
none_left {ℓ} :
    {A : Type ℓ} (mine : A → Bool) (f : A → A) (test : A → Bool)
    → ((x : A) → test (f x) ≡ test x)
    → (xs : List A) → any test xs ≡ false
    → any test (update_first mine f xs) ≡ false
unfolding any update_first
none_left mine f test keeps [] h = h
none_left mine f test keeps (x ∷ xs) h = elim (Bool-cases (mine x)) [
  | inl e ↦ rw (e, keeps x) h
  | inr e ↦ rw e (ground (arith, none_left mine f test keeps xs))
]

module _ (o : Outside) (now : ℕ) (p : Principal) (current replacement : DeviceCredential) where
  replace_steps :
      (db : Db) {row : DeviceCredential} {db' : Db}
      → replace_credential o now p current replacement db ≡ ok (row, db')
      → (row ≡ replacement)
        × (any (credential_has_id replacement.credential_id) db.credentials ≡ false)
        × (any
              (credential_clashes replacement)
              (update_first (credential_has_id current.credential_id) (replaced now) db.credentials)
            ≡ false)
        × (db'.credentials
            ≡ update_first
                (credential_has_id current.credential_id)
                (λ c. record c { replaced_by_credential_id = some replacement.credential_id })
                (add_row replacement (
                  update_first
                    (credential_has_id current.credential_id)
                    (replaced now)
                    db.credentials)))
  unfolding replace_credential insert_replacement finish_rotation write_credential add_credential
      record_audit_event generate_prefixed_id ◌>>=◌
  replace_steps db h = ground arith

  not_clashing :
      (c : DeviceCredential)
      → credential_clashes replacement c ≡ false
      → is_only replacement.credential_id replacement.endpoint_id c ≡ true
  not_clashing c h = ground arith

  linked_only :
      (c : DeviceCredential)
      → is_only replacement.credential_id replacement.endpoint_id c ≡ true
      → is_only replacement.credential_id replacement.endpoint_id
          (record c { replaced_by_credential_id = some replacement.credential_id })
        ≡ true
  linked_only c h = ground arith

  own_id : is_only replacement.credential_id replacement.endpoint_id replacement ≡ true
  own_id = let r = str_refl replacement.credential_id in ground arith

  replace_single :
      (db : Db) {row : DeviceCredential} {db' : Db}
      → replace_credential o now p current replacement db ≡ ok (row, db')
      → all (is_only replacement.credential_id replacement.endpoint_id) db'.credentials ≡ true
  replace_single db h =
      let (r, fresh, clear, after) = replace_steps db h in
      let test = is_only replacement.credential_id replacement.endpoint_id in
      rw after (
        all-update_first test _ _ linked_only _
          (all-add_row test replacement _ (all_of_none test _ not_clashing _ clear) own_id))

  pub rotate_steps :
      (db : Db) {row : DeviceCredential} {db' : Db}
      → rotate_current o now p current replacement db ≡ ok (row, db')
      → ((str_eq replacement.credential_id current.credential_id ≡ true)
          × (str_eq replacement.secret_hash current.secret_hash ≡ true)
          × (row ≡ current)
          × (db' ≡ db))
        ⊎ ((str_eq replacement.credential_id current.credential_id ≡ false)
            × (replace_credential o now p current replacement db ≡ ok (row, db')))
  unfolding rotate_current ◌>>=◌
  rotate_steps db h = ground arith

-- What the rotation puts in the place of the current credential.
abbrev pub next_credential : Outside → ℕ → String → ℕ → String → String → String → DeviceCredential
next_credential o now key days new_id secret endpoint_id =
    active_credential new_id endpoint_id (device_secret_hash o key new_id secret) now days

module _ (o : Outside) (now : ℕ) (p : Principal) (key : String) (days : ℕ) (new_id secret : String)
    (db : Db) where
  rotation_opens :
      (device : Device) (current : DeviceCredential) {row : DeviceCredential} {db' : Db}
      → require_device_principal p ≡ ok device
      → find_first (credential_has_id device.credential_id) db.credentials ≡ some current
      → rotate_device_credential o now p (some key) days new_id secret db ≡ ok (row, db')
      → (str_eq current.endpoint_id device.endpoint_id ≡ true)
        × (credential_is_active current.status ≡ true)
        × (rotate_current o now p current
              (next_credential o now key days new_id secret current.endpoint_id)
              db
            ≡ ok (row, db'))
  unfolding rotate_device_credential ◌>>=◌
  rotation_opens device current d f h = ground arith

  pub rotation_steps :
      {row : DeviceCredential} {db' : Db}
      → rotate_device_credential o now p (some key) days new_id secret db ≡ ok (row, db')
      → (device : Device) × (current : DeviceCredential) × (require_device_principal p ≡ ok device)
        × (find_first (credential_has_id device.credential_id) db.credentials ≡ some current)
        × (str_eq current.endpoint_id device.endpoint_id ≡ true)
        × (credential_is_active current.status ≡ true)
        × (rotate_current o now p current
              (next_credential o now key days new_id secret current.endpoint_id)
              db
            ≡ ok (row, db'))
  unfolding rotate_device_credential ◌>>=◌
  rotation_steps {row} {db'} h =
      let (device, d, h1) = >>=-check (require_device_principal p) _ db h in
      let (current, f, h2) =
        >>=-or_raise (find_first (credential_has_id device.credential_id) db.credentials) _ _ db
          h1 in
      let (e, a, r) = rotation_opens device current d f h in (device, current, d, f, e, a, r)

  -- The new row is found in the table.
  next_stored :
      (current : DeviceCredential)
      → any (credential_has_id new_id) db.credentials ≡ false
      → str_eq new_id current.credential_id ≡ false
      → let new = next_credential o now key days new_id secret current.endpoint_id in
        find_first (credential_has_id new_id) (
          update_first
            (credential_has_id current.credential_id)
            (λ c. record c { replaced_by_credential_id = some new_id })
            (add_row new (
              update_first
                (credential_has_id current.credential_id)
                (replaced now)
                db.credentials)))
        ≡ some new
  unfolding active_credential replaced
  next_stored current unused other =
      let test = credential_has_id new_id in
      let mine = credential_has_id current.credential_id in
      find_first-keeps test mine _ (λ c. refl) _
        (find_first-add_row test _ _
          (find_first-none_of_any test _
            (none_left mine (replaced now) test (λ c. refl) db.credentials unused))
          (str_refl new_id))
        other

  -- A successful rotation comes from a device whose own credential is stored and active. Either it
  -- names that credential and its secret again, and nothing changes; or the new identifier was
  -- unused, the answer is the new credential, it is stored, and every credential that is active on
  -- the endpoint afterwards has the new identifier.
  pub rotate-single :
      {row : DeviceCredential} {db' : Db}
      → rotate_device_credential o now p (some key) days new_id secret db ≡ ok (row, db')
      → (device : Device) × (current : DeviceCredential) × (require_device_principal p ≡ ok device)
        × (find_first (credential_has_id device.credential_id) db.credentials ≡ some current)
        × (str_eq current.endpoint_id device.endpoint_id ≡ true)
        × (credential_is_active current.status ≡ true)
        × (((str_eq new_id current.credential_id ≡ true)
              × (str_eq (device_secret_hash o key new_id secret) current.secret_hash ≡ true)
              × (row ≡ current)
              × (db' ≡ db))
            ⊎ ((row ≡ next_credential o now key days new_id secret current.endpoint_id)
                × (any (credential_has_id new_id) db.credentials ≡ false)
                × (find_first (credential_has_id new_id) db'.credentials ≡ some row)
                × (all (is_only new_id current.endpoint_id) db'.credentials ≡ true)))
  unfolding active_credential
  rotate-single {row} {db'} h =
      let (device, current, d, f, e, a, r) = rotation_steps h in
      let new = next_credential o now key days new_id secret current.endpoint_id in
      (
        device,
        current,
        d,
        f,
        e,
        a,
        elim (rotate_steps o now p current new db r) [
          | inl replay ↦ inl replay
          | inr (other, g) ↦
              let (same, fresh, clear, after) = replace_steps o now p current new db g in
              let single = replace_single o now p current new db g in
              let stored : find_first (credential_has_id new_id) db'.credentials ≡ some row =
                rw (after, same) (next_stored current fresh other) in
              inr (same, fresh, stored, single)
        ],
      )
