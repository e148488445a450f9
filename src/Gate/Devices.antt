-- ===== src/Gate/Devices.antt =====
-- What stands behind a device's principal and behind a browser's.
use sha.Base.{ℕ, String, ◌≡◌, refl, true, false, Option, none, some, arith, find_first, str_eq}
use sha.Model.{Db, DeviceCredential, Endpoint, mode_is_device, credential_is_active}
use sha.Outside.{Outside}
use sha.Authz.{Principal}
use sha.Approvals.{endpoint_has_id}
use sha.Identity.{credential_has_id, device_secret_hash, is_past, write_credential}
use sha.Gate.Sessions.{
  AppState, credential_admits, used_credential, device_endpoint, device_principal, admit_device,
  admit_credential, authenticate_device,
}

module _ (o : Outside) (app : AppState) (now : ℕ) where
  admit_steps :
      (c : DeviceCredential) (hash : String) (db : Db) {p : Principal} {db' : Db}
      → admit_credential o app now hash (some c) db ≡ (some p, db')
      → (e : Endpoint) × (find_first (endpoint_has_id c.endpoint_id) db.endpoints ≡ some e)
        × (mode_is_device e.credential_mode ≡ true)
        × (credential_admits now hash c ≡ true)
        × (p ≡ device_principal e c)
        × (db' ≡ write_credential (credential_has_id c.credential_id) (used_credential now) db)
  unfolding admit_credential admit_device device_endpoint
  admit_steps c hash db h = ground arith

  no_credential :
      (hash : String) (db : Db) {p : Principal} {db' : Db}
      → admit_credential o app now hash none db ≡ (some p, db')
      → ⊥
  unfolding admit_credential
  no_credential hash db h = ground arith

  admits :
      (hash : String) (c : DeviceCredential)
      → credential_admits now hash c ≡ true
      → (str_eq hash c.secret_hash ≡ true)
        × (credential_is_active c.status ≡ true)
        × (is_past now c.expires_at ≡ false)
  unfolding credential_admits
  admits hash c h = ground arith

  -- A device is authenticated only by the credential that it names: the secret's hash is the one
  -- that is stored, the credential is active and has not expired, its endpoint is in device mode,
  -- and the principal stands for these two. Nothing is written but the time of the use.
  pub authenticate_device-credential :
      (key credential_id secret : String) (db : Db) {p : Principal} {db' : Db}
      → authenticate_device o app now (some key) credential_id secret db ≡ (some p, db')
      → (c : DeviceCredential) × (e : Endpoint) × (find_first
            (credential_has_id credential_id)
            db.credentials
          ≡ some c)
        × (find_first (endpoint_has_id c.endpoint_id) db.endpoints ≡ some e)
        × (str_eq (device_secret_hash o key credential_id secret) c.secret_hash ≡ true)
        × (credential_is_active c.status ≡ true)
        × (is_past now c.expires_at ≡ false)
        × (mode_is_device e.credential_mode ≡ true)
        × (p ≡ device_principal e c)
        × (db' ≡ write_credential (credential_has_id c.credential_id) (used_credential now) db)
  unfolding authenticate_device
  authenticate_device-credential key credential_id secret db {p} {db'} h =
      by_row (find_first (credential_has_id credential_id) db.credentials) refl
    where
      hash : String
      hash = device_secret_hash o key credential_id secret

      by_row :
          (r : Option DeviceCredential)
          → find_first (credential_has_id credential_id) db.credentials ≡ r
          → (c : DeviceCredential) × (e : Endpoint) × (find_first
                (credential_has_id credential_id)
                db.credentials
              ≡ some c)
            × (find_first (endpoint_has_id c.endpoint_id) db.endpoints ≡ some e)
            × (str_eq (device_secret_hash o key credential_id secret) c.secret_hash ≡ true)
            × (credential_is_active c.status ≡ true)
            × (is_past now c.expires_at ≡ false)
            × (mode_is_device e.credential_mode ≡ true)
            × (p ≡ device_principal e c)
            × (db' ≡ write_credential (credential_has_id c.credential_id) (used_credential now) db)
      by_row none q = absurd (no_credential _ db (rw (q, authenticate_device) at h))
      by_row (some c) q =
          let (e, fe, mode, fits, same, after) =
            admit_steps c _ db (rw (q, authenticate_device) at h) in
          let (a, b, d) = admits _ c fits in (c, e, q, fe, a, b, d, mode, same, after)
