-- ===== src/Identity/Secrets.antt =====
-- backend/app/device_identity.py: the texts of enrollment tokens and device credentials, and the
-- keyed hashes of their secrets.
use Prim.Native.Char.{Char, code}
use Prim.Native.String.{◌++◌, count}
use sha.Base.{
  ℕ, String, Bool, true, false, ◌&&◌, ◌||◌, Option, none, some, if◌then◌else◌, leb, ◌==◌, str_eq,
  length,
}
use sha.Model.{Fields}
use sha.Outside.{Outside}

abbrev between : ℕ → ℕ → ℕ → Bool
between low high n = leb low n && leb n high

-- `[0-9a-f]`
abbrev pub is_hex_digit : Char → Bool
is_hex_digit c = let n = code c in between 48 57 n || between 97 102 n

-- `[A-Za-z0-9_-]`
abbrev pub is_url_char : Char → Bool
is_url_char c =
    let n = code c in
    between 48 57 n || (between 65 90 n || (between 97 122 n || (n == 95 || n == 45)))

-- `.`
abbrev pub is_dot : Char → Bool
is_dot c = code c == 46

abbrev pub every : (Char → Bool) → String → Bool
every test String.[] = true
every test (String.◌∷◌ c s) = test c && every test s

-- What follows a literal at the start of a pattern.
unfoldable pub after_literal : String → String → Option String
after_literal String.[] s = some s
after_literal (String.◌∷◌ c p) String.[] = none
after_literal (String.◌∷◌ c p) (String.◌∷◌ d s) =
    let rest = after_literal p s in if code c == code d then rest else none

abbrev pub put_before : Char → Option (String × String) → Option (String × String)
put_before c none = none
put_before c (some (a, b)) = some (String.◌∷◌ c a, b)

-- The two groups of a pattern: neither may hold the dot between them.
unfoldable pub at_dot : String → Option (String × String)
at_dot String.[] = none
at_dot (String.◌∷◌ c s) =
    let rest = at_dot s in if is_dot c then some (String.[], s) else put_before c rest

-- A literal, and characters of one class in a number that lies between two bounds.
unfoldable pub has_shape : String → (Char → Bool) → ℕ → ℕ → String → Bool
unfolding after_literal
has_shape literal class low high s = elim (after_literal literal s) [
  | none ↦ false
  | some rest ↦ every class rest && between low high (count rest)
]

-- `et_[0-9a-f]{32}`
unfoldable pub is_token_id : String → Bool
unfolding has_shape
is_token_id id = has_shape "et_" is_hex_digit 32 32 id

-- `CREDENTIAL_ID_PATTERN`
unfoldable pub is_canonical_credential_id : String → Bool
unfolding has_shape
is_canonical_credential_id id = has_shape "dc_" is_url_char 16 64 id

-- `[A-Za-z0-9_-]{43,128}`
unfoldable pub is_secret_text : String → Bool
unfolding has_shape
is_secret_text secret = has_shape "" is_url_char 43 128 secret

module _ (outside : Outside) where
  -- `is_canonical_secret`
  unfoldable pub is_canonical_secret : String → Bool
  is_canonical_secret value = between 43 128 (count value) && elim (outside.decode_base64 value) [
    | none ↦ false
    | some raw ↦ leb 32 (length raw) && str_eq (outside.encode_base64 raw) value
  ]

  unfoldable pub groups : (String → Bool) → Option (String × String) → Option (String × String)
  groups is_id none = none
  groups is_id (some (id, secret)) =
      if is_id id && (is_secret_text secret && is_canonical_secret secret)
      then some (id, secret)
      else none

  -- A prefix, an identifier and a secret, with a dot between them.
  unfoldable pub parse_material : String → (String → Bool) → String → Option (String × String)
  parse_material prefix is_id value = elim (after_literal prefix value) [
    | none ↦ none
    | some body ↦ groups is_id (at_dot body)
  ]

  -- `parse_enrollment_token`
  unfoldable pub parse_enrollment_token : String → Option (String × String)
  unfolding parse_material
  parse_enrollment_token value = parse_material "sha_enroll." is_token_id value

  -- `parse_device_credential`
  unfoldable pub parse_device_credential : String → Option (String × String)
  unfolding parse_material
  parse_device_credential value = parse_material "sha_device." is_canonical_credential_id value

  -- `enrollment_secret_hash`
  unfoldable pub enrollment_secret_hash : String → String → String → String
  enrollment_secret_hash key token_id secret =
      outside.hmac_hex key "sha/enrollment-token/v1" token_id secret

  -- `device_secret_hash`
  unfoldable pub device_secret_hash : String → String → String → String
  device_secret_hash key credential_id secret =
      outside.hmac_hex key "sha/device-credential/v1" credential_id secret

  -- `exchange_request_hash`
  unfoldable pub exchange_request_hash : String → String → Fields → String
  exchange_request_hash key token_id values =
      outside.hmac_hex key "sha/enrollment-exchange/v1" token_id (outside.json_text values)

-- The text that `generate_enrollment_token` returns with a secret.
unfoldable pub enrollment_token_text : String → String → String
enrollment_token_text token_id secret = ("sha_enroll." ++ token_id) ++ ("." ++ secret)
