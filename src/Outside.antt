-- ===== src/Outside.antt =====
-- What the handlers use of code that is not in the repository: random identifiers, the database's
-- order on texts, `json.dumps`, base64, `str.lower`, and the hash functions.
use sha.Base.{ℕ, String, Bool, Option, List}
use sha.Model.{Fields}

pub record Outside : Type 0 where
  -- The hexadecimal text of the n-th `uuid4()` drawn.
  pub uuid : ℕ → String
  -- `a <= b` in the database's collation.
  pub id_le : String → String → Bool
  -- The number of bytes of a serialised metadata object.
  pub json_size : Fields → ℕ
  -- `json.dumps` with sorted keys and compact separators.
  pub json_text : Fields → String
  -- `base64.urlsafe_b64decode` of a text that is padded first; `none` where it raises.
  pub decode_base64 : String → Option (List ℕ)
  -- `base64.urlsafe_b64encode`, without the padding.
  pub encode_base64 : List ℕ → String
  -- The key that `_derived_key` derives by HKDF for a purpose.
  pub derived_key : String → String → String
  -- `hmac.new(key, value, sha256)`, as a hexadecimal text and in base64 without the padding.
  pub hmac_text : String → String → String
  pub hmac_base64 : String → String → String
  -- The scheme and the host that `urlsplit` reads, with `://` between.
  pub url_origin : String → String
  -- `str.lower`
  pub lower : String → String
  -- `str.casefold`
  pub casefold : String → String
  -- `sha256(text).hexdigest()`
  pub sha256_hex : String → String
  -- `hmac.new(key, domain + id + secret, sha256).hexdigest()`, with zero bytes between.
  pub hmac_hex : String → String → String → String → String
