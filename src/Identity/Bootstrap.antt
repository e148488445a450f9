-- ===== src/Identity/Bootstrap.antt =====
-- backend/app/api/endpoints/device_identity.py: the request of an exchange, normalised, and the
-- token in its header.
use sha.Base.{ℕ, zero, suc, String, Option, none, some, Result, ok, ◌>>=◌, if◌then◌else◌, opt_eq}
use sha.Text.{strip, trim_required, normalize_optional}
use sha.Model.{Platform, platform_text, Json, null, text, Fields, field, end}
use sha.Outside.{Outside}
use sha.Authz.{Principal, AuthMethod}
use sha.Identity.Secrets.{after_literal}

-- `EnrollmentExchangeRequest`
pub record ExchangeRequest : Type 0 where
  pub installation_id : String
  pub credential_id : String
  pub credential_secret : String
  pub agent_fingerprint : String
  pub hostname : String
  pub platform : Platform
  pub platform_version : Option String
  pub agent_version : String
  pub protocol_version : String
  pub architecture : String

-- `normalize_agent_fingerprint`
unfoldable pub normalize_agent_fingerprint : Outside → String → Result String
normalize_agent_fingerprint outside value = do
  trimmed ← trim_required value "agent_fingerprint"
  ok (outside.lower trimmed)

-- The request with its texts normalised.
unfoldable pub normalize_exchange : Outside → ExchangeRequest → Result ExchangeRequest
normalize_exchange outside payload = do
  agent_fingerprint ← normalize_agent_fingerprint outside payload.agent_fingerprint
  hostname ← trim_required payload.hostname "hostname"
  platform_version ← normalize_optional payload.platform_version "platform_version"
  agent_version ← trim_required payload.agent_version "agent_version"
  ok (record payload {
    agent_fingerprint = agent_fingerprint;
    hostname = hostname;
    platform_version = platform_version;
    agent_version = agent_version;
  })

abbrev text_or_null : Option String → Json
text_or_null none = null
text_or_null (some s) = text s

-- `request_values`
unfoldable pub request_values : ExchangeRequest → Fields
request_values x = field "installation_id" (text x.installation_id) (
    field "credential_id" (text x.credential_id) (
      field "credential_secret" (text x.credential_secret) (
        field "agent_fingerprint" (text x.agent_fingerprint) (
          field "hostname" (text x.hostname) (
            field "platform" (text (platform_text x.platform)) (
              field "platform_version" (text_or_null x.platform_version) (
                field "agent_version" (text x.agent_version) (
                  field "protocol_version" (text x.protocol_version)
                    (field "architecture" (text x.architecture) end)))))))))

-- `text[n:]`
unfoldable pub drop_chars : ℕ → String → String
drop_chars zero s = s
drop_chars (suc n) String.[] = String.[]
drop_chars (suc n) (String.◌∷◌ c s) = drop_chars n s

-- The bearer token of an `authorization` header.
unfoldable pub bearer_token : Outside → String → String
bearer_token outside authorization = elim (after_literal "bearer " (outside.lower authorization)) [
  | none ↦ ""
  | some rest ↦ strip (drop_chars 7 authorization)
]

-- The token, where it is the one that the principal was made from.
unfoldable pub own_token : Principal → Option (String × String) → Option (String × String)
own_token principal none = none
own_token principal (some (token_id, secret)) = elim principal.auth_method [
  | AuthMethod.enrollment_token ↦
      if opt_eq principal.enrollment_token_id (some token_id) then some (token_id, secret) else none
  | _ ↦ none
]
