-- ===== src/Approvals/Checks.antt =====
-- backend/app/api/endpoints/approvals.py: what a request or a grant must look like.
use Prim.Native.String.{◌++◌}
use sha.Base.{
  ℕ, ◌+◌, ◌*◌, ◌/◌, ◌%◌, ◌-◌, min, String, Bool, true, false, not, ◌&&◌, ◌||◌, List, [], ◌∷◌,
  Result, ok, err, http, ◌>>=◌, ◌>>◌, raise_if, if◌then◌else◌, leb, ltb, ◌==◌, any, contains,
  has_duplicates, string_eq,
}
use sha.Text.{trim_required}
use sha.Model.{
  Action, collect_security_context, collect_remediation_evidence, inspect_control, apply_control,
  rollback_control, request_elevated_troubleshooting, action_eq, TroubleshootingScope, scope_eq,
  RequestKind, hardening_change, elevated_troubleshooting,
}

-- `action in _HARDENING_ACTIONS`
abbrev pub is_hardening : Action → Bool
is_hardening apply_control = true
is_hardening rollback_control = true
is_hardening _ = false

-- `action in _TROUBLESHOOTING_ACTIONS`
abbrev pub is_troubleshooting : Action → Bool
is_troubleshooting request_elevated_troubleshooting = true
is_troubleshooting collect_security_context = true
is_troubleshooting collect_remediation_evidence = true
is_troubleshooting inspect_control = true
is_troubleshooting _ = false

abbrev pub is_nil {ℓ} : {A : Type ℓ} → List A → Bool
is_nil [] = true
is_nil (_ ∷ _) = false

-- `_APPROVAL_TTL_BOUNDS_MINUTES`
abbrev pub minimum_ttl : ℕ
minimum_ttl = 15

abbrev pub maximum_ttl : ℕ
maximum_ttl = 240

abbrev digit : ℕ → String
digit n =
    if n == 0
    then "0"
    else if n == 1
    then "1"
    else if n == 2
    then "2"
    else if n == 3
    then "3"
    else if n == 4
    then "4"
    else if n == 5
    then "5"
    else if n == 6
    then "6"
    else if n == 7
    then "7"
    else if n == 8
    then "8"
    else "9"

-- A number below a thousand in decimal.
unfoldable pub decimal : ℕ → String
decimal n =
    if ltb n 10
    then digit n
    else if ltb n 100
    then digit (n / 10) ++ digit (n % 10)
    else (digit (n / 100) ++ digit (n / 10 % 10)) ++ digit (n % 10)

-- The next full minute, where the instant is not one.
unfoldable pub ceil_minute : ℕ → ℕ
ceil_minute t = if t % 60 == 0 then t else t - t % 60 + 60

-- `_validate_grant_expiry`; the time to live is in minutes, the instants are in seconds.
unfoldable pub validate_grant_expiry : ℕ → ℕ → ℕ → Result ℕ
unfolding ceil_minute
validate_grant_expiry expires_at now maximum_ttl_minutes =
    let ttl = min maximum_ttl_minutes maximum_ttl in
    if not
      (leb (now + 60 * minimum_ttl) expires_at && leb expires_at (ceil_minute (now + 60 * ttl)))
    then err (
        http 422 (
          (("expires_at must be between " ++ decimal minimum_ttl) ++ " and ")
          ++ (decimal ttl ++ " minutes from creation time")))
    else ok expires_at

-- A list comprehension over a check.
unfoldable pub map_result : {A B : Type 0} → (A → Result B) → List A → Result (List B)
map_result f [] = ok []
map_result f (x ∷ xs) = f x >>= λ y. map_result f xs >>= λ ys. ok (y ∷ ys)

-- `_normalize_control_ids`
unfoldable pub normalize_control_ids : List String → Result (List String)
unfolding map_result
normalize_control_ids raw_control_ids = do
  control_ids ← map_result (λ c. trim_required c "control_id") raw_control_ids
  raise_if (has_duplicates control_ids) (http 422 "duplicate control_ids are not allowed")
  ok control_ids

-- `_normalize_troubleshooting_scopes`; a member of the enumeration is normalised already.
unfoldable pub normalize_troubleshooting_scopes :
    List TroubleshootingScope → Result (List TroubleshootingScope)
normalize_troubleshooting_scopes scopes = do
  raise_if (has_duplicates scopes) (http 422 "duplicate troubleshooting_scopes are not allowed")
  ok scopes

-- `_normalize_actions`
unfoldable pub normalize_actions : List Action → Result (List Action)
normalize_actions actions = do
  raise_if (has_duplicates actions) (http 422 "duplicate allowed_actions are not allowed")
  ok actions

-- `_validate_request_shape`
unfoldable pub validate_request_shape :
    RequestKind → List Action → List String → List TroubleshootingScope → Result (Unit {0})
validate_request_shape hardening_change requested_actions control_ids scopes = do
  raise_if (is_nil requested_actions || any (λ a. not (is_hardening a)) requested_actions)
      (http 422 "hardening_change requests may only use apply_control or rollback_control")
  raise_if (is_nil control_ids) (http 422 "hardening_change requests require control_ids")
  raise_if (not (is_nil scopes))
      (http 422 "hardening_change requests must not include troubleshooting_scopes")
validate_request_shape elevated_troubleshooting requested_actions control_ids scopes = do
  raise_if (not (contains request_elevated_troubleshooting requested_actions))
      (http 422 "elevated_troubleshooting requests must include request_elevated_troubleshooting")
  raise_if (any (λ a. not (is_troubleshooting a)) requested_actions)
      (http 422 "elevated_troubleshooting requests may only use bounded troubleshooting actions")
  raise_if (not (is_nil control_ids))
      (http 422 "elevated_troubleshooting requests must not include control_ids")
  raise_if (is_nil scopes)
      (http 422 "elevated_troubleshooting requests require troubleshooting_scopes")

troubleshooting_grant_shape :
    List Action → List String → List TroubleshootingScope → Result (Unit {0})
troubleshooting_grant_shape allowed_actions control_ids scopes = do
  raise_if (not (contains request_elevated_troubleshooting allowed_actions))
      (http 422 "elevated troubleshooting grants must include request_elevated_troubleshooting")
  raise_if (any (λ a. not (is_troubleshooting a)) allowed_actions)
      (http 422 "elevated troubleshooting grants may only use bounded troubleshooting actions")
  raise_if (not (is_nil control_ids))
      (http 422 "elevated troubleshooting grants must not include control_ids")
  raise_if (is_nil scopes)
      (http 422 "elevated troubleshooting grants require troubleshooting_scopes")

hardening_grant_shape : List Action → List String → List TroubleshootingScope → Result (Unit {0})
hardening_grant_shape allowed_actions control_ids scopes = do
  raise_if (is_nil allowed_actions || any (λ a. not (is_hardening a)) allowed_actions)
      (http 422 "hardening grants may only use apply_control or rollback_control")
  raise_if (is_nil control_ids) (http 422 "hardening grants require control_ids")
  raise_if (not (is_nil scopes))
      (http 422 "hardening grants must not include troubleshooting_scopes")

-- `_validate_manual_grant_shape`
unfoldable pub validate_manual_grant_shape :
    List Action → List String → List TroubleshootingScope → Result (Unit {0})
unfolding troubleshooting_grant_shape hardening_grant_shape
validate_manual_grant_shape allowed_actions control_ids scopes =
    let has_hardening_signal = any is_hardening allowed_actions || not (is_nil control_ids) in
    let has_troubleshooting_signal =
      any is_troubleshooting allowed_actions || not (is_nil scopes) in
    if has_hardening_signal && has_troubleshooting_signal
    then err (
        http 422
          "manual approval grants must represent either hardening changes or elevated troubleshooting, not both")
    else if has_troubleshooting_signal
    then troubleshooting_grant_shape allowed_actions control_ids scopes
    else hardening_grant_shape allowed_actions control_ids scopes
