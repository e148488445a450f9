-- ===== src/Approvals/Shapes.antt =====
-- The two shapes that an approval may have, and that a manual grant meets the same rule as a
-- request.
use sha.Base.{
  ℕ, ◌≤◌, ◌<◌, ◌+◌, ◌*◌, String, ◌≡◌, refl, ◌↔◌, inl, inr, true, false, not, ◌||◌, arith, List, [],
  ◌∷◌, ok, any, contains, Bool-cases, min,
}
use sha.Model.{
  Action, request_elevated_troubleshooting, action_eq, TroubleshootingScope, RequestKind,
  hardening_change, elevated_troubleshooting,
}
use sha.Approvals.Checks.{
  is_hardening, is_troubleshooting, is_nil, validate_request_shape, validate_manual_grant_shape,
  validate_grant_expiry,
}

-- Every action is of exactly one of the two groups.
any-split :
    (actions : List Action)
    → any (λ a. not (is_hardening a)) actions ≡ any is_troubleshooting actions
unfolding any
any-split [] = refl
any-split (a ∷ actions) = ground (arith, any-split actions)

any-split_back :
    (actions : List Action)
    → any (λ a. not (is_troubleshooting a)) actions ≡ any is_hardening actions
unfolding any
any-split_back [] = refl
any-split_back (a ∷ actions) = ground (arith, any-split_back actions)

-- A list that asks for elevated troubleshooting has an action of that group.
contains-any :
    (actions : List Action)
    → contains request_elevated_troubleshooting actions ≡ true
    → any is_troubleshooting actions ≡ true
unfolding contains any
contains-any [] h = cc
contains-any (a ∷ actions) h = ground (arith, contains-any actions)

any_of_nil : (actions : List Action) → is_nil actions ≡ true → any is_hardening actions ≡ false
unfolding any
any_of_nil [] h = refl
any_of_nil (a ∷ actions) h = cc

module _ (actions : List Action) (controls : List String) (scopes : List TroubleshootingScope) where
  grant-request :
      validate_manual_grant_shape actions controls scopes ≡ ok tt
      → (kind : RequestKind) × (validate_request_shape kind actions controls scopes ≡ ok tt)
  unfolding validate_manual_grant_shape validate_request_shape
  grant-request h = elim (Bool-cases (any is_troubleshooting actions || not (is_nil scopes))) [
    | inl e ↦ (elevated_troubleshooting, ground (arith, any-split_back actions))
    | inr e ↦ (hardening_change, ground (arith, any-split actions))
  ]

  request-grant :
      (kind : RequestKind)
      → validate_request_shape kind actions controls scopes ≡ ok tt
      → validate_manual_grant_shape actions controls scopes ≡ ok tt
  unfolding validate_manual_grant_shape validate_request_shape
  request-grant hardening_change h = ground (arith, any-split actions)
  request-grant elevated_troubleshooting h =
      ground (arith, any-split_back actions, contains-any actions)

-- A manual grant is accepted exactly when a request of one of the two kinds with the same
-- actions, controls and scopes would be.
pub manual_grant-iff-request :
    (actions : List Action) (controls : List String) (scopes : List TroubleshootingScope)
    → (validate_manual_grant_shape actions controls scopes ≡ ok tt)
      ↔ ((kind : RequestKind) × (validate_request_shape kind actions controls scopes ≡ ok tt))
manual_grant-iff-request actions controls scopes =
    (grant-request actions controls scopes, λ h. request-grant actions controls scopes h.0 h.1)

-- An accepted expiry lies at least 15 minutes ahead, and at most the time to live, which is cut
-- at 240 minutes, ahead, with less than one minute of rounding added; it is returned unchanged.
pub validate_grant_expiry_bounds :
    (expires_at now ttl : ℕ) {t : ℕ}
    → validate_grant_expiry expires_at now ttl ≡ ok t
    → (t ≡ expires_at) × (now + 60 * 15 ≤ t) × (t < now + 60 * min ttl 240 + 60)
unfolding validate_grant_expiry
validate_grant_expiry_bounds expires_at now ttl h = ground arith
