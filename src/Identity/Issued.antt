-- ===== src/Identity/Issued.antt =====
-- The exchange and the issue of tokens move the tables by their rules; what a new token is.
use sha.Base.{ℕ, String, ◌≡◌, refl, true, arith, Option, none, some, Bool}
use sha.Model.{
  EnrollmentToken, EnrollmentRedemption, Endpoint, Client, Location, Platform, DeviceCredential,
}
use sha.Model.Tx.{modify}
use sha.Model.Tx.Keeps.{Keeps}
use sha.Outside.{Outside}
use sha.Authz.{Principal}
use sha.Evolution.{
  Evolved, Evolves-add_row, Evolves-update_where, TokenMoves, TokenMoves-refl, CredentialMoves,
  CredentialMoves-refl,
}
use sha.Evolution.Steps.{
  evolved_rules, Evolved-modify, write_tokens, write_credentials, write_endpoints,
  write_redemptions,
}
use sha.Identity.Bootstrap.{ExchangeRequest}
use sha.Identity.Redemption.{
  consumable, consumed, consume, add_endpoint, write_endpoint, add_redemption,
}
use sha.Identity.Exchange.{
  Attempt, record_redemption, replay, record_migration, issue_credential, enroll_endpoint,
  consume_token, claim_installation, redeem, redeem_or_replay, exchange_attempt,
  exchange_enrollment_token,
}
use sha.Identity.Credentials.{add_credential}
use sha.Identity.Issuing.{
  TokenPayload, Target, add_token, token_target, issue_token, create_enrollment_token,
}

-- A token that is used once more still has a use left before.
consumed_moves :
    (now : ℕ) (id : String) (t : EnrollmentToken)
    → consumable now id t ≡ true
    → TokenMoves t (consumed now t)
unfolding consumed
consumed_moves now id t h = record {
  id = refl;
  secret = refl;
  expiry = refl;
  limit = refl;
  uses = omega arith;
  bound = λ b. ground arith;
  revocation = λ n e. e;
}

Evolved-consume : (now : ℕ) (id : String) → Keeps Evolved (modify (consume now id))
unfolding consume
Evolved-consume now id = Evolved-modify _ λ db.
    write_tokens db _
      (Evolves-update_where TokenMoves TokenMoves-refl _ _ (consumed_moves now id) db.tokens)

Evolved-add_token : (t : EnrollmentToken) → Keeps Evolved (modify (add_token t))
unfolding add_token
Evolved-add_token t =
    Evolved-modify _
      λ db. write_tokens db _ (Evolves-add_row TokenMoves TokenMoves-refl t db.tokens)

Evolved-add_credential : (c : DeviceCredential) → Keeps Evolved (modify (add_credential c))
unfolding add_credential
Evolved-add_credential c = Evolved-modify _ λ db.
    write_credentials db _ (Evolves-add_row CredentialMoves CredentialMoves-refl c db.credentials)

Evolved-add_redemption : (r : EnrollmentRedemption) → Keeps Evolved (modify (add_redemption r))
unfolding add_redemption
Evolved-add_redemption r =
    Evolved-modify _
      λ db. write_redemptions db _ (Evolves-add_row (λ x y. x ≡ y) (λ x. refl) r db.redemptions)

pub Evolved-add_endpoint : (e : Endpoint) → Keeps Evolved (modify (add_endpoint e))
unfolding add_endpoint
Evolved-add_endpoint e = Evolved-modify _ λ db. write_endpoints db _

pub Evolved-write_endpoint :
    (test : Endpoint → Bool) (change : Endpoint → Endpoint)
    → Keeps Evolved (modify (write_endpoint test change))
unfolding write_endpoint
Evolved-write_endpoint test change = Evolved-modify _ λ db. write_endpoints db _

ruleset exchange_rules = (
  evolved_rules, Evolved-consume, Evolved-add_token, Evolved-add_credential, Evolved-add_redemption,
  Evolved-add_endpoint, Evolved-write_endpoint,
)

module _ (o : Outside) (now : ℕ) (p : Principal) where
  Evolved-token_target :
      (client_id location_id : String) (platform : Option Platform) (id : Option String)
      → Keeps Evolved (token_target client_id location_id platform id)
  unfolding token_target
  Evolved-token_target client_id location_id platform none = search exchange_rules
  Evolved-token_target client_id location_id platform (some id) = search exchange_rules depth 30

  Evolved-issue_token :
      (key secret : String) (payload : TokenPayload) (client_id location_id : String) (t : Target)
      → Keeps Evolved (issue_token o now p key secret payload client_id location_id t)
  unfolding issue_token
  Evolved-issue_token key secret payload client_id location_id t = search exchange_rules depth 30

  pub Evolved-create_enrollment_token :
      (key : Option String) (secret : String) (payload : TokenPayload)
      → Keeps Evolved (create_enrollment_token o now p key secret payload)
  unfolding create_enrollment_token
  Evolved-create_enrollment_token key secret payload =
      search (exchange_rules, Evolved-token_target, Evolved-issue_token) depth 40

  module _ (x : Attempt) where
    Evolved-replay : (r : EnrollmentRedemption) → Keeps Evolved (replay o now p x r)
    unfolding replay record_redemption
    Evolved-replay r = search exchange_rules depth 40

    Evolved-record_migration :
        (legacy : Option Endpoint) (e : Endpoint)
        → Keeps Evolved (record_migration o now p x legacy e)
    unfolding record_migration
    Evolved-record_migration none e = search exchange_rules
    Evolved-record_migration (some l) e = search exchange_rules

    Evolved-issue_credential :
        (legacy : Option Endpoint) (e : Endpoint)
        → Keeps Evolved (issue_credential o now p x legacy e)
    unfolding issue_credential record_redemption
    Evolved-issue_credential legacy e = search (exchange_rules, Evolved-record_migration) depth 40

    Evolved-enroll_endpoint :
        (t : EnrollmentToken) (c : Client) (l : Location) (legacy : Option Endpoint)
        → Keeps Evolved (enroll_endpoint o now p x t c l legacy)
    unfolding enroll_endpoint
    Evolved-enroll_endpoint t c l none = search exchange_rules depth 30
    Evolved-enroll_endpoint t c l (some e) = search exchange_rules depth 30

    Evolved-consume_token :
        (t : EnrollmentToken) (c : Client) (l : Location) (legacy : Option Endpoint)
        → Keeps Evolved (consume_token o now p x t c l legacy)
    unfolding consume_token
    Evolved-consume_token t c l legacy =
        search (exchange_rules, Evolved-enroll_endpoint, Evolved-issue_credential) depth 30

    Evolved-claim_installation :
        (t : EnrollmentToken) (c : Client) (l : Location)
        → Keeps Evolved (claim_installation o now p x t c l)
    unfolding claim_installation
    Evolved-claim_installation t c l = search (exchange_rules, Evolved-consume_token) depth 30

    Evolved-redeem : (t : EnrollmentToken) → Keeps Evolved (redeem o now p x t)
    unfolding redeem
    Evolved-redeem t = search (exchange_rules, Evolved-claim_installation) depth 40

    Evolved-redeem_or_replay :
        (t : EnrollmentToken) (r : Option EnrollmentRedemption)
        → Keeps Evolved (redeem_or_replay o now p x t r)
    unfolding redeem_or_replay
    Evolved-redeem_or_replay t none = Evolved-redeem t
    Evolved-redeem_or_replay t (some r) = Evolved-replay r

    Evolved-exchange_attempt : Keeps Evolved (exchange_attempt o now p x)
    unfolding exchange_attempt
    Evolved-exchange_attempt = search (exchange_rules, Evolved-redeem_or_replay) depth 30

  pub Evolved-exchange_enrollment_token :
      (key : Option String) (days : ℕ) (authorization : String) (payload : ExchangeRequest)
      → Keeps Evolved (exchange_enrollment_token o now p key days authorization payload)
  unfolding exchange_enrollment_token
  Evolved-exchange_enrollment_token key days authorization payload =
      search (exchange_rules, Evolved-exchange_attempt) depth 30
