-- ===== src/Evolution/Order.antt =====
-- The relation between an earlier and a later database.
use sha.Base.{◌≡◌, refl, ◌∙◌, List}
use sha.Model.{Db}
use sha.Model.Tx.Keeps.{IsPreorder}
use sha.Evolution.Tables.{Evolves, Evolves-refl, Evolves-trans}
use sha.Evolution.Moves.{
  RequestMoves, GrantMoves, ActionMoves, CredentialMoves, TokenMoves, RequestMoves-refl,
  GrantMoves-refl, ActionMoves-refl, CredentialMoves-refl, TokenMoves-refl, RequestMoves-trans,
  GrantMoves-trans, ActionMoves-trans, CredentialMoves-trans, TokenMoves-trans,
}

-- A table whose rows do not change.
abbrev pub Appends : {A : Type 0} → List A → List A → Type 0
Appends = Evolves (λ x y. x ≡ y)

-- Every table moves by its rule; the audit log, the events and the redemptions only grow.
pub record Evolved (before after : Db) : Type 0 where
  pub requests : Evolves RequestMoves before.requests after.requests
  pub grants : Evolves GrantMoves before.grants after.grants
  pub actions : Evolves ActionMoves before.actions after.actions
  pub credentials : Evolves CredentialMoves before.credentials after.credentials
  pub tokens : Evolves TokenMoves before.tokens after.tokens
  pub request_events : Appends before.request_events after.request_events
  pub redemptions : Appends before.redemptions after.redemptions
  pub audit : Appends before.audit after.audit

pub Appends-refl : {A : Type 0} (xs : List A) → Appends xs xs
Appends-refl xs = Evolves-refl (λ x y. x ≡ y) (λ x. refl) xs

Appends-trans : {A : Type 0} (xs ys zs : List A) → Appends xs ys → Appends ys zs → Appends xs zs
Appends-trans = Evolves-trans (λ x y. x ≡ y) (λ x y z p q. p ∙ q)

pub Evolved-refl : (db : Db) → Evolved db db
Evolved-refl db = record {
  requests = Evolves-refl RequestMoves RequestMoves-refl db.requests;
  grants = Evolves-refl GrantMoves GrantMoves-refl db.grants;
  actions = Evolves-refl ActionMoves ActionMoves-refl db.actions;
  credentials = Evolves-refl CredentialMoves CredentialMoves-refl db.credentials;
  tokens = Evolves-refl TokenMoves TokenMoves-refl db.tokens;
  request_events = Appends-refl db.request_events;
  redemptions = Appends-refl db.redemptions;
  audit = Appends-refl db.audit;
}

pub Evolved-trans : (a b c : Db) → Evolved a b → Evolved b c → Evolved a c
Evolved-trans a b c h k = record {
  requests =
      Evolves-trans RequestMoves RequestMoves-trans a.requests b.requests c.requests h.requests
        k.requests;
  grants = Evolves-trans GrantMoves GrantMoves-trans a.grants b.grants c.grants h.grants k.grants;
  actions =
      Evolves-trans ActionMoves ActionMoves-trans a.actions b.actions c.actions h.actions k.actions;
  credentials =
      Evolves-trans CredentialMoves CredentialMoves-trans a.credentials b.credentials c.credentials
        h.credentials k.credentials;
  tokens = Evolves-trans TokenMoves TokenMoves-trans a.tokens b.tokens c.tokens h.tokens k.tokens;
  request_events =
      Appends-trans a.request_events b.request_events c.request_events h.request_events
        k.request_events;
  redemptions = Appends-trans a.redemptions b.redemptions c.redemptions h.redemptions k.redemptions;
  audit = Appends-trans a.audit b.audit c.audit h.audit k.audit;
}

pub Evolved-order : IsPreorder Evolved
Evolved-order = record { same = Evolved-refl; chain = Evolved-trans }
