-- ===== src/Evolution/Steps.antt =====
-- What each way to write a table does to the database as a whole.
use sha.Base.{
  ℕ, suc, subst, if◌then◌else◌, ◌≡◌, refl, none, some, ok, find_first, Bool, List, String,
  HttpError, Result, Option,
}
use sha.Model.{
  Db, AuditEvent, ApprovalRequestEvent, EnrollmentRedemption, ApprovalRequest, ApprovalGrant,
  ResponseAction, DeviceCredential, EnrollmentToken, Endpoint,
}
use sha.Model.Tx.{Tx, pure, raise, gets, check, or_raise, raise_if, modify, ◌>>=◌}
use sha.Model.Tx.Keeps.{
  Keeps, Keeps-pure, Keeps-raise, Keeps-gets, Keeps-check, Keeps-or_raise, Keeps-if, Keeps-raise_if,
  Keeps-modify, Keeps-bind,
}
use sha.Outside.{Outside}
use sha.Ids.{generate_prefixed_id}
use sha.Authz.{AuditCall, record_audit_event}
use sha.Evolution.Tables.{Evolves, Evolves-add_row}
use sha.Evolution.Moves.{RequestMoves, GrantMoves, ActionMoves, CredentialMoves, TokenMoves}
use sha.Evolution.Order.{Evolved, Appends, Evolved-refl, Evolved-order}

module _ {ℓ} {A : Type ℓ} where
  pub Evolved-pure : (a : A) → Keeps Evolved (pure a)
  Evolved-pure = Keeps-pure Evolved-order

  pub Evolved-raise : (e : HttpError) → Keeps Evolved (raise {A = A} e)
  Evolved-raise = Keeps-raise Evolved-order

  pub Evolved-gets : (f : Db → A) → Keeps Evolved (gets f)
  Evolved-gets = Keeps-gets Evolved-order

  pub Evolved-check : (r : Result A) → Keeps Evolved (check r)
  Evolved-check = Keeps-check Evolved-order

  pub Evolved-or_raise : (o : Option A) (e : HttpError) → Keeps Evolved (or_raise o e)
  Evolved-or_raise = Keeps-or_raise Evolved-order

  pub Evolved-if :
      (b : Bool) (m n : Tx A)
      → Keeps Evolved m
      → Keeps Evolved n
      → Keeps Evolved (if b then m else n)
  Evolved-if = Keeps-if Evolved-order

pub Evolved-raise_if : (b : Bool) (e : HttpError) → Keeps Evolved (raise_if b e)
Evolved-raise_if = Keeps-raise_if Evolved-order

pub Evolved-bind :
    {A B : Type 0} (m : Tx A) (f : A → Tx B)
    → Keeps Evolved m
    → ((a : A) → Keeps Evolved (f a))
    → Keeps Evolved (m >>= f)
Evolved-bind = Keeps-bind Evolved-order

-- What is written outside the tables of `Evolved` leaves them as they are.
Evolved-draw_step : (db : Db) → Evolved db (record db { draws = suc db.draws })
Evolved-draw_step db =
    let e = Evolved-refl db in
    record {
      requests = e.requests;
      grants = e.grants;
      actions = e.actions;
      credentials = e.credentials;
      tokens = e.tokens;
      request_events = e.request_events;
      redemptions = e.redemptions;
      audit = e.audit;
    }

pub Evolved-draw :
    (outside : Outside) (prefix : String) → Keeps Evolved (generate_prefixed_id outside prefix)
unfolding generate_prefixed_id
Evolved-draw outside prefix = record {
  at = λ db h. subst (λ x. Evolved db x) (cc) (Evolved-draw_step db);
}

-- One table is written, by a relation that holds of its two versions.
module _ (db : Db) where
  pub write_requests :
      (rows : List ApprovalRequest)
      → Evolves RequestMoves db.requests rows
      → Evolved db (record db { requests = rows })
  write_requests rows h =
      let e = Evolved-refl db in
      record {
        requests = h;
        grants = e.grants;
        actions = e.actions;
        credentials = e.credentials;
        tokens = e.tokens;
        request_events = e.request_events;
        redemptions = e.redemptions;
        audit = e.audit;
      }

  pub write_grants :
      (rows : List ApprovalGrant)
      → Evolves GrantMoves db.grants rows
      → Evolved db (record db { grants = rows })
  write_grants rows h =
      let e = Evolved-refl db in
      record {
        requests = e.requests;
        grants = h;
        actions = e.actions;
        credentials = e.credentials;
        tokens = e.tokens;
        request_events = e.request_events;
        redemptions = e.redemptions;
        audit = e.audit;
      }

  pub write_actions :
      (rows : List ResponseAction)
      → Evolves ActionMoves db.actions rows
      → Evolved db (record db { actions = rows })
  write_actions rows h =
      let e = Evolved-refl db in
      record {
        requests = e.requests;
        grants = e.grants;
        actions = h;
        credentials = e.credentials;
        tokens = e.tokens;
        request_events = e.request_events;
        redemptions = e.redemptions;
        audit = e.audit;
      }

  pub write_credentials :
      (rows : List DeviceCredential)
      → Evolves CredentialMoves db.credentials rows
      → Evolved db (record db { credentials = rows })
  write_credentials rows h =
      let e = Evolved-refl db in
      record {
        requests = e.requests;
        grants = e.grants;
        actions = e.actions;
        credentials = h;
        tokens = e.tokens;
        request_events = e.request_events;
        redemptions = e.redemptions;
        audit = e.audit;
      }

  pub write_tokens :
      (rows : List EnrollmentToken)
      → Evolves TokenMoves db.tokens rows
      → Evolved db (record db { tokens = rows })
  write_tokens rows h =
      let e = Evolved-refl db in
      record {
        requests = e.requests;
        grants = e.grants;
        actions = e.actions;
        credentials = e.credentials;
        tokens = h;
        request_events = e.request_events;
        redemptions = e.redemptions;
        audit = e.audit;
      }

  pub write_request_events :
      (rows : List ApprovalRequestEvent)
      → Appends db.request_events rows
      → Evolved db (record db { request_events = rows })
  write_request_events rows h =
      let e = Evolved-refl db in
      record {
        requests = e.requests;
        grants = e.grants;
        actions = e.actions;
        credentials = e.credentials;
        tokens = e.tokens;
        request_events = h;
        redemptions = e.redemptions;
        audit = e.audit;
      }

  pub write_redemptions :
      (rows : List EnrollmentRedemption)
      → Appends db.redemptions rows
      → Evolved db (record db { redemptions = rows })
  write_redemptions rows h =
      let e = Evolved-refl db in
      record {
        requests = e.requests;
        grants = e.grants;
        actions = e.actions;
        credentials = e.credentials;
        tokens = e.tokens;
        request_events = e.request_events;
        redemptions = h;
        audit = e.audit;
      }

  pub write_audit :
      (rows : List AuditEvent) → Appends db.audit rows → Evolved db (record db { audit = rows })
  write_audit rows h =
      let e = Evolved-refl db in
      record {
        requests = e.requests;
        grants = e.grants;
        actions = e.actions;
        credentials = e.credentials;
        tokens = e.tokens;
        request_events = e.request_events;
        redemptions = e.redemptions;
        audit = h;
      }

  pub write_endpoints : (rows : List Endpoint) → Evolved db (record db { endpoints = rows })
  write_endpoints rows =
      let e = Evolved-refl db in
      record {
        requests = e.requests;
        grants = e.grants;
        actions = e.actions;
        credentials = e.credentials;
        tokens = e.tokens;
        request_events = e.request_events;
        redemptions = e.redemptions;
        audit = e.audit;
      }

pub Evolved-modify : (f : Db → Db) → ((db : Db) → Evolved db (f db)) → Keeps Evolved (modify f)
Evolved-modify = Keeps-modify Evolved-order

pub Evolved-audit :
    (outside : Outside) (now : ℕ) (call : AuditCall)
    → Keeps Evolved (record_audit_event outside now call)
unfolding record_audit_event
Evolved-audit outside now call = Evolved-bind _ _ (Evolved-draw outside "aud") λ id.
    Evolved-modify _ λ db. write_audit db _ (Evolves-add_row (λ x y. x ≡ y) (λ x. refl) _ db.audit)

-- A row is loaded, and what follows may use that it was found.
pub Evolved-loaded :
    {A B : Type 0} (table : Db → List A) (test : A → Bool) (e : HttpError) (k : A → Tx B)
    → ((db : Db) (a : A) (b : B) (db' : Db)
        → find_first test (table db) ≡ some a
        → k a db ≡ ok (b, db')
        → Evolved db db')
    → Keeps Evolved (gets table >>= (λ rows. or_raise (find_first test rows) e >>= k))
unfolding ◌>>=◌
Evolved-loaded {A} {B} table test e k step = record {
  at = λ db {a} {db'} h. by_row db a db' (find_first test (table db)) refl h;
}
  where
    by_row :
        (db : Db) (b : B) (db' : Db) (r : Option A)
        → find_first test (table db) ≡ r
        → (gets table >>= (λ rows. or_raise (find_first test rows) e >>= k)) db ≡ ok (b, db')
        → Evolved db db'
    by_row db b db' none q h = cc (rw q at h)
    by_row db b db' (some a) q h = step db a b db' q (rw q at h)

pub ruleset evolved_rules = (
  Evolved-pure, Evolved-raise, Evolved-gets, Evolved-check, Evolved-or_raise, Evolved-if,
  Evolved-raise_if, Evolved-bind, Evolved-draw, Evolved-audit,
)
