-- ===== src/Gate/Roles.antt =====
-- Which principals the middleware lets through to which paths.
use sha.Base.{
  ℕ, String, ◌≡◌, ◌⊎◌, inl, inr, Bool, true, false, Option, none, some, arith, Result, ok, err,
  HttpError, if◌then◌else◌,
}
use sha.Model.{Db}
use sha.Outside.{Outside}
use sha.Authz.{Principal, is_machine}
use sha.Gate.Paths.{
  HttpRequest, is_agent_path, is_readonly_path, is_reading, artifact_parts, parts_of,
}
use sha.Gate.Sessions.{AppState, browser_session_principal}
use sha.Gate.Admit.{
  is_device_path, authorize_agent, authorize_person, authorize, role_may_read_only,
}
use sha.Gate.Middleware.{
  development_principal, authentication_configured, admit_shared_token, admit_enrollment,
  admit_found, admit_bearer, admit_external, admit_token, admit_browser, admit_principal,
  api_token_middleware,
}

module _ (request : HttpRequest) where
  -- A principal goes on unchanged.
  pub authorize-same :
      (p : Principal) {q : Principal}
      → authorize request p ≡ ok q
      → (q ≡ p) × (authorize request q ≡ ok q)
  unfolding authorize authorize_agent authorize_person
  authorize-same p h = ground arith

  -- Agents and enrolling devices reach the agents' paths only, and people reach none of them.
  pub authorize-separates :
      (p : Principal) → authorize request p ≡ ok p → is_agent_path request ≡ is_machine p.role
  unfolding authorize authorize_agent authorize_person is_agent_path is_device_path
  authorize-separates p h = ground arith

  -- A reader only reads.
  pub authorize-reads :
      (p : Principal)
      → role_may_read_only p.role ≡ true
      → authorize request p ≡ ok p
      → (is_reading request ≡ true)
        × (is_agent_path request ≡ false)
        × (artifact_parts (parts_of request.path) ≡ false)
  unfolding authorize authorize_person is_readonly_path
  authorize-reads p h k = ground arith

  -- What lets a request on lets it on with a principal that may reach its path.
  pub record Passes (r : Result Principal) : Type 0 where
    pub at : {q : Principal} → r ≡ ok q → authorize request q ≡ ok q

  Passes-authorize : (p : Principal) → Passes (authorize request p)
  Passes-authorize p = record { at = λ {q} h. (authorize-same p h).1 }

  Passes-err : (e : HttpError) → Passes (err e)
  Passes-err e = record { at = λ {q} h. cc }

  Passes-if :
      (b : Bool) (m n : Result Principal) → Passes m → Passes n → Passes (if b then m else n)
  Passes-if true m n k l = k
  Passes-if false m n k l = l

  ruleset passing = (Passes-authorize, Passes-err, Passes-if)

  module _ (o : Outside) (app : AppState) (now : ℕ) where
    Passes-admit_shared_token : Passes (admit_shared_token o app now request)
    unfolding admit_shared_token
    Passes-admit_shared_token = search passing depth 20

    Passes-admit_enrollment :
        (parsed : Option (String × String)) → Passes (admit_enrollment o app now request parsed)
    unfolding admit_enrollment
    Passes-admit_enrollment none = Passes-admit_shared_token
    Passes-admit_enrollment (some (id, secret)) = search passing

    Passes-admit_found : (p : Option Principal) → Passes (admit_found o app now request p)
    unfolding admit_found
    Passes-admit_found none = search passing
    Passes-admit_found (some p) = search passing

    Passes-admit_bearer :
        (parsed : Option (String × String)) (db : Db)
        → Passes (admit_bearer o app now request parsed db).0
    unfolding admit_bearer
    Passes-admit_bearer none db = Passes-admit_enrollment _
    Passes-admit_bearer (some (id, secret)) db = Passes-admit_found _

    Passes-admit_external : Passes (admit_external o app now request)
    unfolding admit_external
    Passes-admit_external = search passing depth 20

    Passes-if_pair :
        {A : Type 0} (b : Bool) (m n : Result Principal × A)
        → Passes m.0
        → Passes n.0
        → Passes (if b then m else n).0
    Passes-if_pair true m n k l = k
    Passes-if_pair false m n k l = l

    Passes-admit_token : (db : Db) → Passes (admit_token o app now request db).0
    unfolding admit_token
    Passes-admit_token db =
        search (Passes-err, Passes-if_pair, Passes-admit_external, Passes-admit_bearer)

    Passes-admit_browser :
        (found : Option Principal × Db) → Passes (admit_browser o app now request found).0
    unfolding admit_browser
    Passes-admit_browser (none, left) = Passes-admit_token left
    Passes-admit_browser (some p, left) = search (Passes-authorize, Passes-err, Passes-if_pair)

    admits_cases :
        (db : Db) {p : Principal} {db' : Db}
        → api_token_middleware o app now request db ≡ (ok (some p), db')
        → ((authentication_configured o app now request ≡ true)
            × ((admit_browser o app now request (browser_session_principal o app now request db)).0
                ≡ ok p))
          ⊎ ((authentication_configured o app now request ≡ false)
              × (app.development_open ≡ true)
              × (p ≡ development_principal))
    unfolding api_token_middleware admit_principal
    admits_cases db h = ground arith

    -- A request goes on with a principal only where that may reach its path, or, as the operator of
    -- an open development set-up, where no means of authentication is configured at all.
    pub middleware-authorizes :
        (db : Db) {p : Principal} {db' : Db}
        → api_token_middleware o app now request db ≡ (ok (some p), db')
        → ((authentication_configured o app now request ≡ true) × (authorize request p ≡ ok p))
          ⊎ ((authentication_configured o app now request ≡ false)
              × (app.development_open ≡ true)
              × (p ≡ development_principal))
    middleware-authorizes db {p} h = elim (admits_cases db h) [
      | inl (c, e) ↦
          inl (c, (Passes-admit_browser (browser_session_principal o app now request db)).at e)
      | inr unguarded ↦ inr unguarded
    ]

    -- Where a means of authentication is configured, the requests that go on to the paths of agents
    -- are exactly those whose principal is an agent or an enrolling device.
    pub middleware-separates :
        (db : Db) {p : Principal} {db' : Db}
        → authentication_configured o app now request ≡ true
        → api_token_middleware o app now request db ≡ (ok (some p), db')
        → is_agent_path request ≡ is_machine p.role
    middleware-separates db {p} configured h = elim (middleware-authorizes db h) [
      | inl (c, a) ↦ authorize-separates p a
      | inr (c, d, e) ↦ cc (configured, c)
    ]

    -- A request of a read-only principal goes on only where its method is GET, HEAD or OPTIONS, its
    -- path is no agent's and it does not download an installer's artifact.
    pub middleware-reads :
        (db : Db) {p : Principal} {db' : Db}
        → role_may_read_only p.role ≡ true
        → api_token_middleware o app now request db ≡ (ok (some p), db')
        → (is_reading request ≡ true)
          × (is_agent_path request ≡ false)
          × (artifact_parts (parts_of request.path) ≡ false)
    unfolding development_principal
    middleware-reads db {p} reader h = elim (middleware-authorizes db h) [
      | inl (c, a) ↦ authorize-reads p reader a
      | inr (c, d, e) ↦ cc
    ]
