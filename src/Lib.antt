-- ===== src/Lib.antt =====
-- Verification library of the SHA control plane (backend/app).
--
-- Base holds what the other modules share: the library's names, tests on numbers and texts, lists
-- as tables, results, and sets in lists. Text is the trimming of backend/app/utils.py.
--
-- Model is the database: a record for each table of backend/app/models.py that the modelled parts
-- use, with the enumerations as data types. A handler that works inside `with session.begin()` is a
-- Model.Tx: it takes the database to a result and a new database, and a raised HTTPException is an
-- error that leaves no new database, as the block rolls back. Model.Tx.Keeps relates the databases
-- before and after, by one rule for each way to build a handler.
--
-- Outside holds what the handlers use of code that is not in the repository: random identifiers,
-- of which the database counts those drawn, the collation of the database, the size of serialised
-- JSON and its text, base64, `str.lower`, `str.casefold`, the origin of a URL and the hash
-- functions. The control registry, read from source packs, is a parameter, and so are the parser
-- of dates and the drawn lease token.
--
-- Authz is backend/app/authorization.py and the principal of backend/app/auth.py: what grants
-- permit (Authz.Grants), the clauses that filter rows in queries (Authz.Clauses), and the audit
-- log with its redaction (Authz.Audit). Protocol is backend/app/agent_protocol.py, and Controls
-- the check of backend/app/control_registry.py.
--
-- Approvals is backend/app/api/endpoints/approvals.py: the shapes of requests and grants
-- (Approvals.Checks), expiry (Approvals.Grants), asking and granting by hand (Approvals.Requests),
-- deciding (Approvals.Decide) and the two lists (Approvals.Listing). Actions is
-- backend/app/api/endpoints/response_actions.py: the shape of an action (Actions.Shape), its
-- creation under a grant (Actions.Create), and its lease and result (Actions.Lease). Both call
-- Authz for scope and audit; Actions reads the grants that Approvals writes, after the same
-- synchronisation.
--
-- Identity is backend/app/api/endpoints/device_identity.py and backend/app/device_identity.py: the
-- texts of tokens and credentials and their keyed hashes (Identity.Secrets), the request of an
-- exchange (Identity.Bootstrap), the rows of an exchange (Identity.Redemption) and the exchange,
-- which enrolls an endpoint or replays (Identity.Exchange), the issue and the list of tokens
-- (Identity.Issuing), the state and the revocation of a token (Identity.Tokens), and the rotation
-- and revocation of a device's credential (Identity.Credentials). The drawn secret of a token is a
-- parameter.
--
-- Gate is backend/app/auth.py: which paths are whose (Gate.Paths), the lookups of browser sessions
-- and device credentials with the grants that backend/app/authorization.py loads (Gate.Sessions),
-- what a role may reach (Gate.Admit) and the middleware (Gate.Middleware). A lookup commits on its
-- own, so it takes a database to a value and a database whatever the request comes to.
--
-- Fleet is backend/app/api/endpoints/fleet_metadata.py: the scopes of its resources (Fleet.Scopes),
-- tags (Fleet.Tags), saved views and their versions (Fleet.Views), and dynamic groups with their
-- preview (Fleet.Groups). An error that no handler catches is a response with status 500.
--
-- Endpoints is backend/app/api/endpoints/endpoints.py: the capabilities that an agent declares, with
-- its manifest (Endpoints.Capabilities), the registration of a legacy reporter and the approval of a
-- pending endpoint (Endpoints.Registration), and the heartbeat (Endpoints.Heartbeat), which is told
-- how many actions of Actions the endpoint could claim.
--
-- Hierarchy is backend/app/hierarchy.py: which client and location a request names, by their own
-- identifiers or by the legacy tenant and site.
--
-- Evolution says how each table may change over time, and System joins the handlers to a step
-- relation whose runs are any sequence of them, at any times and for any callers. Checks has a
-- small world, runs in it, and the theorems at concrete inputs.
--
-- How the model reads the code. An instant is a number of seconds, which keeps the order of the
-- stored texts; a JSON column holds what it decodes to; an enumeration that the request schema
-- already limits is a data type, on which normalising is the identity. A handler runs alone on the
-- database, as its transaction does. A row that breaks a unique constraint is refused as the
-- database would, with the answer that the handler gives. A loaded object that is written back is
-- the first row with its key. Loops run over the rows that a query has returned, so that all
-- definitions are structural and no fuel is needed. System has the handlers of Approvals, Actions and
-- Identity; those of Fleet and Endpoints and the lookups of Gate are stated one by one. A permission
-- that a route itself depends on is checked before its handler, and is no part of it here.
--
-- Not modelled: request parsing and response payloads, the HTTP layer, the frontend and the agent,
-- the OIDC login, migrations, installers and source packs, the inventory list and
-- detail of endpoints, and the handlers of the other API parts.
pub mod Actions
pub mod Approvals
pub mod Authz
pub mod Base
pub mod Checks
pub mod Controls
pub mod Endpoints
pub mod Evolution
pub mod Fleet
pub mod Gate
pub mod Hierarchy
pub mod Identity
pub mod Ids
pub mod Model
pub mod Outside
pub mod Protocol
pub mod System
pub mod Text
