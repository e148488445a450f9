-- ===== src/Authz/Clauses.antt =====
-- backend/app/authorization.py: the filters that a query adds for a principal. A clause is
-- kept as a value and read row by row, where a comparison with an absent column does not hold.
use sha.Base.{
  String, Bool, true, ◌&&◌, Option, none, some, List, [], ◌∷◌, ◌++◌, if◌then◌else◌, contains, any,
  sql_eq, string_eq,
}
use sha.Authz.Grants.{ScopeType, client, location, is_global, ScopeGrant, Principal}

-- One comparison that is appended to `clauses`.
pub data Test : Type 0 where
  client_is : String → Test
  place_is : String → String → Test

-- `true()`, or the disjunction of the tests; `false()` is the empty one.
pub data Clause : Type 0 where
  everything : Clause
  any_of : List Test → Clause

unfoldable pub test_holds : Option String → Option String → Test → Bool
test_holds client_column location_column (client_is c) = sql_eq client_column c
test_holds client_column location_column (place_is c l) =
    sql_eq client_column c && sql_eq location_column l

-- Whether a row with these two columns is selected.
unfoldable pub clause_holds : Clause → Option String → Option String → Bool
unfolding test_holds
clause_holds everything client_column location_column = true
clause_holds (any_of tests) client_column location_column =
    any (test_holds client_column location_column) tests

-- What a grant that is not global appends.
unfoldable pub tests_of : ScopeType → Option String → Option String → List Test
tests_of client (some c) l = client_is c ∷ []
tests_of location (some c) (some l) = place_is c l ∷ []
tests_of _ _ _ = []

-- The loop of `scope_clause`.
unfoldable pub scope_loop : String → List Test → List ScopeGrant → Clause
unfolding tests_of
scope_loop permission clauses [] = any_of clauses
scope_loop permission clauses (g ∷ gs) =
    let held = contains permission g.permissions in
    let more = if held then tests_of g.scope_type g.client_id g.location_id else [] in
    let rest = scope_loop permission (clauses ++ more) gs in
    if held && is_global g.scope_type then everything else rest

unfoldable pub scope_clause : Principal → String → Clause
unfolding scope_loop
scope_clause principal permission = scope_loop permission [] principal.grants

unfoldable pub client_tests_of : Option String → List Test
client_tests_of none = []
client_tests_of (some c) = client_is c ∷ []

-- The loop of `client_scope_clause`.
unfoldable pub client_loop : String → List Test → List ScopeGrant → Clause
unfolding client_tests_of
client_loop permission clauses [] = any_of clauses
client_loop permission clauses (g ∷ gs) =
    let held = contains permission g.permissions in
    let more = if held then client_tests_of g.client_id else [] in
    let rest = client_loop permission (clauses ++ more) gs in
    if held && is_global g.scope_type then everything else rest

unfoldable pub client_scope_clause : Principal → String → Clause
unfolding client_loop
client_scope_clause principal permission = client_loop permission [] principal.grants
