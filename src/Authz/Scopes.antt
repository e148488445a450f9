-- ===== src/Authz/Scopes.antt =====
-- The filter of a query and the test of a single scope agree.
use sha.Base.{
  String, ◌≡◌, refl, Bool, true, false, ◌&&◌, ◌||◌, Option, none, some, List, [], ◌∷◌, ◌++◌, arith,
  any, any-append, contains, sql_eq, Bool-cases, inl, inr, string_eq, str_sym,
}
use sha.Authz.Grants.{
  ScopeType, global, client, location, is_global, ScopeGrant, covers, permits, Principal,
  permits_scope,
}
use sha.Authz.Clauses.{Test, test_holds, clause_holds, tests_of, scope_loop, scope_clause}

appends_client :
    (gc gl l : Option String) (c : String)
    → any (test_holds (some c) l) (tests_of client gc gl) ≡ sql_eq gc c
unfolding any test_holds tests_of
appends_client none gl l c = refl
appends_client (some d) gl l c = ground (arith, str_sym c d)

appends_place :
    (gc gl : Option String) (c l : String)
    → any (test_holds (some c) (some l)) (tests_of location gc gl) ≡ (sql_eq gc c && sql_eq gl l)
unfolding any test_holds tests_of
appends_place none gl c l = refl
appends_place (some d) none c l = ground arith
appends_place (some d) (some k) c l = ground (arith, str_sym c d, str_sym l k)

-- With an absent column no comparison holds.
appends_none :
    (s : ScopeType) (gc gl l : Option String) → any (test_holds none l) (tests_of s gc gl) ≡ false
unfolding any test_holds tests_of
appends_none global gc gl l = refl
appends_none client none gl l = refl
appends_none client (some d) gl l = refl
appends_none location none gl l = refl
appends_none location (some d) none l = refl
appends_none location (some d) (some k) l = refl

appends_no_place :
    (gc gl c : Option String) → any (test_holds c none) (tests_of location gc gl) ≡ false
unfolding any test_holds tests_of
appends_no_place none gl c = refl
appends_no_place (some d) none c = refl
appends_no_place (some d) (some k) none = refl
appends_no_place (some d) (some k) (some c) = ground arith

-- What a held grant appends holds of a row exactly when the grant covers the row's scope.
tests_of-covers :
    (s : ScopeType) (g : ScopeGrant) (c l : Option String)
    → is_global s ≡ false
    → any (test_holds c l) (tests_of s g.client_id g.location_id) ≡ covers s g c l
unfolding covers
tests_of-covers global g c l h = cc
tests_of-covers client g none l h = appends_none client g.client_id g.location_id l
tests_of-covers client g (some c) l h = appends_client g.client_id g.location_id l c
tests_of-covers location g none l h = appends_none location g.client_id g.location_id l
tests_of-covers location g (some c) none h = appends_no_place g.client_id g.location_id (some c)
tests_of-covers location g (some c) (some l) h = appends_place g.client_id g.location_id c l

covers_global :
    (s : ScopeType) (g : ScopeGrant) (c l : Option String)
    → is_global s ≡ true
    → covers s g c l ≡ true
unfolding covers
covers_global global g c l h = refl
covers_global client g c l h = cc
covers_global location g c l h = cc

module _ (permission : String) (c l : Option String) where
  abbrev permits_any : List ScopeGrant → Bool
  permits_any = any (λ g. permits g permission c l)

  scope_loop-permits :
      (tests : List Test) (gs : List ScopeGrant)
      → clause_holds (scope_loop permission tests gs) c l
        ≡ (any (test_holds c l) tests || permits_any gs)
  unfolding scope_loop clause_holds any permits
  scope_loop-permits tests [] = ground arith
  scope_loop-permits tests (g ∷ gs) = elim (Bool-cases (contains permission g.permissions)) [
    | inl held ↦ elim (Bool-cases (is_global g.scope_type)) [
      | inl all ↦ ground (arith, covers_global g.scope_type g c l all)
      | inr some_of ↦
          let more = tests_of g.scope_type g.client_id g.location_id in
          ground (
            arith,
            scope_loop-permits (tests ++ more) gs,
            any-append (test_holds c l) tests more,
            tests_of-covers g.scope_type g c l some_of,
          )
    ]
    | inr skipped ↦
        ground (arith, scope_loop-permits (tests ++ []) gs, any-append (test_holds c l) tests [])
  ]

-- A query's `scope_clause` selects a row exactly when `permits_scope` holds of the row's client
-- and location, for every principal and permission, absent columns included.
pub scope_clause-permits_scope :
    (principal : Principal) (permission : String) (c l : Option String)
    → clause_holds (scope_clause principal permission) c l ≡ permits_scope principal permission c l
unfolding scope_clause permits_scope any
scope_clause-permits_scope principal permission c l =
    scope_loop-permits permission c l [] principal.grants
