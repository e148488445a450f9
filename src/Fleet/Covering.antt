-- ===== src/Fleet/Covering.antt =====
-- The clause that selects tags, views and groups, and what a grant means for one of them.
use sha.Base.{
  String, ◌≡◌, Bool, true, false, ◌&&◌, ◌||◌, Option, none, some, List, [], ◌∷◌, ◌++◌, arith, any,
  any-append, contains, sql_eq, Bool-cases, inl, inr, string_eq,
}
use sha.Model.{ResourceScope, global_scope, client_scope, location_scope}
use sha.Authz.{ScopeType, is_global, ScopeGrant, Principal}
use sha.Fleet.Scopes.{
  ResourceTest, resource_test_holds, resource_clause_holds, resource_tests_of, resource_loop,
  resource_scope_clause,
}

-- Two values that are both present and equal.
abbrev pub both_are : Option String → Option String → Bool
both_are none column = false
both_are (some a) column = sql_eq column a

-- A global grant reaches every resource. A client's grant reaches what belongs to the client or to
-- one of its locations. A location's grant reaches what belongs to its client as a whole, and what
-- belongs to the location. Only a global grant reaches a global resource.
unfoldable pub reaches :
    ScopeType → ResourceScope → Option String → Option String → Option String → Option String → Bool
reaches ScopeType.global scope gc gl c l = true
reaches ScopeType.client global_scope gc gl c l = false
reaches ScopeType.client client_scope gc gl c l = both_are gc c
reaches ScopeType.client location_scope gc gl c l = both_are gc c
reaches ScopeType.location global_scope gc gl c l = false
reaches ScopeType.location client_scope gc gl c l = both_are gc c
reaches ScopeType.location location_scope gc gl c l = both_are gc c && both_are gl l

abbrev pub grant_reaches :
    String → ResourceScope → Option String → Option String → ScopeGrant → Bool
grant_reaches permission scope c l g =
    contains permission g.permissions && reaches g.scope_type scope g.client_id g.location_id c l

tests-reach :
    (t : ScopeType) (s : ResourceScope) (gc gl c l : Option String)
    → is_global t ≡ false
    → any (resource_test_holds s c l) (resource_tests_of t gc gl) ≡ reaches t s gc gl c l
unfolding any resource_test_holds resource_tests_of reaches
tests-reach ScopeType.global s gc gl c l h = cc
tests-reach ScopeType.client s none gl c l h = ground arith
tests-reach ScopeType.client s (some d) gl c l h = ground arith
tests-reach ScopeType.location s none none c l h = ground arith
tests-reach ScopeType.location s none (some k) c l h = ground arith
tests-reach ScopeType.location s (some d) none c l h = ground arith
tests-reach ScopeType.location s (some d) (some k) c l h = ground arith

global-reaches :
    (t : ScopeType) (s : ResourceScope) (gc gl c l : Option String)
    → is_global t ≡ true
    → reaches t s gc gl c l ≡ true
unfolding reaches
global-reaches t s gc gl c l h = ground arith

module _ (permission : String) (s : ResourceScope) (c l : Option String) where
  resource_loop-reaches :
      (tests : List ResourceTest) (gs : List ScopeGrant)
      → resource_clause_holds (resource_loop permission tests gs) s c l
        ≡ (any (resource_test_holds s c l) tests || any (grant_reaches permission s c l) gs)
  unfolding resource_loop resource_clause_holds any
  resource_loop-reaches tests [] = ground arith
  resource_loop-reaches tests (g ∷ gs) = elim (Bool-cases (contains permission g.permissions)) [
    | inl held ↦ elim (Bool-cases (is_global g.scope_type)) [
      | inl everywhere ↦
          ground (arith, global-reaches g.scope_type s g.client_id g.location_id c l everywhere)
      | inr narrow ↦
          let more = resource_tests_of g.scope_type g.client_id g.location_id in
          ground (
            arith,
            resource_loop-reaches (tests ++ more) gs,
            any-append (resource_test_holds s c l) tests more,
            tests-reach g.scope_type s g.client_id g.location_id c l narrow,
          )
    ]
    | inr skipped ↦ ground (
      arith,
      resource_loop-reaches (tests ++ []) gs,
      any-append (resource_test_holds s c l) tests [],
    )
  ]

-- The clause on tags, views and groups selects a row exactly when one of the principal's grants has
-- the permission and reaches the row's scope.
pub resource_scope_clause-reaches :
    (principal : Principal) (permission : String) (s : ResourceScope) (c l : Option String)
    → resource_clause_holds (resource_scope_clause principal permission) s c l
      ≡ any (grant_reaches permission s c l) principal.grants
unfolding resource_scope_clause any
resource_scope_clause-reaches principal permission s c l =
    resource_loop-reaches permission s c l [] principal.grants
