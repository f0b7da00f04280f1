-- ===== src/Authz/Tests.antt =====
-- Concrete runs of the policy router of packages/foundation/authz/src/router.ts: a boundary's bundle is
-- its scope, and one bundle is kept.
use busyclaw.Prelude.{
  ℕ, ◌+◌, ◌≡◌, refl, ◌≤◌, [], ◌∷◌, Bool, some, ◌==◌, length, Ident, Timestamp, arith,
}
use busyclaw.Authz.Router.{Boundary, PolicyRequest, Build, Router, route, drop_rejected, answer}
use busyclaw.Authz.Router.Refinement.{empty, routes, handle_all, route-answer}

abbrev scope_key : Timestamp → Boundary → Ident
scope_key now b = b.scope

abbrev scope_engine : Timestamp → Boundary → Ident
scope_engine now b = b.scope + 1

abbrev second_fails : ℕ → Bool
second_fails n = n == 1

abbrev decide_one : Ident → PolicyRequest → Ident
decide_one engine req = engine + req.rest

abbrev first_request : PolicyRequest
first_request = record { config_scope = some 3; config_scope_id = some 5; rest = 10 }

abbrev second_request : PolicyRequest
second_request = record { config_scope = some 4; config_scope_id = some 5; rest = 20 }

abbrev one_routed : Router
one_routed = (route 1 scope_key first_request 0 1 empty).1

abbrev two_routed : Router
two_routed = (route 1 scope_key second_request 2 3 one_routed).1

one_kept : length two_routed.cache ≡ 1
unfolding route
one_kept = refl

abbrev final : Build × Router
unfolding route drop_rejected handle_all
final =
    route 1 scope_key first_request 4 5
      (handle_all 1 scope_key (routes first_request 0 1 ∷ routes second_request 2 3 ∷ []) empty)

route-answer_example :
    (answer scope_engine second_fails decide_one first_request final.0 ≡ some 14)
    × (length final.1.cache ≤ 1)
unfolding route handle_all final
route-answer_example =
    route-answer 1 scope_key scope_engine second_fails decide_one (λ t u b c e. omega (arith, e))
      (routes first_request 0 1 ∷ routes second_request 2 3 ∷ []) first_request 4 5
      (refl, (refl, tt)) refl
