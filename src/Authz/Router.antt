-- ===== src/Authz/Router.antt =====
-- The per-organization policy router: packages/foundation/authz/src/router.ts. Parameters stand for what
-- its configuration brings: `key_for` (the key of a boundary's bundle, as of an instant), `engine_for`
-- (the engine that a build at that instant compiles), `fails` (which builds are rejected) and `decide`
-- (the answer of an engine). The key is awaited first, and the build reads the store again later.
pub mod Refinement
use busyclaw.Prelude.{
  ℕ, suc, Bool, not, ◌&&◌, Option, none, some, List, [], ◌∷◌, ◌++◌, ◌==◌, ltb, if◌then◌else◌,
  filter, length, Ident, Timestamp,
}
use busyclaw.Storage.Table.{find_one}

pub record Boundary : Type 0 where
  pub scope : Ident
  pub scope_id : Ident

-- What the router reads of a request, and the rest.
pub record PolicyRequest : Type 0 where
  pub config_scope : Option Ident
  pub config_scope_id : Option Ident
  pub rest : Ident

abbrev pub default_max_bundles : ℕ
default_max_bundles = 64

-- `UNSCOPED`, by reserved labels.
abbrev pub unscoped : Boundary
unscoped = record { scope = 0; scope_id = 0 }

abbrev pub boundary_of : Option Ident → Option Ident → Boundary
boundary_of (some scope) (some scope_id) = record { scope = scope; scope_id = scope_id }
boundary_of (some scope) none = unscoped
boundary_of none (some scope_id) = unscoped
boundary_of none none = unscoped

-- The promise of a build: its number tells it from the others, and `key` is what it was cached under.
pub record Build : Type 0 where
  pub number : ℕ
  pub key : Ident
  pub started_at : Timestamp
  pub boundary : Boundary

pub record Entry : Type 0 where
  pub key : Ident
  pub pending : Build

-- The cache, oldest entry first, and the number of the next build.
pub record Router : Type 0 where
  pub cache : List Entry
  pub next_build : ℕ

abbrev pub has_key : Ident → Entry → Bool
has_key key e = e.key == key

abbrev pub delete_key : Ident → List Entry → List Entry
delete_key key cache = filter (λ e. not (has_key key e)) cache

-- The oldest entries go while there are too many.
abbrev pub evict : ℕ → List Entry → List Entry
evict max_bundles [] = []
evict max_bundles (e ∷ cache) =
    let rest = evict max_bundles cache in
    if ltb max_bundles (length (e ∷ cache)) then rest else e ∷ cache

module _ (max_bundles : ℕ) (key_for : Timestamp → Boundary → Ident) where
  -- The build that answers a request, and the router after. The key is as of `keyed_at`; a build that
  -- the request starts reads the store at `started_at`.
  unfoldable pub route : PolicyRequest → (keyed_at started_at : Timestamp) → Router → Build × Router
  unfolding find_one
  route req keyed_at started_at r =
      let boundary = boundary_of req.config_scope req.config_scope_id in
      let key = key_for keyed_at boundary in
      let pending : Build = record {
        number = r.next_build;
        key = key;
        started_at = started_at;
        boundary = boundary;
      } in
      elim (find_one (has_key key) r.cache) [
        | some cached ↦ (
          cached.pending,
          record r {
            cache = delete_key key r.cache ++ record { key = key; pending = cached.pending } ∷ [];
          },
        )
        | none ↦ (
          pending,
          record {
            cache = evict max_bundles (r.cache ++ record { key = key; pending = pending } ∷ []);
            next_build = suc r.next_build;
          },
        )
      ]

-- A build that was rejected leaves the cache, unless another one has taken its place.
unfoldable pub drop_rejected : Build → Router → Router
unfolding find_one
drop_rejected build r = elim (find_one (has_key build.key) r.cache) [
  | some cached ↦
      if cached.pending.number == build.number
      then record r { cache = delete_key build.key r.cache }
      else r
  | none ↦ r
]

module _ {Engine Answer : Type 0} (engine_for : Timestamp → Boundary → Engine) (fails : ℕ → Bool)
    (decide : Engine → PolicyRequest → Answer) where
  -- What a request gets once its build has settled. `none`: the build was rejected.
  unfoldable pub answer : PolicyRequest → Build → Option Answer
  answer req build =
      if fails build.number
      then none
      else some (decide (engine_for build.started_at build.boundary) req)
