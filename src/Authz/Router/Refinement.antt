-- ===== src/Authz/Router/Refinement.antt =====
-- The router (packages/foundation/authz/src/router.ts) answers as an engine that is built for the request.
use busyclaw.Prelude.{
  ℕ, suc, ◌+◌, ◌≡◌, ◌≢◌, ◌≤◌, ◌<◌, inl, inr, Bool, not, none, some, List, [], ◌∷◌, ◌++◌,
  if◌then◌else◌, length, Ident, Timestamp, arith, ap, sym, ◌∙◌, subst, All, All-append, All-filter,
  All-map, length-append, length-filter-le, Bool-cases, Option-cases,
}
use busyclaw.Storage.Table.{find_one}
use busyclaw.Authz.Router.{
  Boundary, PolicyRequest, boundary_of, Build, Entry, Router, has_key, delete_key, evict, route,
  drop_rejected, answer,
}

abbrev pub empty : Router
empty = record { cache = []; next_build = 0 }

module _ (max_bundles : ℕ) (key_for : Timestamp → Boundary → Ident) where
  -- What happens to the router: a request, whose build (if it starts one) reads the store later than its
  -- key, or the rejection of a build.
  pub data Event : Type 0 where
    routes : PolicyRequest → (keyed_at started_at : Timestamp) → Event
    rejects : Build → Event

  abbrev pub handle : Event → Router → Router
  unfolding route drop_rejected
  handle (routes req keyed_at started_at) r =
      (route max_bundles key_for req keyed_at started_at r).1
  handle (rejects build) r = drop_rejected build r

  unfoldable pub handle_all : List Event → Router → Router
  unfolding handle
  handle_all [] r = r
  handle_all (e ∷ es) r = handle_all es (handle e r)

  -- Nothing that the key of a request is made of is written until its build has read the store.
  abbrev pub IsQuiet : Event → Type 0
  IsQuiet (routes req keyed_at started_at) =
      let boundary = boundary_of req.config_scope req.config_scope_id in
      key_for keyed_at boundary ≡ key_for started_at boundary
  IsQuiet (rejects build) = Unit

  -- An entry holds a build that its key was made for, and the build is not new.
  abbrev IsKeyed : ℕ → Entry → Type 0
  IsKeyed n e = (e.key ≡ key_for e.pending.started_at e.pending.boundary) × (e.pending.number < n)

  abbrev IsApart : List Entry → Type 0
  IsApart [] = Unit
  IsApart (e ∷ cache) = All (λ d. d.key ≢ e.key) cache × IsApart cache

  pub record Inv (r : Router) : Type 0 where
    pub keyed : All (IsKeyed r.next_build) r.cache
    pub apart : IsApart r.cache
    pub bounded : length r.cache ≤ max_bundles

  evict-All :
      (P : Entry → Type 0) (cache : List Entry) → All P cache → All P (evict max_bundles cache)
  evict-All P [] a = tt
  evict-All P (e ∷ cache) a = ground (arith, a, evict-All P cache a.1)

  evict-IsApart : (cache : List Entry) → IsApart cache → IsApart (evict max_bundles cache)
  evict-IsApart [] a = tt
  evict-IsApart (e ∷ cache) a = ground (arith, a, evict-IsApart cache a.1)

  length-evict-le : (cache : List Entry) → length (evict max_bundles cache) ≤ max_bundles
  length-evict-le [] = omega arith
  length-evict-le (e ∷ cache) = ground (arith, length-evict-le cache)

  delete_key-IsApart :
      (key : Ident) (cache : List Entry) → IsApart cache → IsApart (delete_key key cache)
  delete_key-IsApart key [] a = tt
  delete_key-IsApart key (e ∷ cache) a = ground (
    arith,
    delete_key-IsApart key cache a.1,
    All-filter (λ d. d.key ≢ e.key) (λ d. not (has_key key d)) cache a.0,
  )

  append-IsApart :
      (cache : List Entry) (e : Entry)
      → IsApart cache
      → All (λ d. e.key ≢ d.key) cache
      → IsApart (cache ++ e ∷ [])
  append-IsApart [] e a h = (tt, tt)
  append-IsApart (d ∷ cache) e a h =
      (All-append (λ x. x.key ≢ d.key) cache (e ∷ []) a.0 (h.0, tt), append-IsApart cache e a.1 h.1)

  delete_key-gone :
      (key : Ident) (cache : List Entry) → All (λ d. key ≢ d.key) (delete_key key cache)
  delete_key-gone key [] = tt
  delete_key-gone key (e ∷ cache) = ground (arith, delete_key-gone key cache)

  missing-gone :
      (key : Ident) (cache : List Entry)
      → find_one (has_key key) cache ≡ none
      → All (λ d. key ≢ d.key) cache
  unfolding find_one
  missing-gone key [] e = tt
  missing-gone key (d ∷ cache) e = ground (arith, e, missing-gone key cache)

  length-delete_key :
      (key : Ident) (cache : List Entry) (e : Entry)
      → find_one (has_key key) cache ≡ some e
      → length (delete_key key cache) + 1 ≤ length cache
  unfolding find_one
  length-delete_key key [] e h = absurd (cc h)
  length-delete_key key (d ∷ cache) e h =
      ground
        (arith, h, length-delete_key key cache e, length-filter-le (λ x. not (has_key key x)) cache)

  found :
      (P : Entry → Type 0) (key : Ident) (cache : List Entry) (e : Entry)
      → find_one (has_key key) cache ≡ some e
      → All P cache
      → P e × (e.key ≡ key)
  unfolding find_one
  found P key [] e h a = absurd (cc h)
  found P key (d ∷ cache) e h a = elim (Bool-cases (has_key key d)) [
    | inl hit ↦
        let same : d ≡ e = ground (arith, hit, h) in
        (subst P same a.0, ap (λ x. x.key) (sym same) ∙ ground (arith, hit))
    | inr miss ↦ found P key cache e (rw miss at h) a.1
  ]

  route-Inv :
      (req : PolicyRequest) (now later : Timestamp) (r : Router)
      → IsQuiet (routes req now later)
      → Inv r
      → Inv (route max_bundles key_for req now later r).1
  unfolding route
  route-Inv req now later r quiet v =
      let boundary = boundary_of req.config_scope req.config_scope_id in
      let key = key_for now boundary in
      elim (Option-cases (find_one (has_key key) r.cache)) [
        | inl absent ↦
            let entry : Entry = record {
              key = key;
              pending = record {
                number = r.next_build;
                key = key;
                started_at = later;
                boundary = boundary;
              };
            } in
            let all = r.cache ++ entry ∷ [] in
            rw (route, absent)
              record {
                keyed = evict-All (IsKeyed (suc r.next_build)) all (
                    All-append (IsKeyed (suc r.next_build)) r.cache (entry ∷ [])
                      (All-map (λ e k. (k.0, omega (arith, k.1))) r.cache v.keyed)
                      ((quiet, omega arith), tt));
                apart =
                    evict-IsApart all
                      (append-IsApart r.cache entry v.apart (missing-gone key r.cache absent));
                bounded = length-evict-le all;
              }
        | inr (e, hit) ↦
            let entry : Entry = record { key = key; pending = e.pending } in
            let (k, same) = found (IsKeyed r.next_build) key r.cache e hit v.keyed in
            rw (route, hit)
              record {
                keyed =
                    All-append (IsKeyed r.next_build) (delete_key key r.cache) (entry ∷ [])
                      (All-filter (IsKeyed r.next_build) (λ d. not (has_key key d)) r.cache v.keyed)
                      ((sym same ∙ k.0, k.1), tt);
                apart =
                    append-IsApart (delete_key key r.cache) entry
                      (delete_key-IsApart key r.cache v.apart) (delete_key-gone key r.cache);
                bounded = omega (
                  arith,
                  v.bounded,
                  length-append (delete_key key r.cache) (entry ∷ []),
                  length-delete_key key r.cache e hit,
                );
              }
      ]

  drop_rejected-Inv : (build : Build) (r : Router) → Inv r → Inv (drop_rejected build r)
  unfolding drop_rejected
  drop_rejected-Inv build r v =
      let key = build.key in
      let dropped : Inv (record r { cache = delete_key key r.cache }) = record {
        keyed = All-filter (IsKeyed r.next_build) (λ d. not (has_key key d)) r.cache v.keyed;
        apart = delete_key-IsApart key r.cache v.apart;
        bounded = omega (arith, v.bounded, length-filter-le (λ d. not (has_key key d)) r.cache);
      } in
      ground (arith, v, dropped)

  handle_all-Inv : (es : List Event) (r : Router) → All IsQuiet es → Inv r → Inv (handle_all es r)
  unfolding handle_all
  handle_all-Inv [] r quiet v = v
  handle_all-Inv (routes req now later ∷ es) r quiet v =
      handle_all-Inv es _ quiet.1 (route-Inv req now later r quiet.0 v)
  handle_all-Inv (rejects build ∷ es) r quiet v =
      handle_all-Inv es _ quiet.1 (drop_rejected-Inv build r v)

  route_keyed :
      (req : PolicyRequest) (now later : Timestamp) (r : Router)
      → IsQuiet (routes req now later)
      → Inv r
      → let build = (route max_bundles key_for req now later r).0 in
        key_for now (boundary_of req.config_scope req.config_scope_id)
        ≡ key_for build.started_at build.boundary
  unfolding route
  route_keyed req now later r quiet v =
      let key = key_for now (boundary_of req.config_scope req.config_scope_id) in
      elim (Option-cases (find_one (has_key key) r.cache)) [
        | inl absent ↦ rw (route, absent) quiet
        | inr (e, hit) ↦
            let (k, same) = found (IsKeyed r.next_build) key r.cache e hit v.keyed in
            rw (route, hit) (sym same ∙ k.0)
      ]

  -- After any requests and rejections from the empty cache, a request gets what an engine that is built for
  -- its own boundary as of its key would answer, unless the build it waits for is rejected; and the cache
  -- holds no more than the permitted number of bundles. Boundaries share a key only where the engines built
  -- for them are the same, and between the read of a request's key and the read of the store for the build
  -- that it may start, its key does not change.
  pub route-answer :
      {Engine Answer : Type 0} (engine_for : Timestamp → Boundary → Engine) (fails : ℕ → Bool)
      (decide : Engine → PolicyRequest → Answer)
      → ((t u : Timestamp) (b c : Boundary)
          → key_for t b ≡ key_for u c
          → engine_for t b ≡ engine_for u c)
      → (es : List Event) (req : PolicyRequest) (keyed_at started_at : Timestamp) → All IsQuiet es
      → IsQuiet (routes req keyed_at started_at)
      → let routed = route max_bundles key_for req keyed_at started_at (handle_all es empty) in
        (answer engine_for fails decide req routed.0 ≡ (
          if fails routed.0.number
          then none
          else some (
              decide (engine_for keyed_at (boundary_of req.config_scope req.config_scope_id)) req)))
        × (length routed.1.cache ≤ max_bundles)
  unfolding answer
  route-answer engine_for fails decide same es req keyed_at started_at quiet now_quiet =
      let r = handle_all es empty in
      let v =
        handle_all-Inv es empty quiet (record { keyed = tt; apart = tt; bounded = omega arith }) in
      let build = (route max_bundles key_for req keyed_at started_at r).0 in
      (
        ap (λ e. if fails build.number then none else some (decide e req))
            (sym (same _ _ _ _ (route_keyed req keyed_at started_at r now_quiet v))),
        (route-Inv req keyed_at started_at r now_quiet v).bounded,
      )
