-- ===== src/Egress/Floor/Laws.antt =====
-- What an allowed request went through (packages/foundation/egress/src/index.ts).
use busyclaw.Prelude.{
  Bool, true, Bool-cases, Option, none, some, Option-cases, inl, inr, List, [], ◌∷◌, ◌≡◌, refl, All,
  arith,
}
use busyclaw.Egress.Address.{Text}
use busyclaw.Egress.Ranges.{blocked_address_reason}
use busyclaw.Egress.Floor.{
  Url, Resolved, Decision, allowed, Resolution, resolved_to, resolve, not_injected, lookup_threw,
  bare_host, ip_kind, protocol_allowed, first_blocked, judge, judge_resolved, assert_egress_allowed,
}

pub Unblocked : List Resolved → Type 0
Unblocked resolved = All (λ r. blocked_address_reason r.address ≡ none) resolved

first_blocked-none : (resolved : List Resolved) → first_blocked resolved ≡ none → Unblocked resolved
unfolding first_blocked Unblocked
first_blocked-none [] h = tt
first_blocked-none (r ∷ resolved) h = elim (Option-cases (blocked_address_reason r.address)) [
  | inl eq ↦ (eq, first_blocked-none resolved (ground (arith, eq)))
  | inr found ↦ absurd (ground (arith, found.1))
]

none-first_blocked : (resolved : List Resolved) → Unblocked resolved → first_blocked resolved ≡ none
unfolding first_blocked Unblocked
none-first_blocked [] h = refl
none-first_blocked (r ∷ resolved) h = rw (h.0, first_blocked) (none-first_blocked resolved h.1)

-- The resolution that a decision rests on: not empty, without a blocked address, its first the one that is
-- pinned.
pub IsPinnedFrom : Resolution → Decision → Type 0
IsPinnedFrom resolution d =
    (r : Resolved) × ((rest : List Resolved) × ((resolution ≡ resolved_to (r ∷ rest))
        × (Unblocked (r ∷ rest) × ((d.pinned_address ≡ r.address) × (d.pinned_family ≡ r.family)))))

judge-allowed :
    (url : Text) (resolved : List Resolved) (d : Decision)
    → judge url resolved ≡ allowed d
    → (d.url ≡ url) × IsPinnedFrom (resolved_to resolved) d
unfolding judge IsPinnedFrom
judge-allowed url [] d h = absurd (ground (arith, h))
judge-allowed url (r ∷ rest) d h = elim (Option-cases (first_blocked (r ∷ rest))) [
  | inr blocked ↦ absurd (ground (arith, h, blocked.1))
  | inl clear ↦
      let same : record { url = url; pinned_address = r.address; pinned_family = r.family } ≡ d =
        ground (arith, h, clear) in
      (
        ground (arith, same),
        (
          r,
          (
            rest,
            (
              refl,
              (first_blocked-none (r ∷ rest) clear, (ground (arith, same), ground (arith, same))),
            ),
          ),
        ),
      )
]

resolution-allowed :
    (url : Text) (resolution : Resolution) (d : Decision)
    → judge_resolved url resolution ≡ allowed d
    → (d.url ≡ url) × IsPinnedFrom resolution d
resolution-allowed url (resolved_to resolved) d h = judge-allowed url resolved d h
resolution-allowed url not_injected d h = absurd (ground (arith, h))
resolution-allowed url lookup_threw d h = absurd (ground (arith, h))

-- A request that the floor allows has a URL that parses, with a protocol that may be used, and its decision
-- is pinned to the first address of one resolution of its host, none of whose addresses is blocked.
pub allowed_checked :
    (parse : Text → Option Url) (insecure : Bool) (lookup : Option (Text → Option (List Resolved)))
    (url : Text) (d : Decision)
    → assert_egress_allowed parse insecure lookup url ≡ allowed d
    → (u : Url) × ((parse url ≡ some u)
        × ((protocol_allowed insecure u.protocol ≡ true)
            × ((d.url ≡ url)
                × IsPinnedFrom
                    (resolve lookup (bare_host u.hostname) (ip_kind (bare_host u.hostname)))
                    d)))
unfolding assert_egress_allowed
allowed_checked parse insecure lookup url d h = elim (Option-cases (parse url)) [
  | inl absent ↦ absurd (ground (arith, h, absent))
  | inr (u, there) ↦ elim (Bool-cases (protocol_allowed insecure u.protocol)) [
    | inl ok ↦ (u, (there, (ok, resolution-allowed url _ d (ground (arith, h, there, ok)))))
    | inr refused ↦ absurd (ground (arith, h, there, refused))
  ]
]

judge-Unblocked :
    (url : Text) (r : Resolved) (rest : List Resolved)
    → Unblocked (r ∷ rest)
    → judge url (r ∷ rest)
      ≡ allowed (record { url = url; pinned_address = r.address; pinned_family = r.family })
unfolding judge
judge-Unblocked url r rest clear = rw (none-first_blocked (r ∷ rest) clear, judge) refl

-- The floor allows a request, pinned to the first address of the resolution, whose URL parses, whose protocol may
-- be used, and whose host resolves to at least one address with none of them blocked.
pub allowed_complete :
    (parse : Text → Option Url) (insecure : Bool) (lookup : Option (Text → Option (List Resolved)))
    (url : Text) (u : Url) (r : Resolved) (rest : List Resolved)
    → parse url ≡ some u
    → protocol_allowed insecure u.protocol ≡ true
    → resolve lookup (bare_host u.hostname) (ip_kind (bare_host u.hostname))
      ≡ resolved_to (r ∷ rest)
    → Unblocked (r ∷ rest)
    → assert_egress_allowed parse insecure lookup url
      ≡ allowed (record { url = url; pinned_address = r.address; pinned_family = r.family })
unfolding assert_egress_allowed judge
allowed_complete parse insecure lookup url u r rest there ok found clear =
    rw (there, assert_egress_allowed, ok, found) (judge-Unblocked url r rest clear)
