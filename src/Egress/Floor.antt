-- ===== src/Egress/Floor.antt =====
-- The decision on one outbound request: `assertEgressAllowed` (packages/foundation/egress/src/index.ts).
-- The parsed URL is the platform's: `parse` stands for `new URL` with its protocol and hostname, and `lookup`
-- for the resolver that the caller injects, `none` where it throws.
pub mod Laws
use busyclaw.Prelude.{
  ℕ, Bool, true, false, ◌&&◌, ◌||◌, not, Option, none, some, List, [], ◌∷◌, ◌++◌, ◌==◌,
  if◌then◌else◌, any,
}
use busyclaw.Egress.Address.{Text, parse_ipv4, expand_ipv6}
use busyclaw.Egress.Ranges.{Reason, blocked_address_reason}

pub data Protocol : Type 0 where
  https http other_protocol : Protocol

pub record Url : Type 0 where
  pub protocol : Protocol
  pub hostname : Text

pub record Resolved : Type 0 where
  pub address : Text
  pub family : ℕ

pub record Decision : Type 0 where
  pub url : Text
  pub pinned_address : Text
  pub pinned_family : ℕ

pub data Verdict : Type 0 where
  not_a_url : Verdict
  only_https : Protocol → Verdict
  no_lookup lookup_failed : Verdict
  unresolved : Verdict
  disallowed : Text → Reason → Verdict
  allowed : Decision → Verdict

abbrev pub drop_open : Text → Text
drop_open [] = []
drop_open (x ∷ text) = if x == 91 then text else x ∷ text

abbrev pub drop_close : Text → Text
drop_close [] = []
drop_close (x ∷ []) = if x == 93 then [] else x ∷ []
drop_close (x ∷ y ∷ text) = x ∷ drop_close (y ∷ text)

-- The hostname without the brackets of an IPv6 literal.
abbrev pub bare_host : Text → Text
bare_host text = drop_close (drop_open text)

-- No literal is `none`, where the source says 0.
unfoldable pub ip_kind : Text → Option ℕ
ip_kind host = elim (parse_ipv4 host) [
  | some o ↦ some 4
  | none ↦ elim (expand_ipv6 host) [ some g ↦ some 6 | none ↦ none ]
]

abbrev pub protocol_allowed : Bool → Protocol → Bool
protocol_allowed insecure https = true
protocol_allowed insecure http = insecure
protocol_allowed insecure other_protocol = false

-- The first address that is in a blocked range, with the reason.
unfoldable pub first_blocked : List Resolved → Option (Text × Reason)
first_blocked [] = none
first_blocked (r ∷ resolved) =
    let rest = first_blocked resolved in
    elim (blocked_address_reason r.address) [ some reason ↦ some (r.address, reason) | none ↦ rest ]

abbrev pub judge : Text → List Resolved → Verdict
unfolding first_blocked
judge url [] = unresolved
judge url (r ∷ resolved) = elim (first_blocked (r ∷ resolved)) [
  | some blocked ↦ disallowed blocked.0 blocked.1
  | none ↦ allowed (record { url = url; pinned_address = r.address; pinned_family = r.family })
]

-- The resolver may throw.
pub data Resolution : Type 0 where
  not_injected lookup_threw : Resolution
  resolved_to : List Resolved → Resolution

abbrev pub looked_up : Option (List Resolved) → Resolution
looked_up none = lookup_threw
looked_up (some resolved) = resolved_to resolved

-- A literal is its own resolution.
unfoldable pub resolve : Option (Text → Option (List Resolved)) → Text → Option ℕ → Resolution
resolve lookup host (some family) = resolved_to (record { address = host; family = family } ∷ [])
resolve none host none = not_injected
resolve (some lookup) host none = looked_up (lookup host)

abbrev pub judge_resolved : Text → Resolution → Verdict
judge_resolved url not_injected = no_lookup
judge_resolved url lookup_threw = lookup_failed
judge_resolved url (resolved_to resolved) = judge url resolved

unfoldable pub assert_egress_allowed :
    (Text → Option Url)
    → (insecure : Bool) → Option (Text → Option (List Resolved))
    → Text
    → Verdict
unfolding ip_kind judge resolve
assert_egress_allowed parse insecure lookup url = elim (parse url) [
  | none ↦ not_a_url
  | some parsed ↦
      if protocol_allowed insecure parsed.protocol
      then judge_resolved url
          (resolve lookup (bare_host parsed.hostname) (ip_kind (bare_host parsed.hostname)))
      else only_https parsed.protocol
]
