-- ===== src/Prelude/Timing.antt =====
-- Instants and opaque identifiers. The source keeps an instant as an ISO 8601 text in UTC, whose
-- order as a text is its order in time; here it is its number of milliseconds. Identifiers, tokens,
-- hashes and payloads that the code only compares or passes on are numbers too.
use Prim.Native.Nat.{ℕ, ◌+◌}

abbrev pub Timestamp : Type 0
Timestamp = ℕ

abbrev pub Ident : Type 0
Ident = ℕ

-- `addMs`.
abbrev pub add_ms : Timestamp → ℕ → Timestamp
add_ms at ms = at + ms
