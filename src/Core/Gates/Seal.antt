-- ===== src/Core/Gates/Seal.antt =====
-- Sealed gates: what a registration can and cannot change.
use busyclaw.Prelude.{
  ◌≡◌, ◌≢◌, inl, inr, true, false, Option, some, List, [], ◌∷◌, ◌==◌, Ident, arith, Bool-cases,
  Option-cases, All,
}
use busyclaw.Storage.Table.{find_one}
use busyclaw.Core.Gates.{Gate, Registry, insert_gate, remove_gate, add_to, register_gate}

module _ {C : Type 0} where
  -- The gate registered under an id.
  abbrev pub find_gate : Ident → List (Gate C) → Option (Gate C)
  find_gate i gates = find_one (λ g. g.id == i) gates

  -- Sealed gates stand first.
  abbrev pub IsSealedFirst : List (Gate C) → Type 0
  IsSealedFirst [] = Unit
  IsSealedFirst (g ∷ gs) =
      (g.is_sealed ≡ false → All (λ h. h.is_sealed ≡ false) gs) × IsSealedFirst gs

  insert-find :
      (i : Ident) (gate g : Gate C) (gates : List (Gate C))
      → gate.id ≢ i
      → find_gate i gates ≡ some g
      → find_gate i (insert_gate gate gates) ≡ some g
  unfolding insert_gate find_one
  insert-find i gate g [] ne e = absurd (cc e)
  insert-find i gate g (h ∷ gates) ne e = ground (arith, insert-find i gate g gates ne)

  remove-find :
      (i j : Ident) (g : Gate C) (gates rest : List (Gate C))
      → remove_gate i gates ≡ some rest
      → g.is_sealed ≡ true
      → find_gate j gates ≡ some g
      → (i ≢ j) × (find_gate j rest ≡ some g)
  unfolding remove_gate find_one
  remove-find i j g [] rest e s f = absurd (cc f)
  remove-find i j g (h ∷ gates) rest e s f = elim (Option-cases (remove_gate i gates)) [
    | inl stuck ↦ ground (arith, e, s, f, stuck)
    | inr (more, took) ↦ ground (arith, e, s, f, took, remove-find i j g gates more took s)
  ]

  insert-All :
      (gate : Gate C) (gates : List (Gate C))
      → gate.is_sealed ≡ false
      → All (λ h. h.is_sealed ≡ false) gates
      → All (λ h. h.is_sealed ≡ false) (insert_gate gate gates)
  unfolding insert_gate
  insert-All gate [] e a = (e, tt)
  insert-All gate (h ∷ gates) e a = ground (arith, e, a.0, insert-All gate gates e a.1)

  insert-IsSealedFirst :
      (gate : Gate C) (gates : List (Gate C))
      → IsSealedFirst gates
      → IsSealedFirst (insert_gate gate gates)
  unfolding insert_gate
  insert-IsSealedFirst gate [] v = (λ _. tt, tt)
  insert-IsSealedFirst gate (h ∷ gates) v = elim (Bool-cases gate.is_sealed) [
    | inr free ↦
        rw free (λ e. insert-All gate gates free (v.0 e), insert-IsSealedFirst gate gates v.1)
    | inl shut ↦ elim (Bool-cases h.is_sealed) [
      | inl s ↦ rw (shut, s) (λ e. absurd (cc e), insert-IsSealedFirst gate gates v.1)
      | inr s ↦ rw (shut, s) (λ e. absurd (cc e), (λ _. v.0 s, v.1))
    ]
  ]

  remove-All :
      (i : Ident) (gates rest : List (Gate C))
      → remove_gate i gates ≡ some rest
      → All (λ h. h.is_sealed ≡ false) gates
      → All (λ h. h.is_sealed ≡ false) rest
  unfolding remove_gate
  remove-All i [] rest e a = ground (arith, e)
  remove-All i (h ∷ gates) rest e a = elim (Option-cases (remove_gate i gates)) [
    | inl stuck ↦ ground (arith, e, stuck, a)
    | inr (more, took) ↦ ground (arith, e, took, a, remove-All i gates more took a.1)
  ]

  remove-IsSealedFirst :
      (i : Ident) (gates rest : List (Gate C))
      → remove_gate i gates ≡ some rest
      → IsSealedFirst gates
      → IsSealedFirst rest
  unfolding remove_gate
  remove-IsSealedFirst i [] rest e a = ground (arith, e)
  remove-IsSealedFirst i (h ∷ gates) rest e a = elim (Option-cases (remove_gate i gates)) [
    | inl stuck ↦ ground (arith, e, stuck, a)
    | inr (more, took) ↦ ground (
      arith,
      e,
      took,
      a,
      remove-IsSealedFirst i gates more took a.1,
      λ (o : h.is_sealed ≡ false). remove-All i gates more took (a.0 o),
    )
  ]

  -- A registration that goes through keeps every sealed tool gate under its id, and keeps the sealed
  -- gates before the others: whatever its id and kind, a gate that comes later can neither replace a
  -- sealed gate nor be placed before one unless it is sealed itself.
  pub register_gate_sealed :
      (gate : Gate C) (r r' : Registry C)
      → register_gate gate r ≡ some r'
      → IsSealedFirst r.tool
      → IsSealedFirst r'.tool
        × ((i : Ident) (g : Gate C)
            → find_gate i r.tool ≡ some g
            → g.is_sealed ≡ true
            → find_gate i r'.tool ≡ some g)
  unfolding register_gate add_to
  register_gate_sealed gate r r' e v = elim (Option-cases (remove_gate gate.id r.tool)) [
    | inl stuck ↦ absurd (ground (arith, e, stuck))
    | inr (rest, took) ↦
        let placed : r'.tool ≡ insert_gate gate rest = ground (arith, e, took) in
        rw placed (
          insert-IsSealedFirst gate rest (remove-IsSealedFirst gate.id r.tool rest took v),
          λ i g f s.
              let (ne, kept) = remove-find gate.id i g r.tool rest took s f in
              insert-find i gate g rest ne kept,
        )
  ]
