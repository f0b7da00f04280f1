-- ===== src/Egress/Address/Expansion.antt =====
-- The groups of an expanded IPv6 literal (packages/foundation/egress/src/index.ts).
use busyclaw.Prelude.{
  ℕ, zero, suc, ◌+◌, ◌-◌, ◌^◌, ◌<◌, true, false, ◌&&◌, Bool-cases, Option, none, some, Option-cases,
  inl, inr, List, [], ◌∷◌, ◌++◌, length, length-append, any, All, All-append, ◌==◌, ltb, ◌≡◌, refl,
  arith, subst,
}
use busyclaw.Egress.Address.{
  Text, split_on, parse_ipv4, has_length_to, all_of, is_hex, hexadecimal, groups_of, prepend,
  is_empty, parse_tokens, parse_side, zeros, exactly_eight, filled, halves, before_zone,
  expand_ipv6, split_pairs,
}
use busyclaw.Egress.Address.Bounds.{IsGroup, parse_ipv4-IsOctets, hexadecimal-IsGroup}

abbrev AreGroups : Option (List ℕ) → Type 0
AreGroups none = Unit
AreGroups (some groups) = All IsGroup groups

groups_of-AreGroups : (token : Text) → AreGroups (groups_of (parse_ipv4 token))
groups_of-AreGroups token = elim (Option-cases (parse_ipv4 token)) [
  | inl absent ↦ rw absent tt
  | inr found ↦
      let bound = parse_ipv4-IsOctets token found.0 found.1 in
      rw (found.1) (omega (arith, bound), (omega (arith, bound), tt))
]

prepend-AreGroups :
    (g : ℕ) (rest : Option (List ℕ)) → IsGroup g → AreGroups rest → AreGroups (prepend g rest)
prepend-AreGroups g none hg h = tt
prepend-AreGroups g (some groups) hg h = (hg, h)

parse_tokens-AreGroups : (tokens : List Text) → AreGroups (parse_tokens tokens)
unfolding parse_tokens
parse_tokens-AreGroups [] = tt
parse_tokens-AreGroups ([] ∷ tokens) = tt
parse_tokens-AreGroups ((x ∷ token) ∷ tokens) = elim (Bool-cases (any (λ c. c == 46) (x ∷ token))) [
  | inl dotted ↦ rw dotted (elim (Bool-cases (is_empty tokens)) [
    | inl last ↦ rw last (groups_of-AreGroups (x ∷ token))
    | inr more ↦ rw more tt
  ])
  | inr plain ↦
      rw plain (elim (Bool-cases (has_length_to 4 (x ∷ token) && all_of is_hex (x ∷ token))) [
        | inl digits ↦ rw digits (
            prepend-AreGroups (hexadecimal 0 (x ∷ token)) (parse_tokens tokens)
              (hexadecimal-IsGroup (x ∷ token) digits) (parse_tokens-AreGroups tokens))
        | inr other ↦ rw other tt
      ])
]

parse_side-AreGroups : (text : Text) → AreGroups (parse_side text)
unfolding parse_side
parse_side-AreGroups [] = tt
parse_side-AreGroups (x ∷ text) = parse_tokens-AreGroups (split_on 58 (x ∷ text))

zeros-IsGroup : (n : ℕ) → All IsGroup (zeros n)
zeros-IsGroup zero = tt
zeros-IsGroup (suc n) = (omega arith, zeros-IsGroup n)

length-zeros : (n : ℕ) → length (zeros n) ≡ n
length-zeros zero = refl
length-zeros (suc n) = omega (arith, length-zeros n)

-- What an expansion is: eight groups of sixteen bits.
abbrev pub IsExpansion : List ℕ → Type 0
IsExpansion groups = (length groups ≡ 8) × All IsGroup groups

abbrev IsExpansionOrNone : Option (List ℕ) → Type 0
IsExpansionOrNone none = Unit
IsExpansionOrNone (some groups) = IsExpansion groups

exactly_eight-IsExpansion :
    (head : Option (List ℕ)) → AreGroups head → IsExpansionOrNone (exactly_eight head)
exactly_eight-IsExpansion none h = tt
exactly_eight-IsExpansion (some head) h = elim (Bool-cases (length head == 8)) [
  | inl eight ↦ rw eight (ground (arith, eight), h)
  | inr other ↦ rw other tt
]

length-filled :
    (head tail : List ℕ)
    → ltb (length head + length tail) 8 ≡ true
    → length (head ++ (zeros (8 - (length head + length tail)) ++ tail)) ≡ 8
length-filled head tail h =
    let fill = 8 - (length head + length tail) in
    grind (
      arith,
      length-append head (zeros fill ++ tail),
      length-append (zeros fill) tail,
      length-zeros fill,
    )

filled-IsExpansion :
    (head tail : Option (List ℕ))
    → AreGroups head
    → AreGroups tail
    → IsExpansionOrNone (filled head tail)
filled-IsExpansion none tail h k = tt
filled-IsExpansion (some head) none h k = tt
filled-IsExpansion (some head) (some tail) h k =
    elim (Bool-cases (ltb (length head + length tail) 8)) [
      | inr full ↦ rw full tt
      | inl room ↦ rw room (
        length-filled head tail room,
        All-append IsGroup head _ h
            (All-append IsGroup (zeros (8 - (length head + length tail))) tail (zeros-IsGroup _) k),
      )
    ]

halves-IsExpansion : (parts : List Text) → IsExpansionOrNone (halves parts)
unfolding halves
halves-IsExpansion [] = tt
halves-IsExpansion (head ∷ []) =
    exactly_eight-IsExpansion (parse_side head) (parse_side-AreGroups head)
halves-IsExpansion (head ∷ tail ∷ []) =
    filled-IsExpansion (parse_side head) (parse_side tail) (parse_side-AreGroups head)
      (parse_side-AreGroups tail)
halves-IsExpansion (head ∷ tail ∷ third ∷ more) = tt

expand_ipv6-IsExpansionOrNone : (text : Text) → IsExpansionOrNone (expand_ipv6 text)
unfolding expand_ipv6
expand_ipv6-IsExpansionOrNone text = elim (Bool-cases (any (λ c. c == 58) (before_zone text))) [
  | inl colons ↦ rw colons (halves-IsExpansion (split_pairs false (before_zone text)))
  | inr bare ↦ rw bare tt
]

-- An IPv6 literal that expands gives exactly eight groups, each below 2 ^ 16.
pub expand_ipv6_bounds :
    (text : Text) (groups : List ℕ)
    → expand_ipv6 text ≡ some groups
    → (length groups ≡ 8) × All (λ g. g < 2 ^ 16) groups
expand_ipv6_bounds text groups h = subst IsExpansionOrNone h (expand_ipv6-IsExpansionOrNone text)
