-- ===== src/Detectors/Regex/Luhn.antt =====
-- The Luhn checksum finds every error in one digit (packages/foundation/detectors/src/regex/index.ts).
use busyclaw.Prelude.{
  ℕ, ◌+◌, ◌-◌, ◌%◌, ◌≤◌, Bool, true, false, not, [], ◌∷◌, ◌++◌, ◌==◌, ◌≡◌, refl, ◌≢◌, ◌∙◌, ap,
  arith,
}
use busyclaw.Detectors.Regex.{Text, weigh, luhn_loop, luhn_valid}

weigh-bound : (double : Bool) (d : ℕ) → d ≤ 9 → weigh double d ≤ 9
weigh-bound false d h = ground arith
weigh-bound true d h = ground arith

-- Doubling, with nine taken off, is one to one on the digits.
weigh_ne : (double : Bool) (d d' : ℕ) → d ≤ 9 → d' ≤ 9 → d ≢ d' → weigh double d ≢ weigh double d'
weigh_ne false d d' h h' ne = ne
weigh_ne true d d' h h' ne = ground arith

-- Which digits are doubled does not depend on what they are, and one digit adds its weight to the sum.
loop_changed :
    (before after : Text) (c c' : ℕ)
    → let double = (luhn_loop after).1 in
      ((luhn_loop (before ++ c ∷ after)).1 ≡ (luhn_loop (before ++ c' ∷ after)).1)
      × ((luhn_loop (before ++ c ∷ after)).0 + weigh double (c' - 48)
          ≡ (luhn_loop (before ++ c' ∷ after)).0 + weigh double (c - 48))
unfolding luhn_loop
loop_changed [] after c c' = (refl, omega arith)
loop_changed (b ∷ before) after c c' =
    let (same, sums) = loop_changed before after c c' in
    (ap not same, omega (arith, sums, ap (λ double. weigh double (b - 48)) same))

luhn_valid-append :
    (before after : Text) (c : ℕ)
    → luhn_valid (before ++ c ∷ after) ≡ ((luhn_loop (before ++ c ∷ after)).0 % 10 == 0)
unfolding luhn_valid
luhn_valid-append [] after c = refl
luhn_valid-append (b ∷ before) after c = refl

apart :
    (sum sum' w w' : ℕ)
    → w ≤ 9
    → w' ≤ 9
    → w ≢ w'
    → sum + w' ≡ sum' + w
    → sum % 10 ≡ 0
    → (sum' % 10 == 0) ≡ false
apart sum sum' w w' h h' ne e ok = ground arith

-- If a text passes the checksum, the text with one digit changed to another digit does not.
pub luhn_valid-changed :
    (before after : Text) (c c' : ℕ)
    → 48 ≤ c
    → c ≤ 57
    → 48 ≤ c'
    → c' ≤ 57
    → c ≢ c'
    → luhn_valid (before ++ c ∷ after) ≡ true
    → luhn_valid (before ++ c' ∷ after) ≡ false
luhn_valid-changed before after c c' l h l' h' ne ok =
    let double = (luhn_loop after).1 in
    luhn_valid-append before after c'
    ∙ apart (luhn_loop (before ++ c ∷ after)).0 _ (weigh double (c - 48)) (weigh double (c' - 48))
        (weigh-bound double (c - 48) (omega arith)) (weigh-bound double (c' - 48) (omega arith))
        (weigh_ne double (c - 48) (c' - 48) (omega arith) (omega arith) (λ e. ne (omega arith)))
        (loop_changed before after c c').1 (ground (arith, ok, luhn_valid-append before after c))
