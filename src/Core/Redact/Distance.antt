-- ===== src/Core/Redact/Distance.antt =====
-- `editDistance` (packages/foundation/core/src/redact.ts): two rolling rows. A text is the list of the
-- codes of its characters.
pub mod Levenshtein
use Prim.Native.Nat.{min}
use busyclaw.Prelude.{ℕ, zero, suc, ◌+◌, List, [], ◌∷◌, ◌==◌, if◌then◌else◌, length}

abbrev pub Text : Type 0
Text = List ℕ

abbrev pub cost : ℕ → ℕ → ℕ
cost x y = if x == y then 0 else 1

-- The first row: the numbers from `j` on, one for each prefix of the text.
abbrev pub first_row : ℕ → Text → List ℕ
first_row j [] = []
first_row j (y ∷ b) = suc j ∷ first_row (suc j) b

-- One row after its first entry, from the previous row: `diag` and `left` are the entries before.
unfoldable pub next_row : ℕ → Text → (diag left : ℕ) → (prev : List ℕ) → List ℕ
next_row x [] diag left prev = []
next_row x (y ∷ b) diag left [] =
    let v = min (min 1 (left + 1)) (diag + cost x y) in v ∷ next_row x b 0 v []
next_row x (y ∷ b) diag left (p ∷ prev) =
    let v = min (min (p + 1) (left + 1)) (diag + cost x y) in v ∷ next_row x b p v prev

-- The last entry of a row whose first is `i`.
abbrev pub last_of : ℕ → List ℕ → ℕ
last_of i [] = i
last_of i (p ∷ row) = last_of p row

-- The rows below the one that is `i ∷ prev`.
unfoldable pub rows : Text → Text → ℕ → List ℕ → ℕ
unfolding next_row
rows [] b i prev = last_of i prev
rows (x ∷ a) b i prev = rows a b (suc i) (next_row x b i (suc i) prev)

unfoldable pub edit_distance : Text → Text → ℕ
unfolding rows
edit_distance a b = rows a b 0 (first_row 0 b)
