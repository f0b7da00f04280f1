-- ===== src/Core/Redact/Distance/Levenshtein.antt =====
-- The edit distance of packages/foundation/core/src/redact.ts is the least number of insertions,
-- deletions and substitutions, and a metric.
use Prim.Native.Nat.{min}
use busyclaw.Prelude.{ℕ, suc, ◌+◌, ◌≡◌, refl, ◌≤◌, List, [], ◌∷◌, length, arith, ap, sym, ◌∙◌}
use busyclaw.Core.Redact.Distance.{Text, cost, first_row, next_row, last_of, rows, edit_distance}

-- The recursive definition, on texts read from their ends.
unfoldable pub lev : Text → Text → ℕ
lev [] b = length b
lev (x ∷ a) [] = suc (length a)
lev (x ∷ a) (y ∷ b) = min (min (lev a (y ∷ b) + 1) (lev (x ∷ a) b + 1)) (lev a b + cost x y)

abbrev pub reverse_onto : Text → Text → Text
reverse_onto [] acc = acc
reverse_onto (x ∷ a) acc = reverse_onto a (x ∷ acc)

-- The row for a prefix `ra` (read backwards), from the prefix `rb` on.
row_of : Text → Text → Text → List ℕ
unfolding lev
row_of ra rb [] = []
row_of ra rb (y ∷ b) = lev ra (y ∷ rb) ∷ row_of ra (y ∷ rb) b

lev-nil : (a : Text) → lev a [] ≡ length a
unfolding lev
lev-nil [] = refl
lev-nil (x ∷ a) = refl

first_row-row_of : (rb b : Text) (j : ℕ) → length rb ≡ j → first_row j b ≡ row_of [] rb b
unfolding row_of lev
first_row-row_of rb [] j e = refl
first_row-row_of rb (y ∷ b) j e = ground (arith, e, first_row-row_of (y ∷ rb) b (suc j) (ap suc e))

next_row-row_of :
    (x : ℕ) (ra rb b : Text)
    → next_row x b (lev ra rb) (lev (x ∷ ra) rb) (row_of ra rb b) ≡ row_of (x ∷ ra) rb b
unfolding next_row row_of lev
next_row-row_of x ra rb [] = refl
next_row-row_of x ra rb (y ∷ b) =
    ap (λ r. lev (x ∷ ra) (y ∷ rb) ∷ r) (next_row-row_of x ra (y ∷ rb) b)

last_of-row_of :
    (ra rb b : Text) → last_of (lev ra rb) (row_of ra rb b) ≡ lev ra (reverse_onto b rb)
unfolding row_of
last_of-row_of ra rb [] = refl
last_of-row_of ra rb (y ∷ b) = last_of-row_of ra (y ∷ rb) b

rows-lev :
    (a ra b : Text) (i : ℕ)
    → lev ra [] ≡ i
    → rows a b i (row_of ra [] b) ≡ lev (reverse_onto a ra) (reverse_onto b [])
unfolding rows
rows-lev [] ra b i e = rw (sym e) (last_of-row_of ra [] b)
rows-lev (x ∷ a) ra b i e =
    let next : lev (x ∷ ra) [] ≡ suc i = lev-nil (x ∷ ra) ∙ ap suc (sym (lev-nil ra) ∙ e) in
    let row : next_row x b i (suc i) (row_of ra [] b) ≡ row_of (x ∷ ra) [] b =
      ap (λ l. next_row x b i l (row_of ra [] b)) (sym next)
      ∙ ap (λ d. next_row x b d (lev (x ∷ ra) []) (row_of ra [] b)) (sym e)
      ∙ next_row-row_of x ra [] b in
    rw row (rows-lev a (x ∷ ra) b (suc i) next)

-- The two rolling rows compute the recursive distance of the texts.
edit_distance-lev : (a b : Text) → edit_distance a b ≡ lev (reverse_onto a []) (reverse_onto b [])
unfolding edit_distance
edit_distance-lev a b =
    ap (rows a b 0) (first_row-row_of [] b 0 refl) ∙ rows-lev a [] b 0 (lev-nil [])

lev_comm : (a b : Text) → lev a b ≡ lev b a
unfolding lev
lev_comm [] [] = refl
lev_comm [] (y ∷ b) = refl
lev_comm (x ∷ a) [] = refl
lev_comm (x ∷ a) (y ∷ b) = ground (arith, lev_comm a (y ∷ b), lev_comm (x ∷ a) b, lev_comm a b)

lev_refl : (a : Text) → lev a a ≡ 0
unfolding lev
lev_refl [] = refl
lev_refl (x ∷ a) = ground (arith, lev_refl a)

-- The lengths differ by no more than the distance, which is no more than their sum.
lev-length :
    (a b : Text)
    → (length b ≤ length a + lev a b)
      × (length a ≤ length b + lev a b)
      × (lev a b ≤ length a + length b)
unfolding lev
lev-length [] b = (omega arith, omega arith, omega arith)
lev-length (x ∷ a) [] = (omega arith, omega arith, omega arith)
lev-length (x ∷ a) (y ∷ b) =
    let p = lev-length a (y ∷ b) in
    let q = lev-length (x ∷ a) b in
    let r = lev-length a b in
    (ground (arith, p, q, r), ground (arith, p, q, r), ground (arith, p, q, r))

cost_trans : (x y z : ℕ) → cost x z ≤ cost x y + cost y z
cost_trans x y z = ground arith

pub lev_trans : (a b c : Text) → lev a c ≤ lev a b + lev b c
unfolding lev
lev_trans [] b c = (lev-length b c).0
lev_trans (x ∷ a) [] c = omega (arith, lev-nil (x ∷ a), (lev-length (x ∷ a) c).2)
lev_trans (x ∷ a) (y ∷ b) [] = omega (arith, (lev-length (x ∷ a) (y ∷ b)).1)
lev_trans (x ∷ a) (y ∷ b) (z ∷ c) = ground (
  arith,
  lev_trans a (y ∷ b) (z ∷ c),
  lev_trans (x ∷ a) b (z ∷ c),
  lev_trans (x ∷ a) (y ∷ b) c,
  lev_trans a b (z ∷ c),
  lev_trans (x ∷ a) b c,
  lev_trans a b c,
  cost_trans x y z,
)

pub edit_distance_comm : (a b : Text) → edit_distance a b ≡ edit_distance b a
edit_distance_comm a b =
    edit_distance-lev a b
    ∙ lev_comm (reverse_onto a []) (reverse_onto b [])
    ∙ sym (edit_distance-lev b a)

pub edit_distance_trans : (a b c : Text) → edit_distance a c ≤ edit_distance a b + edit_distance b c
edit_distance_trans a b c = omega (
  arith,
  edit_distance-lev a b,
  edit_distance-lev b c,
  edit_distance-lev a c,
  lev_trans (reverse_onto a []) (reverse_onto b []) (reverse_onto c []),
)
