-- ===== src/Shared/Money/Allocate/Split.antt =====
-- The parts that an amount is split into.
use channex_pms.Prelude.{
  ℕ, zero, suc, ◌+◌, ◌-◌, ◌*◌, ◌/◌, ◌≤◌, ◌<◌, false, List, [], ◌∷◌, map, if◌then◌else◌, ◌==◌, ◌≡◌,
  refl, arith, All, length, leb, ap, ap₂, ◌∙◌, Bool-cases, inl, inr,
}
use native.Mathlib.Nat.{div-add-mod, mod-lt, le_of_mul-le-mul_left}
use channex_pms.Prelude.Int.{pos, ◌-ℤ◌}
use channex_pms.Prelude.Sort.{place, sort_by, All-sort_by}
use channex_pms.Shared.Money.{minor_eq}
use channex_pms.Shared.Money.Allocate.{sum, with_places, order, add_one, give, split}

-- How many of the ratios are not zero.
abbrev nonzero : List (ℕ × ℕ) → ℕ
nonzero [] = 0
nonzero ((r, i) ∷ xs) = (if r == 0 then 0 else 1) + nonzero xs

sum-add_one : (i : ℕ) (ps : List ℕ) → i < length ps → sum (add_one i ps) ≡ suc (sum ps)
sum-add_one i [] h = omega (arith, h)
sum-add_one zero (p ∷ ps) h = omega arith
sum-add_one (suc i) (p ∷ ps) h = omega (arith, sum-add_one i ps (omega (arith, h)))

length-add_one : (i : ℕ) (ps : List ℕ) → length (add_one i ps) ≡ length ps
length-add_one i [] = refl
length-add_one zero (p ∷ ps) = refl
length-add_one (suc i) (p ∷ ps) = omega (arith, length-add_one i ps)

suc-nonzero : (n : ℕ) → minor_eq (pos (suc n)) (pos 0) ≡ false
suc-nonzero n = ground arith

take_one : (n : ℕ) → pos (suc n) -ℤ pos 1 ≡ pos n
unfolding ◌-ℤ◌
take_one n = ground arith

-- A remainder that the nonzero ratios can take is given out in full.
sum-give :
    (places : List (ℕ × ℕ)) (n : ℕ) (parts : List ℕ)
    → All (λ x. x.1 < length parts) places
    → n ≤ nonzero places
    → sum (give places (pos n) parts) ≡ sum parts + n
unfolding give
sum-give [] n parts h k = omega (arith, k)
sum-give ((r, i) ∷ places) zero parts h k = omega arith
sum-give ((r, i) ∷ places) (suc n) parts (b, h) k =
    let kept = sum-give places (suc n) parts h in
    let more =
      sum-give places n (add_one i parts) (rw (length-add_one i parts) h) (ground (arith, k)) in
    let one = sum-add_one i parts b in
    elim (Bool-cases (r == 0)) [
      | inl y ↦ rw (y, suc-nonzero n) (kept (ground (arith, k, y)))
      | inr z ↦ rw (z, suc-nonzero n, take_one n, more, one) (omega arith)
    ]

nonzero-place :
    (rank : ℕ × ℕ → ℕ) (x : ℕ × ℕ) (ys : List (ℕ × ℕ))
    → nonzero (place rank x ys) ≡ nonzero (x ∷ ys)
unfolding place
nonzero-place rank x [] = refl
nonzero-place rank (r, i) ((q, j) ∷ ys) = elim (Bool-cases (leb (rank (r, i)) (rank (q, j)))) [
  | inl y ↦ rw (y, place) refl
  | inr n ↦ rw (n, place) (omega (arith, nonzero-place rank (r, i) ys))
]

nonzero-sort_by : (rank : ℕ × ℕ → ℕ) (xs : List (ℕ × ℕ)) → nonzero (sort_by rank xs) ≡ nonzero xs
unfolding sort_by
nonzero-sort_by rank [] = refl
nonzero-sort_by rank ((r, i) ∷ xs) =
    nonzero-place rank (r, i) (sort_by rank xs)
    ∙ ap (λ n. (if r == 0 then 0 else 1) + n) (nonzero-sort_by rank xs)

-- The places from `i` on are below the `n` that there are in all.
places-bounded :
    (i n : ℕ) (ratios : List ℕ) → i + length ratios ≤ n → All (λ x. x.1 < n) (with_places i ratios)
places-bounded i n [] h = tt
places-bounded i n (r ∷ rs) h = (omega (arith, h), places-bounded (suc i) n rs (omega (arith, h)))

-- The quotients of a whole by a total, rounded down, and what they leave of the whole.
leftover :
    (whole total i : ℕ) (ratios : List ℕ)
    → 0 < total
    → let parts = sum (map (λ r. whole * r / total) ratios) in
      (total * parts ≤ whole * sum ratios)
      × (whole * sum ratios ≤ total * (parts + nonzero (with_places i ratios)))
leftover whole total i [] t = (omega arith, omega arith)
leftover whole total i (r ∷ rs) t =
    let (low, high) = leftover whole total (suc i) rs t in
    let q = whole * r / total in
    let parts = sum (map (λ x. whole * x / total) rs) in
    let n = nonzero (with_places (suc i) rs) in
    let whole_of = div-add-mod (whole * r) total in
    let rest = mod-lt (whole * r) t in
    elim (Bool-cases (r == 0)) [
      | inl y ↦
          let r_zero : r ≡ 0 = ground (arith, y) in
          let nothing : whole * r ≡ 0 = rw r_zero (omega arith) in
          (omega (arith, low, whole_of), rw y (omega (arith, high, nothing)))
      | inr z ↦ (omega (arith, low, whole_of), rw z (omega (arith, high, whole_of, rest)))
    ]

-- Each quotient as the source computes it, where it computes them exactly.
floors-exact :
    (floor_quotient : ℕ → ℕ → ℕ → ℕ) (whole total : ℕ) (ratios : List ℕ)
    → All (λ r. floor_quotient whole r total ≡ whole * r / total) ratios
    → map (λ r. floor_quotient whole r total) ratios ≡ map (λ r. whole * r / total) ratios
floors-exact f whole total [] h = refl
floors-exact f whole total (r ∷ rs) (e, h) =
    ap₂ (λ x xs. x ∷ xs) e (floors-exact f whole total rs h)

length-quotients : (f : ℕ → ℕ) (ratios : List ℕ) → length (map f ratios) ≡ length ratios
length-quotients f [] = refl
length-quotients f (r ∷ rs) = ap suc (length-quotients f rs)

sub_whole : (a b : ℕ) → b ≤ a → pos a -ℤ pos b ≡ pos (a - b)
unfolding ◌-ℤ◌
sub_whole a b h = ground (arith, h)

pub sum-split :
    (floor_quotient : ℕ → ℕ → ℕ → ℕ) (whole : ℕ) (ratios : List ℕ)
    → 0 < sum ratios
    → All (λ r. floor_quotient whole r (sum ratios) ≡ whole * r / sum ratios) ratios
    → sum (split floor_quotient whole ratios) ≡ whole
unfolding split
sum-split f whole ratios t exact =
    let total = sum ratios in
    let parts = map (λ r. whole * r / total) ratios in
    let (low, high) = leftover whole total 0 ratios t in
    let fits : sum parts ≤ whole = le_of_mul-le-mul_left (omega (arith, low)) t in
    let enough : whole ≤ sum parts + nonzero (with_places 0 ratios) =
      le_of_mul-le-mul_left (omega (arith, high)) t in
    let bound : All (λ x. x.1 < length parts) (order ratios) =
      All-sort_by (λ x. total - x.0) (λ x. x.1 < length parts) (with_places 0 ratios)
        (places-bounded 0 (length parts) ratios
          (omega (arith, length-quotients (λ r. whole * r / total) ratios))) in
    rw (split, floors-exact f whole total ratios exact, sub_whole whole (sum parts) fits)
      (sum-give (order ratios) (whole - sum parts) parts bound
          (rw (nonzero-sort_by (λ x. total - x.0) (with_places 0 ratios)) (omega (arith, enough)))
        ∙ omega (arith, fits))
