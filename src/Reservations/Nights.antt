-- ===== src/Reservations/Nights.antt =====
-- `diffProjection` of projection.ts: the nights of a difference.
use channex_pms.Prelude.{
  ◌≡◌, refl, Bool, not, ◌&&◌, ◌||◌, Option, some, List, [], ◌∷◌, filter, nat_eq, pair_eq, arith, ap,
  Bool-cases, inl, inr,
}
use channex_pms.Reservations.{
  Night, Projection, booked_nights, put_night, night_map, has_night, diff_projection,
}

has_night-put_night :
    (n k : Night) (m : List Night)
    → has_night n (put_night k m) ≡ (pair_eq.beq k n || has_night n m)
has_night-put_night n k [] = refl
has_night-put_night n k (j ∷ m) = ground (
  arith,
  has_night-put_night n k m,
  pair_eq.beq_iff j k,
  pair_eq.beq_iff k n,
  pair_eq.beq_iff j n,
)

has_night-night_map :
    (n : Night) (m ns : List Night)
    → has_night n (night_map m ns) ≡ (has_night n m || has_night n ns)
has_night-night_map n m [] = ground arith
has_night-night_map n m (k ∷ ns) =
    ground (arith, has_night-night_map n (put_night k m) ns, has_night-put_night n k m)

has_night-filter :
    (n : Night) (p : Night → Bool) (m : List Night)
    → has_night n (filter p m) ≡ (has_night n m && p n)
has_night-filter n p [] = refl
has_night-filter n p (k ∷ m) = elim (Bool-cases (pair_eq.beq k n)) [
  | inl y ↦
      let same : p k ≡ p n = ap p ((pair_eq.beq_iff k n).0 y) in
      ground (arith, has_night-filter n p m, same, y)
  | inr z ↦ ground (arith, has_night-filter n p m, z)
]

-- A night is reported added exactly if the next projection books it and the previous one does not,
-- and removed exactly if the previous one books it and the next one does not, so that the booked
-- nights of the next are those of the previous, less the removed, with the added.
pub diff_projection-nights :
    (prev : Option Projection) (next : Projection) (n : Night)
    → let was = has_night n (booked_nights prev) in
      let now = has_night n (booked_nights (some next)) in
      let d = diff_projection prev next in
      (has_night n d.nights_added ≡ (now && not was))
      × (has_night n d.nights_removed ≡ (was && not now))
      × (now ≡ ((was && not (has_night n d.nights_removed)) || has_night n d.nights_added))
unfolding diff_projection
diff_projection-nights prev next n =
    let before = night_map [] (booked_nights prev) in
    let after = night_map [] (booked_nights (some next)) in
    ground (
      arith,
      has_night-night_map n [] (booked_nights prev),
      has_night-night_map n [] (booked_nights (some next)),
      has_night-filter n (λ k. not (has_night k before)) after,
      has_night-filter n (λ k. not (has_night k after)) before,
    )
