-- ===== src/Prelude/Maps.antt =====
-- `Map` as the program uses it: an association list in insertion order, where a write to a
-- key that is present keeps its place.
use mathlib.Core.Path.{◌≡◌, refl}
use mathlib.Core.Bool.{Bool, true, ◌||◌}
use mathlib.Core.Option.{Option, none, some}
use mathlib.Core.List.{List, [], ◌∷◌}
use mathlib.Core.Logic.{inl, inr}
use native.Mathlib.Omega.{arith}
use channex_pms.Prelude.Tests.{if◌then◌else◌, Eq, Bool-cases, Option-cases}
use channex_pms.Prelude.Lists.{All, any}

module _ {ℓ κ} {K : Type ℓ} {V : Type κ} ⦃e : Eq K⦄ where
  abbrev pub lookup : K → List (K × V) → Option V
  lookup k [] = none
  lookup k ((j, v) ∷ m) = if e.beq j k then some v else lookup k m

  abbrev pub insert : K → V → List (K × V) → List (K × V)
  insert k v [] = (k, v) ∷ []
  insert k v ((j, w) ∷ m) = if e.beq j k then (j, v) ∷ m else (j, w) ∷ insert k v m

  pub lookup-insert :
      (k j : K) (v : V) (m : List (K × V))
      → lookup j (insert k v m) ≡ (if e.beq k j then some v else lookup j m)
  lookup-insert k j v [] = refl
  lookup-insert k j v ((i, w) ∷ m) =
      ground (arith, e.beq_iff k j, e.beq_iff i k, e.beq_iff i j, lookup-insert k j v m)

abbrev pub change {κ} : {V : Type κ} → (V → V) → Option V → Option V
change f none = none
change f (some v) = some (f v)

module _ {ℓ κ} {K : Type ℓ} {V : Type κ} ⦃e : Eq K⦄ where
  -- A change of the value at a key, where there is one.
  abbrev pub adjust : K → (V → V) → List (K × V) → List (K × V)
  adjust k f m = elim (lookup k m) [ none ↦ m | some v ↦ insert k (f v) m ]

  pub lookup-adjust :
      (k j : K) (f : V → V) (m : List (K × V))
      → lookup j (adjust k f m) ≡ (if e.beq k j then change f (lookup j m) else lookup j m)
  lookup-adjust k j f m = elim (Option-cases (lookup k m)) [
    | inl n ↦
        rw (n, adjust)
          (elim (Bool-cases (e.beq k j)) [
            | inl s ↦
                let same : lookup j m ≡ none = rw (← (e.beq_iff k j).0 s) n in rw (s, same) refl
            | inr t ↦ rw t refl
          ])
    | inr (v, h) ↦
        rw (h, adjust)
          (rw (lookup-insert k j (f v) m) (elim (Bool-cases (e.beq k j)) [
            | inl s ↦
                let same : lookup j m ≡ some v = rw (← (e.beq_iff k j).0 s) h in rw (s, same) refl
            | inr t ↦ rw t refl
          ]))
  ]

module _ {K V : Type 0} ⦃e : Eq K⦄ where
  -- No key stands twice.
  abbrev pub Distinct : List (K × V) → Type 0
  Distinct [] = Unit
  Distinct ((k, v) ∷ m) = (lookup k m ≡ none) × Distinct m

  pub Distinct-insert : (k : K) (v : V) (m : List (K × V)) → Distinct m → Distinct (insert k v m)
  Distinct-insert k v [] d = (refl, tt)
  Distinct-insert k v ((j, w) ∷ m) (h, d) = elim (Bool-cases (e.beq j k)) [
    | inl s ↦ rw s (h, d)
    | inr t ↦ rw t (
      ground (arith, lookup-insert k j v m, e.beq_iff k j, e.beq_iff j k),
      Distinct-insert k v m d,
    )
  ]

  module _ (P : K × V → Type 0) where
    -- Of distinct keys, what holds of every key that is found holds of every entry.
    pub All-of_lookup :
        (m : List (K × V))
        → Distinct m
        → ((k : K) (v : V) → lookup k m ≡ some v → P (k, v))
        → All P m
    All-of_lookup [] d h = tt
    All-of_lookup ((j, w) ∷ m) (n, d) h = (
      h j w (rw ((e.beq_iff j j).1 refl) refl),
      All-of_lookup m d (λ k v f. h k v (elim (Bool-cases (e.beq j k)) [
        | inl s ↦ cc (subst_none n ((e.beq_iff j k).0 s), f)
        | inr t ↦ rw t f
      ])),
    )
      where
        subst_none : {k : K} → lookup j m ≡ none → j ≡ k → lookup k m ≡ none
        subst_none q p = rw (← p) q

    pub All-lookup : (m : List (K × V)) (k : K) (v : V) → All P m → lookup k m ≡ some v → P (k, v)
    All-lookup [] k v h f = cc
    All-lookup ((j, w) ∷ m) k v (p, h) f = elim (Bool-cases (e.beq j k)) [
      | inl s ↦ let same : w ≡ v = ground arith in rw (← same, ← ((e.beq_iff j k).0 s)) p
      | inr t ↦ All-lookup m k v h (ground arith)
    ]

    pub All-insert : (k : K) (v : V) (m : List (K × V)) → All P m → P (k, v) → All P (insert k v m)
    All-insert k v [] h p = (p, tt)
    All-insert k v ((j, w) ∷ m) (q, h) p = elim (Bool-cases (e.beq j k)) [
      | inl s ↦ rw s (rw ((e.beq_iff j k).0 s) p, h)
      | inr t ↦ rw t (q, All-insert k v m h p)
    ]

  -- A test of the values, where the value at `k` is replaced by one that passes if the old one
  -- did or if `b`.
  pub any-insert :
      (q : V → Bool) (b : Bool) (k : K) (x : V) (m : List (K × V))
      → (lookup k m ≡ none → q x ≡ b)
      → ((y : V) → lookup k m ≡ some y → q x ≡ (q y || b))
      → any (λ p. q p.1) (insert k x m) ≡ (any (λ p. q p.1) m || b)
  any-insert q b k x [] n s = ground (arith, n refl)
  any-insert q b k x ((j, w) ∷ m) n s = elim (Bool-cases (e.beq j k)) [
    | inl t ↦ rw t (ground (arith, s w (rw t refl)))
    | inr t ↦
        let ih = any-insert q b k x m (λ h. n (rw t h)) (λ y h. s y (rw t h)) in
        rw t (ground (arith, ih))
  ]

  pub any-key :
      (k : K) (v : V) (m : List (K × V)) → lookup k m ≡ some v → any (λ p. e.beq p.0 k) m ≡ true
  any-key k v [] f = cc
  any-key k v ((j, w) ∷ m) f = ground (arith, any-key k v m)

  module _ (P : V → Type 0) where
    pub All-adjust :
        (k : K) (f : V → V) (m : List (K × V))
        → ((v : V) → P v → P (f v))
        → All (λ p. P p.1) m
        → All (λ p. P p.1) (adjust k f m)
    All-adjust k f m g h = elim (Option-cases (lookup k m)) [
      | inl n ↦ rw (n, adjust) h
      | inr (v, l) ↦
          rw (l, adjust)
            (All-insert (λ p. P p.1) k (f v) m h (g v (All-lookup (λ p. P p.1) m k v h l)))
    ]
