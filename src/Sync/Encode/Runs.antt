-- ===== src/Sync/Encode/Runs.antt =====
-- Run-length encoding of a run of days: which dates its entries cover, and with which values.
use channex_pms.Prelude.{
  ℕ, zero, suc, ◌+◌, ◌≤◌, ◌<◌, ◌≡◌, refl, sym, true, ◌&&◌, none, arith, leb, ltb, any, All, Eq,
  Bool-cases, inl, inr, range_from,
}
use channex_pms.Shared.Date.{LocalDate}
use channex_pms.Inventory.{Weekday}
use channex_pms.Sync.Encode.{FieldEntry, point, runs_from}
use channex_pms.Sync.Encode.Coverage.{covers}

module _ {V K : Type 0} ⦃e : Eq K⦄ (weekday_of : LocalDate → Weekday) (value_at : LocalDate → V)
    (key : V → K) where
  -- The entry holds the value of each date that it covers, up to the key.
  abbrev pub IsRight : FieldEntry V → Type 0
  IsRight x = (d : LocalDate) → covers weekday_of x d ≡ true → key (value_at d) ≡ key x.value

  -- An open run that ends just before `b`.
  pub record IsOpen (x : FieldEntry V) (b : ℕ) : Type 0 where
    pub plain : x.days ≡ none
    pub ends : suc x.date_to ≡ b
    pub starts : x.date_from ≤ x.date_to
    pub same : (d : ℕ) → x.date_from ≤ d → d < b → key (value_at d) ≡ key x.value

  pub point-IsOpen : (b : ℕ) → IsOpen (point weekday_of value_at key b) (suc b)
  unfolding point
  point-IsOpen b = record {
    plain = refl;
    ends = refl;
    starts = omega arith;
    same = λ d h k. let e : d ≡ b = omega arith in rw e;
  }

  extend-same :
      (x : FieldEntry V) (b : ℕ)
      → IsOpen x b
      → key x.value ≡ key (value_at b)
      → (d : ℕ) → x.date_from ≤ d
      → d < suc b
      → key (value_at d) ≡ key x.value
  extend-same x b o e d h k = elim (Bool-cases (ltb d b)) [
    | inl l ↦ o.same d h (ground arith)
    | inr g ↦ let q : d ≡ b = ground arith in rw q (sym e)
  ]

  extend-IsOpen :
      (x : FieldEntry V) (b : ℕ)
      → IsOpen x b
      → key x.value ≡ key (value_at b)
      → IsOpen (record x { date_to = b }) (suc b)
  extend-IsOpen x b o e = record {
    plain = o.plain;
    ends = refl;
    starts = omega (arith, o.ends, o.starts);
    same = extend-same x b o e;
  }

  pub runs_from-covers :
      (n b : ℕ) (x : FieldEntry V)
      → IsOpen x b
      → (d : ℕ)
      → any (λ y. covers weekday_of y d) (runs_from weekday_of value_at key x (range_from b n))
        ≡ (leb x.date_from d && ltb d (b + n))
  unfolding runs_from
  runs_from-covers zero b x o d = rw o.plain (ground arith)
  runs_from-covers (suc n) b x o d = elim (Bool-cases (e.beq (key x.value) (key (value_at b)))) [
    | inl s ↦
        let ih =
          runs_from-covers n (suc b) (record x { date_to = b })
            (extend-IsOpen x b o ((e.beq_iff _ _).0 s)) d in
        rw (s, runs_from) (ground (arith, ih))
    | inr t ↦
        let ih = runs_from-covers n (suc b) (point weekday_of value_at key b) (point-IsOpen b) d in
        rw (t, runs_from, o.plain) (unfold point in ground (arith, ih, o.ends, o.starts))
  ]

  pub runs_from-IsRight :
      (n b : ℕ) (x : FieldEntry V)
      → IsOpen x b
      → All IsRight (runs_from weekday_of value_at key x (range_from b n))
  unfolding runs_from
  runs_from-IsRight zero b x o = ((λ d c. o.same d (ground arith) (ground arith)), tt)
  runs_from-IsRight (suc n) b x o = elim (Bool-cases (e.beq (key x.value) (key (value_at b)))) [
    | inl s ↦
        rw (s, runs_from)
          (runs_from-IsRight n (suc b) (record x { date_to = b })
            (extend-IsOpen x b o ((e.beq_iff _ _).0 s)))
    | inr t ↦
        rw (t, runs_from)
          (
            (λ d c. o.same d (ground arith) (ground arith)),
            runs_from-IsRight n (suc b) (point weekday_of value_at key b) (point-IsOpen b),
          )
  ]
