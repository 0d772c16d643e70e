-- ===== src/Cache/Termination.antt =====
-- backend/src/cache.rs: the loop of `insert` over the bound ends, and where.
use open_berat.Base.{
  ℕ, zero, suc, Bool, false, length, ◌≡◌, ◌≤◌, refl, arith, ltb, Bool-cases, inl, inr,
}
use open_berat.Cache.Types.{capacity, Externals, Cache}
use open_berat.Cache.Ops.{let_go, shrink}
use open_berat.Cache.Runs.{oldest-found, let_go-shorter, shrink-le}

module _ (x : Externals) (full : ℕ → Bool) where
  -- Two amounts of fuel that both reach the number of entries.
  shrink-agree :
      (f g : ℕ) (c : Cache)
      → length c.entries ≤ f
      → length c.entries ≤ g
      → shrink x full f c ≡ shrink x full g c
  unfolding shrink
  shrink-agree zero zero c h k = refl
  shrink-agree zero (suc g) c h k =
      let e : ltb capacity (length c.entries) ≡ false = ground arith in rw (e, shrink) refl
  shrink-agree (suc f) zero c h k =
      let e : ltb capacity (length c.entries) ≡ false = ground arith in rw (e, shrink) refl
  shrink-agree (suc f) (suc g) c h k = elim (Bool-cases (ltb capacity (length c.entries))) [
    | inr e ↦ rw (e, shrink) refl
    | inl e ↦
        let (key, entry, o, l) = oldest-found x full c.entries (ground arith) in
        rw (e, o, l, shrink)
          (shrink-agree f g (let_go x full key entry c) (let_go-shorter x full key entry c l h)
            (let_go-shorter x full key entry c l k))
  ]

  -- The loop ends: with any fuel that reaches the number of entries it leaves the same cache, one within
  -- the bound, and on that cache it has nothing more to do.
  pub shrink_lem :
      (fuel more : ℕ) (c : Cache)
      → length c.entries ≤ fuel
      → (shrink x full fuel c ≡ shrink x full (length c.entries) c)
        × (length (shrink x full fuel c).entries ≤ capacity)
        × (shrink x full more (shrink x full fuel c) ≡ shrink x full fuel c)
  unfolding shrink
  shrink_lem fuel more c h =
      let bound = shrink-le x full fuel c h in
      (shrink-agree fuel (length c.entries) c h (omega arith), bound, done more _ bound)
    where
      done : (n : ℕ) (d : Cache) → length d.entries ≤ capacity → shrink x full n d ≡ d
      done zero d k = refl
      done (suc n) d k =
          let e : ltb capacity (length d.entries) ≡ false = ground arith in rw (shrink, e) refl
