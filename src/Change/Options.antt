-- ===== src/Change/Options.antt =====
-- internal/service/service_change.go, `resourceOptions` and `optionResources`: sizes that are stored as texts.
use levis.Base.{
  ℕ, ◌*◌, ◌/◌, ◌%◌, ◌<◌, ◌==◌, ◌≡◌, ◌∙◌, ap, sym, refl, ==_iff, true, false, arith, inl, inr,
  Bool-cases,
}
use levis.Base.Int.{ℤ, pos, pos_part, ◌*ℤ◌, ltb_ℤ, eqb_ℤ}
use levis.Change.{
  Numbers, Resources, i32, cores, resource_options, option_resources, milli_cores, resources_equal,
}

-- What strconv and math promise: a number is read back as it was written, and a float64 holds each number of
-- thousandths that an int32 counts so well that its parts are exact.
pub record IsFaithful (n : Numbers) : Type 0 where
  pub read_int : (z : ℤ) → n.parse_int (n.format_int z) ≡ z
  pub read_float : (f : n.Float) → n.parse_float (n.format_float f) ≡ f
  pub int_whole : (z : ℤ) → n.is_whole (n.of_int z) ≡ true
  pub int_ceil : (z : ℤ) → n.ceil (n.of_int z) ≡ z
  pub milli_whole : (m : ℕ) → m < 2147483648 → n.is_whole (n.of_milli (pos m)) ≡ (m % 1000 == 0)
  pub milli_ceil :
      (m : ℕ) → m < 2147483648 → m % 1000 ≡ 0 → n.ceil (n.of_milli (pos m)) ≡ pos (m / 1000)
  pub milli_round : (m : ℕ) → m < 2147483648 → n.round_milli (n.of_milli (pos m)) ≡ pos m

eqb_refl : (z : ℤ) → eqb_ℤ z z ≡ true
eqb_refl z = ground arith

thousand : (c : ℕ) → c * 1000 < 2147483648 → i32 (pos c *ℤ pos 1000) ≡ pos (c * 1000)
unfolding i32 ◌*ℤ◌
thousand c h = ground arith

above : (m : ℕ) → 0 < m → ltb_ℤ (pos 0) (pos m) ≡ true
above m h = ground arith

module _ (n : Numbers) (law : IsFaithful n) where
  open law use {read_int, read_float, int_whole, int_ceil, milli_whole, milli_ceil, milli_round}

  abbrev reread : Resources → Resources
  reread r = option_resources n (resource_options n r)

  cores_some :
      (r : Resources) (m : ℕ) → r.cpu_milli ≡ pos m → 0 < m → cores n r ≡ n.of_milli (pos m)
  unfolding cores
  cores_some r m e some_ = rw e (rw (above m some_) refl)

  cores_none : (r : Resources) → ltb_ℤ (pos 0) r.cpu_milli ≡ false → cores n r ≡ n.of_int r.cpu
  unfolding cores
  cores_none r none_ = rw none_ refl

  -- The thousandths that are compared after the text of `f` was read.
  milli-whole :
      (r : Resources) (f : n.Float)
      → cores n r ≡ f
      → n.is_whole f ≡ true
      → milli_cores n (reread r) ≡ i32 (n.ceil f *ℤ pos 1000)
  unfolding milli_cores option_resources resource_options
  milli-whole r f e whole = rw e (rw (read_float f) (rw whole refl))

  milli-part :
      (r : Resources) (f : n.Float) (m : ℕ)
      → cores n r ≡ f
      → n.is_whole f ≡ false
      → n.round_milli f ≡ pos m
      → 0 < m
      → milli_cores n (reread r) ≡ pos m
  unfolding milli_cores option_resources resource_options
  milli-part r f m e part rounds some_ =
      rw e (rw (read_float f) (rw part (rw rounds (rw (above m some_) refl))))

  milli-reread_some :
      (r : Resources) (m : ℕ)
      → r.cpu_milli ≡ pos m
      → 0 < m
      → m < 2147483648
      → milli_cores n (reread r) ≡ pos m
  milli-reread_some r m e some_ fits =
      let f = cores_some r m e some_ in
      elim (Bool-cases (m % 1000 == 0)) [
        | inl whole ↦
            (let even : m % 1000 ≡ 0 = (==_iff (m % 1000) 0).0 whole in
              let back : m / 1000 * 1000 ≡ m = omega (arith, even) in
              milli-whole r _ f (milli_whole m fits ∙ whole)
              ∙ (ap (λ (z : ℤ). i32 (z *ℤ pos 1000)) (milli_ceil m fits even)
                  ∙ (thousand (m / 1000) (omega (arith, back)) ∙ ap pos back)))
        | inr part ↦ milli-part r _ m f (milli_whole m fits ∙ part) (milli_round m fits) some_
      ]

  milli_none :
      (r : Resources)
      → ltb_ℤ (pos 0) r.cpu_milli ≡ false
      → milli_cores n r ≡ i32 (r.cpu *ℤ pos 1000)
  unfolding milli_cores
  milli_none r none_ = rw none_ refl

  milli_some : (r : Resources) (m : ℕ) → r.cpu_milli ≡ pos m → 0 < m → milli_cores n r ≡ pos m
  unfolding milli_cores
  milli_some r m e some_ = rw e (rw (above m some_) refl)

  milli-reread :
      (r : Resources)
      → pos_part r.cpu_milli < 2147483648
      → milli_cores n (reread r) ≡ milli_cores n r
  milli-reread r fits = elim (Bool-cases (ltb_ℤ (pos 0) r.cpu_milli)) [
    | inl some_ ↦
        (let e : r.cpu_milli ≡ pos (pos_part r.cpu_milli) = ground arith in
          let some : 0 < pos_part r.cpu_milli = ground arith in
          milli-reread_some r _ e some fits ∙ sym (milli_some r _ e some))
    | inr none_ ↦
        (milli-whole r _ (cores_none r none_) (int_whole r.cpu)
          ∙ (ap (λ (z : ℤ). i32 (z *ℤ pos 1000)) (int_ceil r.cpu) ∙ sym (milli_none r none_)))
  ]

  -- The sizes of a host, stored as texts and read back, are equal to its sizes in the sense in which a
  -- retry compares them, for any number of cores that an int32 of thousandths holds: a host that nobody
  -- touched is not taken for one that has drifted.
  pub resources_equal-option_resources :
      (r : Resources)
      → pos_part r.cpu_milli < 2147483648
      → resources_equal n (option_resources n (resource_options n r)) r ≡ true
  unfolding resources_equal option_resources resource_options
  resources_equal-option_resources r fits = rw (milli-reread r fits) (
      rw
        (read_int r.memory_mb, read_int r.disk_gb, read_int r.bandwidth_mbps, read_int r.traffic_gb)
        (rw
          (
            eqb_refl (milli_cores n r),
            eqb_refl r.memory_mb,
            eqb_refl r.disk_gb,
            eqb_refl r.bandwidth_mbps,
            eqb_refl r.traffic_gb,
          )
          refl))
