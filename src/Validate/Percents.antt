-- ===== src/Validate/Percents.antt =====
-- The percents of the CPU rule: what the clamp and the order of the thresholds do to doubles.
use minilisysm.Prelude.{◌≡◌, refl, true, false, arith}
use minilisysm.Double.{Double, IsOrdered, fmin, fmax}
use minilisysm.Config.{CpuUsageConfig}
use minilisysm.Validate.{to_percent, raised_to, lowered_to}

-- Case by case, whatever the comparisons say.
pub to_percent_idem : {W : Type 0} ⦃d : Double W⦄ (x : W) → to_percent (to_percent x) ≡ to_percent x
to_percent_idem x = ground arith

module _ {W : Type 0} ⦃d : Double W⦄ (o : IsOrdered W) where
  open o use {of_nat_number, refl_of_le, le_trans, le_total, lt-eq-not-le, lt_of_nan}

  pub fmin_mono :
      (a x y : W) → d.le a a ≡ true → d.le x y ≡ true → d.le (fmin a x) (fmin a y) ≡ true
  fmin_mono a x y h le =
      let (hx, hy) = refl_of_le x y le in
      ground
        (arith, lt-eq-not-le x a hx h, lt-eq-not-le y a hy h, le_total x a hx h, le_trans a x y, h)

  pub fmax_mono :
      (a x y : W) → d.le a a ≡ true → d.le x y ≡ true → d.le (fmax a x) (fmax a y) ≡ true
  fmax_mono a x y h le =
      let (hx, hy) = refl_of_le x y le in
      ground (
        arith,
        lt-eq-not-le a x h hx,
        lt-eq-not-le a y h hy,
        le_total x a hx h,
        le_total a y h hy,
        le_trans x y a,
        h,
      )

  pub to_percent_mono : (x y : W) → d.le x y ≡ true → d.le (to_percent x) (to_percent y) ≡ true
  to_percent_mono x y le =
      fmax_mono (d.of_nat 0) _ _ (of_nat_number 0)
        (fmin_mono (d.of_nat 100) x y (of_nat_number 100) le)

  -- The clamp to percents keeps two thresholds in order.
  pub percents_in_order : (x y : W) → d.le x y ≡ true → d.lt (to_percent y) (to_percent x) ≡ false
  percents_in_order x y le =
      let h = to_percent_mono x y le in
      let (hx, hy) = refl_of_le _ _ h in rw (lt-eq-not-le _ _ hy hx, h) refl

  pub le-raised_to :
      (low x : W) → d.le low low ≡ true → d.le x x ≡ true → d.le low (raised_to low x) ≡ true
  le-raised_to low x hl hx = ground (arith, lt-eq-not-le x low hx hl)

  pub lowered_to-le :
      (high x : W) → d.le high high ≡ true → d.le x x ≡ true → d.le (lowered_to high x) high ≡ true
  lowered_to-le high x hh hx = ground (arith, lt-eq-not-le high x hh hx)

-- The thresholds of the CPU rule are numbers.
pub record Numbers {W : Type 0} ⦃d : Double W⦄ (c : CpuUsageConfig W) : Type 0 where
  pub warning_number : d.le c.cpu_usage_warning_percent c.cpu_usage_warning_percent ≡ true
  pub critical_number : d.le c.cpu_usage_critical_percent c.cpu_usage_critical_percent ≡ true
  pub recovery_number : d.le c.cpu_usage_recovery_percent c.cpu_usage_recovery_percent ≡ true
