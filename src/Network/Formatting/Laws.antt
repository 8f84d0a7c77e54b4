-- ===== src/Network/Formatting/Laws.antt =====
-- NetworkUtils.cpp: the loop that chooses the unit of `formatBytes` and `formatRate`.
use data_exfiltration_detect.Common.{
  ℕ, zero, suc, ◌+◌, ◌≤◌, ◌<◌, ◌≡◌, refl, sym, subst, ◌∙◌, true, false, ◌⊎◌, inl, inr, Bool-cases,
  arith,
}
use native.Mathlib.Nat.{zero-add}
use data_exfiltration_detect.Network.Formatting.{Printing, Scaled, scale_loop, scale}

module _ {Double : Type 0} (p : Printing Double) where
  -- The value after some divisions by 1024.
  unfoldable pub divided : ℕ → Double → Double
  divided zero value = value
  divided (suc n) value = divided n (p.floats.divide value p.kibi)

  -- A value of a unit at most `rounds` further: the first that is below 1024, or the last.
  pub record IsScaled (rounds : ℕ) (before after : Scaled Double) (n : ℕ) : Type 0 where
    pub few : n ≤ rounds
    pub unit_moves : after.unit ≡ before.unit + n
    pub value_divides : after.value ≡ divided n before.value
    pub ends : (p.greater_equal after.value p.kibi ≡ false) ⊎ (n ≡ rounds)
    pub first : (i : ℕ) → i < n → p.greater_equal (divided i before.value) p.kibi ≡ true

  stay :
      (rounds : ℕ) (s : Scaled Double)
      → (p.greater_equal s.value p.kibi ≡ false) ⊎ (0 ≡ rounds)
      → IsScaled rounds s s 0
  unfolding divided
  stay rounds s h = record {
    few = omega arith;
    unit_moves = omega arith;
    value_divides = refl;
    ends = h;
    first = λ i lt. absurd (omega arith);
  }

  move :
      (rounds n : ℕ) (s r : Scaled Double)
      → p.greater_equal s.value p.kibi ≡ true
      → IsScaled rounds (record { value = p.floats.divide s.value p.kibi; unit = s.unit + 1 }) r n
      → IsScaled (suc rounds) s r (suc n)
  unfolding divided
  move rounds n s r e h = record {
    few = omega (arith, h.few);
    unit_moves = omega (arith, h.unit_moves);
    value_divides = h.value_divides;
    ends = elim h.ends [ inl x ↦ inl x | inr x ↦ inr (omega (arith, x)) ];
    first = λ i lt. earlier i lt;
  }
    where
      earlier : (i : ℕ) → i < suc n → p.greater_equal (divided i s.value) p.kibi ≡ true
      earlier zero lt = e
      earlier (suc i) lt = h.first i (omega arith)

  scale_loop-IsScaled :
      (rounds : ℕ) (s : Scaled Double) → (n : ℕ) × IsScaled rounds s (scale_loop p rounds s) n
  unfolding scale_loop
  scale_loop-IsScaled zero s = (0, stay 0 s (inr refl))
  scale_loop-IsScaled (suc rounds) s =
      let s' : Scaled Double = record {
        value = p.floats.divide s.value p.kibi;
        unit = s.unit + 1;
      } in
      let r = scale_loop p rounds s' in
      elim (Bool-cases (p.greater_equal s.value p.kibi)) [
        | inl e ↦ let (n, h) = scale_loop-IsScaled rounds s' in rw e (suc n, move rounds n s r e h)
        | inr e ↦ rw e (0, stay (suc rounds) s (inl e))
      ]

  -- The loop that scales a byte count or a rate ends, within three rounds, in the first unit in
  -- which the value is below 1024, or in the last unit; the value is the given one divided by
  -- 1024 as often.
  pub scale-IsScaled :
      (value : Double)
      → IsScaled 3 (record { value = value; unit = 0 }) (scale p value) (scale p value).unit
  unfolding scale
  scale-IsScaled value =
      let s : Scaled Double = record { value = value; unit = 0 } in
      let (n, h) = scale_loop-IsScaled 3 s in
      subst (IsScaled 3 s (scale_loop p 3 s)) (sym (h.unit_moves ∙ zero-add n)) h
