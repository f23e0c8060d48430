-- ===== src/CacheSim/Alias.antt =====
-- Addresses of csim.c that differ only above the bits of `mask` twice over: `cache_access` sees one
-- set number and one tag number.
use native.Mathlib.Nat.{
  add-mul-div_right, add-mul-mod_self_right, mul_assoc, lt-div-mul-add, mul-le-mul,
  pow-le-pow_right, div-mul-le_self,
}
use introduction_to_computer.Base.{
  ℕ, ◌+◌, ◌*◌, ◌/◌, ◌%◌, ◌^◌, ◌≤◌, ◌<◌, ◌≡◌, ◌≢◌, ◌∙◌, ap, sym, subst, arith, lt→ltb, pow_pos,
}
use introduction_to_computer.CacheSim.{Config, set_number, tag_number}

module _ (c : Config) where
  -- The number of addresses whose bits `mask` tells apart.
  abbrev pub span : ℕ
  span = 2 ^ (c.set_bits + c.block_bits)

  abbrev pub far : ℕ → ℕ → ℕ
  far a d = a + d * (span * span)

  mod-far : (a d : ℕ) → far a d % span ≡ a % span
  mod-far a d =
      ap (λ n. (a + n) % span) (sym (mul_assoc d span span))
      ∙ add-mul-mod_self_right a (d * span) span

  div-far : (a d : ℕ) → far a d / span ≡ a / span + d * span
  div-far a d =
      ap (λ n. (a + n) / span) (sym (mul_assoc d span span))
      ∙ add-mul-div_right a (d * span) (pow_pos (c.set_bits + c.block_bits))

  pub far-set_number : (a d : ℕ) → set_number c (far a d) ≡ set_number c a
  unfolding set_number
  far-set_number a d = ap (λ n. n / 2 ^ c.block_bits) (mod-far a d)

  pub far-tag_number : (a d : ℕ) → far a d < 2 ^ 31 → tag_number c (far a d) ≡ tag_number c a
  unfolding tag_number
  far-tag_number a d small =
      rw (lt→ltb (far a d) (2 ^ 31) small, lt→ltb a (2 ^ 31) (omega (arith, small)))
        (ap (λ n. n % span) (div-far a d) ∙ add-mul-mod_self_right (a / span) d span)

  block-le-far : (a d : ℕ) → 0 < d → a + 2 ^ c.block_bits ≤ far a d
  block-le-far a d more =
      let wide : 2 ^ c.block_bits ≤ span = pow-le-pow_right (omega arith) (omega arith) in
      let square : 1 * 2 ^ c.block_bits ≤ span * span =
        mul-le-mul (pow_pos (c.set_bits + c.block_bits)) wide in
      let above : 1 * (1 * 2 ^ c.block_bits) ≤ d * (span * span) = mul-le-mul more square in
      omega (arith, above)

  pub far-block : (a d : ℕ) → 0 < d → far a d / 2 ^ c.block_bits ≢ a / 2 ^ c.block_bits
  far-block a d more e =
      let top : far a d < a / 2 ^ c.block_bits * 2 ^ c.block_bits + 2 ^ c.block_bits =
        subst (λ q. far a d < q * 2 ^ c.block_bits + 2 ^ c.block_bits) e
          (lt-div-mul-add (pow_pos c.block_bits)) in
      absurd (omega (arith, top, block-le-far a d more, div-mul-le_self a (2 ^ c.block_bits)))
