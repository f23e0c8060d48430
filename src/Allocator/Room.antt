-- ===== src/Allocator/Room.antt =====
-- Blocks of mm.c that are far from each other need room: a list of them is no longer than the heap.
use introduction_to_computer.Base.{
  ℕ, zero, suc, ◌+◌, ◌-◌, ◌*◌, ◌<◌, ◌≤◌, ◌≡◌, inl, inr, refl, true, false, ltb, List, [], ◌∷◌,
  length, arith, Bool-cases,
}
use introduction_to_computer.Allocator.Links.{In, Far, Spread}

-- The blocks in front of an address, and those behind it.
abbrev below : ℕ → List ℕ → List ℕ
below b [] = []
below b (c ∷ l) = elim (ltb c b) [ true ↦ c ∷ below b l | false ↦ below b l ]

abbrev above : ℕ → List ℕ → List ℕ
above b [] = []
above b (c ∷ l) = elim (ltb c b) [ true ↦ above b l | false ↦ c ∷ above b l ]

length-parts : (b : ℕ) (l : List ℕ) → length l ≡ length (below b l) + length (above b l)
length-parts b [] = omega arith
length-parts b (c ∷ l) = elim (Bool-cases (ltb c b)) [
  | inl lower ↦ rw (length, below, above, lower) (omega (arith, length-parts b l))
  | inr upper ↦ rw (length, below, above, upper) (omega (arith, length-parts b l))
]

below-In : (b : ℕ) (l : List ℕ) (c : ℕ) → In c (below b l) → In c l × (c < b)
below-In b [] c = λ i. elim i [ ]
below-In b (d ∷ l) c = elim (Bool-cases (ltb d b)) [
  | inl lower ↦
      rw (In, below, lower)
        (λ i. elim i [
          | inl e ↦ (inl e, ground (arith, lower, e))
          | inr j ↦ let (k, less) = below-In b l c j in (inr k, less)
        ])
  | inr upper ↦ rw (In, below, upper) (λ j. let (k, less) = below-In b l c j in (inr k, less))
]

above-In : (b : ℕ) (l : List ℕ) (c : ℕ) → In c (above b l) → In c l × (b ≤ c)
above-In b [] c = λ i. elim i [ ]
above-In b (d ∷ l) c = elim (Bool-cases (ltb d b)) [
  | inl lower ↦ rw (In, above, lower) (λ j. let (k, less) = above-In b l c j in (inr k, less))
  | inr upper ↦
      rw (In, above, upper)
        (λ i. elim i [
          | inl e ↦ (inl e, ground (arith, upper, e))
          | inr j ↦ let (k, less) = above-In b l c j in (inr k, less)
        ])
]

below-Spread : (b : ℕ) (l : List ℕ) → Spread l → Spread (below b l)
below-Spread b [] s = tt
below-Spread b (d ∷ l) s = elim (Bool-cases (ltb d b)) [
  | inl lower ↦ rw (Spread, below, lower) (λ c i. s.0 c (below-In b l c i).0, below-Spread b l s.1)
  | inr upper ↦ rw (Spread, below, upper) (below-Spread b l s.1)
]

above-Spread : (b : ℕ) (l : List ℕ) → Spread l → Spread (above b l)
above-Spread b [] s = tt
above-Spread b (d ∷ l) s = elim (Bool-cases (ltb d b)) [
  | inl lower ↦ rw (Spread, above, lower) (above-Spread b l s.1)
  | inr upper ↦ rw (Spread, above, upper) (λ c i. s.0 c (above-In b l c i).0, above-Spread b l s.1)
]

-- Between two addresses there is room for one block in eight bytes.
abbrev pub Within : (lo hi : ℕ) → List ℕ → Type 0
Within lo hi l = (c : ℕ) → In c l → (lo ≤ c) × (c + 8 ≤ hi)

fits :
    (n : ℕ) (l : List ℕ) (lo hi : ℕ)
    → length l ≤ n
    → Spread l
    → Within lo hi l
    → length l * 8 ≤ hi - lo
fits n [] lo hi short s within = omega arith
fits zero (b ∷ l) lo hi short s within = absurd (omega (arith, short))
fits (suc n) (b ∷ l) lo hi short s within =
    let parts = length-parts b l in
    let front = fits n (below b l) lo b (omega (arith, parts, short)) (below-Spread b l s.1) (λ c i.
      let (j, less) = below-In b l c i in
      let far = s.0 c j in let at = within c (inr j) in (at.0, before far less)) in
    let back =
      fits n (above b l) (b + 8) hi (omega (arith, parts, short)) (above-Spread b l s.1) (λ c i.
        let (j, more) = above-In b l c i in
        let far = s.0 c j in let at = within c (inr j) in (behind far more, at.1)) in
    let here = within b (inl refl) in omega (arith, parts, front, back, here)
  where
    before : {c : ℕ} → Far b c → c < b → c + 8 ≤ b
    before (inl x) less = omega (arith, x, less)
    before (inr x) less = x

    behind : {c : ℕ} → Far b c → b ≤ c → b + 8 ≤ c
    behind (inl x) more = x
    behind (inr x) more = omega (arith, x, more)

pub Spread-length : (l : List ℕ) (lo hi : ℕ) → Spread l → Within lo hi l → length l * 8 ≤ hi - lo
Spread-length l lo hi = fits (length l) l lo hi (omega arith)
