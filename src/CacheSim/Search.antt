-- ===== src/CacheSim/Search.antt =====
-- The two loops of `cache_access`: the search for the tag, and for the least recently used line.
use introduction_to_computer.Base.{
  ℕ, zero, suc, ◌+◌, ◌≤◌, ◌<◌, ◌≡◌, ◌≢◌, ◌⊎◌, inl, inr, refl, ap, none, some, arith, ltb, ◌==◌,
  Bool-cases,
}
use introduction_to_computer.CacheSim.{CacheBlock, find_line, find_lru}

module _ (cache : ℕ → CacheBlock) (off tag : ℕ) where
  -- Line `r` is the first of the lines from `j` on with the tag.
  pub record FirstMatch (j r : ℕ) : Type 0 where
    pub above : j ≤ r
    pub matches : (cache (off + r)).tag ≡ tag
    pub first : (i : ℕ) → j ≤ i → i < r → (cache (off + i)).tag ≢ tag

  pub find_line-some :
      (k j r : ℕ) → find_line cache off tag k j ≡ some r → FirstMatch j r × (r < j + k)
  unfolding find_line
  find_line-some zero j r h = cc
  find_line-some (suc k) j r h = elim (Bool-cases ((cache (off + j)).tag == tag)) [
    | inl hit ↦ (
      record {
        above = ground arith;
        matches = ground arith;
        first = λ i below above. absurd (ground arith);
      },
      ground arith,
    )
    | inr miss ↦
        let (m, bound) = find_line-some k (j + 1) r (ground arith) in
        (
          record {
            above = omega arith;
            matches = m.matches;
            first = λ i below above. ground (arith, m.first i);
          },
          omega arith,
        )
  ]

  pub find_line-none :
      (k j : ℕ)
      → find_line cache off tag k j ≡ none
      → (i : ℕ) → j ≤ i
      → i < j + k
      → (cache (off + i)).tag ≢ tag
  unfolding find_line
  find_line-none zero j h i below above = absurd (omega arith)
  find_line-none (suc k) j h i below above = ground (arith, find_line-none k (j + 1) _ i)

abbrev pub stamp : (ℕ → CacheBlock) → (off j : ℕ) → ℕ
stamp cache off j = (cache (off + j)).block_lru_count

-- Line `r` is the first of the `k` lines with the least stamp.
pub record IsOldest (cache : ℕ → CacheBlock) (off k r : ℕ) : Type 0 where
  pub least : (i : ℕ) → i < k → stamp cache off r ≤ stamp cache off i
  pub first : (i : ℕ) → i < r → stamp cache off r < stamp cache off i
  pub inside : (0 < k) → r < k

module _ (cache : ℕ → CacheBlock) (off : ℕ) where
  find_lru-IsOldest :
      (n k j smallest suspect : ℕ)
      → n ≡ j + k
      → (suspect ≡ 0) ⊎ (suspect < j)
      → smallest ≡ stamp cache off suspect
      → ((i : ℕ) → i < j → smallest ≤ stamp cache off i)
      → ((i : ℕ) → i < suspect → smallest < stamp cache off i)
      → IsOldest cache off n (find_lru cache off k j smallest suspect)
  unfolding find_lru
  find_lru-IsOldest n zero j smallest suspect b at e least first = record {
    least = λ i h. ground (arith, least i);
    first = λ i h. ground (arith, first i);
    inside = λ h. ground arith;
  }
  find_lru-IsOldest n (suc k) j smallest suspect b at e least first =
      elim (Bool-cases (ltb (stamp cache off j) smallest)) [
        | inl less ↦ rw less (
            find_lru-IsOldest n k (j + 1) (stamp cache off j) j (omega arith) (inr (omega arith))
              refl (λ i h. ground (arith, least i)) (λ i h. ground (arith, least i)))
        | inr kept ↦ rw kept (
            find_lru-IsOldest n k (j + 1) smallest suspect (omega arith) (ground arith) e
              (λ i h. ground (arith, least i)) first)
      ]

  -- The second loop, as `cache_access` starts it.
  pub find_lru_lem :
      (k : ℕ) → IsOldest cache off k (find_lru cache off k 0 (cache off).block_lru_count 0)
  find_lru_lem k =
      find_lru-IsOldest k k 0 (cache off).block_lru_count 0 (omega arith) (inl refl)
        (ap (λ i. (cache i).block_lru_count) (omega arith)) (λ i h. absurd (omega arith))
        (λ i h. absurd (omega arith))
