-- ===== src/Allocator/Removed.antt =====
-- `delete_from_list` of mm.c takes a block out of the list of its bin.
use introduction_to_computer.Base.{
  ℕ, ◌+◌, ◌-◌, ◌≡◌, ◌⊎◌, inl, inr, refl, sym, subst, List, [], ◌∷◌, ◌++◌, update, arith,
}
use introduction_to_computer.Allocator.State.{}
use introduction_to_computer.Allocator.Links.{
  In, Far, FarAll, Spread, Linked, succ_off, last_off, Far-Off, Far-Off_4, Linked-put,
  Linked-set_first, Last, Linked-Last, Linked-split, Linked-join, In-front, In-back, In-parts,
}
use introduction_to_computer.Allocator.Pushed.{NearAll}

-- The block in the middle is far from both parts, and they are spread and far from each other.
pub record Parts (l : List ℕ) (b : ℕ) (m : List ℕ) : Type 0 where
  pub left : Spread l
  pub right : Spread m
  pub whole : Spread (l ++ m)
  pub across : (c : ℕ) → In c l → FarAll c m
  pub far_left : FarAll b l
  pub far_right : FarAll b m

Far-sym : {b c : ℕ} → Far b c → Far c b
Far-sym (inl x) = inr x
Far-sym (inr x) = inl x

pub Spread-Parts : (l : List ℕ) (b : ℕ) (m : List ℕ) → Spread (l ++ b ∷ m) → Parts l b m
Spread-Parts [] b m s = record {
  left = tt;
  right = s.1;
  whole = s.1;
  across = λ c i. elim i [ ];
  far_left = λ c i. elim i [ ];
  far_right = s.0;
}
Spread-Parts (a ∷ l) b m s =
    let rec = Spread-Parts l b m s.1 in
    record {
      left = (λ c i. s.0 c (In-front l (b ∷ m) c i), rec.left);
      right = rec.right;
      whole = (λ c i. s.0 c (within c (In-parts l m c i)), rec.whole);
      across = λ c i. elim i [
        | inl e ↦ λ d j. subst (λ (x : ℕ). Far x d) (sym e) (s.0 d (In-back l (b ∷ m) d (inr j)))
        | inr i ↦ rec.across c i
      ];
      far_left = λ c i. elim i [
        | inl e ↦ subst (Far b) (sym e) (Far-sym (s.0 b (In-back l (b ∷ m) b (inl refl))))
        | inr i ↦ rec.far_left c i
      ];
      far_right = rec.far_right;
    }
  where
    within : (c : ℕ) → In c l ⊎ In c m → In c (l ++ b ∷ m)
    within c (inl i) = In-front l (b ∷ m) c i
    within c (inr i) = In-back l (b ∷ m) c (inr i)

pub NearAll-part :
    (h : ℕ) (l : List ℕ) (b : ℕ) (m : List ℕ) → NearAll h (l ++ b ∷ m) → NearAll h (l ++ m)
NearAll-part h l b m near c i = elim (In-parts l m c i) [
  | inl x ↦ near c (In-front l (b ∷ m) c x)
  | inr x ↦ near c (In-back l (b ∷ m) c (inr x))
]

-- The words that are left, by the parts of the list in front of the block and behind it.
abbrev pub unlinked : (word : ℕ → ℕ) → (h : ℕ) → (l m : List ℕ) → (p n : ℕ) → ℕ → ℕ
unlinked word h [] [] p n = word
unlinked word h [] (c ∷ m) p n = update word c 0
unlinked word h (a ∷ l) [] p n = update word (last_off h (a - h) l + h + 4) 0
unlinked word h (a ∷ l) (c ∷ m) p n = update (update word c p) (last_off h (a - h) l + h + 4) n

-- With the two words of the block cleared.
abbrev pub cleared : (ℕ → ℕ) → ℕ → ℕ → ℕ
cleared word b = update (update word b 0) (b + 4) 0

-- The words of a list far from a block stay when the block is cleared.
pub Linked-cleared :
    (word : ℕ → ℕ) (h b p : ℕ) (l : List ℕ) (n : ℕ)
    → FarAll b l
    → Linked word h p l n
    → Linked (cleared word b) h p l n
Linked-cleared word h b p l n far links =
    Linked-put (update word b 0) h (b + 4) 0 p l n (Far-Off_4 b l far)
      (Linked-put word h b 0 p l n (Far-Off b l far) links)

pub end-address :
    (h p a : ℕ) (l : List ℕ) (word : ℕ → ℕ) (last : Last word h p (a ∷ l))
    → NearAll h (a ∷ l)
    → last_off h p (a ∷ l) + h ≡ last.address
end-address h p a l word last near =
    let n = near last.address last.inside in omega (arith, last.offset, n)

pub unlinked-Linked :
    (word : ℕ → ℕ) (h : ℕ) (l : List ℕ) (b : ℕ) (m : List ℕ)
    → Linked word h 0 (l ++ b ∷ m) 0
    → Spread (l ++ b ∷ m)
    → NearAll h (l ++ b ∷ m)
    → Linked (unlinked word h l m (word b) (word (b + 4))) h 0 (l ++ m) 0
unlinked-Linked word h [] b [] links spread near = tt
unlinked-Linked word h [] b (c ∷ m) links spread near =
    Linked-set_first word h 0 (b - h) c m 0 (spread.1.0) links.2
unlinked-Linked word h (a ∷ l) b [] links spread near =
    let parts = Spread-Parts (a ∷ l) b [] spread in
    let (front, back) = Linked-split word h 0 (a ∷ l) (b ∷ []) 0 links in
    let end = Linked-Last word h 0 a l (succ_off h (b ∷ []) 0) parts.left front in
    let at = end-address h 0 a l word end (λ c i. near c (In-front (a ∷ l) (b ∷ []) c i)) in
    Linked-join _ h 0 (a ∷ l) [] 0
      (subst (λ (x : ℕ). Linked (update word (x + 4) 0) h 0 (a ∷ l) 0) (sym at) (end.relinked 0)) tt
unlinked-Linked word h (a ∷ l) b (c ∷ m) links spread near =
    let parts = Spread-Parts (a ∷ l) b (c ∷ m) spread in
    let (front, back) = Linked-split word h 0 (a ∷ l) (b ∷ c ∷ m) 0 links in
    let far_c : FarAll c (a ∷ l) = λ d i. Far-sym (parts.across d i c (inl refl)) in
    let w1 = update word c (word b) in
    let front' = Linked-put word h c (word b) 0 (a ∷ l) _ (Far-Off c (a ∷ l) far_c) front in
    let end = Linked-Last w1 h 0 a l _ parts.left front' in
    let at = end-address h 0 a l w1 end (λ d i. near d (In-front (a ∷ l) (b ∷ c ∷ m) d i)) in
    let n = word (b + 4) in
    let behind =
      Linked-put w1 h (end.address + 4) n (word b) (c ∷ m) 0
        (Far-Off_4 end.address (c ∷ m) (parts.across end.address end.inside))
        (Linked-set_first word h (word b) (b - h) c m 0 parts.right.0 back.2) in
    Linked-join _ h 0 (a ∷ l) (c ∷ m) 0
      (subst (λ (x : ℕ). Linked (update w1 (x + 4) n) h 0 (a ∷ l) (c + 4 - h)) (sym at)
        (subst (λ (y : ℕ). Linked (update w1 (end.address + 4) n) h 0 (a ∷ l) y) back.1
          (end.relinked n)))
      (subst (λ (x : ℕ). Linked (update w1 (x + 4) n) h (last_off h (a - h) l) (c ∷ m) 0) (sym at)
        (subst (λ (y : ℕ). Linked (update w1 (end.address + 4) n) h y (c ∷ m) 0) back.0 behind))
