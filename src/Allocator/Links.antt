-- ===== src/Allocator/Links.antt =====
-- The words that link the blocks of a free list of mm.c: what a change of one of them makes of the
-- list. Links are offsets from `h`, the word `heap_listp`.
use introduction_to_computer.Base.{
  ℕ, ◌+◌, ◌-◌, ◌≤◌, ◌≡◌, ◌≢◌, ◌⊎◌, inl, inr, refl, sym, ◌∙◌, List, [], ◌∷◌, ◌++◌, update,
  update_self, update_ne, arith,
}

abbrev pub In : ℕ → List ℕ → Type 0
In b [] = ⊥
In b (c ∷ l) = (b ≡ c) ⊎ In b l

abbrev pub Distinct : List ℕ → Type 0
Distinct [] = Unit {0}
Distinct (b ∷ l) = (¬ In b l) × Distinct l

-- The link words of the two blocks do not overlap.
abbrev pub Far : (b c : ℕ) → Type 0
Far b c = (b + 8 ≤ c) ⊎ (c + 8 ≤ b)

abbrev pub FarAll : ℕ → List ℕ → Type 0
FarAll b l = (c : ℕ) → In c l → Far b c

-- Different blocks of the list are far from each other.
abbrev pub Spread : List ℕ → Type 0
Spread [] = Unit {0}
Spread (b ∷ l) = FarAll b l × Spread l

-- `q` is no link word of the list.
abbrev pub Off : ℕ → List ℕ → Type 0
Off q l = (c : ℕ) → In c l → (q ≢ c) × (q ≢ c + 4)

-- The offset of the successor field that the block in front of `l` holds; `n` behind the last block.
abbrev pub succ_off : (h : ℕ) → List ℕ → (n : ℕ) → ℕ
succ_off h [] n = n
succ_off h (c ∷ l) n = c + 4 - h

-- The offset of the last block, `p` if there is none.
abbrev pub last_off : (h p : ℕ) → List ℕ → ℕ
last_off h p [] = p
last_off h p (b ∷ l) = last_off h (b - h) l

abbrev pub Linked : (word : ℕ → ℕ) → (h p : ℕ) → List ℕ → (n : ℕ) → Type 0
Linked word h p [] n = Unit {0}
Linked word h p (b ∷ l) n =
    (word b ≡ p) × (word (b + 4) ≡ succ_off h l n) × Linked word h (b - h) l n

pub Far-Off : (b : ℕ) (l : List ℕ) → FarAll b l → Off b l
Far-Off b l far c i = (λ e. gap (far c i) e, λ e. gap_4 (far c i) e)
  where
    gap : {c : ℕ} → Far b c → b ≢ c
    gap (inl f) e = omega (arith, f, e)
    gap (inr f) e = omega (arith, f, e)

    gap_4 : {c : ℕ} → Far b c → b ≢ c + 4
    gap_4 (inl f) e = omega (arith, f, e)
    gap_4 (inr f) e = omega (arith, f, e)

pub Far-Off_4 : (b : ℕ) (l : List ℕ) → FarAll b l → Off (b + 4) l
Far-Off_4 b l far c i = (λ e. gap (far c i) e, λ e. gap_4 (far c i) e)
  where
    gap : {c : ℕ} → Far b c → b + 4 ≢ c
    gap (inl f) e = omega (arith, f, e)
    gap (inr f) e = omega (arith, f, e)

    gap_4 : {c : ℕ} → Far b c → b + 4 ≢ c + 4
    gap_4 (inl f) e = omega (arith, f, e)
    gap_4 (inr f) e = omega (arith, f, e)

pub Off-rest : (q c : ℕ) (l : List ℕ) → Off q (c ∷ l) → Off q l
Off-rest q c l off d i = off d (inr i)

-- A list of which every block is in another list.
pub Off-part : (q : ℕ) (l m : List ℕ) → ((c : ℕ) → In c l → In c m) → Off q m → Off q l
Off-part q l m part off c i = off c (part c i)

pub In-front : (l m : List ℕ) (c : ℕ) → In c l → In c (l ++ m)
In-front [] m c i = elim i [ ]
In-front (b ∷ l) m c (inl e) = inl e
In-front (b ∷ l) m c (inr i) = inr (In-front l m c i)

pub In-back : (l m : List ℕ) (c : ℕ) → In c m → In c (l ++ m)
In-back [] m c i = i
In-back (b ∷ l) m c i = inr (In-back l m c i)

pub In-parts : (l m : List ℕ) (c : ℕ) → In c (l ++ m) → In c l ⊎ In c m
In-parts [] m c i = inr i
In-parts (b ∷ l) m c (inl e) = inl (inl e)
In-parts (b ∷ l) m c (inr i) = elim (In-parts l m c i) [ inl x ↦ inl (inr x) | inr y ↦ inr y ]

module _ (word : ℕ → ℕ) (h : ℕ) where
  -- Only the link words of a list matter for it.
  pub Linked-same :
      (word' : ℕ → ℕ) (p : ℕ) (l : List ℕ) (n : ℕ)
      → ((c : ℕ) → In c l → (word' c ≡ word c) × (word' (c + 4) ≡ word (c + 4)))
      → Linked word h p l n
      → Linked word' h p l n
  Linked-same word' p [] n same links = tt
  Linked-same word' p (b ∷ l) n same links =
      let (here, here_4) = same b (inl refl) in
      (
        here ∙ links.0,
        here_4 ∙ links.1,
        Linked-same word' (b - h) l n (λ c i. same c (inr i)) links.2,
      )

  pub Linked-put :
      (q v p : ℕ) (l : List ℕ) (n : ℕ)
      → Off q l
      → Linked word h p l n
      → Linked (update word q v) h p l n
  Linked-put q v p l n off = Linked-same (update word q v) p l n (λ c i.
      (update_ne word v (λ e. (off c i).0 (sym e)), update_ne word v (λ e. (off c i).1 (sym e))))

  -- The predecessor of the first block.
  pub Linked-set_first :
      (v p b : ℕ) (l : List ℕ) (n : ℕ)
      → FarAll b l
      → Linked word h p (b ∷ l) n
      → Linked (update word b v) h v (b ∷ l) n
  Linked-set_first v p b l n far links = (
    update_self word v b,
    update_ne word v (λ e. omega (arith, e)) ∙ links.1,
    Linked-put b v (b - h) l n (Far-Off b l far) links.2,
  )

  -- Where the last block is.
  pub record Last (p : ℕ) (l : List ℕ) : Type 0 where
    pub address : ℕ
    pub inside : In address l
    pub offset : last_off h p l ≡ address - h
    pub relinked : (n : ℕ) → Linked (update word (address + 4) n) h p l n

  pub Linked-Last :
      (p b : ℕ) (l : List ℕ) (n : ℕ) → Spread (b ∷ l) → Linked word h p (b ∷ l) n → Last p (b ∷ l)
  Linked-Last p b [] n spread links = record {
    address = b;
    inside = inl refl;
    offset = refl;
    relinked =
        λ m. (update_ne word m (λ e. omega (arith, e)) ∙ links.0, update_self word m (b + 4), tt);
  }
  Linked-Last p b (c ∷ l) n spread links =
      let rec = Linked-Last (b - h) c l n spread.1 links.2 in
      let far = spread.0 rec.address rec.inside in
      record {
        address = rec.address;
        inside = inr rec.inside;
        offset = rec.offset;
        relinked = λ m. (
          update_ne word m (λ e. absurd (ground (arith, far, e))) ∙ links.0,
          update_ne word m (λ e. absurd (ground (arith, far, e))) ∙ links.1,
          rec.relinked m,
        );
      }

  pub Linked-split :
      (p : ℕ) (l m : List ℕ) (n : ℕ)
      → Linked word h p (l ++ m) n
      → Linked word h p l (succ_off h m n) × Linked word h (last_off h p l) m n
  Linked-split p [] m n links = (tt, links)
  Linked-split p (b ∷ []) m n links = ((links.0, links.1, tt), links.2)
  Linked-split p (b ∷ c ∷ l) m n links =
      let (front, back) = Linked-split (b - h) (c ∷ l) m n links.2 in
      ((links.0, links.1, front), back)

  pub Linked-join :
      (p : ℕ) (l m : List ℕ) (n : ℕ)
      → Linked word h p l (succ_off h m n)
      → Linked word h (last_off h p l) m n
      → Linked word h p (l ++ m) n
  Linked-join p [] m n front back = back
  Linked-join p (b ∷ []) m n front back = (front.0, front.1, back)
  Linked-join p (b ∷ c ∷ l) m n front back =
      (front.0, front.1, Linked-join (b - h) (c ∷ l) m n front.2 back)
