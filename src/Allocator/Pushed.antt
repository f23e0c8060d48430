-- ===== src/Allocator/Pushed.antt =====
-- `add_to_list` of mm.c puts a block in front of the list of its bin.
use introduction_to_computer.Base.{
  ℕ, ◌+◌, ◌-◌, ◌%◌, ◌^◌, ◌<◌, ◌≤◌, ◌≡◌, ◌≢◌, inl, inr, refl, sym, ◌∙◌, subst, false, List, [], ◌∷◌,
  ◌==◌, update, update_self, update_ne, arith,
}
use introduction_to_computer.Allocator.Blocks.{get_seg_index}
use introduction_to_computer.Allocator.State.{Mm, put, set_head, curr_size, succ, p_offset}
use introduction_to_computer.Allocator.Lists.{add_to_list, push_front}
use introduction_to_computer.Allocator.Links.{
  In, FarAll, Spread, Off, Linked, Far-Off, Far-Off_4, Linked-put, Linked-set_first,
}

-- The pointer to the first block, 0 if there is none.
abbrev pub first : List ℕ → ℕ
first [] = 0
first (b ∷ l) = b

-- A block pointer behind `heap_listp`, near enough for an offset of 32 bits.
abbrev pub Near : (h b : ℕ) → Type 0
Near h b = (h < b) × (b + 4 < h + 2 ^ 32)

abbrev pub NearAll : (h : ℕ) → List ℕ → Type 0
NearAll h l = (b : ℕ) → In b l → Near h b

-- The list of a bin, by its head and the words of its blocks.
pub record Bin (h head : ℕ) (word : ℕ → ℕ) (l : List ℕ) : Type 0 where
  pub at_head : head ≡ first l
  pub links : Linked word h 0 l 0
  pub spread : Spread l
  pub near : NearAll h l

-- The list of bin `i` became `l`, and nothing changed but its head and link words of `touched`.
pub record Relisted (s t : Mm) (i : ℕ) (l touched : List ℕ) : Type 0 where
  pub memory : t.mem ≡ s.mem
  pub listp : t.heap_listp ≡ s.heap_listp
  pub others : (j : ℕ) → j ≢ i → t.seglist_head j ≡ s.seglist_head j
  pub words : (q : ℕ) → Off q touched → t.word q ≡ s.word q
  pub bin : Bin s.heap_listp (t.seglist_head i) t.word l

pub offset-near : (h p : ℕ) → h ≤ p → p < h + 2 ^ 32 → (p + 2 ^ 64 - h) % 2 ^ 32 % 2 ^ 32 ≡ p - h
offset-near h p above near = omega arith

pushed-Linked :
    (word : ℕ → ℕ) (h b c v v_4 : ℕ) (l : List ℕ)
    → v ≡ b - h
    → v_4 ≡ c + 4 - h
    → FarAll b (c ∷ l)
    → FarAll c l
    → Linked word h 0 (c ∷ l) 0
    → Linked (update (update (update word c v) (b + 4) v_4) b 0) h 0 (b ∷ c ∷ l) 0
pushed-Linked word h b c v v_4 l e e_4 far far_c links =
    let w1 = update word c v in
    let w2 = update w1 (b + 4) v_4 in
    (
      update_self w2 0 b,
      update_ne w2 0 (λ x. omega (arith, x)) ∙ update_self w1 v_4 (b + 4) ∙ e_4,
      Linked-put w2 h b 0 (b - h) (c ∷ l) 0 (Far-Off b (c ∷ l) far) (
          Linked-put w1 h (b + 4) v_4 (b - h) (c ∷ l) 0 (Far-Off_4 b (c ∷ l) far) (
            subst (λ (x : ℕ). Linked w1 h x (c ∷ l) 0) e
              (Linked-set_first word h v 0 c l 0 far_c links))),
    )

-- The state that `add_to_list` leaves.
abbrev pushed : Mm → (i b : ℕ) → List ℕ → Mm
pushed s i b [] = put (succ b) 0 (put b 0 (set_head i b s))
pushed s i b (c ∷ l) = push_front i c b s

add_to_list-pushed :
    (b : ℕ) (s : Mm) (l : List ℕ)
    → s.seglist_head (get_seg_index (curr_size s b)) ≡ first l
    → NearAll s.heap_listp l
    → add_to_list b s ≡ pushed s (get_seg_index (curr_size s b)) b l
unfolding add_to_list
add_to_list-pushed b s [] at near = rw (at, add_to_list) refl
add_to_list-pushed b s (c ∷ l) at near =
    let positive : (c == 0) ≡ false = ground (arith, near c (inl refl)) in
    rw (at, add_to_list, positive) refl

pushed-Relisted :
    (s : Mm) (i b : ℕ) (l : List ℕ)
    → Bin s.heap_listp (s.seglist_head i) s.word l
    → FarAll b l
    → Near s.heap_listp b
    → Relisted s (pushed s i b l) i (b ∷ l) (b ∷ l)
unfolding push_front
pushed-Relisted s i b [] bin far near = record {
  memory = refl;
  listp = refl;
  others = λ j e. update_ne s.seglist_head b e;
  words = λ q off.
      update_ne (update s.word b 0) 0 (off b (inl refl)).1
      ∙ update_ne s.word 0 (off b (inl refl)).0;
  bin = record {
    at_head = update_self s.seglist_head b i;
    links = (
      update_ne (update s.word b 0) 0 (λ x. omega (arith, x)) ∙ update_self s.word 0 b,
      update_self (update s.word b 0) 0 (b + 4),
      tt,
    );
    spread = (far, tt);
    near =
        λ c x. elim x [ inl e ↦ subst (Near s.heap_listp) (sym e) near | inr none ↦ elim none [ ] ];
  };
}
pushed-Relisted s i b (c ∷ l) bin far near =
    let near_c = bin.near c (inl refl) in
    let v = p_offset s b % 2 ^ 32 in
    let v_4 = p_offset s (succ c) % 2 ^ 32 in
    let w1 = update s.word c v in
    let w2 = update w1 (b + 4) v_4 in
    record {
      memory = refl;
      listp = refl;
      others = λ j e. update_ne s.seglist_head b e;
      words = λ q off.
          update_ne w2 0 (off b (inl refl)).0
          ∙ update_ne w1 v_4 (off b (inl refl)).1
          ∙ update_ne s.word v (off c (inr (inl refl))).0;
      bin = record {
        at_head = update_self s.seglist_head b i;
        links =
            pushed-Linked s.word s.heap_listp b c v v_4 l
              (offset-near s.heap_listp b (omega (arith, near)) (omega (arith, near)))
              (offset-near s.heap_listp (c + 4) (omega (arith, near_c)) (omega (arith, near_c))) far
              bin.spread.0 bin.links;
        spread = (far, bin.spread);
        near =
            λ d x. elim x [ inl e ↦ subst (Near s.heap_listp) (sym e) near | inr i ↦ bin.near d i ];
      };
    }

-- If the block is far from the blocks of its bin and behind `heap_listp`, `add_to_list` puts it in
-- front of the list of its bin, and changes no other head and no other words than links of that list.
pub add_to_list-Relisted :
    (b : ℕ) (s : Mm) (l : List ℕ)
    → Bin s.heap_listp (s.seglist_head (get_seg_index (curr_size s b))) s.word l
    → FarAll b l
    → Near s.heap_listp b
    → Relisted s (add_to_list b s) (get_seg_index (curr_size s b)) (b ∷ l) (b ∷ l)
add_to_list-Relisted b s l bin far near =
    let i = get_seg_index (curr_size s b) in
    subst (λ (t : Mm). Relisted s t i (b ∷ l) (b ∷ l))
      (sym (add_to_list-pushed b s l bin.at_head bin.near)) (pushed-Relisted s i b l bin far near)
