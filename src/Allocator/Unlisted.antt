-- ===== src/Allocator/Unlisted.antt =====
-- The states that `delete_from_list` of mm.c goes through, in each of its cases.
use introduction_to_computer.Base.{
  ℕ, ◌+◌, ◌-◌, ◌%◌, ◌^◌, ◌<◌, ◌≡◌, ◌≢◌, inl, inr, refl, sym, ◌∙◌, ap, subst, true, false, List, [],
  ◌∷◌, ◌++◌, ◌==◌, update, update_self, update_ne, arith,
}
use introduction_to_computer.Allocator.Blocks.{get_seg_index}
use introduction_to_computer.Allocator.State.{Mm, put, set_head, curr_size, succ, nextp}
use introduction_to_computer.Allocator.Lists.{delete_from_list, unlist, drop_head, bypass}
use introduction_to_computer.Allocator.Links.{
  In, FarAll, Spread, Off, Linked, succ_off, last_off, Linked-Last, Linked-split, In-front, In-back,
  In-parts,
}
use introduction_to_computer.Allocator.Pushed.{first, NearAll, Bin, Relisted}
use introduction_to_computer.Allocator.Removed.{
  Parts, Spread-Parts, unlinked, unlinked-Linked, Linked-cleared, NearAll-part, end-address,
}

-- The state after `unlist`, by the parts of the list in front of the block and behind it.
abbrev unlisted : Mm → (i b : ℕ) → (l m : List ℕ) → Mm
unlisted s i b [] [] = set_head i 0 s
unlisted s i b [] (c ∷ m) = put c 0 (set_head i c s)
unlisted s i b (a ∷ l) m = record s {
  word = unlinked s.word s.heap_listp (a ∷ l) m (s.word b) (s.word (b + 4));
}

-- The words that a block of the list holds.
record Held (s : Mm) (b : ℕ) (l m : List ℕ) : Type 0 where
  pub pred : s.word b ≡ last_off s.heap_listp 0 l
  pub next : s.word (b + 4) ≡ succ_off s.heap_listp m 0
  pub pred_small : s.word b < 2 ^ 32
  pub next_small : s.word (b + 4) < 2 ^ 32

last_off-small :
    (word : ℕ → ℕ) (h p a : ℕ) (l : List ℕ) (n : ℕ)
    → Linked word h p (a ∷ l) n
    → Spread (a ∷ l)
    → NearAll h (a ∷ l)
    → last_off h p (a ∷ l) < 2 ^ 32
last_off-small word h p a l n links spread near =
    let end = Linked-Last word h p a l n spread links in
    let at = near end.address end.inside in omega (arith, end.offset, at)

Bin-Held :
    (s : Mm) (i b : ℕ) (l m : List ℕ)
    → Bin s.heap_listp (s.seglist_head i) s.word (l ++ b ∷ m)
    → Held s b l m
Bin-Held s i b l m bin =
    let (front, back) = Linked-split s.word s.heap_listp 0 l (b ∷ m) 0 bin.links in
    record {
      pred = back.0;
      next = back.1;
      pred_small =
          before l front (Spread-Parts l b m bin.spread).left
            (λ c j. bin.near c (In-front l (b ∷ m) c j)) back.0;
      next_small = behind m (λ c j. bin.near c (In-back l (b ∷ m) c (inr j))) back.1;
    }
  where
    before :
        (l : List ℕ)
        → Linked s.word s.heap_listp 0 l (b + 4 - s.heap_listp)
        → Spread l
        → NearAll s.heap_listp l
        → s.word b ≡ last_off s.heap_listp 0 l
        → s.word b < 2 ^ 32
    before [] links spread near e = omega (arith, e)
    before (a ∷ l) links spread near e =
        let small = last_off-small s.word s.heap_listp 0 a l _ links spread near in
        omega (arith, e, small)

    behind :
        (m : List ℕ)
        → NearAll s.heap_listp m
        → s.word (b + 4) ≡ succ_off s.heap_listp m 0
        → s.word (b + 4) < 2 ^ 32
    behind [] near e = omega (arith, e)
    behind (c ∷ m) near e = let n = near c (inl refl) in omega (arith, e, n)

bypass-words :
    (s : Mm) (b c z : ℕ)
    → nextp s b ≡ c
    → s.word b < 2 ^ 32
    → s.word (b + 4) < 2 ^ 32
    → b ≢ c
    → b + 4 ≢ c
    → s.word b + s.heap_listp + 4 ≡ z
    → bypass b s ≡ record s { word = update (update s.word c (s.word b)) z (s.word (b + 4)) }
unfolding bypass
bypass-words s b c z at small small_4 ne ne_4 end =
    let e : s.word b % 2 ^ 32 ≡ s.word b = omega (arith, small) in
    let e_4 : s.word (b + 4) % 2 ^ 32 ≡ s.word (b + 4) = omega (arith, small_4) in
    let test : (b == c) ≡ false = ground (arith, ne) in
    let test_4 : (b + 4 == c) ≡ false = ground (arith, ne_4) in
    rw (bypass, at, e, test, test_4, e_4, end) refl

unlist-unlisted :
    (s : Mm) (i b : ℕ) (l m : List ℕ)
    → Bin s.heap_listp (s.seglist_head i) s.word (l ++ b ∷ m)
    → unlist i b s ≡ unlisted s i b l m
unfolding unlist drop_head
unlist-unlisted s i b [] [] bin =
    let held = Bin-Held s i b [] [] bin in
    let e = held.next in
    let is_last : (s.word (b + 4) + s.heap_listp == s.heap_listp) ≡ true = ground (arith, e) in
    let is_head : (b == s.seglist_head i) ≡ true = ground (arith, bin.at_head) in
    rw (unlist, is_head, is_last) refl
unlist-unlisted s i b [] (c ∷ m) bin =
    let held = Bin-Held s i b [] (c ∷ m) bin in
    let near = bin.near c (inr (inl refl)) in
    let e = held.next in
    let is_last : (s.word (b + 4) + s.heap_listp == s.heap_listp) ≡ false =
      ground (arith, e, near) in
    let is_head : (b == s.seglist_head i) ≡ true = ground (arith, bin.at_head) in
    let at : s.word (b + 4) + s.heap_listp - 4 ≡ c = omega (arith, e, near) in
    rw (unlist, is_head, is_last, drop_head, at) refl
unlist-unlisted s i b (a ∷ l) [] bin =
    let held = Bin-Held s i b (a ∷ l) [] bin in
    let far = (Spread-Parts (a ∷ l) b [] bin.spread).far_left a (inl refl) in
    let e = held.next in
    let is_last : (s.word (b + 4) + s.heap_listp == s.heap_listp) ≡ true = ground (arith, e) in
    let is_head : (b == s.seglist_head i) ≡ false = ground (arith, bin.at_head, far) in
    rw (unlist, is_head, is_last, held.pred) refl
unlist-unlisted s i b (a ∷ l) (c ∷ m) bin =
    let held = Bin-Held s i b (a ∷ l) (c ∷ m) bin in
    let parts = Spread-Parts (a ∷ l) b (c ∷ m) bin.spread in
    let far = parts.far_left a (inl refl) in
    let far_c = parts.far_right c (inl refl) in
    let near = bin.near c (In-back (a ∷ l) (b ∷ c ∷ m) c (inr (inl refl))) in
    let e = held.next in
    let is_last : (s.word (b + 4) + s.heap_listp == s.heap_listp) ≡ false =
      ground (arith, e, near) in
    let is_head : (b == s.seglist_head i) ≡ false = ground (arith, bin.at_head, far) in
    rw (unlist, is_head, is_last)
      (bypass-words s b c (last_off s.heap_listp (a - s.heap_listp) l + s.heap_listp + 4)
        (omega (arith, e, near)) held.pred_small held.next_small
        (λ x. absurd (ground (arith, far_c, x))) (λ x. absurd (ground (arith, far_c, x)))
        (ap (λ (x : ℕ). x + s.heap_listp + 4) held.pred))

-- Only link words of the list change.
unlinked-words :
    (word : ℕ → ℕ) (h : ℕ) (l : List ℕ) (b : ℕ) (m : List ℕ) (p n q : ℕ)
    → Linked word h 0 (l ++ b ∷ m) 0
    → Spread (l ++ b ∷ m)
    → NearAll h (l ++ b ∷ m)
    → Off q (l ++ b ∷ m)
    → unlinked word h l m p n q ≡ word q
unlinked-words word h [] b [] p n q links spread near off = refl
unlinked-words word h [] b (c ∷ m) p n q links spread near off =
    update_ne word 0 (off c (inr (inl refl))).0
unlinked-words word h (a ∷ l) b m p n q links spread near off =
    let parts = Spread-Parts (a ∷ l) b m spread in
    let (front, back) = Linked-split word h 0 (a ∷ l) (b ∷ m) 0 links in
    let end = Linked-Last word h 0 a l _ parts.left front in
    let at = end-address h 0 a l word end (λ c i. near c (In-front (a ∷ l) (b ∷ m) c i)) in
    let off_end = (off end.address (In-front (a ∷ l) (b ∷ m) end.address end.inside)).1 in
    go m (λ e. off_end (e ∙ ap (λ (x : ℕ). x + 4) at))
      (λ c i. off c (In-back (a ∷ l) (b ∷ m) c (inr i)))
  where
    go :
        (m : List ℕ)
        → q ≢ last_off h (a - h) l + h + 4
        → Off q m
        → unlinked word h (a ∷ l) m p n q ≡ word q
    go [] ne off = update_ne word 0 ne
    go (c ∷ m) ne off = update_ne (update word c p) n ne ∙ update_ne word p (off c (inl refl)).0

-- The state that `delete_from_list` leaves.
abbrev removed : Mm → (i b : ℕ) → (l m : List ℕ) → Mm
removed s i b l m = put (succ b) 0 (put b 0 (unlisted s i b l m))

removed-Relisted :
    (s : Mm) (i b : ℕ) (l m : List ℕ)
    → Bin s.heap_listp (s.seglist_head i) s.word (l ++ b ∷ m)
    → Relisted s (removed s i b l m) i (l ++ m) (l ++ b ∷ m)
removed-Relisted s i b l m bin = record {
  memory = memory l m;
  listp = listp l m;
  others = others l m;
  words = λ q off.
      update_ne (update (unlisted s i b l m).word b 0) 0 (off b inside).1
      ∙ update_ne (unlisted s i b l m).word 0 (off b inside).0
      ∙ same q l m
      ∙ unlinked-words s.word s.heap_listp l b m (s.word b) (s.word (b + 4)) q bin.links bin.spread
          bin.near off;
  bin = record {
    at_head = head l m bin.at_head;
    links = Linked-cleared (unlisted s i b l m).word s.heap_listp b 0 (l ++ m) 0 far (
        subst (λ (w : ℕ → ℕ). Linked w s.heap_listp 0 (l ++ m) 0) (sym (words l m))
          (unlinked-Linked s.word s.heap_listp l b m bin.links bin.spread bin.near));
    spread = parts.whole;
    near = NearAll-part s.heap_listp l b m bin.near;
  };
}
  where
    parts : Parts l b m
    parts = Spread-Parts l b m bin.spread

    inside : In b (l ++ b ∷ m)
    inside = In-back l (b ∷ m) b (inl refl)

    far : FarAll b (l ++ m)
    far c i = elim (In-parts l m c i) [ inl x ↦ parts.far_left c x | inr x ↦ parts.far_right c x ]

    memory : (l m : List ℕ) → (removed s i b l m).mem ≡ s.mem
    memory [] [] = refl
    memory [] (c ∷ m) = refl
    memory (a ∷ l) m = refl

    listp : (l m : List ℕ) → (removed s i b l m).heap_listp ≡ s.heap_listp
    listp [] [] = refl
    listp [] (c ∷ m) = refl
    listp (a ∷ l) m = refl

    others : (l m : List ℕ) (j : ℕ) → j ≢ i → (removed s i b l m).seglist_head j ≡ s.seglist_head j
    others [] [] j e = update_ne s.seglist_head 0 e
    others [] (c ∷ m) j e = update_ne s.seglist_head c e
    others (a ∷ l) m j e = refl

    words :
        (l m : List ℕ)
        → (unlisted s i b l m).word ≡ unlinked s.word s.heap_listp l m (s.word b) (s.word (b + 4))
    words [] [] = refl
    words [] (c ∷ m) = refl
    words (a ∷ l) m = refl

    same :
        (q : ℕ) (l m : List ℕ)
        → (unlisted s i b l m).word q
          ≡ unlinked s.word s.heap_listp l m (s.word b) (s.word (b + 4)) q
    same q l m = ap (λ (w : ℕ → ℕ). w q) (words l m)

    head :
        (l m : List ℕ)
        → s.seglist_head i ≡ first (l ++ b ∷ m)
        → (removed s i b l m).seglist_head i ≡ first (l ++ m)
    head [] [] e = update_self s.seglist_head 0 i
    head [] (c ∷ m) e = update_self s.seglist_head c i
    head (a ∷ l) m e = e

-- If the block stands in the list of its bin, `delete_from_list` takes it out, leaves the others in
-- their order, and changes no other head and no other words than links of that list.
pub delete_from_list-Relisted :
    (b : ℕ) (s : Mm) (l m : List ℕ)
    → Bin s.heap_listp (s.seglist_head (get_seg_index (curr_size s b))) s.word (l ++ b ∷ m)
    → Relisted s (delete_from_list b s) (get_seg_index (curr_size s b)) (l ++ m) (l ++ b ∷ m)
unfolding delete_from_list
delete_from_list-Relisted b s l m bin =
    let i = get_seg_index (curr_size s b) in
    subst (λ (t : Mm). Relisted s (put (succ b) 0 (put b 0 t)) i (l ++ m) (l ++ b ∷ m))
      (sym (unlist-unlisted s i b l m bin)) (removed-Relisted s i b l m bin)
