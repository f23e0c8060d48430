-- ===== src/Proxy/Queue/Delete.antt =====
-- `delete_from_cache` of cache.c takes any element out of the queue.
use introduction_to_computer.Base.{
  ℕ, suc, ◌+◌, ◌^◌, ◌<◌, ◌≡◌, ◌≢◌, refl, sym, ◌∙◌, ap, Option, none, some, [], ◌∷◌, ◌++◌, length,
  append-nil, subst, update, arith,
}
use introduction_to_computer.Proxy.Queue.{
  Cache, unlink, delete_from_cache, with_head, then_set_next, release,
}
use introduction_to_computer.Proxy.Queue.Links.{
  Nodes, Response, Elements, element, first, last, Linked, NotIn, Distinct, AllBelow, total,
  Linked-frame, Linked-set_prev, Linked-Last, Linked-split, last-append,
}
use introduction_to_computer.Proxy.Queue.Change.{
  Represents, shortened, set_prev-at, set_next-at, shrunk, ==-refl, ==-apart,
  delete_from_cache-tail,
}

Linked-join :
    (nodes : Nodes) (p : Option ℕ) (l m : Elements) (n : Option ℕ)
    → Linked nodes p l (first m n)
    → Linked nodes (last p l) m n
    → Linked nodes p (l ++ m) n
Linked-join nodes p [] m n front back = back
Linked-join nodes p ((a, r) ∷ []) m n front back = (front.0, back)
Linked-join nodes p ((a, r) ∷ (b, q) ∷ l) m n front back =
    (front.0, Linked-join nodes (some a) ((b, q) ∷ l) m n front.1 back)

-- Two lists of distinct elements with none in common, from a list with one more in between.
record Parts (l : Elements) (a : ℕ) (m : Elements) : Type 0 where
  pub whole : Distinct (l ++ m)
  pub left : Distinct l
  pub right : Distinct m
  pub not_left : NotIn a l
  pub not_right : NotIn a m

NotIn-parts :
    (b : ℕ) (l : Elements) (a : ℕ) (r : Response) (m : Elements)
    → NotIn b (l ++ (a, r) ∷ m)
    → NotIn b l × (a ≢ b) × NotIn b m × NotIn b (l ++ m)
NotIn-parts b [] a r m h = (tt, h.0, h.1, h.1)
NotIn-parts b ((c, q) ∷ l) a r m h =
    let (x, y, z, w) = NotIn-parts b l a r m h.1 in ((h.0, x), y, z, (h.0, w))

Distinct-Parts :
    (l : Elements) (a : ℕ) (r : Response) (m : Elements) → Distinct (l ++ (a, r) ∷ m) → Parts l a m
Distinct-Parts [] a r m h = record {
  whole = h.1;
  left = tt;
  right = h.1;
  not_left = tt;
  not_right = h.0;
}
Distinct-Parts ((b, q) ∷ l) a r m h =
    let rec = Distinct-Parts l a r m h.1 in
    let (x, y, z, w) = NotIn-parts b l a r m h.0 in
    record {
      whole = (w, rec.whole);
      left = (x, rec.left);
      right = rec.right;
      not_left = (λ e. y (sym e), rec.not_left);
      not_right = rec.not_right;
    }

AllBelow-parts :
    (k : ℕ) (l : Elements) (a : ℕ) (r : Response) (m : Elements)
    → AllBelow k (l ++ (a, r) ∷ m)
    → AllBelow k (l ++ m)
AllBelow-parts k [] a r m h = h.1
AllBelow-parts k ((b, q) ∷ l) a r m h = (h.0, AllBelow-parts k l a r m h.1)

pub total-parts :
    (l : Elements) (a : ℕ) (r : Response) (m : Elements)
    → total (l ++ (a, r) ∷ m) ≡ total (l ++ m) + r.size
total-parts [] a r m = omega arith
total-parts ((b, q) ∷ l) a r m = omega (arith, total-parts l a r m)

length-parts :
    (l : Elements) (a : ℕ) (r : Response) (m : Elements)
    → length (l ++ (a, r) ∷ m) ≡ suc (length (l ++ m))
length-parts [] a r m = refl
length-parts ((b, q) ∷ l) a r m = omega (arith, length-parts l a r m)

-- What every deletion keeps, whatever links are left.
deleted-Represents :
    (s : Cache) (l : Elements) (a : ℕ) (r : Response) (m : Elements) (nodes : Nodes)
    (head tail : Option ℕ)
    → Represents s (l ++ (a, r) ∷ m)
    → total (l ++ (a, r) ∷ m) < 2 ^ 32
    → Linked (update nodes a none) none (l ++ m) none
    → head ≡ first (l ++ m) none
    → tail ≡ last none (l ++ m)
    → Represents (shortened s nodes a head tail r.size) (l ++ m)
deleted-Represents s l a r m nodes head tail h small links at_head at_tail = record {
  links = links;
  at_head = at_head;
  at_tail = at_tail;
  distinct = (Distinct-Parts l a r m h.distinct).whole;
  below = AllBelow-parts s.fresh l a r m h.below;
  count = omega (arith, h.count, length-parts l a r m);
  sizes = shrunk s.current_cache_size _ (total (l ++ m)) r.size h.sizes (total-parts l a r m) small;
}

last-skip :
    (p : Option ℕ) (l : Elements) (a : ℕ) (r : Response) (b : ℕ) (q : Response) (m : Elements)
    → last p (l ++ (a, r) ∷ (b, q) ∷ m) ≡ last p (l ++ (b, q) ∷ m)
last-skip p [] a r b q m = refl
last-skip p ((c, x) ∷ l) a r b q m = last-skip (some c) l a r b q m

NotIn-join : (a : ℕ) (l m : Elements) → NotIn a l → NotIn a m → NotIn a (l ++ m)
NotIn-join a [] m x y = y
NotIn-join a ((b, q) ∷ l) m x y = (x.0, NotIn-join a l m x.1 y)

NotIn-crossed :
    (l m : Elements) (a : ℕ) → Distinct (l ++ m) → ((c : ℕ) → NotIn c l → a ≢ c) → NotIn a m
NotIn-crossed l [] a apart off = tt
NotIn-crossed l ((c, q) ∷ m) a apart off =
    let parts = Distinct-Parts l c q m apart in
    (λ e. off c parts.not_left (sym e), NotIn-crossed l m a parts.whole off)

-- What a deletion comes to.
abbrev pub Deleted : Cache → ℕ → Elements → Type 0
Deleted s a l =
    (t : Cache) × (delete_from_cache (some a) s ≡ some t) × Represents t l × (t.fresh ≡ s.fresh)

delete_from_cache-head :
    (s : Cache) (a : ℕ) (r : Response) (b : ℕ) (q : Response) (m : Elements)
    → Represents s ((a, r) ∷ (b, q) ∷ m)
    → total ((a, r) ∷ (b, q) ∷ m) < 2 ^ 32
    → Deleted s a ((b, q) ∷ m)
unfolding delete_from_cache unlink
delete_from_cache-head s a r b q m h small =
    let mid = update s.nodes b (some (element q (first m none) none)) in
    let out = (Distinct-Parts [] a r ((b, q) ∷ m) h.distinct).not_right in
    let links = Linked-set_prev s.nodes (some a) none b q m none h.distinct.1.0 h.links.1 in
    (
      shortened s mid a (some b) s.tail r.size,
      rw (h.links.0, delete_from_cache, h.at_head, unlink, ==-refl a)
          (ap (λ (o : Option Cache). release a r.size (with_head b o))
            (set_prev-at (record s { head = some a }) b (element q (first m none) (some a)) none
              h.links.1.0)),
      deleted-Represents s [] a r ((b, q) ∷ m) mid (some b) s.tail h small
          (Linked-frame mid a none none ((b, q) ∷ m) none out links) refl h.at_tail,
      refl,
    )

delete_from_cache-interior :
    (s : Cache) (x : ℕ) (p : Response) (l : Elements) (a : ℕ) (r : Response) (b : ℕ) (q : Response)
    (m : Elements)
    → Represents s ((x, p) ∷ l ++ (a, r) ∷ (b, q) ∷ m)
    → total ((x, p) ∷ l ++ (a, r) ∷ (b, q) ∷ m) < 2 ^ 32
    → Deleted s a ((x, p) ∷ l ++ (b, q) ∷ m)
unfolding delete_from_cache unlink
delete_from_cache-interior s x p l a r b q m h small =
    let before = last (some x) l in
    let mid = update s.nodes b (some (element q (first m none) before)) in
    let (front, back) = Linked-split s.nodes none ((x, p) ∷ l) ((a, r) ∷ (b, q) ∷ m) none h.links in
    let parts = Distinct-Parts ((x, p) ∷ l) a r ((b, q) ∷ m) h.distinct in
    let next_parts = Distinct-Parts ((x, p) ∷ l) b q m parts.whole in
    let end =
      Linked-Last mid none x p l (some a) parts.left
        (Linked-frame s.nodes b _ none ((x, p) ∷ l) (some a) next_parts.not_left front) in
    let last_next = some (element end.response (some b) end.before) in
    let heap = update mid end.address last_next in
    let behind =
      Linked-frame mid end.address last_next before ((b, q) ∷ m) none
        (NotIn-crossed ((x, p) ∷ l) ((b, q) ∷ m) end.address parts.whole end.apart)
        (Linked-set_prev s.nodes (some a) before b q m none parts.right.0 back.1) in
    let links =
      Linked-join heap none ((x, p) ∷ l) ((b, q) ∷ m) none (end.relinked (some b)) behind in
    (
      shortened s heap a s.head s.tail r.size,
      rw (back.0, delete_from_cache, h.at_head, unlink, ==-apart (λ e. parts.not_left.0 (sym e)))
          (ap (λ (o : Option Cache). release a r.size (then_set_next before (some b) o))
              (set_prev-at (record s { head = some x }) b (element q (first m none) (some a)) before
                back.1.0)
            ∙ ap (λ (o : Option Cache). release a r.size o)
                (set_next-at (record s { head = some x; nodes = mid }) before end.address
                  (element end.response (some a) end.before) (some b) end.is_last end.stored)),
      deleted-Represents s ((x, p) ∷ l) a r ((b, q) ∷ m) heap s.head s.tail h small
          (Linked-frame heap a none none ((x, p) ∷ l ++ (b, q) ∷ m) none
            (NotIn-join a ((x, p) ∷ l) ((b, q) ∷ m) parts.not_left parts.not_right) links)
          h.at_head (h.at_tail ∙ last-skip none ((x, p) ∷ l) a r b q m),
      refl,
    )

-- If the cache holds a queue of fewer than 2^32 bytes, `delete_from_cache` takes any one of its
-- elements out, wherever it stands, and leaves the others in their order.
pub delete_from_cache-Represents :
    (s : Cache) (l : Elements) (a : ℕ) (r : Response) (m : Elements)
    → Represents s (l ++ (a, r) ∷ m)
    → total (l ++ (a, r) ∷ m) < 2 ^ 32
    → Deleted s a (l ++ m)
delete_from_cache-Represents s l a r [] h small =
    let (t, deleted, ht, fresh) = delete_from_cache-tail s l a r h small in
    (
      t,
      ap (λ (o : Option ℕ). delete_from_cache o s) (sym (h.at_tail ∙ last-append none l a r))
          ∙ deleted,
      subst (Represents t) (sym (append-nil l)) ht,
      fresh,
    )
delete_from_cache-Represents s [] a r ((b, q) ∷ m) h small =
    delete_from_cache-head s a r b q m h small
delete_from_cache-Represents s ((x, p) ∷ l) a r ((b, q) ∷ m) h small =
    delete_from_cache-interior s x p l a r b q m h small
