-- ===== src/Proxy/Queue/Bounds.antt =====
-- `add_to_cache` of cache.c keeps the cache within its size and gives up the oldest responses only.
use introduction_to_computer.Base.{
  ℕ, zero, suc, ◌+◌, ◌%◌, ◌^◌, ◌<◌, ◌≤◌, ◌≡◌, ◌⊎◌, refl, sym, ◌∙◌, ap, subst, some, [], ◌∷◌, ◌++◌,
  ltb, length, append_assoc, append-nil, length-append, arith, inl, inr, Bool-cases,
}
use introduction_to_computer.Proxy.Queue.{
  Cache, make_room, add_to_cache, max_cache_size, max_object_size, empty_cache,
}
use introduction_to_computer.Proxy.Queue.Links.{Response, Elements, total, total-append}
use introduction_to_computer.Proxy.Queue.Change.{
  Represents, add_to_queue-Represents, delete_from_cache-tail,
}

-- The queue is empty or ends with some element.
End-cases :
    (l : Elements) → (l ≡ []) ⊎ ((m : Elements) × (a : ℕ) × (r : Response) × (l ≡ m ++ (a, r) ∷ []))
End-cases [] = inl refl
End-cases ((b, q) ∷ l) = elim (End-cases l) [
  | inl e ↦ inr ([], b, q, ap (λ (x : Elements). (b, q) ∷ x) e)
  | inr (m, a, r, e) ↦ inr ((b, q) ∷ m, a, r, ap (λ (x : Elements). (b, q) ∷ x) e)
]

-- `kept` is the part of the queue that stays for `size` more bytes: the rest is the end of the
-- queue, there is room, and there would be none with one more element.
pub record Fits (l : Elements) (size : ℕ) (kept : Elements) : Type 0 where
  pub dropped : Elements
  pub parts : l ≡ kept ++ dropped
  pub room : total kept + size ≤ max_cache_size
  pub needed :
      (a : ℕ) (r : Response) (older : Elements)
      → dropped ≡ (a, r) ∷ older
      → max_cache_size < total kept + r.size + size

Fits-all : (l : Elements) (size : ℕ) → total l + size ≤ max_cache_size → Fits l size l
Fits-all l size room = record {
  dropped = [];
  parts = sym (append-nil l);
  room = room;
  needed = λ a r older e. cc;
}

Fits-more :
    (m : Elements) (a : ℕ) (r : Response) (size : ℕ) (kept : Elements)
    → max_cache_size < total (m ++ (a, r) ∷ []) + size
    → Fits m size kept
    → Fits (m ++ (a, r) ∷ []) size kept
Fits-more m a r size kept full f = elim (first_dropped f.dropped refl) [
  | inl e ↦ record {
    dropped = (a, r) ∷ [];
    parts = ap (λ (x : Elements). x ++ (a, r) ∷ []) (whole e);
    room = f.room;
    needed = λ b q older same. needed_none e b q older same;
  }
  | inr (b, q, older, e) ↦ record {
    dropped = f.dropped ++ (a, r) ∷ [];
    parts =
        ap (λ (x : Elements). x ++ (a, r) ∷ []) f.parts ∙ append_assoc kept f.dropped ((a, r) ∷ []);
    room = f.room;
    needed = λ c p more same. needed_some b q older e c p more same;
  }
]
  where
    first_dropped :
        (d : Elements)
        → f.dropped ≡ d
        → (f.dropped ≡ [])
          ⊎ ((b : ℕ) × (q : Response) × (older : Elements) × (f.dropped ≡ (b, q) ∷ older))
    first_dropped [] e = inl e
    first_dropped ((b, q) ∷ d) e = inr (b, q, d, e)

    whole : f.dropped ≡ [] → m ≡ kept
    whole e = f.parts ∙ ap (λ (x : Elements). kept ++ x) e ∙ append-nil kept

    needed_none :
        f.dropped ≡ []
        → (b : ℕ) (q : Response) (older : Elements)
        → ◌≡◌ {A = Elements} ((a, r) ∷ []) ((b, q) ∷ older)
        → max_cache_size < total kept + q.size + size
    needed_none e b q older same =
        let sizes : r.size ≡ q.size = ap (λ (x : Elements). front_size x) same in
        let kept_total : total m ≡ total kept = ap total (whole e) in
        omega (arith, sizes, kept_total, total-append m a r, full)
      where
        front_size : Elements → ℕ
        front_size [] = 0
        front_size ((c, p) ∷ x) = p.size

    needed_some :
        (b : ℕ) (q : Response) (older : Elements)
        → f.dropped ≡ (b, q) ∷ older
        → (c : ℕ) (p : Response) (more : Elements) → f.dropped ++ (a, r) ∷ [] ≡ (c, p) ∷ more
        → max_cache_size < total kept + p.size + size
    needed_some b q older e c p more same =
        let sizes : q.size ≡ p.size =
          ap front_size (sym (ap (λ (x : Elements). x ++ (a, r) ∷ []) e) ∙ same) in
        omega (arith, sizes, f.needed b q older e)
      where
        front_size : Elements → ℕ
        front_size [] = 0
        front_size ((c, p) ∷ x) = p.size

-- With more fuel than elements the loop ends, with room for the new response.
make_room-Fits :
    (fuel : ℕ) (size : ℕ) (s : Cache) (l : Elements)
    → length l < fuel
    → size ≤ max_object_size
    → total l ≤ max_cache_size
    → Represents s l
    → (t : Cache) × (kept : Elements) × (make_room fuel size s ≡ some t)
      × Represents t kept
      × Fits l size kept
      × (t.fresh ≡ s.fresh)
unfolding make_room
make_room-Fits zero size s l enough small bound h = absurd (omega arith)
make_room-Fits (suc fuel) size s l enough small bound h =
    elim (Bool-cases (ltb max_cache_size ((s.current_cache_size + size) % 2 ^ 32))) [
      | inr room ↦ (
        s,
        l,
        rw room refl,
        h,
        Fits-all l size (ground (arith, room, h.sizes, small, bound)),
        refl,
      )
      | inl full ↦ elim (End-cases l) [
        | inl e ↦ absurd (ground (arith, full, h.sizes, ap total e, small))
        | inr (m, a, r, e) ↦
            let h' = subst (Represents s) e h in
            let whole : total l ≡ total m + r.size = ap total e ∙ total-append m a r in
            let count : length l ≡ length m + 1 = ap length e ∙ length-append m ((a, r) ∷ []) in
            let (t, deleted, h'', fresh) =
              delete_from_cache-tail s m a r h' (omega (arith, total-append m a r, whole, bound)) in
            let (u, kept, made, hu, fits, fresh') =
              make_room-Fits fuel size t m (omega (arith, count, enough)) small
                (omega (arith, whole, bound)) h'' in
            (
              u,
              kept,
              rw (full, deleted) made,
              hu,
              subst (λ (x : Elements). Fits x size kept) (sym e)
                  (Fits-more m a r size kept
                    (ground (arith, full, h'.sizes, total-append m a r, whole, bound, small)) fits),
              fresh' ∙ fresh,
            )
      ]
    ]

-- If the cache holds the queue `l`, of no more than MAX_CACHE_SIZE bytes, `add_to_cache` returns. A
-- response above MAX_OBJECT_SIZE leaves the cache as it was; any other is put in front of the part
-- of the queue that fits, which the oldest elements, and no more of them than needed, are dropped
-- from, and the cache again holds no more than MAX_CACHE_SIZE bytes.
pub add_to_cache-Fits :
    (s : Cache) (l : Elements) (r : Response)
    → total l ≤ max_cache_size
    → Represents s l
    → ((max_object_size < r.size) × (add_to_cache r.cache_query r.cache_buf r.size s ≡ some s))
      ⊎ ((t : Cache) × (kept : Elements) × (add_to_cache r.cache_query r.cache_buf r.size s
            ≡ some t)
          × Represents t ((s.fresh, r) ∷ kept)
          × Fits l r.size kept
          × (total ((s.fresh, r) ∷ kept) ≤ max_cache_size))
unfolding add_to_cache
add_to_cache-Fits s l r bound h = elim (Bool-cases (ltb max_object_size r.size)) [
  | inl big ↦ inl (ground (arith, big), rw big refl)
  | inr small ↦
      let (u, kept, made, hu, fits, fresh) =
        make_room-Fits (suc s.fresh) r.size s l (omega (arith, h.count)) (ground (arith, small))
          bound h in
      let (t, added, ht) = add_to_queue-Represents u kept r hu (omega (arith, fits.room)) in
      inr (
        t,
        kept,
        rw (small, made) added,
        subst (λ (a : ℕ). Represents t ((a, r) ∷ kept)) fresh ht,
        fits,
        omega (arith, fits.room),
      )
]

-- The cache that the program starts with holds the empty queue.
pub empty_cache-Represents : Represents empty_cache []
empty_cache-Represents = record {
  links = tt;
  at_head = refl;
  at_tail = refl;
  distinct = tt;
  below = tt;
  count = omega arith;
  sizes = refl;
}
