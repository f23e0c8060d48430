-- ===== src/Proxy/Queue/Change.antt =====
-- The two changes of the queue of cache.c: a new first element, and the last element taken out.
use introduction_to_computer.Base.{
  length, length-append, ℕ, suc, ◌+◌, ◌-◌, ◌%◌, ◌^◌, ◌<◌, ◌≤◌, ◌≡◌, ◌≢◌, refl, sym, ◌∙◌, ap, true,
  false, ◌==◌, Option, none, some, [], ◌∷◌, ◌++◌, update, update_self, update_ne, arith,
}
use introduction_to_computer.Proxy.Queue.{
  CacheElement, Cache, cache_init, add_in_front, add_to_queue, unlink, delete_from_cache, set_next,
  set_prev, with_head, with_tail, grow, release,
}
use introduction_to_computer.Proxy.Queue.Links.{
  Response, Elements, element, first, last, Linked, Distinct, AllBelow, total, Linked-frame,
  AllBelow-NotIn, AllBelow-suc, Linked-set_prev, Linked-Last, Linked-split, last-append,
  Distinct-append, AllBelow-append, total-append,
}

-- The globals and the heap hold the queue `l`.
pub record Represents (s : Cache) (l : Elements) : Type 0 where
  pub links : Linked s.nodes none l none
  pub at_head : s.head ≡ first l none
  pub at_tail : s.tail ≡ last none l
  pub distinct : Distinct l
  pub below : AllBelow s.fresh l
  pub count : length l ≤ s.fresh
  pub sizes : s.current_cache_size ≡ total l

-- The state with `n` more bytes, and with a new heap, head and tail.
abbrev grown : Cache → (nodes : ℕ → Option CacheElement) → (head tail : Option ℕ) → ℕ → Cache
grown s nodes head tail n = record {
  nodes = nodes;
  fresh = suc s.fresh;
  head = head;
  tail = tail;
  current_cache_size = (s.current_cache_size + n) % 2 ^ 32;
}

abbrev pub shortened :
    Cache → (nodes : ℕ → Option CacheElement) → (a : ℕ) → (head tail : Option ℕ) → ℕ → Cache
shortened s nodes a head tail n = record {
  nodes = update nodes a none;
  fresh = s.fresh;
  head = head;
  tail = tail;
  current_cache_size = (s.current_cache_size + 2 ^ 32 - n % 2 ^ 32) % 2 ^ 32;
}

pub set_prev-at :
    (s : Cache) (a : ℕ) (e : CacheElement) (p : Option ℕ)
    → s.nodes a ≡ some e
    → set_prev (some a) p s
      ≡ some (record s { nodes = update s.nodes a (some (record e { prev = p })) })
set_prev-at s a e p at = rw (at, set_prev) refl

pub set_next-at :
    (s : Cache) (b : Option ℕ) (a : ℕ) (e : CacheElement) (n : Option ℕ)
    → b ≡ some a
    → s.nodes a ≡ some e
    → set_next b n s ≡ some (record s { nodes = update s.nodes a (some (record e { next = n })) })
set_next-at s b a e n is at = rw is (rw (at, set_next) refl)

-- If the queue and the new response together stay below 2^32 bytes, `add_to_queue` puts the
-- response in front.
pub add_to_queue-Represents :
    (s : Cache) (l : Elements) (r : Response)
    → Represents s l
    → total l + r.size < 2 ^ 32
    → (t : Cache) × (add_to_queue r.cache_query r.cache_buf r.size s ≡ some t)
      × Represents t ((s.fresh, r) ∷ l)
unfolding add_to_queue cache_init add_in_front
add_to_queue-Represents s [] r h small = (
  grown s (update s.nodes s.fresh (some (element r none none))) (some s.fresh) (some s.fresh)
      r.size,
  rw h.at_head refl,
  record {
    links = (update_self s.nodes (some (element r none none)) s.fresh, tt);
    at_head = refl;
    at_tail = refl;
    distinct = (tt, tt);
    below = (omega arith, tt);
    count = omega arith;
    sizes = omega (arith, h.sizes);
  },
)
add_to_queue-Represents s ((a, q) ∷ l) r h small =
    let new = some (element r (some a) none) in
    let mid = update s.nodes s.fresh new in
    let out = AllBelow-NotIn s.fresh ((a, q) ∷ l) h.below in
    let linked = Linked-frame s.nodes s.fresh new none ((a, q) ∷ l) none out h.links in
    (
      grown s (update mid a (some (element q (first l none) (some s.fresh)))) (some s.fresh) s.tail
          r.size,
      rw h.at_head (
          ap (λ (o : Option Cache). grow r.size (with_head s.fresh o))
            (set_prev-at (record s { nodes = mid; fresh = suc s.fresh; head = some a }) a
              (element q (first l none) none) (some s.fresh) linked.0)),
      record {
        links = (
          update_ne mid _ (λ e. out.0 (sym e)) ∙ update_self s.nodes new s.fresh,
          Linked-set_prev mid none (some s.fresh) a q l none h.distinct.0 linked,
        );
        at_head = refl;
        at_tail = h.at_tail;
        distinct = (out, h.distinct);
        below = (omega arith, AllBelow-suc s.fresh ((a, q) ∷ l) h.below);
        count = omega (arith, h.count);
        sizes = omega (arith, h.sizes);
      },
    )

pub ==-refl : (a : ℕ) → (a == a) ≡ true
==-refl a = ground arith

pub ==-apart : {a b : ℕ} → a ≢ b → (a == b) ≡ false
==-apart h = ground arith

pub shrunk : (c t k n : ℕ) → c ≡ t → t ≡ k + n → t < 2 ^ 32 → (c + 2 ^ 32 - n % 2 ^ 32) % 2 ^ 32 ≡ k
shrunk c t k n e d small = omega (arith, e, d, small)

-- If the queue stays below 2^32 bytes, the deletion of the tail takes out the last element.
pub delete_from_cache-tail :
    (s : Cache) (l : Elements) (a : ℕ) (r : Response)
    → Represents s (l ++ (a, r) ∷ [])
    → total (l ++ (a, r) ∷ []) < 2 ^ 32
    → (t : Cache) × (delete_from_cache s.tail s ≡ some t) × Represents t l × (t.fresh ≡ s.fresh)
unfolding delete_from_cache unlink
delete_from_cache-tail s [] a r h small = (
  shortened s s.nodes a none none r.size,
  rw (h.at_tail, h.links.0, h.at_head, ==-refl a) refl,
  record {
    links = tt;
    at_head = refl;
    at_tail = refl;
    distinct = tt;
    below = tt;
    count = omega arith;
    sizes = shrunk s.current_cache_size _ 0 r.size h.sizes (omega arith) small;
  },
  refl,
)
delete_from_cache-tail s ((b, q) ∷ l) a r h small =
    let (front, back) = Linked-split s.nodes none ((b, q) ∷ l) ((a, r) ∷ []) none h.links in
    let (apart, out) = Distinct-append ((b, q) ∷ l) a r h.distinct in
    let end = Linked-Last s.nodes none b q l (some a) apart front in
    let tail : s.tail ≡ some a = h.at_tail ∙ last-append none ((b, q) ∷ l) a r in
    (
      shortened s (update s.nodes end.address (some (element end.response none end.before))) a
          s.head (last (some b) l) r.size,
      rw (tail, back.0, h.at_head, ==-apart (λ e. out.0 (sym e)))
          (ap (λ (o : Option Cache). release a r.size (with_tail (last (some b) l) o))
            (set_next-at (record s { head = some b; tail = some a }) (last (some b) l) end.address
              (element end.response (some a) end.before) none end.is_last end.stored)),
      record {
        links = Linked-frame _ a none none ((b, q) ∷ l) none out (end.relinked none);
        at_head = h.at_head;
        at_tail = refl;
        distinct = apart;
        count = omega (arith, h.count, length-append ((b, q) ∷ l) ((a, r) ∷ []));
        below = AllBelow-append s.fresh ((b, q) ∷ l) ((a, r) ∷ []) h.below;
        sizes =
            shrunk s.current_cache_size _ (total ((b, q) ∷ l)) r.size h.sizes
              (total-append ((b, q) ∷ l) a r) small;
      },
      refl,
    )
