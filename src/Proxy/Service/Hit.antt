-- ===== src/Proxy/Service/Hit.antt =====
-- What proxy.c does with a request whose URI is in the cache.
use introduction_to_computer.Base.{
  ℕ, ◌+◌, ◌≤◌, ◌≡◌, refl, sym, ◌∙◌, ap, subst, CString, str_eq, true, none, some, [], ◌∷◌, ◌++◌,
  append-nil, arith, inl, inr,
}
use introduction_to_computer.Proxy.Uri.{Target}
use introduction_to_computer.Proxy.Headers.{Header}
use introduction_to_computer.Proxy.Queue.{Cache, found, find_node, max_cache_size, max_object_size}
use introduction_to_computer.Proxy.Queue.Links.{Response, Elements, Linked-split, total}
use introduction_to_computer.Proxy.Queue.Change.{Represents, ==-refl}
use introduction_to_computer.Proxy.Queue.Bounds.{Fits, add_to_cache-Fits}
use introduction_to_computer.Proxy.Queue.Find.{find_node-lookup}
use introduction_to_computer.Proxy.Queue.Delete.{delete_from_cache-Represents, total-parts}
use introduction_to_computer.Proxy.Service.{Server, serve, touch, forward_from_server, answer}

total-front : (l m : Elements) → total l ≤ total (l ++ m)
total-front [] m = omega arith
total-front ((a, r) ∷ l) m = omega (arith, total-front l m)

-- With room for the response nothing is dropped.
Fits-room :
    (l : Elements) (size : ℕ) (kept : Elements)
    → total l + size ≤ max_cache_size
    → Fits l size kept
    → kept ≡ l
Fits-room l size kept room f = go f.dropped refl
  where
    go : (d : Elements) → f.dropped ≡ d → kept ≡ l
    go [] e = sym (f.parts ∙ ap (λ (x : Elements). kept ++ x) e ∙ append-nil kept)
    go ((a, r) ∷ older) e =
        let sizes : total l ≡ total (kept ++ (a, r) ∷ older) =
          ap total (f.parts ∙ ap (λ (x : Elements). kept ++ x) e) in
        absurd (
          omega (
            arith,
            room,
            sizes,
            f.needed a r older e,
            total-parts kept a r older,
            total-front kept older,
          ))

str_eq_refl : (s : CString) → str_eq s s ≡ true
unfolding str_eq
str_eq_refl [] = refl
str_eq_refl (c ∷ s) = rw (==-refl c, str_eq_refl s) refl

abbrev pub renamed : CString → Response → Response
renamed uri r = record { size = r.size; cache_query = uri; cache_buf = r.cache_buf }

-- The element goes to the front, the others stay in their order.
touch-front :
    (s : Cache) (uri : CString) (l : Elements) (a : ℕ) (r : Response) (m : Elements)
    → Represents s (l ++ (a, r) ∷ m)
    → total (l ++ (a, r) ∷ m) ≤ max_cache_size
    → r.size ≤ max_object_size
    → find_node uri s ≡ found a
    → (t : Cache) × (touch uri s ≡ some t) × Represents t ((s.fresh, renamed uri r) ∷ l ++ m)
unfolding touch
touch-front s uri l a r m h bound small at =
    let sizes = total-parts l a r m in
    let stored = (Linked-split s.nodes none l ((a, r) ∷ m) none h.links).1.0 in
    let (t, deleted, ht, fresh) = delete_from_cache-Represents s l a r m h (omega (arith, bound)) in
    elim (add_to_cache-Fits t (l ++ m) (renamed uri r) (omega (arith, sizes, bound)) ht) [
      | inl (big, _) ↦ absurd (omega (arith, big, small))
      | inr (u, kept, added, hu, fits, _) ↦
          let same = Fits-room (l ++ m) r.size kept (omega (arith, sizes, bound)) fits in
          (
            u,
            rw (at, touch, stored, deleted) added,
            subst (λ (x : Elements). Represents u ((s.fresh, renamed uri r) ∷ x)) same
                (subst (λ (k : ℕ). Represents u ((k, renamed uri r) ∷ kept)) fresh hu),
          )
    ]

-- If the cache holds a queue of no more than MAX_CACHE_SIZE bytes and the URI is found at an element
-- of no more than MAX_OBJECT_SIZE bytes, the client is sent its buffer, nothing is sent to a server,
-- and the response is moved to the front of the queue, with the others in their order.
pub answer-hit :
    (server : Server) (uri : CString) (target : Target) (h : Header) (s : Cache) (l : Elements)
    (a : ℕ) (r : Response) (m : Elements)
    → Represents s (l ++ (a, r) ∷ m)
    → total (l ++ (a, r) ∷ m) ≤ max_cache_size
    → r.size ≤ max_object_size
    → find_node uri s ≡ found a
    → (t : Cache) × (answer server uri target h s
        ≡ record { cache = some t; to_client = r.cache_buf ∷ []; to_server = [] })
      × Represents t ((s.fresh, renamed uri r) ∷ l ++ m)
unfolding answer serve forward_from_server
answer-hit server uri target h s l a r m rep bound small at =
    let (t, touched, ht) = touch-front s uri l a r m rep bound small at in
    let stored = (Linked-split s.nodes none l ((a, r) ∷ m) none rep.links).1.0 in
    let again : find_node uri t ≡ found s.fresh =
      find_node-lookup t ((s.fresh, renamed uri r) ∷ l ++ m) uri ht ∙ rw (str_eq_refl uri) refl in
    (t, rw (touched, answer, again, forward_from_server, at, serve, stored) refl, ht)
