-- ===== src/Proxy/Queue/Find.antt =====
-- `find_node` of cache.c walks the queue from its head.
use introduction_to_computer.Base.{
  ℕ, zero, suc, ◌<◌, ◌≡◌, refl, ◌∙◌, CString, str_eq, Option, none, some, [], ◌∷◌, length,
  if◌then◌else◌, arith, ap,
}
use introduction_to_computer.Proxy.Queue.{Cache, Found, found, not_found, find_from, find_node}
use introduction_to_computer.Proxy.Queue.Links.{Elements, first, Linked}
use introduction_to_computer.Proxy.Queue.Change.{Represents}

-- The first element of the queue whose query is the one asked for.
abbrev pub lookup : CString → Elements → Found
lookup query [] = not_found
lookup query ((a, r) ∷ l) = if str_eq query r.cache_query then found a else lookup query l

find_from-Linked :
    (fuel : ℕ) (query : CString) (s : Cache) (p : Option ℕ) (l : Elements)
    → length l < fuel
    → Linked s.nodes p l none
    → find_from fuel query (first l none) s ≡ lookup query l
unfolding find_from
find_from-Linked zero query s p l enough h = absurd (omega arith)
find_from-Linked (suc fuel) query s p [] enough h = refl
find_from-Linked (suc fuel) query s p ((a, r) ∷ l) enough h = rw h.0 (
    ap (λ (x : Found). if str_eq query r.cache_query then found a else x)
      (find_from-Linked fuel query s (some a) l (omega (arith, enough)) h.1))

-- If the cache holds a queue, `find_node` ends and answers with the first element of the queue that
-- has the query, or with NULL if none has it.
pub find_node-lookup :
    (s : Cache) (l : Elements) (query : CString)
    → Represents s l
    → find_node query s ≡ lookup query l
unfolding find_node
find_node-lookup s l query h =
    ap (λ (o : Option ℕ). find_from (suc s.fresh) query o s) h.at_head
    ∙ find_from-Linked (suc s.fresh) query s none l (omega (arith, h.count)) h.links
