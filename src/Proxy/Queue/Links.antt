-- ===== src/Proxy/Queue/Links.antt =====
-- The doubly-linked queue of cache.c as a list, and what a change of one link makes of it.
use introduction_to_computer.Base.{
  ℕ, suc, ◌+◌, ◌<◌, ◌≡◌, ◌≢◌, refl, sym, ◌∙◌, subst, CString, Option, some, List, [], ◌∷◌, ◌++◌,
  update, update_self, update_ne, arith,
}
use introduction_to_computer.Proxy.Queue.{CacheElement}

-- What an element holds besides its links.
pub record Response : Type 0 where
  pub size : ℕ
  pub cache_query : CString
  pub cache_buf : CString

abbrev pub Nodes : Type 0
Nodes = ℕ → Option CacheElement

-- The elements from the head on, each with its address.
abbrev pub Elements : Type 0
Elements = List (ℕ × Response)

abbrev pub element : Response → (next prev : Option ℕ) → CacheElement
element r next prev = record {
  size = r.size;
  cache_query = r.cache_query;
  cache_buf = r.cache_buf;
  next = next;
  prev = prev;
}

-- The pointer to the first element, `n` if there is none.
abbrev pub first : Elements → Option ℕ → Option ℕ
first [] n = n
first ((a, r) ∷ l) n = some a

-- The pointer to the last element, `p` if there is none.
abbrev pub last : Option ℕ → Elements → Option ℕ
last p [] = p
last p ((a, r) ∷ l) = last (some a) l

-- The elements are linked in both directions, with `p` in front of the first and `n` behind the last.
abbrev pub Linked : Nodes → Option ℕ → Elements → Option ℕ → Type 0
Linked nodes p [] n = Unit {0}
Linked nodes p ((a, r) ∷ l) n =
    (nodes a ≡ some (element r (first l n) p)) × Linked nodes (some a) l n

abbrev pub NotIn : ℕ → Elements → Type 0
NotIn a [] = Unit {0}
NotIn a ((b, r) ∷ l) = (b ≢ a) × NotIn a l

abbrev pub Distinct : Elements → Type 0
Distinct [] = Unit {0}
Distinct ((a, r) ∷ l) = NotIn a l × Distinct l

abbrev pub AllBelow : ℕ → Elements → Type 0
AllBelow k [] = Unit {0}
AllBelow k ((a, r) ∷ l) = (a < k) × AllBelow k l

abbrev pub total : Elements → ℕ
total [] = 0
total ((a, r) ∷ l) = r.size + total l

pub Linked-frame :
    (nodes : Nodes) (a : ℕ) (v : Option CacheElement) (p : Option ℕ) (l : Elements) (n : Option ℕ)
    → NotIn a l
    → Linked nodes p l n
    → Linked (update nodes a v) p l n
Linked-frame nodes a v p [] n out h = tt
Linked-frame nodes a v p ((b, r) ∷ l) n out h =
    (update_ne nodes v out.0 ∙ h.0, Linked-frame nodes a v (some b) l n out.1 h.1)

pub AllBelow-NotIn : (k : ℕ) (l : Elements) → AllBelow k l → NotIn k l
AllBelow-NotIn k [] h = tt
AllBelow-NotIn k ((a, r) ∷ l) h = (λ e. absurd (omega (arith, h.0, e)), AllBelow-NotIn k l h.1)

pub AllBelow-suc : (k : ℕ) (l : Elements) → AllBelow k l → AllBelow (suc k) l
AllBelow-suc k [] h = tt
AllBelow-suc k ((a, r) ∷ l) h = (omega (arith, h.0), AllBelow-suc k l h.1)

-- `first->prev = p'`
pub Linked-set_prev :
    (nodes : Nodes) (p p' : Option ℕ) (a : ℕ) (r : Response) (l : Elements) (n : Option ℕ)
    → NotIn a l
    → Linked nodes p ((a, r) ∷ l) n
    → Linked (update nodes a (some (element r (first l n) p'))) p' ((a, r) ∷ l) n
Linked-set_prev nodes p p' a r l n out h = (
  update_self nodes (some (element r (first l n) p')) a,
  Linked-frame nodes a _ (some a) l n out h.1,
)

-- Where the last element is, and that no other is there.
pub record Last (nodes : Nodes) (p : Option ℕ) (l : Elements) (n : Option ℕ) : Type 0 where
  pub address : ℕ
  pub response : Response
  pub before : Option ℕ
  pub is_last : last p l ≡ some address
  pub stored : nodes address ≡ some (element response n before)
  pub apart : (a : ℕ) → NotIn a l → address ≢ a
  pub relinked :
      (n' : Option ℕ) → Linked (update nodes address (some (element response n' before))) p l n'

-- `last->next = n'`
pub Linked-Last :
    (nodes : Nodes) (p : Option ℕ) (a : ℕ) (r : Response) (l : Elements) (n : Option ℕ)
    → Distinct ((a, r) ∷ l)
    → Linked nodes p ((a, r) ∷ l) n
    → Last nodes p ((a, r) ∷ l) n
Linked-Last nodes p a r [] n apart h = record {
  address = a;
  response = r;
  before = p;
  is_last = refl;
  stored = h.0;
  apart = λ b out. out.0;
  relinked = λ n'. (update_self nodes (some (element r n' p)) a, tt);
}
Linked-Last nodes p a r ((b, r') ∷ l) n apart h =
    let rec = Linked-Last nodes (some a) b r' l n apart.1 h.1 in
    record {
      address = rec.address;
      response = rec.response;
      before = rec.before;
      is_last = rec.is_last;
      stored = rec.stored;
      apart = λ c out. rec.apart c out.1;
      relinked = λ n'. (
        update_ne nodes (some (element rec.response n' rec.before))
              (λ e. rec.apart a apart.0 (sym e))
            ∙ h.0,
        rec.relinked n',
      );
    }

-- A list of elements in two parts.
pub Linked-split :
    (nodes : Nodes) (p : Option ℕ) (l m : Elements) (n : Option ℕ)
    → Linked nodes p (l ++ m) n
    → Linked nodes p l (first m n) × Linked nodes (last p l) m n
Linked-split nodes p [] m n h = (tt, h)
Linked-split nodes p ((a, r) ∷ l) m n h =
    let (front, back) = Linked-split nodes (some a) l m n h.1 in
    ((subst (λ (x : Option ℕ). nodes a ≡ some (element r x p)) (first-append l) h.0, front), back)
  where
    first-append : (l : Elements) → first (l ++ m) n ≡ first l (first m n)
    first-append [] = refl
    first-append ((b, q) ∷ l) = refl

pub last-append :
    (p : Option ℕ) (l : Elements) (a : ℕ) (r : Response) → last p (l ++ (a, r) ∷ []) ≡ some a
last-append p [] a r = refl
last-append p ((b, q) ∷ l) a r = last-append (some b) l a r

pub NotIn-append : (b : ℕ) (l m : Elements) → NotIn b (l ++ m) → NotIn b l × NotIn b m
NotIn-append b [] m h = (tt, h)
NotIn-append b ((c, r) ∷ l) m h = let (x, y) = NotIn-append b l m h.1 in ((h.0, x), y)

pub Distinct-append :
    (l : Elements) (a : ℕ) (r : Response) → Distinct (l ++ (a, r) ∷ []) → Distinct l × NotIn a l
Distinct-append [] a r h = (tt, tt)
Distinct-append ((b, q) ∷ l) a r h =
    let (x, y) = Distinct-append l a r h.1 in
    let (u, v) = NotIn-append b l ((a, r) ∷ []) h.0 in ((u, x), (λ e. v.0 (sym e), y))

pub AllBelow-append : (k : ℕ) (l m : Elements) → AllBelow k (l ++ m) → AllBelow k l
AllBelow-append k [] m h = tt
AllBelow-append k ((a, r) ∷ l) m h = (h.0, AllBelow-append k l m h.1)

pub total-append :
    (l : Elements) (a : ℕ) (r : Response) → total (l ++ (a, r) ∷ []) ≡ total l + r.size
total-append [] a r = omega arith
total-append ((b, q) ∷ l) a r = omega (arith, total-append l a r)
