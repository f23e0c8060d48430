-- ===== src/Proxy/Queue.antt =====
-- cache.c: a doubly-linked queue of responses on the heap, the last one used in front.
pub mod Links
pub mod Change
pub mod Bounds
pub mod Find
pub mod Delete
use introduction_to_computer.Base.{
  ℕ, zero, suc, ◌+◌, ◌-◌, ◌%◌, ◌^◌, CString, str_eq, Bool, true, false, ltb, leb, ◌==◌, Option,
  none, some, List, [], ◌∷◌, if◌then◌else◌, update,
}

-- A pointer is an address, `none` for NULL.
pub record CacheElement : Type 0 where
  pub size : ℕ
  pub cache_query : CString
  pub cache_buf : CString
  pub next : Option ℕ
  pub prev : Option ℕ

-- The global variables and the heap: `nodes a` is the element at `a`, `none` if there is none or it
-- was freed, and `fresh` the address that the next `Malloc` returns.
pub record Cache : Type 0 where
  pub nodes : ℕ → Option CacheElement
  pub fresh : ℕ
  pub head : Option ℕ
  pub tail : Option ℕ
  pub current_cache_size : ℕ

abbrev pub max_cache_size : ℕ
max_cache_size = 1049000

abbrev pub max_object_size : ℕ
max_object_size = 102400

-- `p->f = v`; no result if `p` is NULL or freed.
abbrev pub set_next : Option ℕ → Option ℕ → Cache → Option Cache
set_next none n s = none
set_next (some a) n s = elim (s.nodes a) [
  | none ↦ none
  | some e ↦ some (record s { nodes = update s.nodes a (some (record e { next = n })) })
]

abbrev pub set_prev : Option ℕ → Option ℕ → Cache → Option Cache
set_prev none p s = none
set_prev (some a) p s = elim (s.nodes a) [
  | none ↦ none
  | some e ↦ some (record s { nodes = update s.nodes a (some (record e { prev = p })) })
]

-- What follows `set_next` or `set_prev`.
abbrev pub with_head : ℕ → Option Cache → Option Cache
with_head h none = none
with_head h (some s) = some (record s { head = some h })

abbrev pub with_tail : Option ℕ → Option Cache → Option Cache
with_tail t none = none
with_tail t (some s) = some (record s { tail = t })

abbrev pub then_set_next : Option ℕ → Option ℕ → Option Cache → Option Cache
then_set_next p n none = none
then_set_next p n (some s) = set_next p n s

-- `size` bytes of the buffer are `buf_val`.
unfoldable pub cache_init : (query buf_val : CString) → (size : ℕ) → Cache → Cache
cache_init query buf_val size s = record s {
  nodes = update s.nodes s.fresh (
      some (record {
        size = size;
        cache_query = query;
        cache_buf = buf_val;
        next = none;
        prev = none;
      }));
  fresh = suc s.fresh;
  head = some s.fresh;
  tail = some s.fresh;
}

-- The `else` branch: a new element in front of `h`.
unfoldable pub add_in_front : (query buf_val : CString) → (size h : ℕ) → Cache → Option Cache
add_in_front query buf_val size h s =
    let node = s.fresh in
    let s' : Cache = record s {
      nodes = update s.nodes node (
          some (record {
            size = size;
            cache_query = query;
            cache_buf = buf_val;
            next = some h;
            prev = none;
          }));
      fresh = suc node;
    } in
    with_head node (set_prev (some h) (some node) s')

-- `current_cache_size += n` on an unsigned
abbrev pub grow : ℕ → Option Cache → Option Cache
grow n none = none
grow n (some s) = some (record s { current_cache_size = (s.current_cache_size + n) % 2 ^ 32 })

unfoldable pub add_to_queue : (query buf_val : CString) → (size : ℕ) → Cache → Option Cache
unfolding cache_init add_in_front
add_to_queue query buf_val size s = elim s.head [
  | none ↦ grow size (some (cache_init query buf_val size s))
  | some h ↦ grow size (add_in_front query buf_val size h s)
]

-- What `find_node` answers.
pub data Found : Type 0 where
  found : ℕ → Found
  not_found : Found
  bad_pointer : Found
  out_of_fuel : Found

-- The loop of `find_node` from `rover` on.
unfoldable pub find_from : (fuel : ℕ) → CString → Option ℕ → Cache → Found
find_from zero query rover s = out_of_fuel
find_from (suc fuel) query none s = not_found
find_from (suc fuel) query (some a) s = elim (s.nodes a) [
  | none ↦ bad_pointer
  | some e ↦
      let more = find_from fuel query e.next s in
      if str_eq query e.cache_query then found a else more
]

unfoldable pub find_node : CString → Cache → Found
unfolding find_from
find_node query s = find_from (suc s.fresh) query s.head s

-- The element is taken out of the links.
unfoldable pub unlink : ℕ → CacheElement → Cache → Option Cache
unlink a e s =
    if elim s.head [ none ↦ false | some h ↦ a == h ]
    then elim e.next [
      | none ↦ some (record s { head = none; tail = none })
      | some n ↦ with_head n (set_prev (some n) none s)
    ]
    else elim e.next [
      | none ↦ with_tail e.prev (set_next e.prev none s)
      | some n ↦ then_set_next e.prev (some n) (set_prev (some n) e.prev s)
    ]

-- `current_cache_size -= n` on an unsigned, and `free`
abbrev pub release : ℕ → ℕ → Option Cache → Option Cache
release a n none = none
release a n (some s) = some (record s {
  current_cache_size = (s.current_cache_size + 2 ^ 32 - n % 2 ^ 32) % 2 ^ 32;
  nodes = update s.nodes a none;
})

unfoldable pub delete_from_cache : Option ℕ → Cache → Option Cache
unfolding unlink
delete_from_cache none s = some s
delete_from_cache (some a) s = elim (s.nodes a) [
  | none ↦ none
  | some e ↦ release a e.size (unlink a e s)
]

-- `while (new_size > MAX_CACHE_SIZE)`; `none` also if the fuel is gone.
unfoldable pub make_room : (fuel : ℕ) → (size : ℕ) → Cache → Option Cache
unfolding delete_from_cache
make_room zero size s = none
make_room (suc fuel) size s =
    let more : Option Cache = elim (delete_from_cache s.tail s) [
      | none ↦ none
      | some t ↦ make_room fuel size t
    ] in
    if ltb max_cache_size ((s.current_cache_size + size) % 2 ^ 32) then more else some s

-- The `if` and its `else`: the loop does not run if there is room.
unfoldable pub add_to_cache : (query buf_val : CString) → (size : ℕ) → Cache → Option Cache
unfolding make_room add_to_queue
add_to_cache query buf_val size s =
    if ltb max_object_size size then some s else elim (make_room (suc s.fresh) size s) [
      | none ↦ none
      | some t ↦ add_to_queue query buf_val size t
    ]

-- The state in which the program starts.
abbrev pub empty_cache : Cache
empty_cache = record {
  nodes = λ a. none;
  fresh = 0;
  head = none;
  tail = none;
  current_cache_size = 0;
}
