-- ===== src/Proxy/Tests.antt =====
-- The theorems about proxy.c on a small request.
use introduction_to_computer.Base.{
  update, ◌<◌, ◌≤◌, ◌⊎◌, ℕ, ◌≡◌, ◌≢◌, List, Bool, refl, CString, concat, true, false, some, none,
  [], ◌∷◌, ◌++◌, arith, length, contains, str_eq,
}
use introduction_to_computer.Proxy.Text.{crlf, host_prefix}
use introduction_to_computer.Proxy.Uri.{Target, parse_uri}
use introduction_to_computer.Proxy.UriPrint.{print_uri, parse_uri-print, parse_uri-no_slash}
use introduction_to_computer.Proxy.Headers.{
  Header, strncpy, read_request_header, write_request_header,
}
use introduction_to_computer.Proxy.Filtered.{passed_on, any_host, read_request_header-passed_on}
use introduction_to_computer.Proxy.RequestEnd.{
  header_block, defaults, rest, take, write_request_header-end, write_request_header-cut,
}
use introduction_to_computer.Proxy.Queue.{
  Cache, empty_cache, add_to_cache, find_node, max_object_size, max_cache_size,
}
use introduction_to_computer.Proxy.Queue.Links.{Response, Elements, element, total}
use introduction_to_computer.Proxy.Queue.Change.{Represents}
use introduction_to_computer.Proxy.Queue.Bounds.{Fits, add_to_cache-Fits}
use introduction_to_computer.Proxy.Queue.Find.{lookup, find_node-lookup}
use introduction_to_computer.Proxy.Lock.{
  Place, ready, entered, counted, admitted, reading, advance, Globals, System, step, Reachable,
  start, spawn, move,
}
use introduction_to_computer.Proxy.Lock.Counts.{sum, is_writing, is_reading}
use introduction_to_computer.Proxy.Lock.Progress.{Reachable-progress}
use introduction_to_computer.Proxy.Lock.Exclusion.{Reachable-exclusive}
use introduction_to_computer.Proxy.Service.{Server, answer, forward_from_server}
use introduction_to_computer.Proxy.Service.Relayed.{all_sent, PassedOn, forward_from_server-miss}
use introduction_to_computer.Proxy.Service.Hit.{renamed, answer-hit}
use introduction_to_computer.Proxy.Queue.Delete.{Deleted, delete_from_cache-Represents}

-- `a.b`, port 81, path `c`
abbrev host : CString
host = b'a' ∷ b'.' ∷ b'b' ∷ []

abbrev port : CString
port = b'8' ∷ b'1' ∷ []

parse_uri-print_example :
    parse_uri (print_uri host (some port) (b'c' ∷ []))
    ≡ some (record { host = host; query = b'/' ∷ b'c' ∷ []; port = port })
parse_uri-print_example =
    parse_uri-print host (some port) (b'c' ∷ []) (refl, (refl, (refl, tt)))
      (refl, (refl, (refl, tt))) (refl, (refl, tt))

parse_uri-no_slash_example : parse_uri host ≡ none
parse_uri-no_slash_example = parse_uri-no_slash host (refl, (refl, (refl, tt)))

abbrev zeros : ℕ → ℕ
zeros i = 0

-- `X: 1`, a header that is passed on
abbrev other_header : CString
other_header = b'X' ∷ b':' ∷ b' ' ∷ b'1' ∷ crlf

-- `Host: a`
abbrev host_header : CString
host_header = host_prefix ++ (b'a' ∷ crlf)

read_request_header-passed_on_example :
    (h : Header) × (read_request_header zeros
        (other_header ∷ (host_header ∷ other_header ∷ []) ++ crlf ∷ [])
      ≡ some h)
    × (h.header_body ≡ passed_on (host_header ∷ other_header ∷ []) ++ crlf)
    × (h.host_header_found ≡ any_host (host_header ∷ other_header ∷ []))
unfolding str_eq
read_request_header-passed_on_example =
    read_request_header-passed_on zeros other_header (host_header ∷ other_header ∷ []) [] refl
      (refl, (refl, tt))

passed_on-other : passed_on (host_header ∷ other_header ∷ []) ≡ other_header
unfolding passed_on contains
passed_on-other = refl

abbrev plain_header : Header
plain_header = record {
  host_header_found = false;
  host_header = zeros;
  header_body = other_header ++ crlf;
}

write_request_header-end_example :
    header_block (concat (write_request_header plain_header host))
    ≡ concat (host_prefix ∷ host ∷ crlf ∷ defaults)
write_request_header-end_example =
    write_request_header-end plain_header host refl (refl, (refl, (refl, tt)))

-- With no other header, two bytes of `Host: a` are sent.
write_request_header-cut_example :
    concat (
      write_request_header
        (record {
          host_header_found = true;
          host_header = strncpy zeros host_header;
          header_body = crlf;
        })
        host)
    ≡ take (length crlf) host_header ++ rest crlf
write_request_header-cut_example =
    write_request_header-cut zeros host_header host crlf (omega arith)

abbrev page : ℕ → Response
page n = record { size = n; cache_query = host; cache_buf = other_header }

-- A cache of one page.
abbrev one_page : Cache
one_page = record {
  nodes = update (λ a. none) 0 (some (element (page 5) none none));
  fresh = 1;
  head = some 0;
  tail = some 0;
  current_cache_size = 5;
}

one_page-Represents : Represents one_page ((0, page 5) ∷ [])
one_page-Represents = record {
  links = (refl, tt);
  at_head = refl;
  at_tail = refl;
  distinct = (tt, tt);
  below = (omega arith, tt);
  count = omega arith;
  sizes = refl;
}

add_to_cache-Fits_example :
    ((max_object_size < 7) × (add_to_cache host other_header 7 one_page ≡ some one_page))
    ⊎ ((t : Cache) × (kept : Elements) × (add_to_cache host other_header 7 one_page ≡ some t)
        × Represents t ((1, page 7) ∷ kept)
        × Fits ((0, page 5) ∷ []) 7 kept
        × (total ((1, page 7) ∷ kept) ≤ max_cache_size))
add_to_cache-Fits_example =
    add_to_cache-Fits one_page ((0, page 5) ∷ []) (page 7) (omega arith) one_page-Represents

find_node-lookup_example : find_node host one_page ≡ lookup host ((0, page 5) ∷ [])
find_node-lookup_example = find_node-lookup one_page ((0, page 5) ∷ []) host one_page-Represents

abbrev two_pages : Cache
two_pages = record {
  nodes =
      update (update (λ a. none) 0 (some (element (page 5) none (some 1)))) 1
        (some (element (page 7) (some 0) none));
  fresh = 2;
  head = some 1;
  tail = some 0;
  current_cache_size = 12;
}

two_pages-Represents : Represents two_pages ((1, page 7) ∷ (0, page 5) ∷ [])
two_pages-Represents = record {
  links = (refl, (refl, tt));
  at_head = refl;
  at_tail = refl;
  distinct = ((omega arith, tt), (tt, tt));
  below = (omega arith, (omega arith, tt));
  count = omega arith;
  sizes = refl;
}

delete_from_cache-Represents_example : Deleted two_pages 0 ((1, page 7) ∷ [])
delete_from_cache-Represents_example =
    delete_from_cache-Represents two_pages ((1, page 7) ∷ []) 0 (page 5) [] two_pages-Represents
      (omega arith)

-- One thread in the readers' section, another that has not begun.
abbrev reader : System
reader = record {
  globals = record { mutex = 1; w = 0; readcnt = 1 };
  threads = reading ∷ ready ∷ [];
}

reader-Reachable : Reachable reader
unfolding advance
reader-Reachable =
    move
      (move
        (move
          (move (spawn (spawn start))
            (step true ready entered (at 1 1 0) (at 0 1 0) [] (ready ∷ []) refl))
          (step true entered counted (at 0 1 0) (at 0 1 1) [] (ready ∷ []) refl))
        (step true counted admitted (at 0 1 1) (at 0 0 1) [] (ready ∷ []) refl))
      (step true admitted reading (at 0 0 1) (at 1 0 1) [] (ready ∷ []) refl)
  where
    at : ℕ → ℕ → ℕ → Globals
    at m w r = record { mutex = m; w = w; readcnt = r }

Reachable-exclusive_example :
    (sum is_writing reader.threads ≤ 1)
    × (0 < sum is_writing reader.threads → sum is_reading reader.threads ≡ 0)
Reachable-exclusive_example = Reachable-exclusive reader reader-Reachable

Reachable-progress_example :
    (before : List Place) × (p : Place) × (after : List Place) × (reader.threads
      ≡ before ++ p ∷ after)
    × ((go_on : Bool) → advance go_on p reader.globals ≢ none)
Reachable-progress_example = Reachable-progress reader reader-Reachable (omega arith)

-- A server that answers every request with one line.
abbrev one_line : Server
one_line h p request = all_sent (other_header ∷ [])

abbrev target : Target
target = record { host = host; query = b'/' ∷ []; port = port }

forward_from_server-miss_example :
    PassedOn host
      (other_header ∷ [])
      empty_cache
      (forward_from_server one_line host target plain_header empty_cache)
unfolding find_node
forward_from_server-miss_example =
    forward_from_server-miss one_line host target plain_header empty_cache (other_header ∷ []) refl
      (λ request. refl)

answer-hit_example :
    (t : Cache) × (answer one_line host target plain_header two_pages
      ≡ record { cache = some t; to_client = other_header ∷ []; to_server = [] })
    × Represents t ((2, renamed host (page 7)) ∷ (0, page 5) ∷ [])
unfolding find_node str_eq
answer-hit_example =
    answer-hit one_line host target plain_header two_pages [] 1 (page 7) ((0, page 5) ∷ [])
      two_pages-Represents (omega arith) (omega arith) refl
