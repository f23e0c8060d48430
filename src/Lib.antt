-- ===== src/Lib.antt =====
-- A verification library for four programs of a computer systems course.
--
-- Cache Simulator/csim.c replays a trace of memory accesses on a set-associative cache with LRU
-- replacement; CacheSim models it. The global variables are the record `Sim`, the options the
-- record `Config`, the block array a function of the index. `cache_access` is the C function of
-- that name, `simulate` the loop of `main` over the lines of the trace, `start` its loops that
-- clear the array. CacheSim/Main has the rest of `main`: the option loop, with numbers as `atoi`
-- gives them, and how `main` ends. It ends in `undefined` where it opens a file name that was not
-- set, where the shift or the product of the number of blocks overflows, and where an access shifts
-- by a number of bits that is negative or too large, or uses a set that has no line. An address is a
-- natural number, as an int that is not negative; counters do not wrap. getopt, fopen, fscanf and
-- malloc are arguments of `main`: the options, the lines of the trace that opening gives, and the
-- memory. CacheSim/Search is about the two search loops, Invariant about the well-formedness of a
-- set, Access about one access, Run about traces, Alias about addresses that look the same to an
-- access, Setup about `start` and Report about `main`.
--
-- Cache Simulator/trans.c transposes a matrix; Transpose models it, with a matrix as a function of
-- row and column and each loop as a number of rounds that its bounds give. A and B are distinct
-- arrays. Transpose/Cells is about loops that copy cells, Correct about the functions.
--
-- Tiny Shell/svijay_tsh.c is a shell with job control; Shell models it. Jobs has the job list,
-- Parse `parseline`, Signals the handlers and `wait_state`, Builtins the built-in commands, Eval
-- `eval` and Main the read/eval loop. The global variables are the record `ShellState`, which also
-- lists what was printed and which signals were sent. A call returns, ends the process, reads
-- through NULL, or waits for ever (`Result`). Handlers run where signals are not blocked: in
-- `sigsuspend`, between commands, and within the built-in commands, at the places that `Interrupts`
-- names: before and after the look-up of a job, around the read of its PID, the call of `kill` and the
-- change of its state, and before it is printed or waited for. A signal between the test of the loop
-- of `wait_state` and `sigsuspend` is `unseen`. A handler in the midst of the loop that lists the
-- jobs, which would only change what is printed, or of the look-up, which would find what it finds
-- with the handler before or after it, is not modelled; one that arrives while a line is read or
-- parsed counts as one in front of the prompt. The kernel is an argument: the PID that
-- `fork` gives, whether `kill` and `open` succeed, and the signals that arrive. `parseline` runs on
-- fuel, one more than the characters of the line, which is enough. A PID is positive, and the command
-- line shorter than MAXLINE. The wrappers of system calls are not modelled: each ends the process if
-- its call fails. Slots, Ends and Foreground are about the job list, the ends of a call and the
-- handlers, Lookup and Resume about `bg` and `fg`, OneForeground about `eval` and Session about
-- `main`; JobIds is about the IDs of jobs, ParseTotal and ParsePrint about `parseline`, and
-- Faults about a stopped child.
--
-- Proxy models Multithreaded web-proxy/cache.c and Multithreaded web-proxy/proxy.c. Proxy/Queue is
-- the doubly-linked queue of cache.c on a heap: a pointer is an address or `none`, an operation
-- has no result if it goes through NULL or freed memory, and the unsigned size is taken modulo
-- 2^32. Its loops run on fuel, one more than the addresses given out, which is enough as every
-- element has its own. Uri and Headers model `parse_uri`, `read_request_header` and
-- `write_request_header`, ClientError `clienterror`, and Service `forward_to_server` and
-- `forward_from_server` for one thread. Lock is what the threads do with the semaphores, as a step
-- relation on all of them. Sockets and sscanf are arguments, and reading from a socket does not
-- fail; csapp.c is a library and not modelled, nor is sbuf.c, which nothing calls. Proxy children
-- named Links, Change, Bounds, Find, Delete, UriPrint, Filtered, RequestEnd, Relayed, Hit, Counts,
-- Exclusion and Progress hold the proofs.
--
-- Allocator models Dynamic Memory Allocator. Memlib is memlib.c. Blocks, State, Lists, Moves, Malloc
-- and Check are mm.c: the macros on header words and the bins; the state, which is the words at
-- their addresses, the heads of the free lists and the break; the functions on the free lists;
-- `coalesce`, `extend_heap` and `place`; the functions that programs call; and `mm_checkheap`. The
-- memory is a function from addresses to words of 32 bits, and every access of mm.c is at the start
-- of a word; the array of the heads, which fills the first 56 bytes of the heap, is kept apart.
-- Whether the system's sbrk succeeds is an argument. The searches of `find_fit` and `mm_checkheap`
-- run on fuel, the number of bytes of the heap; a free block takes at least eight of them, so that
-- the fuel is enough for lists of different blocks. Links, Pushed, Removed and Unlisted are about
-- the free lists, Room and Fits about `find_fit`, Heap and its children about the blocks of the heap
-- and `free`; Runs holds short runs that `mm_checkheap` accepts. Naive is mm-naive.c. The driver
-- mdriver.c, the timers and the output of `mm_checkheap` are not modelled: they are the handout's
-- or only print.
--
-- Base holds what the parts share: Boolean tests, lists and strings, arrays, and integers.
pub mod Allocator
pub mod Base
pub mod CacheSim
pub mod Proxy
pub mod Shell
pub mod Transpose
