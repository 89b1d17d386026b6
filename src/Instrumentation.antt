-- ===== src/Instrumentation.antt =====
-- instrumentation/instrument_front_end.c, instrumenation_common.h and the overflow buffer of
-- redo_entry_collector.c: the front end's record of what a transaction stored, and the transaction's
-- way into the log. The generated code that fills the hash set while the combiner runs is not here:
-- the hash set is a list of slots, with what that code left in it. `none` is a call that spins for
-- ever, or a store past the end of an array.
pub mod Session
pub mod Cover
pub mod Durable
use mangosteen_code.Common.{
  ℕ, zero, suc, ◌+◌, ◌-◌, ◌%◌, ◌^◌, ◌*◌, ◌==◌, Bool, true, false, List, [], ◌∷◌, ◌++◌, Option, none,
  some, if◌then◌else◌, ltb, ◌>>=◌, length, map,
}
use mangosteen_code.Memory.{Mem, read, write}
use mangosteen_code.RingBuffer.{
  RingBuffer, Cursor, MapEntry, payload_size, mmap_entry, transient_mmap_entry,
  enqueue_redo_log_entry, enqueue_mmap_entry, commit_enqueued_entries, get_global_head_value,
  get_global_tail_value, set_global_head_value, set_global_tail_value,
}

-- HASH_SET_SIZE, MAX_NUM_OF_MEMCPY and the length of the overflow buffer
abbrev pub hash_set_size : ℕ
hash_set_size = 1024

abbrev pub max_num_of_memcpy : ℕ
max_num_of_memcpy = 100

abbrev pub overflow_size : ℕ
overflow_size = 4096

-- `memcpy_entry`; the field `end` is `finish` here.
pub record MemcpyEntry : Type 0 where
  pub start : ℕ
  pub finish : ℕ

-- `last_syscall`
pub record LastSyscall : Type 0 where
  pub sysnum : ℕ
  pub addr : ℕ
  pub size : ℕ

-- The fields of `per_thread_t` that these functions use. An array with its count is a list.
pub record PerThread : Type 0 where
  pub hash_set_entries : List ℕ
  pub number_of_hash_set_entries : ℕ
  pub combiner : ℕ
  pub last_syscall : LastSyscall
  pub cursor : Cursor
  pub deferred_mmap_entries : List MapEntry
  pub memcpy_array : List MemcpyEntry

-- The shared ring, the current thread's data, the global overflow buffer, the memory of the process
-- and `*fc_writers`.
pub record FrontEnd : Type 0 where
  pub ring : RingBuffer
  pub thread : PerThread
  pub overflow_buffer : List ℕ
  pub mem : Mem
  pub fc_writers : ℕ

abbrev pub zeros : ℕ → List ℕ
zeros zero = []
zeros (suc n) = 0 ∷ zeros n

-- `event_thread_init`; the two thread-local indices and `memcpyArray` start as the allocation holds
-- them, and the count of the hash set too.
unfoldable pub event_thread_init : PerThread → PerThread
event_thread_init raw = record raw {
  hash_set_entries = zeros hash_set_size;
  combiner = 0;
  last_syscall = (let old = raw.last_syscall in record old { sysnum = 0 });
  deferred_mmap_entries = [];
}

unfoldable pub instrument_start : FrontEnd → FrontEnd
instrument_start f = let t = f.thread in record f { thread = record t { combiner = 1 } }

-- The value 2 of the source's `setCombinerToInitilise`.
unfoldable pub set_combiner_to_initilise : FrontEnd → FrontEnd
set_combiner_to_initilise f = let t = f.thread in record f { thread = record t { combiner = 2 } }

unfoldable pub reset_hash_set : FrontEnd → FrontEnd
reset_hash_set f =
    let t = f.thread in
    record f {
      thread = record t { combiner = 0; hash_set_entries = map (λ _. 0) t.hash_set_entries };
    }

unfoldable pub dump_address_to_overflow_buffer : FrontEnd → ℕ → Option FrontEnd
dump_address_to_overflow_buffer f addr =
    if ltb (length f.overflow_buffer) overflow_size
    then some (record f { overflow_buffer = f.overflow_buffer ++ (addr ∷ []) })
    else none

-- A combiner's copy is made and its range recorded; any other thread's call does nothing.
unfoldable pub instrumented_memcpy : FrontEnd → ℕ → ℕ → ℕ → Option FrontEnd
instrumented_memcpy f dest src size =
    let t = f.thread in
    let range : MemcpyEntry = record { start = dest; finish = dest + size } in
    if t.combiner == 1
    then (if ltb (length t.memcpy_array) max_num_of_memcpy
        then some (record f {
          thread = record t { memcpy_array = t.memcpy_array ++ (range ∷ []) };
          mem = write f.mem dest (read f.mem src size);
        })
        else none)
    else some f

-- `(size_t)(int)n`
unfoldable pub sign_extend : ℕ → ℕ
sign_extend n = let low = n % 2 ^ 32 in if ltb low (2 ^ 31) then low else low + 2 ^ 64 - 2 ^ 32

-- `wrap_pre`, on a call of `memcpy` by the application: the size that the call goes on with.
unfoldable pub wrap_pre : FrontEnd → ℕ → ℕ → ℕ → Option (FrontEnd × ℕ)
unfolding sign_extend
wrap_pre f dst src size_arg =
    let t = f.thread in
    let size = sign_extend size_arg in
    let range : MemcpyEntry = record { start = dst; finish = (dst + size) % 2 ^ 64 } in
    if t.combiner == 1
    then (if ltb (length t.memcpy_array) max_num_of_memcpy
        then some (
          record f {
            thread = record t { memcpy_array = t.memcpy_array ++ (range ∷ []) };
            mem = write f.mem dst (read f.mem src size);
          },
          0,
        )
        else none)
    else some (f, size_arg)

-- `int distance = end - start`; a negative distance ends the loop at once, as 0 does.
unfoldable pub int_distance : MemcpyEntry → ℕ
int_distance e = let d = (e.finish + 2 ^ 64 - e.start) % 2 ^ 32 in if ltb d (2 ^ 31) then d else 0

-- `for (int j = 0; j < distance; j = j + PAYLOAD_SIZE)`: the addresses that are logged.
unfoldable pub blocks_from : ℕ → ℕ → ℕ → ℕ → List ℕ
blocks_from zero start j distance = []
blocks_from (suc fuel) start j distance =
    let rest = blocks_from fuel start (j + payload_size) distance in
    if ltb j distance then (start + j) ∷ rest else []

-- Each round adds `payload_size`, so `distance` rounds are enough (Cover.antt).
unfoldable pub memcpy_blocks : MemcpyEntry → List ℕ
unfolding blocks_from int_distance
memcpy_blocks e = blocks_from (int_distance e) e.start 0 (int_distance e)

unfoldable pub enqueue_all : Mem → List ℕ → RingBuffer → Cursor → Option (RingBuffer × Cursor)
enqueue_all m [] r c = some (r, c)
enqueue_all m (a ∷ rest) r c = enqueue_redo_log_entry m r a c >>= λ s. enqueue_all m rest s.0 s.1

-- The loop over the hash set: a slot that is 0 is free, and one up to 1000 is not logged.
unfoldable pub enqueue_hash_set : Mem → List ℕ → RingBuffer → Cursor → Option (RingBuffer × Cursor)
enqueue_hash_set m [] r c = some (r, c)
enqueue_hash_set m (a ∷ slots) r c =
    (if a == 0
      then some (r, c)
      else if ltb 1000 a
      then enqueue_redo_log_entry m r a c
      else some (r, c))
    >>= (λ s. enqueue_hash_set m slots s.0 s.1)

-- `collect_payload_and_store_to_pmem`
unfoldable pub collect_payload : FrontEnd → Bool → Option FrontEnd
unfolding enqueue_all enqueue_hash_set
collect_payload f commit =
    let t = f.thread in
    enqueue_all f.mem f.overflow_buffer f.ring t.cursor >>= λ s.
    enqueue_hash_set f.mem t.hash_set_entries s.0 s.1 >>= λ s'.
    (if commit then commit_enqueued_entries s'.0 s'.1 else some s') >>= λ s''. some (record f {
      ring = set_global_tail_value s''.1.tail (set_global_head_value s''.1.head s''.0);
      thread = record t { cursor = s''.1; hash_set_entries = map (λ _. 0) t.hash_set_entries };
    })

-- The loop of `instrument_stop` over the recorded ranges: each is a batch of its own.
unfoldable pub stop_memcpys :
    Mem → List MemcpyEntry → RingBuffer → Cursor → Option (RingBuffer × Cursor)
unfolding enqueue_all memcpy_blocks
stop_memcpys m [] r c = some (r, c)
stop_memcpys m (e ∷ es) r c = enqueue_all m (memcpy_blocks e) r c >>= λ s.
    commit_enqueued_entries s.0 s.1 >>= λ s'. stop_memcpys m es s'.0 s'.1

unfoldable pub instrument_stop : FrontEnd → Option FrontEnd
unfolding collect_payload stop_memcpys
instrument_stop f =
    let t = f.thread in
    let loaded : Cursor = record {
      head = get_global_head_value f.ring;
      tail = get_global_tail_value f.ring;
    } in
    stop_memcpys f.mem t.memcpy_array f.ring loaded >>= λ s.
    collect_payload (record f { ring = s.0; thread = record t { combiner = 0; cursor = s.1 } }) true
    >>= (λ f'.
        let t' = f'.thread in
        some (record f' {
          thread = record t' { number_of_hash_set_entries = 0; memcpy_array = [] };
          overflow_buffer = [];
        }))

-- The numbers of the system calls, of the Linux headers.
abbrev pub sys_mmap : ℕ
sys_mmap = 9

abbrev pub sys_munmap : ℕ
sys_munmap = 11

unfoldable pub event_filter_syscall : ℕ → Bool
event_filter_syscall sysnum = sysnum == sys_mmap

unfoldable pub event_pre_syscall : FrontEnd → ℕ → ℕ → ℕ → FrontEnd
event_pre_syscall f sysnum addr size =
    let t = f.thread in
    let seen : FrontEnd = record f {
      thread = record t { last_syscall = record { sysnum = sysnum; addr = addr; size = size } };
    } in
    if sysnum == sys_mmap then seen else if sysnum == sys_munmap then seen else f

-- `result` is what the call returned; -1 is the largest 64-bit number. A thread that is not the
-- combiner takes the writers' flag, which it finds down or spins for ever on.
unfoldable pub event_post_syscall : FrontEnd → ℕ → ℕ → Option FrontEnd
event_post_syscall f sysnum result =
    let t = f.thread in
    let last = t.last_syscall in
    let addr = if last.addr == 0 then result else last.addr in
    let kind = if t.combiner == 0 then transient_mmap_entry else mmap_entry in
    let entry : MapEntry = record { entry_type = kind; addr = addr; size = last.size } in
    let loaded : Cursor = record {
      head = get_global_head_value f.ring;
      tail = get_global_tail_value f.ring;
    } in
    let failed = if last.addr == 0 then result == 2 ^ 64 - 1 else false in
    let locked = if t.combiner == 0 then f.fc_writers == 0 else true in
    let logged = enqueue_mmap_entry f.ring entry loaded >>= λ s.
    commit_enqueued_entries s.0 s.1 >>= λ s'. some (record f {
      ring = set_global_tail_value s'.1.tail (set_global_head_value s'.1.head s'.0);
      thread = record t { cursor = s'.1; last_syscall = record last { addr = addr } };
    }) in
    if (if sysnum == sys_mmap then true else sysnum == sys_munmap)
    then (if last.sysnum == sys_mmap
        then (if failed then none else if locked then logged else none)
        else some f)
    else some f

-- `commit_mmaps`, over the entries that it is given
unfoldable pub commit_mmap_entries :
    List MapEntry → RingBuffer → Cursor → Option (RingBuffer × Cursor)
commit_mmap_entries [] r c = some (r, c)
commit_mmap_entries (e ∷ es) r c = enqueue_mmap_entry r e c >>= λ s.
    commit_enqueued_entries s.0 s.1 >>= λ s'. commit_mmap_entries es s'.0 s'.1

unfoldable pub commit_mmaps : FrontEnd → List MapEntry → Option FrontEnd
unfolding commit_mmap_entries
commit_mmaps f entries =
    let t = f.thread in
    commit_mmap_entries entries f.ring
      (record { head = get_global_head_value f.ring; tail = get_global_tail_value f.ring })
    >>= (λ s. some (record f {
      ring = set_global_tail_value s.1.tail (set_global_head_value s.1.head s.0);
      thread = record t { cursor = s.1; combiner = 0 };
    }))

-- `collect_mmaps`: the entries go to the caller.
unfoldable pub collect_mmaps : FrontEnd → FrontEnd × List MapEntry
collect_mmaps f =
    let t = f.thread in
    (record f { thread = record t { deferred_mmap_entries = [] } }, t.deferred_mmap_entries)
