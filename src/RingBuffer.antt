-- ===== src/RingBuffer.antt =====
-- ring_buffer/ring_buffer.c and ring_buffer.h: the log between the front end, which appends to it,
-- and the back end, which replays it. `wait_for_space` and `wait_for_entry` are the spin loops. They
-- run here against a ring that no other process changes meanwhile: `none` is a call that spins until
-- another process moves the index that it reads. The system of Fifo.antt interleaves the calls.
-- The flushes and fences order the stores; every store of the model is visible and durable at once.
pub mod Spin
pub mod Size
pub mod Window
pub mod Fifo
pub mod Stale
pub mod Deadlock
pub mod Layout
use mangosteen_code.Common.{
  ℕ, zero, suc, ◌+◌, ◌%◌, ◌^◌, ◌/◌, ◌*◌, List, [], ◌∷◌, ◌++◌, Option, none, some, ◌==◌,
  if◌then◌else◌, ◌>>=◌, update, drop, Bool, true, false,
}
use mangosteen_code.Memory.{Mem, read}

-- RING_BUFFER_SIZE and PAYLOAD_SIZE
abbrev pub ring_buffer_size : ℕ
ring_buffer_size = 65536

abbrev pub payload_size : ℕ
payload_size = 32

abbrev pub redo_entry : ℕ
redo_entry = 0

abbrev pub mmap_entry : ℕ
mmap_entry = 1

abbrev pub commit_entry : ℕ
commit_entry = 2

abbrev pub transient_mmap_entry : ℕ
transient_mmap_entry = 3

-- `ring_buffer_entry`. A `ring_buffer_map_entry` lies over it: its size is the first eight bytes of
-- the payload.
pub record Entry : Type 0 where
  pub entry_type : ℕ
  pub addr : ℕ
  pub payload : List ℕ

-- `ring_buffer_map_entry`
pub record MapEntry : Type 0 where
  pub entry_type : ℕ
  pub addr : ℕ
  pub size : ℕ

pub record AtomicPmemCommit : Type 0 where
  pub number_of_regions : ℕ
  pub ring_buffer_head : ℕ

-- `ring_buffer`; the slots from `ring_buffer_size` on do not exist, and no index reaches them.
pub record RingBuffer : Type 0 where
  pub buffer : ℕ → Entry
  pub last_persisted_head : ℕ
  pub last_persisted_tail : ℕ
  pub remote_head : ℕ
  pub remote_tail : ℕ
  pub producer_addr : ℕ
  pub commit_metadata : AtomicPmemCommit

-- `*thread_local_head` and `*thread_local_tail`
pub record Cursor : Type 0 where
  pub head : ℕ
  pub tail : ℕ

-- The globals of ring_buffer.c, of which each process has its own.
pub record Globals : Type 0 where
  pub global_local_head : ℕ
  pub global_local_tail : ℕ
  pub number_of_mmaped_memory_regions : ℕ

-- `n + 1`, and 0 at the end of the buffer
unfoldable pub next_index : ℕ → ℕ
next_index n = let next = (n + 1) % 2 ^ 64 in if next == ring_buffer_size then 0 else next

-- `while (next == head) head = shared;`
unfoldable pub wait_for_space : ℕ → ℕ → ℕ → ℕ → Option ℕ
wait_for_space zero shared next head = none
wait_for_space (suc fuel) shared next head =
    let rest = wait_for_space fuel shared next shared in if next == head then rest else some head

-- `while (head == tail) tail = shared;`
unfoldable pub wait_for_entry : ℕ → ℕ → ℕ → ℕ → Option ℕ
wait_for_entry zero shared head tail = none
wait_for_entry (suc fuel) shared head tail =
    let rest = wait_for_entry fuel shared head shared in if head == tail then rest else some tail

-- Two rounds decide either loop while the shared index stays (Spin.antt).
abbrev pub spin_fuel : ℕ
spin_fuel = 2

-- The bytes of a `uint64_t`, least significant first, and back.
unfoldable pub to_bytes : ℕ → ℕ → List ℕ
to_bytes zero v = []
to_bytes (suc n) v = (v % 256) ∷ to_bytes n (v / 256)

unfoldable pub from_bytes : ℕ → List ℕ → ℕ
from_bytes zero bs = 0
from_bytes (suc n) [] = 0
from_bytes (suc n) (b ∷ bs) = b + 256 * from_bytes n bs

-- `((ring_buffer_map_entry *)entry)->size`
unfoldable pub map_size : Entry → ℕ
unfolding from_bytes
map_size e = from_bytes 8 e.payload

-- The three assignments through `destination`; the rest of the old payload stays.
unfoldable pub store_map_entry : Entry → MapEntry → Entry
unfolding to_bytes
store_map_entry old e = record {
  entry_type = e.entry_type;
  addr = e.addr;
  payload = to_bytes 8 e.size ++ drop 8 old.payload;
}

unfoldable pub enqueue_mmap_entry : RingBuffer → MapEntry → Cursor → Option (RingBuffer × Cursor)
unfolding wait_for_space next_index
enqueue_mmap_entry r e c =
    let next_tail = next_index c.tail in
    wait_for_space spin_fuel r.remote_head next_tail c.head >>= λ head. some (
      record r { buffer = update r.buffer c.tail (store_map_entry (r.buffer c.tail) e) },
      record { head = head; tail = next_tail },
    )

-- The entry copies `payload_size` bytes from `addr` in the caller's memory.
unfoldable pub redo_of : Mem → ℕ → Entry
redo_of m addr = record { entry_type = redo_entry; addr = addr; payload = read m addr payload_size }

unfoldable pub enqueue_redo_log_entry : Mem → RingBuffer → ℕ → Cursor → Option (RingBuffer × Cursor)
unfolding wait_for_space next_index
enqueue_redo_log_entry m r addr c =
    let next_tail = next_index c.tail in
    wait_for_space spin_fuel r.remote_head next_tail c.head >>= λ head. some (
      record r { buffer = update r.buffer c.tail (redo_of m addr) },
      record { head = head; tail = next_tail },
    )

-- Only the type of the slot is written. This loop reads `last_persisted_head`.
unfoldable pub commit_enqueued_entries : RingBuffer → Cursor → Option (RingBuffer × Cursor)
unfolding wait_for_space next_index
commit_enqueued_entries r c =
    let next_tail = next_index c.tail in
    wait_for_space spin_fuel r.last_persisted_head next_tail c.head >>= λ head. some (
      record r {
        buffer =
            update r.buffer c.tail
              (let old = r.buffer c.tail in record old { entry_type = commit_entry });
        remote_tail = next_tail;
        last_persisted_tail = next_tail;
      },
      record { head = head; tail = next_tail },
    )

unfoldable pub dequeue : RingBuffer → Globals → Option (Entry × Globals)
unfolding wait_for_entry next_index
dequeue r g =
    wait_for_entry spin_fuel r.last_persisted_tail g.global_local_head g.global_local_tail
    >>= λ tail. some (
      r.buffer g.global_local_head,
      record g { global_local_head = next_index g.global_local_head; global_local_tail = tail },
    )

unfoldable pub commit_dequeued_entries : RingBuffer → Globals → RingBuffer
commit_dequeued_entries r g = record r {
  remote_head = g.global_local_head;
  last_persisted_head = g.global_local_head;
}

unfoldable pub get_global_head_value : RingBuffer → ℕ
get_global_head_value r = r.last_persisted_head

unfoldable pub get_global_tail_value : RingBuffer → ℕ
get_global_tail_value r = r.last_persisted_tail

unfoldable pub set_global_head_value : ℕ → RingBuffer → RingBuffer
set_global_head_value head r = record r { last_persisted_head = head }

unfoldable pub set_global_tail_value : ℕ → RingBuffer → RingBuffer
set_global_tail_value tail r = record r { last_persisted_tail = tail }

abbrev pub zero_entry : Entry
zero_entry = record { entry_type = 0; addr = 0; payload = to_bytes payload_size 0 }

-- A file that `ftruncate` has made holds zeros.
abbrev pub zero_ring : RingBuffer
zero_ring = record {
  buffer = λ _. zero_entry;
  last_persisted_head = 0;
  last_persisted_tail = 0;
  remote_head = 0;
  remote_tail = 0;
  producer_addr = 0;
  commit_metadata = record { number_of_regions = 0; ring_buffer_head = 0 };
}

-- The ring is what the mapping of the ring's file shows, `none` if there was no file; `mapped` is the address that `mmap`
-- chose. The result is `none` where the alignment assertion fails.
unfoldable pub create_and_initialise : Option RingBuffer → ℕ → Option (RingBuffer × Globals)
create_and_initialise none mapped =
    if mapped % 64 == 0
    then some (
      record zero_ring { producer_addr = mapped },
      record { global_local_head = 0; global_local_tail = 0; number_of_mmaped_memory_regions = 0 },
    )
    else none
create_and_initialise (some r) mapped = some (
  record r { last_persisted_head = r.remote_head; last_persisted_tail = r.remote_tail },
  record {
    global_local_head = r.remote_head;
    global_local_tail = r.remote_tail;
    number_of_mmaped_memory_regions = r.commit_metadata.number_of_regions;
  },
)

-- `ring_buffer_open`, on a ring that is already mapped
unfoldable pub open_ring : RingBuffer → Globals → RingBuffer × Globals
open_ring r g = (
  record r { remote_head = r.commit_metadata.ring_buffer_head },
  record g {
    global_local_head = r.commit_metadata.ring_buffer_head;
    global_local_tail = r.remote_tail;
  },
)
