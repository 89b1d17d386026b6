-- ===== src/RingBuffer/Layout.antt =====
-- ring_buffer/ring_buffer.h and `pmem_file_size` in ring_buffer.c: where the compiler puts the fields
-- of `ring_buffer`, for any number of slots, and how long the file behind it is.
use mangosteen_code.Common.{ℕ, ◌+◌, ◌-◌, ◌*◌, ◌%◌, ◌≤◌, arith}

-- The next multiple of `align`.
abbrev pub align_up : ℕ → ℕ → ℕ
align_up offset align = offset + (align - offset % align) % align

-- `sizeof(ring_buffer_entry)`: a byte, a pointer and the payload, aligned to eight.
pub sizeof_entry : ℕ → ℕ
sizeof_entry payload = align_up (align_up 1 8 + 8 + payload) 8

pub record Offsets : Type 0 where
  pub last_persisted_head : ℕ
  pub last_persisted_tail : ℕ
  pub remote_head : ℕ
  pub remote_tail : ℕ
  pub producer_addr : ℕ
  pub commit_metadata : ℕ

pub offsets : ℕ → Offsets
unfolding sizeof_entry
offsets slots =
    let head = slots * sizeof_entry 32 in
    let tail = head + 8 in
    let remote = tail + 8 in
    let remote_end = align_up (remote + 8 + 128) 8 in
    let producer = align_up (remote_end + 8 + 128) 8 in
    record {
      last_persisted_head = head;
      last_persisted_tail = tail;
      remote_head = remote;
      remote_tail = remote_end;
      producer_addr = producer;
      commit_metadata = producer + 8;
    }

pub pmem_file_size : ℕ → ℕ
unfolding sizeof_entry
pmem_file_size slots = slots * sizeof_entry 32 + 32

-- Whatever the number of slots, the file holds the slots, `last_persisted_head`,
-- `last_persisted_tail` and `remote_head`, and ends before `remote_tail`, `producer_addr` and
-- `commit_metadata`.
pub file_too_short :
    (slots : ℕ)
    → ((offsets slots).last_persisted_head + 8 ≤ pmem_file_size slots)
      × ((offsets slots).last_persisted_tail + 8 ≤ pmem_file_size slots)
      × ((offsets slots).remote_head + 8 ≤ pmem_file_size slots)
      × (pmem_file_size slots ≤ (offsets slots).remote_tail)
      × (pmem_file_size slots ≤ (offsets slots).producer_addr)
      × (pmem_file_size slots ≤ (offsets slots).commit_metadata)
unfolding offsets pmem_file_size
file_too_short slots = omega arith
