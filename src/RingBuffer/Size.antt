-- ===== src/RingBuffer/Size.antt =====
-- ring_buffer/ring_buffer.h: the size of a map entry over the payload of a slot, and the records
-- that the slots stand for.
use mangosteen_code.Common.{
  ℕ, zero, suc, ◌*◌, ◌^◌, ◌<◌, ◌≡◌, drop, List, ◌++◌, Bool, ap, ◌/◌, arith, ◌==◌, if◌then◌else◌,
}
use mangosteen_code.RingBuffer.{
  Entry, MapEntry, to_bytes, from_bytes, map_size, store_map_entry, redo_entry, commit_entry,
}

-- What the back end reads from a slot, by its type.
pub data LogRecord : Type 0 where
  redo : (addr : ℕ) → (payload : List ℕ) → LogRecord
  map_region : (entry_type addr size : ℕ) → LogRecord
  commit : LogRecord

unfoldable pub decode : Entry → LogRecord
decode e =
    if e.entry_type == redo_entry
    then redo e.addr e.payload
    else if e.entry_type == commit_entry
    then commit
    else map_region e.entry_type e.addr (map_size e)

abbrev below : ℕ → ℕ
below zero = 1
below (suc n) = 256 * below n

from_bytes-to_bytes :
    (n v : ℕ) (rest : List ℕ) → v < below n → from_bytes n (to_bytes n v ++ rest) ≡ v
unfolding from_bytes to_bytes
from_bytes-to_bytes zero v rest h = omega arith
from_bytes-to_bytes (suc n) v rest h =
    omega (arith, from_bytes-to_bytes n (v / 256) rest (omega arith))

-- A size that fits in 64 bits survives the store over the old payload.
pub map_size-store_map_entry :
    (old : Entry) (e : MapEntry) → e.size < 2 ^ 64 → map_size (store_map_entry old e) ≡ e.size
unfolding map_size store_map_entry
map_size-store_map_entry old e h = from_bytes-to_bytes 8 e.size (drop 8 old.payload) (omega arith)

-- A slot with a map entry in it is read back as that map entry.
pub decode-store_map_entry :
    (old : Entry) (e : MapEntry)
    → (e.entry_type == redo_entry) ≡ Bool.false
    → (e.entry_type == commit_entry) ≡ Bool.false
    → e.size < 2 ^ 64
    → decode (store_map_entry old e) ≡ map_region e.entry_type e.addr e.size
unfolding decode store_map_entry
decode-store_map_entry old e p q h =
    rw p (rw q (ap (map_region e.entry_type e.addr) (map_size-store_map_entry old e h)))
