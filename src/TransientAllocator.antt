-- ===== src/TransientAllocator.antt =====
-- transient_allocator/transient_allocator.c: blocks by size class, on free lists that run through the
-- memory of the process. A `memory_node` takes 24 bytes: `size` at 0, `next` at 8 and `usable_space` at 16,
-- where the code reckons with 12 bytes before the space that it gives out. Numbers are stored with the
-- lowest byte first; NULL is 0. `none` is a failed assertion, a use of NULL, a list that is not there,
-- or a list that does not end. What is printed is left out, with the walks that only print.
pub mod Reuse
use mangosteen_code.Common.{
  ℕ, zero, suc, ◌+◌, ◌-◌, ◌*◌, ◌%◌, ◌/◌, ◌^◌, ◌==◌, Option, none, some, if◌then◌else◌, ltb, ◌>>=◌,
  List, [], ◌∷◌, update,
}
use mangosteen_code.Memory.{Mem, write}

abbrev pub mmap_block_size : ℕ
mmap_block_size = 65536

abbrev pub max_block_pow : ℕ
max_block_pow = 16

-- MAX_ALLOC, `pow(2, MAX_BLOCK_POW)`
abbrev pub max_alloc : ℕ
max_alloc = 65536

unfoldable pub bytes_of : ℕ → ℕ → List ℕ
bytes_of zero v = []
bytes_of (suc n) v = (v % 256) ∷ bytes_of n (v / 256)

-- A number of `n` bytes, loaded and stored
unfoldable pub load : ℕ → Mem → ℕ → ℕ
load zero m a = 0
load (suc n) m a = m a + 256 * load n m (a + 1)

unfoldable pub store : ℕ → Mem → ℕ → ℕ → Mem
unfolding bytes_of
store n m a v = write m a (bytes_of n v)

abbrev pub next_of : ℕ → ℕ
next_of node = node + 8

abbrev pub usable_space_of : ℕ → ℕ
usable_space_of node = node + 16

-- sizeof(int) + 8, before the space that a node gives out
abbrev pub before_space : ℕ
before_space = 12

pub record MemoryNodeList : Type 0 where
  pub block_size : ℕ
  pub first : ℕ

-- The lists by their index, and the memory
pub record TransientAllocator : Type 0 where
  pub lists : ℕ → MemoryNodeList
  pub mem : Mem

unfoldable pub initialise_allocator : Mem → TransientAllocator
initialise_allocator m = record { lists = λ i. record { block_size = 2 ^ i; first = 0 }; mem = m }

-- The loop of `get_block_index`: the size doubles until it is enough.
unfoldable pub index_from : ℕ → ℕ → ℕ → ℕ → Option ℕ
index_from zero size aligned index = none
index_from (suc fuel) size aligned index =
    let rest = index_from fuel size (aligned * 2) (index + 1) in
    if ltb aligned size then rest else some index

-- Below MAX_ALLOC 17 rounds are enough.
unfoldable pub get_block_index : ℕ → Option ℕ
unfolding index_from
get_block_index size = if ltb size max_alloc then index_from 17 size 1 0 else none

-- `while (true)` of `add_memory_blocks_to_list`, from the offset on
unfoldable pub add_nodes : ℕ → (addr entry block_size offset : ℕ) → Mem → Option Mem
add_nodes zero addr entry block_size offset m = none
add_nodes (suc fuel) addr entry block_size offset m =
    let node = addr + offset in
    let m1 = store 4 m node block_size in
    let m2 = store 8 m1 (next_of node) (node + entry) in
    let m3 = store 8 m2 (next_of (load 8 m2 (next_of node))) 0 in
    let m4 = store 8 m3 (usable_space_of node) (node + before_space) in
    let m5 =
      if ltb mmap_block_size (offset + entry + entry) then store 8 m4 (next_of node) 0 else m4 in
    let rest = add_nodes fuel addr entry block_size (offset + entry) m5 in
    if ltb (offset + entry) mmap_block_size then rest else some m

-- `add_memory_blocks_to_list`, on the 65536 bytes that `mmap` gave at `addr`
unfoldable pub add_memory_blocks_to_list : MemoryNodeList → ℕ → Mem → Option (MemoryNodeList × Mem)
unfolding add_nodes
add_memory_blocks_to_list list addr m =
    let entry = list.block_size + before_space in
    let m1 = write m addr (97 ∷ 98 ∷ 99 ∷ 0 ∷ []) in
    let m2 = store 4 m1 addr list.block_size in
    let m3 = store 8 m2 (next_of addr) (addr + entry) in
    let m4 = store 8 m3 (usable_space_of addr) (addr + before_space) in
    add_nodes mmap_block_size addr entry list.block_size entry m4 >>= λ m5.
    some (record list { first = addr }, m5)

-- The address of the space, and the list after it
unfoldable pub pop_memory_block : MemoryNodeList → Mem → Option (ℕ × MemoryNodeList)
pop_memory_block list m =
    if list.first == 0
    then none
    else some (
      load 8 m (usable_space_of list.first),
      record list { first = load 8 m (next_of list.first) },
    )

-- `while (iterator->next != NULL)`: the last node
unfoldable pub last_node : ℕ → Mem → ℕ → Option ℕ
last_node zero m node = none
last_node (suc fuel) m node =
    let rest = last_node fuel m (load 8 m (next_of node)) in
    if load 8 m (next_of node) == 0 then some node else rest

-- `push_block`; a list has no more nodes than fit into the mapped blocks that are its own, and `fuel`
-- bounds them.
unfoldable pub push_block : ℕ → MemoryNodeList → ℕ → Mem → Option (MemoryNodeList × Mem)
unfolding last_node
push_block fuel list ptr m =
    let node = ptr - before_space in
    if list.first == 0
    then some (record list { first = node }, store 8 m (next_of node) 0)
    else (last_node fuel m list.first >>= λ last.
        some (list, store 8 (store 8 m (next_of last) node) (next_of node) 0))

-- The list with an index, if it is one of the 16
abbrev pub list_at : TransientAllocator → ℕ → Option MemoryNodeList
list_at t i = if ltb i max_block_pow then some (t.lists i) else none

-- `alloc`, with the address that `mmap` gives where it is called
unfoldable pub alloc : ℕ → TransientAllocator → ℕ → Option (ℕ × TransientAllocator)
unfolding add_memory_blocks_to_list pop_memory_block
alloc mapped t size = get_block_index size >>= λ i. list_at t i >>= λ list.
    (if list.first == 0 then add_memory_blocks_to_list list mapped t.mem else some (list, t.mem))
    >>= λ filled. pop_memory_block filled.0 filled.1 >>= λ popped.
        some (popped.0, record { lists = update t.lists i popped.1; mem = filled.1 })

-- `free`
unfoldable pub free : ℕ → TransientAllocator → ℕ → Option TransientAllocator
unfolding push_block
free fuel t ptr = get_block_index (load 4 t.mem (ptr - before_space)) >>= λ i.
    list_at t i >>= λ list. push_block fuel list ptr t.mem >>= λ pushed.
    some (record { lists = update t.lists i pushed.0; mem = pushed.1 })

unfoldable pub get_list_length : ℕ → MemoryNodeList → Mem → Option ℕ
get_list_length zero list m = none
get_list_length (suc fuel) list m =
    let rest = get_list_length fuel (record list { first = load 8 m (next_of list.first) }) m in
    if list.first == 0 then some 0 else (rest >>= λ count. some (count + 1))
