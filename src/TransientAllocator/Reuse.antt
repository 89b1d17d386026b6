-- ===== src/TransientAllocator/Reuse.antt =====
-- transient_allocator/transient_allocator.c: what a block that was freed is given out as, and sizes that
-- have no list.
use mangosteen_code.Common.{
  ℕ, zero, suc, ◌+◌, ◌-◌, ◌*◌, ◌/◌, ◌<◌, ◌≤◌, ◌≡◌, refl, ◌∙◌, ap, ◌⊎◌, inl, inr, arith, some, none,
  Option, ne→==, eq→==, length, ◌>>=◌,
}
use mangosteen_code.Memory.{Mem, write, write_outside}
use mangosteen_code.TransientAllocator.{
  TransientAllocator, MemoryNodeList, bytes_of, load, store, index_from, get_block_index,
  push_block, pop_memory_block, alloc,
}

length-bytes_of : (n v : ℕ) → length (bytes_of n v) ≡ n
unfolding bytes_of
length-bytes_of zero v = refl
length-bytes_of (suc n) v = ap suc (length-bytes_of n (v / 256))

-- A store elsewhere
load-store :
    (n k : ℕ) (m : Mem) (a b v : ℕ)
    → (a + n ≤ b) ⊎ (b + k ≤ a)
    → load n (store k m b v) a ≡ load n m a
unfolding load store
load-store zero k m a b v apart = refl
load-store (suc n) k m a b v apart =
    let here : write m b (bytes_of k v) a ≡ m a = write_outside m b a (bytes_of k v) (elim apart [
      | inl below ↦ inl (omega arith)
      | inr above ↦ inr (omega (arith, length-bytes_of k v))
    ]) in
    let rest =
      load-store n k m (a + 1) b v
        (elim apart [ inl below ↦ inl (omega arith) | inr above ↦ inr (omega arith) ]) in
    ap (λ x. x + 256 * load n (write m b (bytes_of k v)) (a + 1)) here
    ∙ ap (λ x. m a + 256 * x) rest

-- A block at `ptr` that goes to an empty free list is given out next at the address that its own bytes
-- from the fourth on hold: what the user wrote there, where it should be `ptr`.
pub pop-push_block :
    (fuel : ℕ) (list : MemoryNodeList) (ptr : ℕ) (m : Mem)
    → list.first ≡ 0
    → 12 < ptr
    → (push_block fuel list ptr m >>= λ pushed.
        pop_memory_block pushed.0 pushed.1 >>= λ popped. some popped.0)
      ≡ some (load 8 m (ptr + 4))
unfolding push_block pop_memory_block
pop-push_block fuel list ptr m empty low =
    let node = ptr - 12 in
    let m' = store 8 m (node + 8) 0 in
    let at : node + 16 ≡ ptr + 4 = omega arith in
    let same : load 8 m' (node + 16) ≡ load 8 m (ptr + 4) =
      load-store 8 8 m (node + 16) (node + 8) 0 (inr (omega arith)) ∙ ap (load 8 m) at in
    rw (eq→== _ _ empty, ne→== node 0 (λ z. omega arith), same) refl

-- Sizes above 32768, up to the largest that the assertion admits, have the index 16.
big_index : (size : ℕ) → 32768 < size → size < 65536 → get_block_index size ≡ some 16
unfolding get_block_index index_from
big_index size low high = ground arith

bind-none {ℓ ℓ'} :
    {A : Type ℓ} {B : Type ℓ'} (o : Option A) (a : A) (f : A → Option B)
    → o ≡ some a
    → f a ≡ none
    → (o >>= f) ≡ none
bind-none o a f at fails = ap (λ x. x >>= f) at ∙ fails

-- A size above 32768 and below 65536, which the allocator's assertion admits, has no list: the call
-- would use the one behind the last.
pub alloc_big :
    (mapped : ℕ) (t : TransientAllocator) (size : ℕ)
    → 32768 < size
    → size < 65536
    → alloc mapped t size ≡ none
unfolding alloc
alloc_big mapped t size low high =
    bind-none (get_block_index size) 16 _ (big_index size low high) refl
