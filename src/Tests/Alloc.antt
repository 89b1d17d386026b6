-- ===== src/Tests/Alloc.antt =====
-- transient_allocator/transient_allocator.c: a block that its user wrote 500 into, freed and allocated again.
use mangosteen_code.Common.{◌≡◌, refl, arith, some, ◌>>=◌}
use mangosteen_code.Memory.{Mem, write}
use mangosteen_code.TransientAllocator.{MemoryNodeList, load, store, push_block, pop_memory_block}
use mangosteen_code.TransientAllocator.Reuse.{pop-push_block}

abbrev used : Mem
unfolding store
used = store 8 (λ a. 0) 1004 500

abbrev no_blocks : MemoryNodeList
no_blocks = record { block_size = 32; first = 0 }

pop-push_block_example :
    (push_block 1 no_blocks 1000 used >>= λ pushed.
    pop_memory_block pushed.0 pushed.1 >>= λ popped. some popped.0)
    ≡ some 500
unfolding load store write
pop-push_block_example = pop-push_block 1 no_blocks 1000 used refl (omega arith)
