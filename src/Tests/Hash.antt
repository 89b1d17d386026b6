-- ===== src/Tests/Hash.antt =====
-- hash_set/hash_set.c on a set of four slots.
use mangosteen_code.Common.{◌≡◌, refl, arith, some}
use mangosteen_code.HashSet.{HashSet, initialise, insert}
use mangosteen_code.HashSet.Slots.{Inserted}
use mangosteen_code.HashSet.Insert.{insert_lem, initialise-IsHashSet}

abbrev four : HashSet
unfolding initialise
four = initialise 4 1 1

insert_lem_example :
    (after : HashSet) × (insert (initialise 4 1 1) 192 ≡ some after)
    × Inserted (initialise 4 1 1) 192 after
unfolding initialise
insert_lem_example =
    insert_lem (initialise 4 1 1) 192 2 (initialise-IsHashSet 4 1 1) (λ e. omega arith)
      (omega arith) refl

-- All four slots hold one address.
abbrev full : HashSet
unfolding initialise
full = let s = initialise 4 1 1 in record s { set_of_entries = λ i. 64 }
