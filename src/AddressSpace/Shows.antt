-- ===== src/AddressSpace/Shows.antt =====
-- instrumentation/instrument_front_end.c: what the code relies on of `mmap`, `memcpy` and `munmap`, and
-- the restart, after which the memory shows what the files hold.
use mangosteen_code.Common.{
  ℕ, zero, suc, ◌+◌, ◌-◌, ◌<◌, ◌≤◌, ◌≡◌, ◌≢◌, ◌⊎◌, inl, inr, List, length, get_or, some, true,
  false, refl, ◌∙◌, arith, dec_lt, ℕ_discrete,
}
use mangosteen_code.Memory.{Mem}
use mangosteen_code.RegionTable.{RegionTable, Kernel}
use mangosteen_code.AddressSpace.{
  Os, Prot, read_write, remap_from, remap_address_space, has_ring_buffer,
}

-- What a state of the system holds: the bytes of the files, the addresses in use, the files that no
-- mapping shows, and the file of a mapping (at an address, of a size) that no other mapping shows.
pub record View (S : Type 0) : Type 1 where
  pub holds : S → ℕ → ℕ → ℕ
  pub used : S → ℕ → Type 0
  pub idle : S → ℕ → Type 0
  pub sole : S → ℕ → ℕ → ℕ → Type 0

-- A call about the file `f` keeps the other files and what is in use.
pub record Keeps {S : Type 0} (v : View S) (f : ℕ) (s s' : S) : Type 0 where
  pub other_files : (g i : ℕ) → g ≢ f → v.holds s' g i ≡ v.holds s g i
  pub still_used : (x : ℕ) → v.used s x → v.used s' x
  pub still_idle : (g : ℕ) → g ≢ f → v.idle s g → v.idle s' g

abbrev pub Outside : ℕ → ℕ → ℕ → Type 0
Outside a n x = (x < a) ⊎ (a + n ≤ x)

-- `mmap` finds room that is not in use; a mapping shared with a file shows its bytes; bytes that are
-- stored through it are the file's, and stay there after `munmap`.
pub record Behaves {S : Type 0} (os : Os S) (v : View S) : Type 0 where
  pub anywhere :
      (f n : ℕ) (s : S) (d : ℕ) (s' : S)
      → os.map_anywhere f n s ≡ some (d, s')
      → Keeps v f s s'
        × (v.idle s f → v.sole s' d f n)
        × ((x : ℕ) → v.used s x → Outside d n x × (os.memory s' x ≡ os.memory s x))
  pub copied :
      (d f n : ℕ) (bs : List ℕ) (s : S)
      → v.sole s d f n
      → length bs ≡ n
      → Keeps v f s (os.copy d bs s)
        × ((i : ℕ) → i < n → v.holds (os.copy d bs s) f i ≡ get_or bs i 0)
        × ((x : ℕ) → Outside d n x → os.memory (os.copy d bs s) x ≡ os.memory s x)
  pub unmapped :
      (d n f : ℕ) (s : S)
      → Keeps v f s (os.unmap d n s)
        × ((i : ℕ) → v.holds (os.unmap d n s) f i ≡ v.holds s f i)
        × ((x : ℕ) → Outside d n x → os.memory (os.unmap d n s) x ≡ os.memory s x)
  pub fixed :
      (f a n : ℕ) (p : Prot) (s s' : S)
      → os.map_fixed f a n p s ≡ some s'
      → Keeps v f s s'
        × ((i : ℕ) → v.holds s' f i ≡ v.holds s f i)
        × ((i : ℕ) → i < n → os.memory s' (a + i) ≡ v.holds s f i)
        × ((x : ℕ) → Outside a n x → os.memory s' x ≡ os.memory s x)

-- No call fails.
pub record Succeeds {S : Type 0} (k : Kernel) (os : Os S) : Type 0 where
  pub truncates : (f n : ℕ) → k.truncates f n ≡ true
  pub map_anywhere : (f n : ℕ) (s : S) → (r : ℕ × S) × (os.map_anywhere f n s ≡ some r)
  pub map_fixed : (f a n : ℕ) (p : Prot) (s : S) → (s' : S) × (os.map_fixed f a n p s ≡ some s')

-- The files of the entries from `i` on, `left` entries, hold the image at the entries' addresses.
abbrev pub Backed : {S : Type 0} → View S → S → RegionTable → Mem → ℕ → ℕ → Type 0
Backed v s t image i left =
    (j o : ℕ)
    → i ≤ j
    → j < i + left
    → o < (t.entries j).mmap_size
    → v.holds s j o ≡ image ((t.entries j).address + o)

pub agree :
    (m image : Mem) (a n x : ℕ)
    → ((o : ℕ) → o < n → m (a + o) ≡ image (a + o))
    → (Outside a n x → m x ≡ image x)
    → m x ≡ image x
agree m image a n x inside outside = elim (dec_lt x a) [
  | yes below ↦ outside (inl below)
  | no above ↦ elim (dec_lt x (a + n)) [
    | yes within ↦
        let whole : a + (x - a) ≡ x = omega arith in rw whole at (inside (x - a) (omega arith))
    | no beyond ↦ outside (inr (omega arith))
  ]
]

module _ {S : Type 0} (k : Kernel) (os : Os S) (v : View S) (behaves : Behaves os v)
    (succeeds : Succeeds k os) (t : RegionTable) (image : Mem) where
  -- What the second loop does to memory: it shows the image in the entries' regions, and what it showed of
  -- the image before.
  record Remapped (i left : ℕ) (s s' : S) : Type 0 where
    shown :
        (j o : ℕ)
        → i ≤ j
        → j < i + left
        → o < (t.entries j).mmap_size
        → os.memory s' ((t.entries j).address + o) ≡ image ((t.entries j).address + o)
    kept : (x : ℕ) → os.memory s x ≡ image x → os.memory s' x ≡ image x

  remap_from-Remapped :
      (i left : ℕ) (s : S)
      → Backed v s t image i left
      → (s' : S) × (remap_from os t i left s ≡ some s') × Remapped i left s s'
  unfolding remap_from
  remap_from-Remapped i zero s h =
      (s, refl, record { shown = λ j o low high lt. absurd (omega arith); kept = λ x e. e })
  remap_from-Remapped i (suc left) s h =
      let e = t.entries i in
      let (s1, mapped) = succeeds.map_fixed i e.address e.mmap_size read_write s in
      let (keeps, same, inside, outside) =
        behaves.fixed i e.address e.mmap_size read_write s s1 mapped in
      let still : Backed v s1 t image (i + 1) left = λ j o low high lt.
        keeps.other_files j o (λ z. omega arith) ∙ h j o (omega arith) (omega arith) lt in
      let (s2, rest, done) = remap_from-Remapped (i + 1) left s1 still in
      let here : (o : ℕ) → o < e.mmap_size → os.memory s1 (e.address + o) ≡ image (e.address + o) =
        λ o lt. inside o lt ∙ h i o (omega arith) (omega arith) lt in
      (
        s2,
        rw mapped rest,
        record {
          shown = λ j o low high lt. elim (ℕ_discrete j i) [
            | yes first ↦ done.kept ((t.entries j).address + o) (rw first (here o (rw first at lt)))
            | no later ↦ done.shown j o (omega arith) (omega arith) lt
          ];
          kept = λ x seen. done.kept x (
              agree (os.memory s1) image e.address e.mmap_size x here
                (λ out. outside x out ∙ seen));
        },
      )

  -- With no region of the ring buffer's size, the restart returns, and memory shows the image in every
  -- region of the table.
  pub remap_address_space_lem :
      (s : S)
      → has_ring_buffer t 0 t.number_of_entries ≡ false
      → Backed v s t image 0 t.number_of_entries
      → (s' : S) × (remap_address_space os t s ≡ some s')
        × ((j o : ℕ)
            → j < t.number_of_entries
            → o < (t.entries j).mmap_size
            → os.memory s' ((t.entries j).address + o) ≡ image ((t.entries j).address + o))
  unfolding remap_address_space
  remap_address_space_lem s none_there h =
      let (s', ran, done) = remap_from-Remapped 0 t.number_of_entries s h in
      (s', rw none_there ran, λ j o lt lo. done.shown j o (omega arith) (omega arith) lo)
