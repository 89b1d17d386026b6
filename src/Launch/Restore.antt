-- ===== src/Launch/Restore.antt =====
-- front-end/front_end.c, `restore_memory`: the regions of the table, shown again.
use mangosteen_code.Common.{
  ℕ, zero, suc, ◌+◌, ◌-◌, ◌<◌, ◌≤◌, ◌≡◌, refl, sym, ◌∙◌, ap, ◌⊎◌, inl, inr, arith, some, dec_lt,
  ℕ_discrete,
}
use mangosteen_code.Memory.{Mem, write, read, write_outside, write_inside, get_or-read, length-read}
use mangosteen_code.RegionTable.{RegionTable, InRegion}
use mangosteen_code.Launch.{FrontOs, restore_memory}

-- The back end maps the file `i` at the region `i` and shares it, so that the file holds what the back
-- end stores there.
abbrev pub Shares : FrontOs → RegionTable → Type 0
Shares os t =
    (stored : Mem) (i o : ℕ)
    → i < t.number_of_entries
    → o < (t.entries i).mmap_size
    → os.file_byte stored i o ≡ stored ((t.entries i).address + o)

-- `mmap` at a fixed address gives that address and touches nothing outside.
abbrev pub MapsFixed : FrontOs → Type 0
MapsFixed os =
    (file addr size : ℕ) (m : Mem)
    → (m' : Mem) × (os.map_fixed file addr size m ≡ some m')
      × ((x : ℕ) → (x < addr) ⊎ (addr + size ≤ x) → m' x ≡ m x)

-- Memory shows `stored` in the entries from `i` on, `left` entries, and wherever it did before.
record Shows (t : RegionTable) (stored : Mem) (i left : ℕ) (m m' : Mem) : Type 0 where
  inside : (j x : ℕ) → i ≤ j → j < i + left → InRegion (t.entries j) x → m' x ≡ stored x
  kept : (x : ℕ) → m x ≡ stored x → m' x ≡ stored x

module _ (os : FrontOs) (stored : Mem) (t : RegionTable) (maps : MapsFixed os)
    (shares : Shares os t) where
  -- One region: what its file holds is copied over it.
  abbrev copied : ℕ → Mem → Mem
  copied i mapped =
      write mapped (t.entries i).address
        (read (λ o. os.file_byte stored i o) 0 (t.entries i).mmap_size)

  copied_inside :
      (i x : ℕ) (mapped : Mem)
      → i < t.number_of_entries
      → InRegion (t.entries i) x
      → copied i mapped x ≡ stored x
  copied_inside i x mapped lt h =
      let e = t.entries i in
      let src : Mem = λ o. os.file_byte stored i o in
      let o = x - e.address in
      let at : x ≡ e.address + o = omega (arith, h.0) in
      let zero_first : 0 + o ≡ o = omega arith in
      ap (copied i mapped) at
      ∙ write_inside mapped e.address (read src 0 e.mmap_size) o
          (omega (arith, h.1, length-read src 0 e.mmap_size))
      ∙ get_or-read src 0 e.mmap_size o (omega (arith, h.1))
      ∙ ap src zero_first
      ∙ shares stored i o lt (omega (arith, h.1))
      ∙ ap stored (sym at)

  copied_outside :
      (i x : ℕ) (mapped : Mem)
      → (x < (t.entries i).address) ⊎ ((t.entries i).address + (t.entries i).mmap_size ≤ x)
      → copied i mapped x ≡ mapped x
  copied_outside i x mapped h =
      let e = t.entries i in
      let src : Mem = λ o. os.file_byte stored i o in
      write_outside mapped e.address x (read src 0 e.mmap_size) (elim h [
        | inl below ↦ inl below
        | inr above ↦ inr (omega (arith, length-read src 0 e.mmap_size))
      ])

  -- A region that is copied keeps what shows `stored` already.
  copied_keeps :
      (i x : ℕ) (m mapped : Mem)
      → i < t.number_of_entries
      → ((y : ℕ)
          → (y < (t.entries i).address) ⊎ ((t.entries i).address + (t.entries i).mmap_size ≤ y)
          → mapped y ≡ m y)
      → m x ≡ stored x
      → copied i mapped x ≡ stored x
  copied_keeps i x m mapped lt out same = elim (dec_lt x (t.entries i).address) [
    | yes below ↦ copied_outside i x mapped (inl below) ∙ out x (inl below) ∙ same
    | no h ↦ elim (dec_lt x ((t.entries i).address + (t.entries i).mmap_size)) [
      | yes inside ↦ copied_inside i x mapped lt (omega arith, inside)
      | no g ↦ copied_outside i x mapped (inr (omega arith)) ∙ out x (inr (omega arith)) ∙ same
    ]
  ]

  restore_from :
      (i left : ℕ) (m : Mem)
      → i + left ≤ t.number_of_entries
      → (m' : Mem) × (restore_memory os stored t i left m ≡ some m') × Shows t stored i left m m'
  unfolding restore_memory
  restore_from i zero m le =
      (m, refl, record { inside = λ j x lo hi h. absurd (omega arith); kept = λ x same. same })
  restore_from i (suc left) m le =
      let e = t.entries i in
      let (mapped, ran, out) = maps i e.address e.mmap_size m in
      let (m', rest, shown) = restore_from (i + 1) left (copied i mapped) (omega arith) in
      (
        m',
        rw ran rest,
        record {
          inside = λ j x lo hi h. elim (ℕ_discrete j i) [
            | yes here ↦ shown.kept x (
                copied_inside i x mapped (omega arith)
                  (let h' : InRegion (t.entries i) x = rw here at h in h'))
            | no other ↦ shown.inside j x (omega arith) (omega arith) h
          ];
          kept = λ x same. shown.kept x (copied_keeps i x m mapped (omega arith) out same);
        },
      )

  -- `restore_memory` over the table returns, and shows what the back end stored in every region.
  pub restore_memory_lem :
      (m : Mem)
      → (m' : Mem) × (restore_memory os stored t 0 t.number_of_entries m ≡ some m')
        × ((i x : ℕ) → i < t.number_of_entries → InRegion (t.entries i) x → m' x ≡ stored x)
  restore_memory_lem m =
      let (m', ran, shown) = restore_from 0 t.number_of_entries m (omega arith) in
      (m', ran, λ i x lt h. shown.inside i x (omega arith) (omega arith) h)
