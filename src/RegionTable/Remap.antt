-- ===== src/RegionTable/Remap.antt =====
-- back-end/back_end.c, `remap_backend`: what a new process sees of the regions of the table.
use mangosteen_code.Common.{
  ℕ, zero, suc, ◌+◌, ◌-◌, ◌<◌, ◌≤◌, ◌≡◌, refl, sym, ◌∙◌, ap, ◌⊎◌, inl, inr, arith, some, dec_lt,
  dec_le, ℕ_discrete,
}
use mangosteen_code.Memory.{Mem}
use mangosteen_code.RegionTable.{
  RegionTable, RegionTableEntry, InRegion, Files, Kernel, restore_from, remap,
}

-- `mmap` with MAP_FIXED and MAP_SHARED of the file with its number at each of the first `n` regions: it
-- succeeds, and memory has the bytes of the file in the region, and outside what it had. The operating
-- system is one for each content of the files.
abbrev pub MapsFiles : (Files → Kernel) → (ℕ → RegionTableEntry) → ℕ → Type 0
MapsFiles os entries n =
    (files : Files) (i : ℕ) (m : Mem)
    → i < n
    → (m' : Mem) × ((os files).map_file i (entries i).address (entries i).mmap_size m ≡ some m')
      × ((o : ℕ) → o < (entries i).mmap_size → m' ((entries i).address + o) ≡ files i o)
      × ((x : ℕ)
          → (x < (entries i).address) ⊎ ((entries i).address + (entries i).mmap_size ≤ x)
          → m' x ≡ m x)

-- Each of the first `n` regions is mapped from the file with its number, and shared: the file holds what
-- the process that has stored `stored` shows there.
abbrev pub SharesFiles : (Mem → Files) → (ℕ → RegionTableEntry) → ℕ → Type 0
SharesFiles held entries n =
    (stored : Mem) (i o : ℕ)
    → i < n
    → o < (entries i).mmap_size
    → held stored i o ≡ stored ((entries i).address + o)

record Shows (t : RegionTable) (stored : Mem) (i left : ℕ) (m m' : Mem) : Type 0 where
  inside : (j x : ℕ) → i ≤ j → j < i + left → InRegion (t.entries j) x → m' x ≡ stored x
  kept : (x : ℕ) → m x ≡ stored x → m' x ≡ stored x

module _ (os : Files → Kernel) (held : Mem → Files) (stored : Mem) (t : RegionTable) (n : ℕ)
    (maps : MapsFiles os t.entries n) (shares : SharesFiles held t.entries n) where
  mapped_inside :
      (i x : ℕ) (m' : Mem)
      → i < n
      → ((o : ℕ) → o < (t.entries i).mmap_size → m' ((t.entries i).address + o) ≡ held stored i o)
      → InRegion (t.entries i) x
      → m' x ≡ stored x
  mapped_inside i x m' lt shown h =
      let start = (t.entries i).address in
      let at : start + (x - start) ≡ x = omega (arith, h.0) in
      let inside : x - start < (t.entries i).mmap_size = omega (arith, h.0, h.1) in
      ap m' (sym at)
      ∙ shown (x - start) inside
      ∙ shares stored i (x - start) lt inside
      ∙ ap stored at

  restore_shows :
      (i left : ℕ) (m : Mem)
      → i + left ≤ n
      → (m' : Mem) × (restore_from (os (held stored)) t i left m ≡ some m')
        × Shows t stored i left m m'
  unfolding restore_from
  restore_shows i zero m le =
      (m, refl, record { inside = λ j x lo hi h. absurd (omega arith); kept = λ x same. same })
  restore_shows i (suc left) m le =
      let e = t.entries i in
      let lt : i < n = omega arith in
      let (m1, ran, shown, out) = maps (held stored) i m lt in
      let (m', rest, s) = restore_shows (i + 1) left m1 (omega arith) in
      (
        m',
        rw ran rest,
        record {
          inside = λ j x lo hi h. elim (ℕ_discrete j i) [
            | yes here ↦ s.kept x (
                mapped_inside i x m1 lt shown
                  (let h' : InRegion (t.entries i) x = rw here at h in h'))
            | no other ↦ s.inside j x (omega arith) (omega arith) h
          ];
          kept = λ x same. s.kept x (elim (dec_le e.address x) [
            | no below ↦ out x (inl (omega arith)) ∙ same
            | yes low ↦ elim (dec_lt x (e.address + e.mmap_size)) [
              | yes high ↦ mapped_inside i x m1 lt shown (low, high)
              | no above ↦ out x (inr (omega arith)) ∙ same
            ]
          ]);
        },
      )

  -- `remap` returns, whatever the new process had in its memory, and shows in every region of the table
  -- what the old process showed there.
  pub remap_lem :
      (m : Mem)
      → t.number_of_entries ≡ n
      → (m' : Mem) × (remap (os (held stored)) t m ≡ some m')
        × ((i x : ℕ) → i < n → InRegion (t.entries i) x → m' x ≡ stored x)
  unfolding remap
  remap_lem m all =
      let (m', ran, s) = restore_shows 0 t.number_of_entries m (omega arith) in
      (m', ran, λ i x lt h. s.inside i x (omega arith) (omega arith) h)
