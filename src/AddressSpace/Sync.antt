-- ===== src/AddressSpace/Sync.antt =====
-- instrumentation/instrument_front_end.c: `synchronize_address_space` puts the regions on files.
use mangosteen_code.Common.{
  ℕ, suc, ◌+◌, ◌<◌, ◌≤◌, ◌≡◌, ◌⊎◌, inl, inr, List, [], ◌∷◌, length, some, refl, sym, ◌∙◌, ap, arith,
  dec_lt,
}
use mangosteen_code.RegionTable.{RegionTableEntry, Kernel}
use mangosteen_code.AddressSpace.{Os, MemInfo, Space, replace_all}
use mangosteen_code.AddressSpace.Shows.{View, Behaves, Succeeds}
use mangosteen_code.AddressSpace.Region.{Ready, Saved, replace_region-Saved}

-- The address lies in one of the regions.
abbrev pub InRegions : List MemInfo → ℕ → Type 0
InRegions [] x = ⊥
InRegions (info ∷ infos) x =
    ((info.base_pc ≤ x) × (x < info.base_pc + info.size)) ⊎ InRegions infos x

-- A record from the number `n` to before `m` has the address in its region.
abbrev pub Named : {S : Type 0} → ℕ → ℕ → Space S → ℕ → Type 0
Named n m st x =
    (j : ℕ) × (n ≤ j)
    × (j < m)
    × ((st.table.entries j).address ≤ x)
    × (x < (st.table.entries j).address + (st.table.entries j).mmap_size)

module _ {S : Type 0} (k : Kernel) (os : Os S) (v : View S) (behaves : Behaves os v)
    (succeeds : Succeeds k os) where
  Saved-then :
      {Use : ℕ → Type 0} {n m : ℕ} {st st1 st2 : Space S}
      → Saved os v Use n (n + 1) st st1
      → Saved os v Use (n + 1) m st1 st2
      → Saved os v Use n m st st2
  Saved-then {n = n} {st = st} {st1 = st1} {st2 = st2} p q = record {
    ready = q.ready;
    still_used = q.still_used;
    same = λ x u. q.same x u ∙ p.same x u;
    size = q.size ∙ p.size;
    old_files = λ j i low. q.old_files j i (omega arith) ∙ p.old_files j i low;
    old_entries = λ j low. q.old_entries j (omega arith) ∙ p.old_entries j low;
    backed = λ j o low high lt. elim (dec_lt j (n + 1)) [
      | yes first ↦
          let kept = q.old_entries j first in
          let (in_use, is) = p.backed j o low first (rw kept at lt) in
          (
            rw kept in_use,
            q.old_files j o first
                ∙ is
                ∙ sym (ap (λ (e : RegionTableEntry). os.memory st.system (e.address + o)) kept),
          )
      | no later ↦
          let (in_use, is) = q.backed j o (omega arith) high lt in (in_use, is ∙ p.same _ in_use)
    ];
  }

  pub replace_all-Saved :
      (Use : ℕ → Type 0) (infos : List MemInfo) (n : ℕ) (st : Space S)
      → Ready os v n st
      → n + length infos ≤ st.table.current_table_size
      → ((x : ℕ) → Use x → v.used st.system x)
      → ((x : ℕ) → InRegions infos x → Use x)
      → (st' : Space S) × (replace_all k os st infos ≡ some st')
        × Saved os v Use n (n + length infos) st st'
        × ((x : ℕ) → InRegions infos x → Named n (n + length infos) st' x)
  unfolding replace_all
  replace_all-Saved Use [] n st ready room in_use regions =
      let q : n + 0 ≡ n = omega arith in
      (
        st,
        refl,
        record {
          ready = rw q ready;
          still_used = in_use;
          same = λ x u. refl;
          size = refl;
          old_files = λ j i low. refl;
          old_entries = λ j low. refl;
          backed = λ j o low high lt. absurd (omega arith);
        },
        λ x i. absurd i,
      )
  replace_all-Saved Use (info ∷ infos) n st ready room in_use regions =
      let (st1, ran1, first, address, size) =
        replace_region-Saved k os v behaves succeeds Use n st info ready (omega arith) in_use
          (λ i lt. regions (info.base_pc + i) (inl (omega arith, omega arith))) in
      let (st2, ran2, rest, named) =
        replace_all-Saved Use infos (n + 1) st1 first.ready (omega (arith, first.size))
          first.still_used (λ x i. regions x (inr i)) in
      let q : n + suc (length infos) ≡ n + 1 + length infos = omega arith in
      let at = rest.old_entries n (omega arith) in
      (
        st2,
        rw ran1 ran2,
        rw q (Saved-then first rest),
        λ x i. elim i [
          | inl here ↦
              let ea : (st2.table.entries n).address ≡ info.base_pc =
                ap (λ (e : RegionTableEntry). e.address) at ∙ address in
              let es : (st2.table.entries n).mmap_size ≡ info.size =
                ap (λ (e : RegionTableEntry). e.mmap_size) at ∙ size in
              (
                n,
                omega arith,
                omega arith,
                omega (arith, ea, here.0),
                omega (arith, ea, es, here.1),
              )
          | inr there ↦
              let (j, lo, hi, above, below) = named x there in
              (j, omega arith, omega arith, above, below)
        ],
      )
