-- ===== src/AddressSpace/Region.antt =====
-- instrumentation/instrument_front_end.c: `synchronize_address_space` puts one region on a
-- file.
use mangosteen_code.Common.{
  ℕ, ◌+◌, ◌<◌, ◌≤◌, ◌≡◌, some, refl, sym, ◌∙◌, ap, arith, lt→ltb, update, update_ne, update_self,
  ◌%◌, ◌^◌,
}
use mangosteen_code.Memory.{read, length-read, get_or-read}
use mangosteen_code.RegionTable.{
  RegionTable, RegionTableEntry, Kernel, create_pmem_file, add_region_record,
}
use mangosteen_code.AddressSpace.{Os, MemInfo, Space, replace_region}
use mangosteen_code.AddressSpace.Shows.{View, Keeps, Behaves, Succeeds, agree}

module _ {S : Type 0} (os : Os S) (v : View S) where
  -- The files of one region, through the scratch mapping: the state after `munmap`.
  pub record Filled (f a n : ℕ) (s s' : S) : Type 0 where
    pub keeps : Keeps v f s s'
    pub filled : (i : ℕ) → i < n → v.holds s' f i ≡ os.memory s (a + i)
    pub same : (x : ℕ) → v.used s x → os.memory s' x ≡ os.memory s x

  Keeps-then : {f : ℕ} {s s' s'' : S} → Keeps v f s s' → Keeps v f s' s'' → Keeps v f s s''
  Keeps-then p q = record {
    other_files = λ g i ne. q.other_files g i ne ∙ p.other_files g i ne;
    still_used = λ x u. q.still_used x (p.still_used x u);
    still_idle = λ g ne u. q.still_idle g ne (p.still_idle g ne u);
  }

  -- The next file and the next record have the number `n`, and no mapping shows a file from `n` on.
  pub record Ready (n : ℕ) (st : Space S) : Type 0 where
    pub numbered : st.sequence_number ≡ n
    pub counted : st.table.uncommited_number_of_entries ≡ n
    pub free : (g : ℕ) → n ≤ g → v.idle st.system g

  -- The regions from the number `n` to before `m` are on files.
  pub record Saved (Use : ℕ → Type 0) (n m : ℕ) (st st' : Space S) : Type 0 where
    pub ready : Ready m st'
    pub still_used : (x : ℕ) → Use x → v.used st'.system x
    pub same : (x : ℕ) → Use x → os.memory st'.system x ≡ os.memory st.system x
    pub size : st'.table.current_table_size ≡ st.table.current_table_size
    pub old_files : (j i : ℕ) → j < n → v.holds st'.system j i ≡ v.holds st.system j i
    pub old_entries : (j : ℕ) → j < n → st'.table.entries j ≡ st.table.entries j
    pub backed :
        (j o : ℕ)
        → n ≤ j
        → j < m
        → o < (st'.table.entries j).mmap_size
        → Use ((st'.table.entries j).address + o)
          × (v.holds st'.system j o ≡ os.memory st.system ((st'.table.entries j).address + o))

module _ {S : Type 0} (k : Kernel) (os : Os S) (v : View S) (behaves : Behaves os v)
    (succeeds : Succeeds k os) where
  scratch-Filled :
      (f a n d : ℕ) (s s1 : S)
      → os.map_anywhere f n s ≡ some (d, s1)
      → v.idle s f
      → ((i : ℕ) → i < n → v.used s (a + i))
      → Filled os v f a n s (os.unmap d n (os.copy d (read (os.memory s1) a n) s1))
  scratch-Filled f a n d s s1 mapped idle used =
      let bs = read (os.memory s1) a n in
      let s2 = os.copy d bs s1 in
      let (k1, sole, apart) = behaves.anywhere f n s d s1 mapped in
      let (k2, stored, same2) =
        behaves.copied d f n bs s1 (sole idle) (length-read (os.memory s1) a n) in
      let (k3, stays, same3) = behaves.unmapped d n f s2 in
      record {
        keeps = Keeps-then os v k1 (Keeps-then os v k2 k3);
        filled = λ i lt.
            stays i
            ∙ stored i lt
            ∙ get_or-read (os.memory s1) a n i lt
            ∙ (apart (a + i) (used i lt)).1;
        same = λ x u. same3 x (apart x u).0 ∙ same2 x (apart x u).0 ∙ (apart x u).1;
      }

  pub replace_region-Saved :
      (Use : ℕ → Type 0) (n : ℕ) (st : Space S) (info : MemInfo)
      → Ready os v n st
      → n < st.table.current_table_size
      → ((x : ℕ) → Use x → v.used st.system x)
      → ((i : ℕ) → i < info.size → Use (info.base_pc + i))
      → (st' : Space S) × (replace_region k os st info ≡ some st')
        × Saved os v Use n (n + 1) st st'
        × ((st'.table.entries n).address ≡ info.base_pc)
        × ((st'.table.entries n).mmap_size ≡ info.size)
  unfolding replace_region create_pmem_file add_region_record
  replace_region-Saved Use n st info ready room in_use used =
      let a = info.base_pc in
      let size = info.size in
      let s = st.system in
      let made = st.sequence_number in
      let ((d, s1), mapped) = succeeds.map_anywhere made size s in
      let s3 = os.unmap d size (os.copy d (read (os.memory s1) a size) s1) in
      let file =
        scratch-Filled made a size d s s1 mapped (ready.free made (omega (arith, ready.numbered)))
          (λ i lt. in_use (a + i) (used i lt)) in
      let (s4, shown) = succeeds.map_fixed made a size info.prot s3 in
      let (k4, same4, inside, outside) = behaves.fixed made a size info.prot s3 s4 shown in
      let t = st.table in
      let u = t.uncommited_number_of_entries in
      let entry : RegionTableEntry = record {
        address = a;
        file_index = u;
        mmap_size = size;
        entry_commit_index = (t.table_commit_index + 1) % 2 ^ 64;
      } in
      let t' : RegionTable = record t {
        entries = update t.entries u entry;
        uncommited_number_of_entries = u + 1;
      } in
      let st' : Space S = record { system = s4; table = t'; sequence_number = made + 1 } in
      let there : (j : ℕ) → j ≡ u → t'.entries j ≡ entry =
        λ j e. ap t'.entries e ∙ update_self t.entries u entry in
      let same : (x : ℕ) → Use x → os.memory s4 x ≡ os.memory s x = λ x u.
        agree (os.memory s4) (os.memory s) a size x (λ o lt. inside o lt ∙ file.filled o lt)
          (λ out. outside x out ∙ file.same x (in_use x u)) in
      (
        st',
        rw
            (
              succeeds.truncates made size,
              mapped,
              shown,
              lt→ltb u t.current_table_size (omega (arith, ready.counted)),
            )
            refl,
        record {
          ready = record {
            numbered = omega (arith, ready.numbered);
            counted = omega (arith, ready.counted);
            free = λ g above.
                k4.still_idle g (λ z. omega (arith, ready.numbered))
                  (file.keeps.still_idle g (λ z. omega (arith, ready.numbered))
                    (ready.free g (omega arith)));
          };
          still_used = λ x u. k4.still_used x (file.keeps.still_used x (in_use x u));
          same = same;
          size = refl;
          old_files = λ j i below.
              k4.other_files j i (λ z. omega (arith, ready.numbered))
              ∙ file.keeps.other_files j i (λ z. omega (arith, ready.numbered));
          old_entries =
              λ j below. update_ne t.entries u j entry (λ z. omega (arith, ready.counted));
          backed = λ j o low high lt.
              let is_file : j ≡ made = omega (arith, ready.numbered) in
              let is_last : j ≡ u = omega (arith, ready.counted) in
              let lt' : o < size = rw (there j is_last) at lt in
              (
                rw (there j is_last) (used o lt'),
                ap (λ g. v.holds s4 g o) is_file
                    ∙ same4 o
                    ∙ file.filled o lt'
                    ∙ sym (
                        ap (λ (e : RegionTableEntry). os.memory s (e.address + o))
                          (there j is_last)),
              );
        },
        ap (λ (e : RegionTableEntry). e.address) (there n (sym ready.counted)),
        ap (λ (e : RegionTableEntry). e.mmap_size) (there n (sym ready.counted)),
      )
