-- ===== src/SpinLock.antt =====
-- flat_combining/writer_preference_spin_lock.c and its uses in flat_combining.c: any number of threads,
-- interleaved one access to shared memory at a time, over the writers' flag and the readers' set.
-- Loads and stores are sequentially consistent, as `_Atomic` and the fence after the store make them.
pub mod Invariant
pub mod Safety
use mangosteen_code.Common.{ℕ, ◌+◌, ◌<◌, ◌≡◌, ◌≢◌, Bool, true, false, update, refl}

-- `writers`, and whether `readers_set[i * padding_size] == READING`
pub record Lock : Type 0 where
  pub writers : ℕ
  pub readers : ℕ → Bool

-- Where a thread stands.
pub data Pc : Type 0 where
  -- outside the lock
  outside : Pc
  -- `readLock`, before the test of `lockIsFree`
  marked : Pc
  -- `readLock`, before `markReaderAsInactive`
  retreating : Pc
  -- the `while (!lockIsFree())` of `readLock`
  waiting : Pc
  -- between `readLock` and `readUnlock`
  reading : Pc
  -- the writer, after `lockWriter`, about to read the reader `i` in `activeReadersSetIsEmpty`
  scanning : (i : ℕ) → Pc
  -- between an empty readers' set and `writeUnlock`
  writing : Pc

-- One step of the thread `me` of `n` threads (NUMBER_OF_THREADS). A failed compare-exchange of
-- `lockWriter`, or a test of `lockIsFree` before it that fails, leaves the thread outside.
pub data Move (n me : ℕ) (l : Lock) : Pc → Lock → Pc → Type 0 where
  mark : Move n me l outside (record l { readers = update l.readers me true }) marked
  admit : l.writers ≡ 0 → Move n me l marked l reading
  back_off : l.writers ≢ 0 → Move n me l marked l retreating
  unmark : Move n me l retreating (record l { readers = update l.readers me false }) waiting
  wait : l.writers ≢ 0 → Move n me l waiting l waiting
  retry :
      l.writers ≡ 0 → Move n me l waiting (record l { readers = update l.readers me true }) marked
  read_unlock : Move n me l reading (record l { readers = update l.readers me false }) outside
  lock_writer : l.writers ≡ 0 → Move n me l outside (record l { writers = 1 }) (scanning 0)
  lock_busy : l.writers ≢ 0 → Move n me l outside l outside
  reader_passed :
      {i : ℕ} → i < n → l.readers i ≡ false → Move n me l (scanning i) l (scanning (i + 1))
  -- an active reader: the loop around `activeReadersSetIsEmpty` starts again
  reader_found : {i : ℕ} → i < n → l.readers i ≡ true → Move n me l (scanning i) l (scanning 0)
  drained : {i : ℕ} → i ≡ n → Move n me l (scanning i) l writing
  write_unlock : Move n me l writing (record l { writers = 0 }) outside

pub record System : Type 0 where
  pub lock : Lock
  pub pc : ℕ → Pc

pub data Step (n : ℕ) (s : System) : System → Type 0 where
  pick :
      (i : ℕ) {l : Lock} {p : Pc}
      → i < n
      → Move n i s.lock (s.pc i) l p
      → Step n s (record { lock = l; pc = update s.pc i p })

-- `writers = 0`, and every reader NOT_READING (`allocateFlatCombiningdMemory`)
abbrev pub initial : System
initial = record { lock = record { writers = 0; readers = λ _. false }; pc = λ _. outside }

pub data Reach (n : ℕ) : System → Type 0 where
  start : Reach n initial
  later : {s t : System} → Reach n s → Step n s t → Reach n t
