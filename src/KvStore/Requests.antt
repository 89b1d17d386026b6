-- ===== src/KvStore/Requests.antt =====
-- examples/KVStoreStateMachine/kv_state_machine.c: what the requests make of the store and of the client.
use mangosteen_code.Common.{
  ℕ, ◌+◌, ◌*◌, ◌%◌, ◌^◌, ◌<◌, ◌≤◌, ◌≡◌, ◌⊎◌, inl, inr, true, false, length, get_or, refl, ◌∙◌, ap,
  arith, lt→ltb,
}
use mangosteen_code.Memory.{Mem, read, write, write_inside, write_outside, length-read, get_or-read}
use mangosteen_code.KvStore.{
  CmdType, by_type, KvCmd, KvClient, put, get, store_sz, val_sz, resp_sz, slot_address,
  get_value_at_index, put_value_at_index, handle_request, is_read_only, get_response, ok,
}

-- The client's response, with as many bytes as a value has, lies outside the store.
abbrev pub Apart : ℕ → KvClient → Type 0
Apart store c = (c.response + val_sz ≤ store) ⊎ (store + store_sz * val_sz ≤ c.response)

slot_address_lem :
    (store : ℕ) (cmd : KvCmd)
    → cmd.index < store_sz
    → store + store_sz * val_sz < 2 ^ 64
    → slot_address store cmd ≡ store + cmd.index * val_sz
unfolding slot_address
slot_address_lem store cmd lt fits =
    let small : cmd.index * 128 % 2 ^ 32 ≡ cmd.index * 128 = omega arith in
    rw (small, lt→ltb (cmd.index * 128) (2 ^ 31) (omega arith)) (omega arith)

type_of_read : (t : CmdType) → by_type t false true ≡ true → t ≡ get
type_of_read put h = ground arith
type_of_read get h = refl

is_get : (c : KvClient) → is_read_only c ≡ true → c.curr_cmd.cmd_type ≡ get
unfolding is_read_only
is_get c h = type_of_read c.curr_cmd.cmd_type h

type_of_update : (t : CmdType) → by_type t false true ≡ false → t ≡ put
type_of_update put h = refl
type_of_update get h = ground arith

is_put : (c : KvClient) → is_read_only c ≡ false → c.curr_cmd.cmd_type ≡ put
unfolding is_read_only
is_put c h = type_of_update c.curr_cmd.cmd_type h

-- A request that the library takes for read-only changes no byte of the store.
pub read_only_lem :
    (store : ℕ) (c : KvClient) (m : Mem) (x : ℕ)
    → is_read_only c ≡ true
    → Apart store c
    → store ≤ x
    → x < store + store_sz * val_sz
    → handle_request store c m x ≡ m x
unfolding handle_request is_read_only get_value_at_index
read_only_lem store c m x h apart low high =
    let bytes = read m (slot_address store c.curr_cmd) val_sz in
    let n = length-read m (slot_address store c.curr_cmd) val_sz in
    rw (is_get c h) (
      write_outside m c.response x bytes
        (elim apart [ inl below ↦ inr (omega (arith, n)) | inr above ↦ inl (omega arith) ]))

module _ (store : ℕ) (c : KvClient) (m : Mem) (place : c.curr_cmd.index < store_sz)
    (fits : store + store_sz * val_sz < 2 ^ 64) (apart : Apart store c)
    (whole : length c.curr_cmd.value ≡ val_sz) where
  -- A put stores the value, byte for byte, and no other byte of the store.
  put_value-stored :
      (i : ℕ)
      → i < val_sz
      → put_value_at_index store c m (store + c.curr_cmd.index * val_sz + i)
        ≡ get_or c.curr_cmd.value i 0
  unfolding put_value_at_index
  put_value-stored i lt =
      let start = store + c.curr_cmd.index * val_sz in
      rw (slot_address_lem store c.curr_cmd place fits) (
        write_outside (write m start c.curr_cmd.value) c.response (start + i) ok
          (elim apart [ inl below ↦ inr (omega arith) | inr above ↦ inl (omega arith) ])
        ∙ write_inside m start c.curr_cmd.value i (omega arith))

  put_value_elsewhere :
      (x : ℕ)
      → store ≤ x
      → x < store + store_sz * val_sz
      → (x < store + c.curr_cmd.index * val_sz) ⊎ (store + c.curr_cmd.index * val_sz + val_sz ≤ x)
      → put_value_at_index store c m x ≡ m x
  unfolding put_value_at_index
  put_value_elsewhere x low high other =
      let start = store + c.curr_cmd.index * val_sz in
      rw (slot_address_lem store c.curr_cmd place fits) (
        write_outside (write m start c.curr_cmd.value) c.response x ok
          (elim apart [ inl below ↦ inr (omega arith) | inr above ↦ inl (omega arith) ])
        ∙ write_outside m start x c.curr_cmd.value
            (elim other [ inl before ↦ inl before | inr after ↦ inr (omega arith) ]))

-- A put changes the slot of its index to its value, and no other byte of the store.
pub put_lem :
    (store : ℕ) (c : KvClient) (m : Mem)
    → is_read_only c ≡ false
    → c.curr_cmd.index < store_sz
    → store + store_sz * val_sz < 2 ^ 64
    → Apart store c
    → length c.curr_cmd.value ≡ val_sz
    → ((i : ℕ)
        → i < val_sz
        → handle_request store c m (store + c.curr_cmd.index * val_sz + i)
          ≡ get_or c.curr_cmd.value i 0)
      × ((x : ℕ)
          → store ≤ x
          → x < store + store_sz * val_sz
          → (x < store + c.curr_cmd.index * val_sz)
            ⊎ (store + c.curr_cmd.index * val_sz + val_sz ≤ x)
          → handle_request store c m x ≡ m x)
unfolding handle_request
put_lem store c m h place fits apart whole = rw (is_put c h) (
  put_value-stored store c m place fits apart whole,
  put_value_elsewhere store c m place fits apart whole,
)

-- After a put of a value, a get of the same index by any client answers that value.
pub get-put :
    (store : ℕ) (c d : KvClient) (m : Mem) (i : ℕ)
    → c.curr_cmd.cmd_type ≡ put
    → d.curr_cmd.cmd_type ≡ get
    → d.curr_cmd.index ≡ c.curr_cmd.index
    → c.curr_cmd.index < store_sz
    → store + store_sz * val_sz < 2 ^ 64
    → Apart store c
    → length c.curr_cmd.value ≡ val_sz
    → i < (get_response d).1
    → handle_request store d (handle_request store c m) ((get_response d).0 + i)
      ≡ get_or c.curr_cmd.value i 0
unfolding handle_request get_value_at_index get_response
get-put store c d m i puts gets same place fits apart whole lt =
    let stored = put_value_at_index store c m in
    let start = slot_address store d.curr_cmd in
    let at : start ≡ store + c.curr_cmd.index * val_sz =
      slot_address_lem store d.curr_cmd (omega arith) fits ∙ ap (λ n. store + n * val_sz) same in
    rw (puts, gets)
      (write_inside stored d.response (read stored start val_sz) i
          (omega (arith, length-read stored start val_sz))
        ∙ get_or-read stored start val_sz i lt
        ∙ ap (λ n. stored (n + i)) at
        ∙ put_value-stored store c m place fits apart whole i lt)

-- A get stores behind the array `response`: the bytes of the value from the fourth on.
pub get_overflows :
    (store : ℕ) (c : KvClient) (m : Mem) (i : ℕ)
    → is_read_only c ≡ true
    → c.curr_cmd.index < store_sz
    → store + store_sz * val_sz < 2 ^ 64
    → resp_sz ≤ i
    → i < val_sz
    → handle_request store c m (c.response + i) ≡ m (store + c.curr_cmd.index * val_sz + i)
unfolding handle_request get_value_at_index
get_overflows store c m i h place fits past lt =
    let start = slot_address store c.curr_cmd in
    rw (is_get c h) (
      write_inside m c.response (read m start val_sz) i (omega (arith, length-read m start val_sz))
      ∙ get_or-read m start val_sz i lt
      ∙ ap (λ n. m (n + i)) (slot_address_lem store c.curr_cmd place fits))
