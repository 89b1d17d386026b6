-- ===== src/KvStore.antt =====
-- examples/KVStoreStateMachine/kv_state_machine.c and kv_state_machine.h: the key-value store of the
-- repository, a state machine that the library makes durable. `store` is the address that `malloc` gave.
pub mod Requests
use mangosteen_code.Common.{
  ℕ, ◌+◌, ◌-◌, ◌*◌, ◌%◌, ◌^◌, Bool, true, false, List, [], ◌∷◌, if◌then◌else◌, ltb, leb, ◌&&◌,
}
use mangosteen_code.Memory.{Mem, read, write}

-- STORE_SZ, VAL_SZ and RESP_SZ
abbrev pub store_sz : ℕ
store_sz = 65536

abbrev pub val_sz : ℕ
val_sz = 128

abbrev pub resp_sz : ℕ
resp_sz = 3

pub data CmdType : Type 0 where
  put get : CmdType

-- `kvCmd`: the index is the word of an `int`.
pub record KvCmd : Type 0 where
  pub cmd_type : CmdType
  pub index : ℕ
  pub value : List ℕ

-- `kvClient`: the command that `currCmd` points to, and the address of the array `response`.
pub record KvClient : Type 0 where
  pub id : ℕ
  pub curr_cmd : KvCmd
  pub response : ℕ

-- `malloc` gives `store`, and `bzero` clears it.
unfoldable pub init_kv_store : ℕ → Mem → Mem
init_kv_store store m x = if leb store x && ltb x (store + store_sz * val_sz) then 0 else m x

-- `&store[c->currCmd->index*VAL_SZ]`: the product is an `int`, extended to 64 bits.
unfoldable pub slot_address : ℕ → KvCmd → ℕ
slot_address store cmd =
    let offset = cmd.index * val_sz % 2 ^ 32 in
    (store + (if ltb offset (2 ^ 31) then offset else offset + 2 ^ 64 - 2 ^ 32)) % 2 ^ 64

unfoldable pub get_value_at_index : ℕ → KvClient → Mem → Mem
unfolding slot_address
get_value_at_index store c m = write m c.response (read m (slot_address store c.curr_cmd) val_sz)

-- "OK", without its zero byte
abbrev pub ok : List ℕ
ok = 79 ∷ 75 ∷ []

unfoldable pub put_value_at_index : ℕ → KvClient → Mem → Mem
unfolding slot_address
put_value_at_index store c m =
    write (write m (slot_address store c.curr_cmd) c.curr_cmd.value) c.response ok

abbrev pub by_type {ℓ} : {A : Type ℓ} → CmdType → A → A → A
by_type put x y = x
by_type get x y = y

unfoldable pub handle_request : ℕ → KvClient → Mem → Mem
unfolding put_value_at_index get_value_at_index
handle_request store c m =
    by_type c.curr_cmd.cmd_type (put_value_at_index store c m) (get_value_at_index store c m)

-- `deserializeRequest`
unfoldable pub deserialize_request : KvClient → KvCmd → KvClient
deserialize_request c raw_req = record c { curr_cmd = raw_req }

unfoldable pub is_read_only : KvClient → Bool
is_read_only c = by_type c.curr_cmd.cmd_type false true

-- `getResponse`: the address and the size
unfoldable pub get_response : KvClient → ℕ × ℕ
get_response c = (c.response, val_sz)
