-- ===== src/Tests/Kv.antt =====
-- examples/KVStoreStateMachine/kv_state_machine.c with a store at 2^30 and clients below it.
use mangosteen_code.Common.{
  ℕ, zero, suc, ◌+◌, ◌*◌, ◌^◌, ◌≡◌, inl, refl, arith, List, [], ◌∷◌, get_or,
}
use mangosteen_code.Memory.{Mem}
use mangosteen_code.KvStore.{
  KvClient, put, get, val_sz, init_kv_store, handle_request, get_response, is_read_only,
}
use mangosteen_code.KvStore.Requests.{get-put, read_only_lem, get_overflows}

abbrev store : ℕ
store = 2 ^ 30

abbrev memory : Mem
unfolding init_kv_store
memory = init_kv_store store (λ x. 5)

abbrev value : ℕ → List ℕ
value zero = []
value (suc n) = 97 ∷ value n

abbrev putting : KvClient
putting = record {
  id = 1;
  curr_cmd = record { cmd_type = put; index = 9; value = value 128 };
  response = 1000;
}

abbrev getting : KvClient
getting = record {
  id = 2;
  curr_cmd = record { cmd_type = get; index = 9; value = [] };
  response = 2000;
}

get-put_example :
    handle_request store getting
      (handle_request store putting memory)
      ((get_response getting).0 + 5)
    ≡ get_or (value 128) 5 0
unfolding get_response
get-put_example =
    get-put store putting getting memory 5 refl refl refl (omega arith) (omega arith)
      (inl (omega arith)) refl (omega arith)

read_only_lem_example : handle_request store getting memory (store + 70) ≡ memory (store + 70)
unfolding is_read_only
read_only_lem_example =
    read_only_lem store getting memory (store + 70) refl (inl (omega arith)) (omega arith)
      (omega arith)

get_overflows_example : handle_request store getting memory 2003 ≡ memory (store + 9 * val_sz + 3)
unfolding is_read_only
get_overflows_example =
    get_overflows store getting memory 3 refl (omega arith) (omega arith) (omega arith)
      (omega arith)
