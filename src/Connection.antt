-- ===== src/Connection.antt =====
-- flat_combining/flat_combining.c, `do_event` with `prepare_client_response`, and the client of
-- netutils/netutils.h: one event on a connection. What the socket answers to the calls of `read` and
-- `send` is a script, and the service's reply to a request a function. `none` is a failed assertion, or
-- a script that ends while the loop goes on.
pub mod Read
pub mod Write
use mangosteen_code.Common.{
  ℕ, zero, suc, ◌+◌, ◌-◌, ◌==◌, Bool, true, false, List, [], ◌∷◌, ◌++◌, Option, none, some,
  if◌then◌else◌, ltb, ◌&&◌, ◌>>=◌, length, get_or, take, drop,
}

abbrev pub max_request_size : ℕ
max_request_size = 2048

-- `req_status_t`
pub data Status : Type 0 where
  reading writing actively_reading ended : Status

-- `mangosteen_client_t`: `request` is the first `bytes_read` bytes of `req`.
pub record Client : Type 0 where
  pub status : Status
  pub request : List ℕ
  pub response : List ℕ
  pub response_len : ℕ
  pub left : ℕ

-- What `read` gives: bytes, EAGAIN, another error, or the end.
pub data Received : Type 0 where
  got : (bytes : List ℕ) → Received
  again failed closed : Received

-- What `send` gives: the number of bytes that it took, EAGAIN, another error, or 0.
pub data Sent : Type 0 where
  took : (n : ℕ) → Sent
  blocked broken nothing : Sent

-- `\r\n` at the end, after at least one byte
unfoldable pub is_complete : List ℕ → Bool
is_complete req =
    let n = length req in ltb 2 n && (get_or req (n - 2) 0 == 13) && (get_or req (n - 1) 0 == 10)

-- The loop of reading; beside the client, `finished`.
unfoldable pub read_loop : List Received → Client → Option (Client × Bool)
unfolding is_complete
read_loop [] c = none
read_loop (got bytes ∷ script) c =
    let next = record c { request = c.request ++ bytes } in
    let rest = read_loop script next in
    if ltb (length c.request) max_request_size
    then (if ltb max_request_size (length next.request)
        then some (record next { status = ended }, false)
        else rest)
    else none
read_loop (again ∷ script) c =
    if ltb (length c.request) max_request_size then some (c, is_complete c.request) else none
read_loop (failed ∷ script) c =
    if ltb (length c.request) max_request_size then some (c, false) else none
read_loop (closed ∷ script) c =
    if ltb (length c.request) max_request_size
    then some (record c { status = ended }, false)
    else none

-- The reply of the service to the request, and `prepare_client_response`: it must not be empty.
unfoldable pub prepare_response : (List ℕ → List ℕ) → Client → Option Client
prepare_response serve c =
    let reply = serve c.request in
    if length reply == 0
    then none
    else some (record c { response = reply; response_len = length reply; left = length reply })

-- How the loop of writing ends: with what is left, or with the connection ended; beside it, the bytes
-- that were sent.
pub record Written : Type 0 where
  pub still_left : ℕ
  pub lost : Bool
  pub output : List ℕ

unfoldable pub write_loop : List Sent → List ℕ → ℕ → ℕ → Option Written
write_loop script response len zero = some (record { still_left = 0; lost = false; output = [] })
write_loop [] response len (suc left) = none
write_loop (took n ∷ script) response len (suc left) =
    write_loop script response len (suc left - n) >>= λ w.
    some (record w { output = take n (drop (len - suc left) response) ++ w.output })
write_loop (blocked ∷ script) response len (suc left) =
    some (record { still_left = suc left; lost = false; output = [] })
write_loop (broken ∷ script) response len (suc left) =
    some (record { still_left = suc left; lost = true; output = [] })
write_loop (nothing ∷ script) response len (suc left) =
    some (record { still_left = suc left; lost = true; output = [] })

unfoldable pub do_read : (List ℕ → List ℕ) → List Received → Client → Option Client
unfolding read_loop prepare_response
do_read serve script c = read_loop script c >>= λ r.
    if r.1
    then (prepare_response serve r.0 >>= λ p. some (record p { request = []; status = writing }))
    else some r.0

-- What follows the loop of writing. A response that is sent leaves `left` as it was.
abbrev pub after_writing : Client → Written → Client
after_writing c w =
    if w.lost
    then record c { status = ended }
    else if w.still_left == 0
    then record c { response_len = 0; response = []; status = reading }
    else record c { left = w.still_left }

unfoldable pub do_write : List Sent → Client → Option (Client × List ℕ)
unfolding write_loop
do_write script c =
    write_loop script c.response c.response_len c.left >>= λ w. some (after_writing c w, w.output)

-- `do_event` by the client's status; in any other the server exits.
unfoldable pub event_in :
    Status → (List ℕ → List ℕ) → List Received → List Sent → Client → Option (Client × List ℕ)
unfolding do_read do_write
event_in reading serve ins outs c = do_read serve ins c >>= λ c'. some (c', [])
event_in writing serve ins outs c = do_write outs c
event_in actively_reading serve ins outs c = none
event_in ended serve ins outs c = none

unfoldable pub do_event :
    (List ℕ → List ℕ) → List Received → List Sent → Client → Option (Client × List ℕ)
unfolding event_in
do_event serve ins outs c = event_in c.status serve ins outs c
