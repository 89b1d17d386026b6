-- ===== src/EventLoop.antt =====
-- flat_combining/flat_combining.c, `handle_event` with `handle_accept_events` and `handle_request_event`:
-- the connections of one worker's event loop. What the kernel answers is passed in: the descriptor that
-- `accept` gives, whether `epoll_ctl` succeeds, the pointer that `malloc` gives, which
-- succeeds, and the events. A
-- descriptor is registered with EPOLLONESHOT, so that an event disarms it. `none` is a failed
-- assertion, an exit, a use of freed memory, or an endless loop over a script that ends.
pub mod Armed
pub mod Handled
pub mod Leak
use mangosteen_code.Common.{
  ℕ, zero, suc, ◌+◌, ◌%◌, ◌^◌, ◌<◌, ◌≡◌, ◌≢◌, ◌==◌, Bool, true, false, ◌&&◌, ◌||◌, List, [], ◌∷◌,
  Option, none, some, if◌then◌else◌, ◌>>=◌, update, ◌⊎◌,
}
use mangosteen_code.Connection.{
  Client, Status, reading, writing, actively_reading, ended, Received, Sent, do_event,
}

-- EPOLLIN and EPOLLOUT
pub data Interest : Type 0 where
  epollin epollout : Interest

-- The bits of `epollEvent->events`
pub record Events : Type 0 where
  pub has_in : Bool
  pub has_out : Bool
  pub has_err : Bool
  pub has_hup : Bool

-- A client with its field `connfd`
pub record Peer : Type 0 where
  pub connfd : ℕ
  pub client : Client

-- The clients by their addresses, the descriptors that are open, what epoll waits for on a descriptor
-- with the pointer that comes with the event, and `client_connections`.
pub record Loop : Type 0 where
  pub heap : ℕ → Option Peer
  pub is_open : ℕ → Bool
  pub armed : ℕ → Option (Interest × ℕ)
  pub client_connections : ℕ

abbrev pub new_client : Client
new_client = record { status = reading; request = []; response = []; response_len = 0; left = 0 }

-- What a call of `accept` comes to: a descriptor, with the address of the new client and the success of
-- `epoll_ctl`, or an error, EAGAIN among them.
pub data Accepted : Type 0 where
  connection : (connfd address : ℕ) (added : Bool) → Accepted
  no_connection : Accepted

-- One round of the loop of `handle_accept_events`
abbrev pub take_connection : ℕ → ℕ → Bool → Loop → Loop
take_connection connfd address added l =
    let stored : Loop = record l {
      heap = update l.heap address (some (record { connfd = connfd; client = new_client }));
      is_open = update l.is_open connfd true;
    } in
    if added
    then record stored {
      armed = update l.armed connfd (some (epollin, address));
      client_connections = l.client_connections + 1;
    }
    else stored

unfoldable pub handle_accept_events : List Accepted → Loop → Option Loop
handle_accept_events [] l = none
handle_accept_events (connection connfd address added ∷ script) l =
    handle_accept_events script (take_connection connfd address added l)
handle_accept_events (no_connection ∷ script) l = some l

-- `close`, which also takes the descriptor from epoll
abbrev pub close : ℕ → Loop → Loop
close connfd l = record l {
  is_open = update l.is_open connfd false;
  armed = update l.armed connfd none;
}

-- The client as `do_event` leaves it
abbrev pub keep : ℕ → Peer → Client → Loop → Loop
keep address p c l = record l { heap = update l.heap address (some (record p { client = c })) }

-- What follows `do_event`, by the status of the client: `rearmed` says whether `epoll_ctl` succeeds.
abbrev pub rearm : Bool → Interest → ℕ → ℕ → Loop → Loop
rearm rearmed interest connfd address l =
    if rearmed then record l { armed = update l.armed connfd (some (interest, address)) } else l

abbrev pub after_status : Status → Bool → ℕ → Peer → Client → Loop → Option Loop
after_status reading rearmed address p c l =
    some (rearm rearmed epollin p.connfd address (keep address p c l))
after_status writing rearmed address p c l =
    some (rearm rearmed epollout p.connfd address (keep address p c l))
after_status actively_reading rearmed address p c l = none
after_status ended rearmed address p c l =
    let closed : Loop = close p.connfd l in
    some (record closed { heap = update l.heap address none })

abbrev pub after_event : Bool → ℕ → Peer → Client → Loop → Option Loop
after_event rearmed address p c l = after_status c.status rearmed address p c l

-- The assertions on the events
abbrev pub expected : Status → Events → Bool
expected reading e = e.has_in
expected writing e = e.has_out
expected actively_reading e = true
expected ended e = true

unfoldable pub some_event : Events → Bool
some_event e = e.has_in || (e.has_out || (e.has_err || e.has_hup))

-- What the service and the socket answer while an event is handled
pub record Answers : Type 0 where
  pub serve : List ℕ → List ℕ
  pub received : List Received
  pub sent : List Sent
  pub rearmed : Bool

unfoldable pub handle_request_event : Answers → Events → ℕ → Loop → Option (Loop × List ℕ)
handle_request_event a e address l = l.heap address >>= λ p.
    let event = do_event a.serve a.received a.sent p.client >>= λ r.
    after_event a.rearmed address p r.0 l >>= λ l'. some (l', r.1) in
    if e.has_err || e.has_hup
    then some (close p.connfd l, [])
    else if some_event e && expected p.client.status e
    then event
    else none

-- `handle_event`: `data.fd` is the low half of the union that holds the pointer.
unfoldable pub handle_event :
    List Accepted → Answers → Events → (listenfd event_data : ℕ) → Loop → Option (Loop × List ℕ)
unfolding handle_accept_events handle_request_event
handle_event script a e listenfd event_data l =
    if event_data % 2 ^ 32 == listenfd
    then (handle_accept_events script l >>= λ l'. some (l', []))
    else handle_request_event a e event_data l

-- `accept` gives a descriptor that is not open, and `malloc` an address that is not in use and is not
-- taken for the descriptor that listens.
abbrev pub Fresh : ℕ → List Accepted → Loop → Type 0
Fresh listenfd [] l = Unit
Fresh listenfd (connection connfd address added ∷ script) l =
    (l.is_open connfd ≡ false)
    × (l.heap address ≡ none)
    × (address % 2 ^ 32 ≢ listenfd)
    × Fresh listenfd script (take_connection connfd address added l)
Fresh listenfd (no_connection ∷ script) l = Unit

-- epoll reports what it waits for, or an error or a hang-up.
abbrev pub Reports : Interest → Events → Type 0
Reports epollin e = ((e.has_err || e.has_hup) ≡ true) ⊎ ((e.has_in ≡ true))
Reports epollout e = ((e.has_err || e.has_hup) ≡ true) ⊎ ((e.has_out ≡ true))

-- Before the handler runs, EPOLLONESHOT has disarmed the descriptor.
abbrev pub disarmed : ℕ → Loop → Loop
disarmed connfd l = record l { armed = update l.armed connfd none }

-- The loop handles events that epoll reports.
pub data Step (listenfd : ℕ) (l : Loop) : Loop → Type 0 where
  accepts :
      (script : List Accepted) (a : Answers) (e : Events) {r : Loop × List ℕ}
      → listenfd < 2 ^ 31
      → Fresh listenfd script l
      → handle_event script a e listenfd listenfd l ≡ some r
      → Step listenfd l r.0
  requests :
      (script : List Accepted) (a : Answers) (e : Events) (connfd address : ℕ) {i : Interest}
      {r : Loop × List ℕ}
      → l.armed connfd ≡ some (i, address)
      → Reports i e
      → handle_event script a e listenfd address (disarmed connfd l) ≡ some r
      → Step listenfd l r.0

abbrev pub idle_loop : Loop
idle_loop = record {
  heap = λ _. none;
  is_open = λ _. false;
  armed = λ _. none;
  client_connections = 0;
}

pub data Steps (listenfd : ℕ) (l : Loop) : Loop → Type 0 where
  here : Steps listenfd l l
  next : {l' l'' : Loop} → Steps listenfd l l' → Step listenfd l' l'' → Steps listenfd l l''
