-- ===== src/EventLoop/Handled.antt =====
-- flat_combining/flat_combining.c, `handle_request_event` and `handle_event`: every event of the loop
-- leaves each connection waiting for what its status waits for.
use mathlib.Core.Option.{some-injective}
use mangosteen_code.Common.{
  ℕ, ◌%◌, ◌^◌, ◌≡◌, ◌≢◌, refl, sym, ◌∙◌, ap, inl, inr, ◌==◌, Bool, true, false, ◌&&◌, ◌||◌, List,
  [], none, some, if◌then◌else◌, ◌>>=◌, >>=-eq-some, update, update_self, update_ne, ℕ_discrete,
  arith, Bool-cases, eq→==, ne→==,
}
use mangosteen_code.Connection.{Client, Status, reading, writing, actively_reading, ended, do_event}
use mangosteen_code.EventLoop.{
  Interest, epollin, epollout, Events, Peer, Loop, Accepted, handle_accept_events, close, rearm,
  after_event, after_status, expected, some_event, Answers, handle_request_event, handle_event,
  Reports, disarmed, accepts, requests, idle_loop, Steps, here, next,
}
use mangosteen_code.EventLoop.Armed.{Waits, IsArmed, AllArmed, IsArmed-kept, accept-AllArmed}

-- A change at one connection, which is then armed for its status if it is armed at all.
changed-AllArmed :
    (listenfd : ℕ) (l l' : Loop) (connfd address : ℕ) (c : Client)
    → AllArmed listenfd l
    → l.heap address ≡ some (record { connfd = connfd; client = c })
    → ((g : ℕ) → g ≢ connfd → l'.armed g ≡ l.armed g)
    → ((a : ℕ) → a ≢ address → l'.heap a ≡ l.heap a)
    → ((g : ℕ) → g ≢ connfd → l'.is_open g ≡ l.is_open g)
    → ((a : ℕ) (i : Interest) → l'.armed connfd ≡ some (i, a) → IsArmed listenfd l' connfd i a)
    → AllArmed listenfd l'
changed-AllArmed listenfd l l' connfd address c h at same_armed same_heap same_open own g a i e =
    elim (ℕ_discrete g connfd) [
      | yes is ↦ rw is (own a i (rw is at e))
      | no other ↦
          let old = h g a i (sym (same_armed g other) ∙ e) in
          IsArmed-kept l' old
            (same_heap a (λ z.
              let two : some (record { connfd = connfd; client = c })
                  ≡ some (record { connfd = g; client = old.client }) =
                sym at ∙ ap l.heap (sym z) ∙ old.stored in
              let one : connfd ≡ g = ap (λ (q : Peer). q.connfd) (some-injective _ _ two) in
              other (sym one)))
            (same_open g other)
    ]

module _ (listenfd connfd address : ℕ) (c : Client) (l : Loop) (h : AllArmed listenfd l)
    (at : l.heap address ≡ some (record { connfd = connfd; client = c }))
    (off : l.armed connfd ≡ none) (opened : l.is_open connfd ≡ true)
    (apart : address % 2 ^ 32 ≢ listenfd) where
  close-AllArmed : AllArmed listenfd (close connfd l)
  close-AllArmed =
      changed-AllArmed listenfd l (close connfd l) connfd address c h at
        (λ g other. update_ne l.armed connfd g none other) (λ a other. refl)
        (λ g other. update_ne l.is_open connfd g false other)
        (λ a i e. absurd (let q = update_self l.armed connfd none in cc))

  freed-AllArmed :
      AllArmed listenfd
        (let closed : Loop = close connfd l in record closed { heap = update l.heap address none })
  freed-AllArmed =
      let closed : Loop = close connfd l in
      changed-AllArmed listenfd l (record closed { heap = update l.heap address none }) connfd
        address c h at (λ g other. update_ne l.armed connfd g none other)
        (λ a other. update_ne l.heap address a none other)
        (λ g other. update_ne l.is_open connfd g false other)
        (λ a i e. absurd (let q = update_self l.armed connfd none in cc))

  -- The client as `do_event` leaves it
  abbrev kept : Client → Loop
  kept c' = record l {
    heap = update l.heap address (some (record { connfd = connfd; client = c' }));
  }

  rearm-AllArmed :
      (rearmed : Bool) (i : Interest) (c' : Client)
      → Waits i c'.status
      → AllArmed listenfd (rearm rearmed i connfd address (kept c'))
  rearm-AllArmed false i c' waits =
      changed-AllArmed listenfd l (kept c') connfd address c h at (λ g other. refl)
        (λ a other. update_ne l.heap address a _ other) (λ g other. refl) (λ a j e. absurd (cc))
  rearm-AllArmed true i c' waits =
      changed-AllArmed listenfd l (rearm true i connfd address (kept c')) connfd address c h at
        (λ g other. update_ne l.armed connfd g _ other)
        (λ a other. update_ne l.heap address a _ other) (λ g other. refl)
        (λ a j e.
          let is : (i, address) ≡ (j, a) =
            some-injective _ _ (sym (update_self l.armed connfd (some (i, address))) ∙ e) in
          let i_is : i ≡ j = ap (λ t. t.0) is in
          let a_is : address ≡ a = ap (λ t. t.1) is in
          rw (sym i_is, sym a_is)
            (record {
              client = c';
              stored = update_self l.heap address (some (record { connfd = connfd; client = c' }));
              waits = waits;
              apart = apart;
              is_open = opened;
            }))

  after-AllArmed :
      (rearmed : Bool) (c' : Client) (s : Status) (l' : Loop)
      → c'.status ≡ s
      → after_status s rearmed address (record { connfd = connfd; client = c }) c' l ≡ some l'
      → AllArmed listenfd l'
  after-AllArmed rearmed c' reading l' is ran =
      rw (← some-injective _ _ ran) (rearm-AllArmed rearmed epollin c' is)
  after-AllArmed rearmed c' writing l' is ran =
      rw (← some-injective _ _ ran) (rearm-AllArmed rearmed epollout c' is)
  after-AllArmed rearmed c' actively_reading l' is ran = absurd (cc)
  after-AllArmed rearmed c' ended l' is ran = rw (← some-injective _ _ ran) freed-AllArmed

  request-AllArmed :
      (a : Answers) (e : Events) (r : Loop × List ℕ)
      → handle_request_event a e address l ≡ some r
      → AllArmed listenfd r.0
  unfolding handle_request_event
  request-AllArmed a e r ran = elim (Bool-cases (e.has_err || e.has_hup)) [
    | inl lost ↦
        let same : (close connfd l, []) ≡ r = some-injective _ _ (rw (at, lost) at ran) in
        rw (← same) close-AllArmed
    | inr fine ↦ elim (Bool-cases (some_event e && expected c.status e)) [
      | inr bad ↦ absurd (let q = rw (at, fine, bad) at ran in cc)
      | inl good ↦
          let (done, did, more) =
            >>=-eq-some (do_event a.serve a.received a.sent c) _ (rw (at, fine, good) at ran) in
          let (l', after, last) = >>=-eq-some _ _ more in
          let same : (l', done.1) ≡ r = some-injective _ _ last in
          rw (← same) (after-AllArmed a.rearmed done.0 done.0.status l' refl after)
    ]
  ]

disarmed-AllArmed :
    (listenfd connfd : ℕ) (l : Loop) → AllArmed listenfd l → AllArmed listenfd (disarmed connfd l)
disarmed-AllArmed listenfd connfd l h g a i e = elim (ℕ_discrete g connfd) [
  | yes same ↦
      let off : update l.armed connfd none g ≡ none = rw same (update_self l.armed connfd none) in
      absurd (cc)
  | no other ↦
      IsArmed-kept (disarmed connfd l) (h g a i (sym (update_ne l.armed connfd g none other) ∙ e))
        refl refl
]

-- In every state that the loop comes to, what epoll waits for on a descriptor is what the status of its
-- client waits for, the client is allocated, and the descriptor is open.
pub Steps-AllArmed : (listenfd : ℕ) (l : Loop) → Steps listenfd idle_loop l → AllArmed listenfd l
unfolding handle_event
Steps-AllArmed listenfd l here = λ connfd address i e. (cc)
Steps-AllArmed listenfd l (next {l' = l'} steps (accepts script a e {r} small fresh ran)) =
    let listens : (listenfd % 2 ^ 32 == listenfd) ≡ true = eq→== _ _ (omega arith) in
    let (l'', taken, last) = >>=-eq-some (handle_accept_events script l') _ (rw listens at ran) in
    let same : (l'', []) ≡ r = some-injective _ _ last in
    let l_is : l'' ≡ l = ap (λ t. t.0) same in
    rw (← l_is)
      (accept-AllArmed listenfd script l' l'' fresh taken (Steps-AllArmed listenfd l' steps))
Steps-AllArmed listenfd l
      (next {l' = l'} steps (requests script a e connfd address {i} {r} on reports ran)) =
    let h = Steps-AllArmed listenfd l' steps in
    let one = h connfd address i on in
    request-AllArmed listenfd connfd address one.client (disarmed connfd l')
      (disarmed-AllArmed listenfd connfd l' h) one.stored (update_self l'.armed connfd none)
      one.is_open one.apart a e r (rw (ne→== _ _ one.apart) at ran)

-- The handler's guards, on an event that epoll reports for what it waits for
reported :
    (i : Interest) (s : Status) (e : Events)
    → Waits i s
    → Reports i e
    → (e.has_err || e.has_hup) ≡ false
    → (some_event e && expected s e) ≡ true
unfolding some_event
reported epollin s e waits (inl lost) fine = absurd (cc)
reported epollin s e waits (inr seen) fine = rw (waits, seen) refl
reported epollout s e waits (inl lost) fine = absurd (cc)
reported epollout s e waits (inr seen) fine = rw (waits, seen) (ground arith)

-- In every state that the loop comes to, an event that epoll reports on a descriptor finds its client
-- allocated and passes the handler's assertions: on an error or a hang-up the descriptor is closed,
-- and otherwise the handler does what `do_event` does, and then waits again, or ends the connection, by
-- the client's status.
pub handle_event-reported :
    (listenfd : ℕ) (l : Loop) (script : List Accepted) (a : Answers) (e : Events)
    (connfd address : ℕ) (i : Interest)
    → Steps listenfd idle_loop l
    → l.armed connfd ≡ some (i, address)
    → Reports i e
    → (c : Client) × (l.heap address ≡ some (record { connfd = connfd; client = c }))
      × Waits i c.status
      × (handle_event script a e listenfd address (disarmed connfd l) ≡ (
          if e.has_err || e.has_hup
          then some (close connfd (disarmed connfd l), [])
          else (do_event a.serve a.received a.sent c >>= λ r.
              after_event a.rearmed address
                (record { connfd = connfd; client = c })
                r.0
                (disarmed connfd l)
              >>= λ l'. some (l', r.1))))
unfolding handle_event handle_request_event
handle_event-reported listenfd l script a e connfd address i steps on reports =
    let one = Steps-AllArmed listenfd l steps connfd address i on in
    (
      one.client,
      one.stored,
      one.waits,
      elim (Bool-cases (e.has_err || e.has_hup)) [
        | inl lost ↦ rw (ne→== _ _ one.apart, one.stored, lost) refl
        | inr fine ↦
            rw
              (
                ne→== _ _ one.apart,
                one.stored,
                fine,
                reported i one.client.status e one.waits reports fine,
              )
              refl
      ],
    )
