-- ===== src/EventLoop/Leak.antt =====
-- flat_combining/flat_combining.c, `handle_request_event`: a connection that ends by an error.
use mathlib.Core.Option.{some-injective}
use mangosteen_code.Common.{
  ℕ, ◌%◌, ◌^◌, ◌≡◌, ◌≢◌, sym, ◌∙◌, ap, inl, inr, ◌==◌, Bool, true, false, ◌||◌, List, [], ◌∷◌,
  Option, none, some, >>=-eq-some, update, update_self, update_ne, ℕ_discrete, arith, Bool-cases,
  eq→==,
}
use mangosteen_code.Connection.{Client, Status, reading, writing, actively_reading, ended, do_event}
use mangosteen_code.EventLoop.{
  Interest, epollin, epollout, Reports, Events, Peer, Loop, Accepted, connection, no_connection,
  take_connection, handle_accept_events, close, rearm, after_status, Answers, handle_event, Fresh,
  disarmed, Step, accepts, requests, idle_loop, Steps, here, next,
}
use mangosteen_code.EventLoop.Handled.{handle_event-reported, Steps-AllArmed}

-- The client is allocated, and epoll has its address nowhere.
record IsLost (p : Peer) (address : ℕ) (l : Loop) : Type 0 where
  stored : l.heap address ≡ some p
  unarmed : (g : ℕ) (i : Interest) → l.armed g ≢ some (i, address)

take-IsLost :
    (p : Peer) (address connfd fresh : ℕ) (added : Bool) (l : Loop)
    → l.heap fresh ≡ none
    → IsLost p address l
    → IsLost p address (take_connection connfd fresh added l)
take-IsLost p address connfd fresh added l free h =
    let apart : address ≢ fresh = λ z. (let q = h.stored in let q' = ap l.heap z in cc) in
    elim (Bool-cases added) [
      | inr not_added ↦ rw not_added (record {
        stored = update_ne l.heap fresh address _ apart ∙ h.stored;
        unarmed = h.unarmed;
      })
      | inl is_added ↦ rw is_added (record {
        stored = update_ne l.heap fresh address _ apart ∙ h.stored;
        unarmed = λ g i e. elim (ℕ_discrete g connfd) [
          | yes same ↦
              let at : update l.armed connfd (some (epollin, fresh)) g ≡ some (epollin, fresh) =
                rw same (update_self l.armed connfd (some (epollin, fresh))) in
              apart (sym (ap (λ t. t.1) (some-injective _ _ (sym at ∙ e))))
          | no other ↦ h.unarmed g i (sym (update_ne l.armed connfd g _ other) ∙ e)
        ];
      })
    ]

accept-IsLost :
    (p : Peer) (address listenfd : ℕ) (script : List Accepted) (l l' : Loop)
    → Fresh listenfd script l
    → handle_accept_events script l ≡ some l'
    → IsLost p address l
    → IsLost p address l'
unfolding handle_accept_events
accept-IsLost p address listenfd [] l l' fresh ran h = absurd (cc)
accept-IsLost p address listenfd (connection connfd a added ∷ script) l l' fresh ran h =
    accept-IsLost p address listenfd script (take_connection connfd a added l) l' fresh.3 ran
      (take-IsLost p address connfd a added l fresh.1 h)
accept-IsLost p address listenfd (no_connection ∷ script) l l' fresh ran h =
    rw (← some-injective _ _ ran) h

-- Another client's event
disarmed-IsLost :
    (p : Peer) (address connfd : ℕ) (l : Loop)
    → IsLost p address l
    → IsLost p address (disarmed connfd l)
disarmed-IsLost p address connfd l h = record {
  stored = h.stored;
  unarmed = λ g i e. elim (ℕ_discrete g connfd) [
    | yes same ↦
        let off : update l.armed connfd none g ≡ none = rw same (update_self l.armed connfd none) in
        (cc)
    | no other ↦ h.unarmed g i (sym (update_ne l.armed connfd g none other) ∙ e)
  ];
}

module _ (p : Peer) (address other connfd : ℕ) (l : Loop) (h : IsLost p address l)
    (apart : address ≢ other) where
  rearm-IsLost :
      (rearmed : Bool) (i : Interest) (o : Option Peer)
      → IsLost p address (rearm rearmed i connfd other (record l { heap = update l.heap other o }))
  rearm-IsLost false i o = record {
    stored = update_ne l.heap other address o apart ∙ h.stored;
    unarmed = h.unarmed;
  }
  rearm-IsLost true i o = record {
    stored = update_ne l.heap other address o apart ∙ h.stored;
    unarmed = λ g j e. elim (ℕ_discrete g connfd) [
      | yes same ↦
          let at : update l.armed connfd (some (i, other)) g ≡ some (i, other) =
            rw same (update_self l.armed connfd (some (i, other))) in
          apart (sym (ap (λ t. t.1) (some-injective _ _ (sym at ∙ e))))
      | no away ↦ h.unarmed g j (sym (update_ne l.armed connfd g _ away) ∙ e)
    ];
  }

  after-IsLost :
      (rearmed : Bool) (c c' : Client) (s : Status) (l' : Loop)
      → after_status s rearmed other (record { connfd = connfd; client = c }) c' l ≡ some l'
      → IsLost p address l'
  after-IsLost rearmed c c' reading l' ran =
      rw (← some-injective _ _ ran) (rearm-IsLost rearmed epollin _)
  after-IsLost rearmed c c' writing l' ran =
      rw (← some-injective _ _ ran) (rearm-IsLost rearmed _ _)
  after-IsLost rearmed c c' actively_reading l' ran = absurd (cc)
  after-IsLost rearmed c c' ended l' ran =
      let gone = disarmed-IsLost p address connfd l h in
      rw (← some-injective _ _ ran) (record {
        stored = update_ne l.heap other address none apart ∙ h.stored;
        unarmed = gone.unarmed;
      })

hung_up : (i : Interest) (e : Events) → (e.has_err || e.has_hup) ≡ true → Reports i e
hung_up epollin e lost = inl lost
hung_up epollout e lost = inl lost

step-IsLost :
    (p : Peer) (address listenfd : ℕ) (l l' : Loop)
    → Steps listenfd idle_loop l
    → IsLost p address l
    → Step listenfd l l'
    → IsLost p address l'
unfolding handle_event
step-IsLost p address listenfd l l' steps h (accepts script a e {r} small fresh ran) =
    let listens : (listenfd % 2 ^ 32 == listenfd) ≡ true = eq→== _ _ (omega arith) in
    let (l'', taken, last) = >>=-eq-some (handle_accept_events script l) _ (rw listens at ran) in
    let same : (l'', []) ≡ r = some-injective _ _ last in
    let l_is : l'' ≡ l' = ap (λ t. t.0) same in
    rw (← l_is) (accept-IsLost p address listenfd script l l'' fresh taken h)
step-IsLost p address listenfd l l' steps h
      (requests script a e connfd other {i} {r} on reports ran) =
    let (c, stored, waits, does) =
      handle_event-reported listenfd l script a e connfd other i steps on reports in
    let gone = disarmed-IsLost p address connfd l h in
    let apart : address ≢ other = λ z. h.unarmed connfd i (rw (← z) at on) in
    elim (Bool-cases (e.has_err || e.has_hup)) [
      | inl lost ↦
          let same : (close connfd (disarmed connfd l), []) ≡ r =
            some-injective _ _ (rw lost at (sym does ∙ ran)) in
          let l_is : close connfd (disarmed connfd l) ≡ l' = ap (λ t. t.0) same in
          let closed = disarmed-IsLost p address connfd (disarmed connfd l) gone in
          rw (← l_is) (record { stored = h.stored; unarmed = closed.unarmed })
      | inr fine ↦
          let (done, did, more) =
            >>=-eq-some (do_event a.serve a.received a.sent c) _ (rw fine at (sym does ∙ ran)) in
          let (l'', after, last) = >>=-eq-some _ _ more in
          let same : (l'', done.1) ≡ r = some-injective _ _ last in
          let l_is : l'' ≡ l' = ap (λ t. t.0) same in
          rw (← l_is) (
            after-IsLost p address other connfd (disarmed connfd l) gone apart a.rearmed c done.0
              done.0.status l'' after)
    ]

Steps-append :
    {listenfd : ℕ} {l l' l'' : Loop}
    → Steps listenfd l l'
    → Steps listenfd l' l''
    → Steps listenfd l l''
Steps-append a here = a
Steps-append a (next b s) = next (Steps-append a b) s

Steps-IsLost :
    (p : Peer) (address listenfd : ℕ) (l l' : Loop)
    → Steps listenfd idle_loop l
    → IsLost p address l
    → Steps listenfd l l'
    → IsLost p address l'
Steps-IsLost p address listenfd l l' from h here = h
Steps-IsLost p address listenfd l l' from h (next {l' = m} b s) =
    step-IsLost p address listenfd m l' (Steps-append from b)
      (Steps-IsLost p address listenfd l m from h b) s

-- No other descriptor has the client's address.
closed_unarmed :
    (listenfd : ℕ) (l : Loop) (connfd address : ℕ) (c : Client)
    → Steps listenfd idle_loop l
    → l.heap address ≡ some (record { connfd = connfd; client = c })
    → (g : ℕ) (i : Interest) → (close connfd (disarmed connfd l)).armed g ≢ some (i, address)
closed_unarmed listenfd l connfd address c steps stored g i e = elim (ℕ_discrete g connfd) [
  | yes same ↦
      let off : (close connfd (disarmed connfd l)).armed g ≡ none =
        rw same (update_self (update l.armed connfd none) connfd none) in
      (cc)
  | no other ↦
      let on : l.armed g ≡ some (i, address) =
        sym (update_ne l.armed connfd g none other)
        ∙ sym (update_ne (update l.armed connfd none) connfd g none other)
        ∙ e in
      let one = Steps-AllArmed listenfd l steps g address i on in
      other (ap (λ (q : Peer). q.connfd) (some-injective _ _ (sym one.stored ∙ stored)))
]

-- A connection that epoll waits on and that ends by an error or a hang-up keeps its client allocated,
-- whatever the loop does after that: its memory is never freed.
pub hang_up-leaks :
    (listenfd : ℕ) (l l' : Loop) (script : List Accepted) (a : Answers) (e : Events)
    (connfd address : ℕ) (i : Interest) (r : Loop × List ℕ)
    → Steps listenfd idle_loop l
    → l.armed connfd ≡ some (i, address)
    → (e.has_err || e.has_hup) ≡ true
    → handle_event script a e listenfd address (disarmed connfd l) ≡ some r
    → Steps listenfd r.0 l'
    → (c : Client) × (l'.heap address ≡ some (record { connfd = connfd; client = c }))
hang_up-leaks listenfd l l' script a e connfd address i r steps on lost ran later =
    let reports = hung_up i e lost in
    let (c, stored, waits, does) =
      handle_event-reported listenfd l script a e connfd address i steps on reports in
    let p : Peer = record { connfd = connfd; client = c } in
    let same : (close connfd (disarmed connfd l), []) ≡ r =
      some-injective _ _ (rw lost at (sym does ∙ ran)) in
    let l_is : close connfd (disarmed connfd l) ≡ r.0 = ap (λ t. t.0) same in
    let first : IsLost p address r.0 = rw (← l_is) (record {
      stored = stored;
      unarmed = closed_unarmed listenfd l connfd address c steps stored;
    }) in
    let all =
      Steps-IsLost p address listenfd r.0 l'
        (next steps (requests script a e connfd address on reports ran)) first later in
    (c, all.stored)
