-- ===== src/EventLoop/Armed.antt =====
-- flat_combining/flat_combining.c: what a connection waits for, and the events that it gets.
use mathlib.Core.Option.{some-injective}
use mangosteen_code.Common.{
  ℕ, ◌%◌, ◌^◌, ◌≡◌, ◌≢◌, refl, sym, ◌∙◌, ap, Bool, true, false, List, [], ◌∷◌, none, some, update,
  update_self, update_ne, ℕ_discrete,
}
use mangosteen_code.Connection.{Client, Status, reading, writing}
use mangosteen_code.EventLoop.{
  Interest, epollin, epollout, Loop, Accepted, connection, no_connection, take_connection,
  handle_accept_events, Fresh, new_client,
}

abbrev pub Waits : Interest → Status → Type 0
Waits epollin s = s ≡ reading
Waits epollout s = s ≡ writing

-- A descriptor that epoll waits on is open, its pointer is that of its client, which is allocated, and
-- epoll waits for what the client's status waits for.
pub record IsArmed (listenfd : ℕ) (l : Loop) (connfd : ℕ) (i : Interest) (address : ℕ)
    : Type 0 where
  pub client : Client
  pub stored : l.heap address ≡ some (record { connfd = connfd; client = client })
  pub waits : Waits i client.status
  pub apart : address % 2 ^ 32 ≢ listenfd
  pub is_open : l.is_open connfd ≡ true

abbrev pub AllArmed : ℕ → Loop → Type 0
AllArmed listenfd l =
    (connfd address : ℕ) (i : Interest)
    → l.armed connfd ≡ some (i, address)
    → IsArmed listenfd l connfd i address

-- What other descriptors wait for is not touched by a change at one address and one descriptor.
pub IsArmed-kept :
    {listenfd : ℕ} {l : Loop} {connfd address : ℕ} {i : Interest} (l' : Loop)
    → IsArmed listenfd l connfd i address
    → l'.heap address ≡ l.heap address
    → l'.is_open connfd ≡ l.is_open connfd
    → IsArmed listenfd l' connfd i address
IsArmed-kept l' h same_heap same_open = record {
  client = h.client;
  stored = same_heap ∙ h.stored;
  waits = h.waits;
  apart = h.apart;
  is_open = same_open ∙ h.is_open;
}

take-AllArmed :
    (listenfd connfd address : ℕ) (added : Bool) (l : Loop)
    → l.is_open connfd ≡ false
    → l.heap address ≡ none
    → address % 2 ^ 32 ≢ listenfd
    → AllArmed listenfd l
    → AllArmed listenfd (take_connection connfd address added l)
take-AllArmed listenfd connfd address true l closed free apart h fd a i e =
    elim (ℕ_discrete fd connfd) [
      | yes same ↦
          let at : update l.armed connfd (some (epollin, address)) fd ≡ some (epollin, address) =
            rw same (update_self l.armed connfd (some (epollin, address))) in
          let is : (epollin, address) ≡ (i, a) = some-injective _ _ (sym at ∙ e) in
          let i_is : epollin ≡ i = ap (λ t. t.0) is in
          let a_is : address ≡ a = ap (λ t. t.1) is in
          rw (same, sym i_is, sym a_is)
            (record {
              client = new_client;
              stored =
                  update_self l.heap address
                    (some (record { connfd = connfd; client = new_client }));
              waits = refl;
              apart = apart;
              is_open = update_self l.is_open connfd true;
            })
      | no other ↦
          let old = h fd a i (sym (update_ne l.armed connfd fd _ other) ∙ e) in
          IsArmed-kept (take_connection connfd address true l) old
            (update_ne l.heap address a _ (λ z. (let q = old.stored in let q' = ap l.heap z in cc)))
            (update_ne l.is_open connfd fd true other)
    ]
take-AllArmed listenfd connfd address false l closed free apart h fd a i e =
    let old = h fd a i e in
    IsArmed-kept (take_connection connfd address false l) old
      (update_ne l.heap address a _ (λ z. (let q = old.stored in let q' = ap l.heap z in cc)))
      (update_ne l.is_open connfd fd true
        (λ z. (let q = old.is_open in let q' = ap l.is_open z in cc)))

pub accept-AllArmed :
    (listenfd : ℕ) (script : List Accepted) (l l' : Loop)
    → Fresh listenfd script l
    → handle_accept_events script l ≡ some l'
    → AllArmed listenfd l
    → AllArmed listenfd l'
unfolding handle_accept_events
accept-AllArmed listenfd [] l l' fresh ran h = absurd (cc)
accept-AllArmed listenfd (connection connfd address added ∷ script) l l' fresh ran h =
    accept-AllArmed listenfd script (take_connection connfd address added l) l' fresh.3 ran
      (take-AllArmed listenfd connfd address added l fresh.0 fresh.1 fresh.2 h)
accept-AllArmed listenfd (no_connection ∷ script) l l' fresh ran h =
    let same : l ≡ l' = some-injective _ _ ran in rw (← same) h
