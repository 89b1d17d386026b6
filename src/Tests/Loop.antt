-- ===== src/Tests/Loop.antt =====
-- flat_combining/flat_combining.c: a loop that takes the connection 7, with its client at 4096.
use mangosteen_code.Common.{
  ◌≡◌, inr, refl, arith, List, [], ◌∷◌, true, false, ◌||◌, some, if◌then◌else◌, ◌>>=◌,
}
use mangosteen_code.Connection.{Client, do_event, got, again}
use mangosteen_code.EventLoop.{
  Loop, Events, Answers, Accepted, connection, no_connection, take_connection, Steps, accepts, here,
  next, idle_loop, handle_event, handle_accept_events, handle_request_event, disarmed, close,
  after_event, epollin,
}
use mangosteen_code.EventLoop.Armed.{Waits}
use mangosteen_code.EventLoop.Handled.{handle_event-reported}
use mangosteen_code.EventLoop.Leak.{hang_up-leaks}

abbrev script : List Accepted
script = connection 7 4096 true ∷ no_connection ∷ []

abbrev answers : Answers
answers = record {
  serve = λ req. 43 ∷ req;
  received = got (65 ∷ 66 ∷ 13 ∷ 10 ∷ []) ∷ again ∷ [];
  sent = [];
  rearmed = true;
}

abbrev readable : Events
readable = record { has_in = true; has_out = false; has_err = false; has_hup = false }

abbrev hangs_up : Events
hangs_up = record { has_in = true; has_out = false; has_err = false; has_hup = true }

abbrev connected : Loop
connected = take_connection 7 4096 true idle_loop

connected-Steps : Steps 3 idle_loop connected
unfolding handle_event handle_accept_events
connected-Steps = next here (
    accepts script answers readable {r = (connected, [])} (omega arith)
      (refl, refl, (λ e. omega arith), record {}) refl)

handle_event-reported_example :
    (c : Client) × (connected.heap 4096 ≡ some (record { connfd = 7; client = c }))
    × Waits epollin c.status
    × (handle_event [] answers readable 3 4096 (disarmed 7 connected) ≡ (
        if readable.has_err || readable.has_hup
        then some (close 7 (disarmed 7 connected), [])
        else (do_event answers.serve answers.received answers.sent c >>= λ r.
            after_event answers.rearmed 4096
              (record { connfd = 7; client = c })
              r.0
              (disarmed 7 connected)
            >>= λ l'. some (l', r.1))))
handle_event-reported_example =
    handle_event-reported 3 connected [] answers readable 7 4096 epollin connected-Steps refl
      (inr refl)

-- The peer hangs up, and nothing else happens.
hang_up-leaks_example :
    (c : Client) × ((close 7 (disarmed 7 connected)).heap 4096
      ≡ some (record { connfd = 7; client = c }))
unfolding handle_event handle_request_event
hang_up-leaks_example =
    hang_up-leaks 3 connected (close 7 (disarmed 7 connected)) [] answers hangs_up 7 4096 epollin
      (close 7 (disarmed 7 connected), []) connected-Steps refl refl refl here
