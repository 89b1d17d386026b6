-- ===== src/Connection/Read.antt =====
-- flat_combining/flat_combining.c, `do_event` on a client that is read from: a request over any number
-- of reads.
use mathlib.Core.List.{append_assoc, append-nil}
use mangosteen_code.Common.{
  ℕ, ◌<◌, ◌≡◌, refl, sym, ap, ◌∙◌, List, [], ◌∷◌, ◌++◌, some, none, arith, length, length-append,
  ltb, le→ltb, lt→ltb, ne→==, Bool-cases, inl, inr, true, false,
}
use mangosteen_code.Connection.{
  Client, reading, writing, Received, Sent, got, again, max_request_size, is_complete, read_loop,
  prepare_response, do_read, event_in, do_event,
}

-- The bytes of a list of reads.
abbrev pub joined : List (List ℕ) → List ℕ
joined [] = []
joined (bytes ∷ more) = bytes ++ joined more

-- The reads, and then no more data.
abbrev pub reads : List (List ℕ) → List Received
reads [] = again ∷ []
reads (bytes ∷ more) = got bytes ∷ reads more

read_loop-reads :
    (chunks : List (List ℕ)) (c : Client)
    → length (c.request ++ joined chunks) < max_request_size
    → read_loop (reads chunks) c
      ≡ some (
        record c { request = c.request ++ joined chunks },
        is_complete (c.request ++ joined chunks),
      )
unfolding read_loop
read_loop-reads [] c fits =
    rw
      (
        append-nil c.request,
        lt→ltb (length c.request) max_request_size (rw (append-nil c.request) at fits),
      )
      refl
read_loop-reads (bytes ∷ more) c fits =
    let whole = append_assoc c.request bytes (joined more) in
    let fits' : length ((c.request ++ bytes) ++ joined more) < max_request_size = rw whole fits in
    let some_room : length c.request < max_request_size =
      omega (arith, length-append c.request (bytes ++ joined more)) in
    let no_more : ltb max_request_size (length (c.request ++ bytes)) ≡ false =
      le→ltb _ _ (omega (arith, length-append (c.request ++ bytes) (joined more))) in
    rw (lt→ltb (length c.request) max_request_size some_room, no_more, sym whole)
      (read_loop-reads more (record c { request = c.request ++ bytes }) fits')

-- However a request of fewer than `max_request_size` bytes is cut into reads: once it is complete the
-- service gets the whole request, and, where its reply is not empty, the event ends with the client to be
-- written to, with the whole reply to send.
pub do_event_complete :
    (serve : List ℕ → List ℕ) (chunks : List (List ℕ)) (outs : List Sent) (c : Client)
    → c.status ≡ reading
    → length (c.request ++ joined chunks) < max_request_size
    → is_complete (c.request ++ joined chunks) ≡ true
    → 0 < length (serve (c.request ++ joined chunks))
    → do_event serve (reads chunks) outs c
      ≡ some (
        record c {
          request = [];
          status = writing;
          response = serve (c.request ++ joined chunks);
          response_len = length (serve (c.request ++ joined chunks));
          left = length (serve (c.request ++ joined chunks));
        },
        [],
      )
unfolding do_event do_read prepare_response
do_event_complete serve chunks outs c at fits complete answered =
    ap (λ status. event_in status serve (reads chunks) outs c) at
    ∙ rw
        (
          read_loop-reads chunks c fits,
          complete,
          ne→== (length (serve (c.request ++ joined chunks))) 0 (λ e. omega arith),
        )
        refl

-- While a request of fewer than `max_request_size` bytes is not complete, an event keeps all that was
-- read, however it was cut into reads, and sends nothing.
pub do_event_partial :
    (serve : List ℕ → List ℕ) (chunks : List (List ℕ)) (outs : List Sent) (c : Client)
    → c.status ≡ reading
    → length (c.request ++ joined chunks) < max_request_size
    → is_complete (c.request ++ joined chunks) ≡ false
    → do_event serve (reads chunks) outs c
      ≡ some (record c { request = c.request ++ joined chunks }, [])
unfolding do_event do_read
do_event_partial serve chunks outs c at fits partial =
    ap (λ status. event_in status serve (reads chunks) outs c) at
    ∙ rw (read_loop-reads chunks c fits, partial) refl

read_loop_full :
    (chunks : List (List ℕ)) (c : Client)
    → length (c.request ++ joined chunks) ≡ max_request_size
    → read_loop (reads chunks) c ≡ none
unfolding read_loop
read_loop_full [] c full =
    rw
      (le→ltb (length c.request) max_request_size
        (omega (arith, rw (append-nil c.request) at full)))
      refl
read_loop_full (bytes ∷ more) c full =
    let whole = append_assoc c.request bytes (joined more) in
    let full' : length ((c.request ++ bytes) ++ joined more) ≡ max_request_size = rw whole full in
    let no_more : ltb max_request_size (length (c.request ++ bytes)) ≡ false =
      le→ltb _ _ (omega (arith, length-append (c.request ++ bytes) (joined more))) in
    elim (Bool-cases (ltb (length c.request) max_request_size)) [
      | inl more_room ↦
          rw (more_room, no_more)
            (read_loop_full more (record c { request = c.request ++ bytes }) full')
      | inr shut ↦ rw shut refl
    ]

-- A request of `max_request_size` bytes, complete or not and however it was cut into reads, fails the
-- assertion of the loop of reading.
pub do_event_full :
    (serve : List ℕ → List ℕ) (chunks : List (List ℕ)) (outs : List Sent) (c : Client)
    → c.status ≡ reading
    → length (c.request ++ joined chunks) ≡ max_request_size
    → do_event serve (reads chunks) outs c ≡ none
unfolding do_event do_read
do_event_full serve chunks outs c at full =
    ap (λ status. event_in status serve (reads chunks) outs c) at
    ∙ rw (read_loop_full chunks c full) refl
