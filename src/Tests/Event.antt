-- ===== src/Tests/Event.antt =====
-- flat_combining/flat_combining.c on a client with a short request.
use mangosteen_code.Common.{ℕ, zero, suc, ◌≡◌, refl, arith, List, [], ◌∷◌, some, none}
use mangosteen_code.Connection.{
  Client, reading, writing, took, blocked, do_event, event_in, do_write, write_loop, is_complete,
}
use mangosteen_code.Connection.Read.{reads, do_event_complete, do_event_full}
use mangosteen_code.Connection.Write.{Progress, do_event-Progress}

abbrev echo : List ℕ → List ℕ
echo req = 43 ∷ req

abbrev listening : Client
listening = record {
  status = reading;
  request = 65 ∷ [];
  response = [];
  response_len = 0;
  left = 0;
}

-- `AB\r\n` in three reads
abbrev chunks : List (List ℕ)
chunks = (66 ∷ []) ∷ (13 ∷ []) ∷ (10 ∷ []) ∷ []

abbrev answered : Client
answered = record {
  status = writing;
  request = [];
  response = 43 ∷ 65 ∷ 66 ∷ 13 ∷ 10 ∷ [];
  response_len = 5;
  left = 5;
}

do_event_complete_example : do_event echo (reads chunks) [] listening ≡ some (answered, [])
unfolding is_complete
do_event_complete_example =
    do_event_complete echo chunks [] listening refl (omega arith) refl (omega arith)

abbrev kept : Client
kept = record listening { request = 65 ∷ 66 ∷ [] }

abbrev ones : ℕ → List ℕ
ones zero = []
ones (suc n) = 1 ∷ ones n

do_event_full_example : do_event echo (reads (ones 2047 ∷ [])) [] listening ≡ none
do_event_full_example = do_event_full echo (ones 2047 ∷ []) [] listening refl refl

-- Two bytes are sent, and then the connection blocks.
abbrev left_over : Client
left_over = record answered { left = 3 }

do_event-Progress_example : Progress answered left_over (43 ∷ 65 ∷ [])
unfolding do_event event_in do_write write_loop
do_event-Progress_example =
    do_event-Progress echo [] (took 2 ∷ blocked ∷ []) answered refl (omega arith) refl
      (omega arith, omega arith, record {}) refl
