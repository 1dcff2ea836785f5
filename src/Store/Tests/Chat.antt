-- ===== src/Store/Tests/Chat.antt =====
-- Runs of the chat tickets of core/store.py, and a witness.
use planet_express.Prelude.{◌≤◌, ◌≡◌, refl, false, none, some, List, [], ◌∷◌, arith, find_row}
use planet_express.Store.Rows.{Time, ChatStatus, ChatOutcome, ChatTicket, Db, empty_db}
use planet_express.Store.Tx.{write, ok, err, value_error}
use planet_express.Store.Chat.{
  has_ticket_id, new_ticket, Ending, create_chat_ticket, finish_chat_ticket, reserve_llm_call,
  chat_quota,
}
use planet_express.Store.Chat.Calls.{
  ChatCall, creates, runs, finishes, reserves, interrupts, chat_calls, chat_calls_keep, Kept,
}

abbrev answer : Ending
answer = record {
  status = ChatStatus.done;
  outcome = some ChatOutcome.gave_answer;
  answer = some 8;
  evidence = 0;
  cited = 0;
  approval_id = none;
  error = none;
}

-- A ticket that was answered with one call to the model.
abbrev answered : Db
answered =
    chat_calls 2 100 empty_db
      ((110, creates 1 5 6 7) ∷ (111, runs 1) ∷ (112, reserves 1) ∷ (113, finishes 1 answer) ∷ [])

abbrev done_ticket : ChatTicket
done_ticket = record (new_ticket 110 1 5 6 7) {
  status = ChatStatus.done;
  outcome = some ChatOutcome.gave_answer;
  answer = some 8;
  llm_calls = 1;
  finished_at = some 113;
}

answered_once : answered.chat_tickets ≡ done_ticket ∷ []
unfolding chat_calls create_chat_ticket reserve_llm_call write
answered_once = refl

-- The same submission again is the same ticket.
asks_twice : (write (create_chat_ticket 120 2 5 6 7) answered).0 ≡ ok (done_ticket, false)
unfolding write create_chat_ticket chat_calls reserve_llm_call
asks_twice = refl

runs_on_queue_only :
    (write (finish_chat_ticket 120 1 (record answer { status = ChatStatus.running })) answered).0
    ≡ err value_error
unfolding write finish_chat_ticket chat_calls
runs_on_queue_only = refl

-- After it is answered, it takes the second call of the day; the third is refused.
abbrev later : List (Time × ChatCall)
later = (120, reserves 1) ∷ (121, reserves 1) ∷ (122, finishes 1 answer) ∷ (123, interrupts 9) ∷ []

used_up : chat_quota 100 (chat_calls 2 100 answered later) ≡ 2
unfolding chat_quota chat_calls create_chat_ticket reserve_llm_call write
used_up = refl

one_used : chat_quota 100 answered ≤ 2
unfolding chat_quota chat_calls create_chat_ticket reserve_llm_call write
one_used = omega arith

chat_calls_keep_example :
    (chat_quota 100 (chat_calls 2 100 answered later) ≤ 2)
    × ((u : ChatTicket) × (find_row (has_ticket_id 1) (chat_calls 2 100 answered later).chat_tickets
          ≡ some u)
        × Kept done_ticket u)
unfolding chat_calls create_chat_ticket reserve_llm_call write
chat_calls_keep_example = chat_calls_keep 2 100 answered later 1 done_ticket one_used refl
