-- ===== src/Store/Chat.antt =====
-- The chat tickets of core/store.py, and the daily quota of calls to the language model.
--
--   ticket: queued ──► running ──► done | failed | interrupted     (queued may end at once)
pub mod Calls
use planet_express.Prelude.{
  All-select, ℕ, zero, suc, ◌+◌, ◌-◌, ◌*◌, ◌/◌, ◌%◌, ◌≤◌, ◌<◌, ◌≡◌, refl, sym, ap, ◌∙◌, subst, ◌≢◌,
  ◌↔◌, ◌⊎◌, inl, inr, Bool, true, false, not, ◌&&◌, ◌||◌, Option, none, some, List, [], ◌∷◌, ◌++◌,
  map, arith, ltb, leb, ◌==◌, if◌then◌else◌, is_none, is_some, opt_eq, coalesce, Bool-cases,
  Option-cases, eq-of-==, ==_refl, length, select, find_row, count_where, touch, update_where, All,
  length-append, count_where-append, All-append, All-intro, All-map, All-touch, All-update_where,
  All-find_row, find_row-update_where, find_row-append, find_row_fits, count_where_zero,
  find_row_none, count_where-update_where-le, update_where_none, Evolves, Evolves-refl,
  Evolves-append, Evolves-update_where, Evolves-trans, Evolves-find_row, All-Evolves,
  find_row-update_where_kept, found_of_count, count_of_found, find_row_weaken, count_where_none,
  DistinctOn, DistinctOn-update_where, DistinctOn-append, DistinctOn-found, DistinctOn-count,
  DistinctOn-count_found,
}
use planet_express.Store.Rows.{
  Text, Time, ChatStatus, ChatOutcome, ChatTicket, Db, Event, EventDetail, other,
}
use planet_express.Store.Tx.{
  Tx, ◌>>=◌, ◌>>◌, pure, raise, gets, guard, event, value_error, integrity_error,
}

abbrev pub has_ticket_id : Text → ChatTicket → Bool
has_ticket_id id t = t.id == id

abbrev pub is_submission : Text → Text → ChatTicket → Bool
is_submission operator submission t = t.operator == operator && t.submission_id == submission

-- `status IN ('queued', 'running')`
abbrev pub is_waiting : ChatStatus → Bool
is_waiting ChatStatus.queued = true
is_waiting ChatStatus.running = true
is_waiting _ = false

abbrev pub is_queued : ChatStatus → Bool
is_queued ChatStatus.queued = true
is_queued _ = false

abbrev pub new_ticket : Time → Text → Text → Text → Text → ChatTicket
new_ticket now id operator submission question = record {
  id = id;
  operator = operator;
  submission_id = submission;
  question = question;
  status = ChatStatus.queued;
  outcome = none;
  answer = none;
  evidence = 0;
  cited = 0;
  approval_id = none;
  error = none;
  llm_calls = 0;
  created_at = now;
  finished_at = none;
}

-- The primary key; that the submission is new was asked before.
insert_ticket : ChatTicket → Tx (Unit {0})
insert_ticket t db =
    if is_some (find_row (has_ticket_id t.id) db.chat_tickets)
    then raise integrity_error db
    else pure tt (record db { chat_tickets = db.chat_tickets ++ t ∷ [] })

queue_ticket : Time → ChatTicket → Tx (ChatTicket × Bool)
unfolding insert_ticket event
queue_ticket now t = do
  insert_ticket t
  event now (EventDetail.chat_queued t.id) none none
  pure (t, true)

-- `Store.create_chat_ticket`: the ticket, and whether it is new.
unfoldable pub create_chat_ticket : Time → Text → Text → Text → Text → Tx (ChatTicket × Bool)
unfolding queue_ticket
create_chat_ticket now id operator submission question db =
    elim (find_row (is_submission operator submission) db.chat_tickets) [
      | some t ↦ pure (t, false) db
      | none ↦ queue_ticket now (new_ticket now id operator submission question) db
    ]

-- An `UPDATE chat_tickets`: how many rows it changes.
unfoldable pub update_tickets : (ChatTicket → Bool) → (ChatTicket → ChatTicket) → Tx ℕ
update_tickets p f db =
    pure (count_where p db.chat_tickets)
      (record db { chat_tickets = update_where p f db.chat_tickets })

-- `Store.set_chat_ticket_running`
unfoldable pub set_chat_ticket_running : Text → Tx ℕ
unfolding update_tickets
set_chat_ticket_running id =
    update_tickets (λ t. has_ticket_id id t && is_queued t.status)
      (λ t. record t { status = ChatStatus.running })

-- What `finish_chat_ticket` is called with.
pub record Ending : Type 0 where
  pub status : ChatStatus
  pub outcome : Option ChatOutcome
  pub answer : Option Text
  pub evidence : Text
  pub cited : Text
  pub approval_id : Option Text
  pub error : Option Text

abbrev pub end_ticket : Time → Ending → ChatTicket → ChatTicket
end_ticket now e t = record t {
  status = e.status;
  outcome = e.outcome;
  answer = e.answer;
  evidence = e.evidence;
  cited = e.cited;
  approval_id = e.approval_id;
  error = e.error;
  finished_at = some now;
}

note_finished : Time → Text → Ending → ℕ → Tx (Unit {0})
unfolding event
note_finished now id e changed =
    if changed == 0
    then pure tt
    else event now (EventDetail.chat_finished id e.status) e.approval_id none

-- `Store.finish_chat_ticket`
unfoldable pub finish_chat_ticket : Time → Text → Ending → Tx (Unit {0})
unfolding update_tickets note_finished
finish_chat_ticket now id e = do
  guard (not (is_waiting e.status)) value_error
  changed ← update_tickets (λ t. has_ticket_id id t && is_waiting t.status) (end_ticket now e)
  note_finished now id e changed

-- `kind='chat.llm_call' AND ts>=?`
abbrev pub is_call : Time → Event → Bool
is_call day_start e =
    leb day_start e.ts && (elim e.detail [ EventDetail.chat_llm_call t ↦ true | _ ↦ false ])

-- `Store.chat_quota`
unfoldable pub chat_quota : Time → Db → ℕ
chat_quota day_start db = count_where (is_call day_start) db.events

unfoldable pub charge : Time → Text → Tx Bool
unfolding update_tickets event
charge now id = do
  changed ← update_tickets (has_ticket_id id) (λ t. record t { llm_calls = t.llm_calls + 1 })
  guard (not (changed == 0)) value_error
  event now (EventDetail.chat_llm_call id) none none
  pure true

-- `Store.reserve_llm_call`
unfoldable pub reserve_llm_call : Time → Text → ℕ → Time → Tx Bool
unfolding chat_quota charge
reserve_llm_call now id limit day_start db =
    if leb limit (chat_quota day_start db) then pure false db else charge now id db

-- `Store.interrupt_chat_tickets`
unfoldable pub interrupt_chat_tickets : Time → Text → Tx ℕ
unfolding update_tickets
interrupt_chat_tickets now reason =
    update_tickets (λ t. is_waiting t.status)
      (λ t. record t {
        status = ChatStatus.interrupted;
        error = some reason;
        finished_at = some now;
      })
