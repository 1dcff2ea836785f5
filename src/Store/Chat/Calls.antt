-- ===== src/Store/Chat/Calls.antt =====
-- Sequences of the operations on chat tickets of core/store.py.
use planet_express.Prelude.{
  and_right, ℕ, ◌+◌, ◌≤◌, ◌≡◌, refl, ap, ◌∙◌, inl, inr, Bool, true, false, ◌&&◌, Option, none, some,
  List, [], ◌∷◌, ◌++◌, arith, leb, ◌==◌, if◌then◌else◌, is_some, Bool-cases, Option-cases, find_row,
  count_where, update_where, count_where-append, All-intro, Evolves, Evolves-refl, Evolves-append,
  Evolves-update_where, Evolves-trans, Evolves-find_row,
}
use planet_express.Store.Rows.{Text, Time, ChatTicket, Db, Event, ChatStatus, EventDetail}
use planet_express.Store.Tx.{write, Ensures-write, append_event, Ensures, event}
use planet_express.Store.Chat.{
  is_waiting, Ending, create_chat_ticket, set_chat_ticket_running, finish_chat_ticket,
  reserve_llm_call, interrupt_chat_tickets, charge, update_tickets, chat_quota, queue_ticket,
  has_ticket_id, insert_ticket, is_call, note_finished, is_queued, end_ticket, is_submission,
  new_ticket,
}

pub data ChatCall : Type 0 where
  creates : Text → Text → Text → Text → ChatCall
  runs : Text → ChatCall
  finishes : Text → Ending → ChatCall
  reserves : Text → ChatCall
  interrupts : Text → ChatCall

-- A row of the same ticket, which has not moved if it was finished.
pub record Kept (t u : ChatTicket) : Type 0 where
  pub same_id : u.id ≡ t.id
  pub finished : is_waiting t.status ≡ false → u.status ≡ t.status
  pub same_answer :
      is_waiting t.status ≡ false
      → (u.outcome ≡ t.outcome) × (u.answer ≡ t.answer) × (u.finished_at ≡ t.finished_at)

abbrev NewRow : ChatTicket → Type 0
NewRow t = Unit {0}

abbrev KeepsTickets : Db → Db → Type 0
KeepsTickets db db' = Evolves Kept NewRow db.chat_tickets db'.chat_tickets

Kept-refl : (t : ChatTicket) → Kept t t
Kept-refl t = record { same_id = refl; finished = λ h. refl; same_answer = λ h. (refl, refl, refl) }

Kept-trans : (t u v : ChatTicket) → Kept t u → Kept u v → Kept t v
Kept-trans t u v a b = record {
  same_id = b.same_id ∙ a.same_id;
  finished = λ h. b.finished (ap is_waiting (a.finished h) ∙ h) ∙ a.finished h;
  same_answer = λ h.
      let x = a.same_answer h in
      let y = b.same_answer (ap is_waiting (a.finished h) ∙ h) in (y.0 ∙ x.0, y.1 ∙ x.1, y.2 ∙ x.2);
}

Kept-waiting : (t u : ChatTicket) → u.id ≡ t.id → is_waiting t.status ≡ true → Kept t u
Kept-waiting t u i h = record { same_id = i; finished = λ e. cc; same_answer = λ e. (cc, cc, cc) }

is_queued-is_waiting : (s : ChatStatus) → is_queued s ≡ true → is_waiting s ≡ true
is_queued-is_waiting ChatStatus.queued h = refl
is_queued-is_waiting ChatStatus.running h = refl
is_queued-is_waiting ChatStatus.done h = cc
is_queued-is_waiting ChatStatus.failed h = cc
is_queued-is_waiting ChatStatus.interrupted h = cc

abbrev plain_event : Time → EventDetail → Option Text → Event
plain_event now d approval = record {
  ts = now;
  detail = d;
  approval_id = approval;
  execution_id = none;
}

no_call : (now day_start : Time) → (leb day_start now && false) ≡ false
no_call now day_start = ground arith

-- With a limit and the time when the day started: what one write keeps.
module _ (limit : ℕ) (day_start : Time) where
  record Fine (db db' : Db) : Type 0 where
    tickets : KeepsTickets db db'
    quota : chat_quota day_start db ≤ limit → chat_quota day_start db' ≤ limit

  Fine-refl : (db : Db) → Fine db db
  Fine-refl db = record {
    tickets = Evolves-refl Kept NewRow Kept-refl db.chat_tickets;
    quota = λ h. h;
  }

  chat_quota-append_event :
      (e : Event) (db : Db)
      → chat_quota day_start (append_event e db)
        ≡ chat_quota day_start db + (if is_call day_start e then 1 else 0)
  unfolding chat_quota
  chat_quota-append_event e db =
      omega (arith, count_where-append (is_call day_start) db.events (e ∷ []))

  added_same :
      (t : ChatTicket) (db : Db)
      → chat_quota day_start db ≤ limit
      → chat_quota day_start (record db { chat_tickets = db.chat_tickets ++ t ∷ [] }) ≤ limit
  unfolding chat_quota
  added_same t db h = h

  Fine-event :
      (e : Event) (db db' : Db)
      → is_call day_start e ≡ false
      → Fine db db'
      → Fine db (append_event e db')
  Fine-event e db db' n f = record {
    tickets = f.tickets;
    quota = λ h. rw (chat_quota-append_event e db', n) (omega (arith, f.quota h));
  }

  Fine-update :
      (p : ChatTicket → Bool) (g : ChatTicket → ChatTicket) (db : Db)
      → ((t : ChatTicket) → p t ≡ true → Kept t (g t))
      → Fine db (record db { chat_tickets = update_where p g db.chat_tickets })
  unfolding chat_quota
  Fine-update p g db k = record {
    tickets =
        Evolves-update_where Kept NewRow Kept-refl p g db.chat_tickets
          (All-intro (λ t. p t ≡ true → Kept t (g t)) db.chat_tickets k);
    quota = λ h. h;
  }

  queue-Fine :
      (now : Time) (t : ChatTicket) (db : Db)
      → Ensures (λ a db'. Fine db db') (queue_ticket now t db)
  unfolding queue_ticket insert_ticket event
  queue-Fine now t db =
      elim (Bool-cases (is_some (find_row (has_ticket_id t.id) db.chat_tickets))) [
        | inl x ↦ rw (Ensures, queue_ticket, insert_ticket, x) tt
        | inr x ↦
            rw (Ensures, queue_ticket, insert_ticket, x)
              (Fine-event (plain_event now (EventDetail.chat_queued t.id) none) db
                (record db { chat_tickets = db.chat_tickets ++ t ∷ [] }) (no_call now day_start)
                (record {
                  tickets = Evolves-append Kept NewRow Kept-refl db.chat_tickets (t ∷ []) (tt, tt);
                  quota = added_same t db;
                }))
      ]

  create-Fine :
      (now : Time) (id o s q : Text) (db : Db)
      → Ensures (λ a db'. Fine db db') (create_chat_ticket now id o s q db)
  unfolding create_chat_ticket queue_ticket insert_ticket event
  create-Fine now id o s q db = elim (Option-cases (find_row (is_submission o s) db.chat_tickets)) [
    | inr (t, e) ↦ rw (create_chat_ticket, e) (Fine-refl db)
    | inl e ↦ rw (create_chat_ticket, e) (queue-Fine now (new_ticket now id o s q) db)
  ]

  running-Fine :
      (id : Text) (db : Db) → Ensures (λ a db'. Fine db db') (set_chat_ticket_running id db)
  unfolding set_chat_ticket_running update_tickets
  running-Fine id db =
      Fine-update (λ t. has_ticket_id id t && is_queued t.status)
        (λ t. record t { status = ChatStatus.running }) db
        (λ t h.
          Kept-waiting t (record t { status = ChatStatus.running }) refl
            (is_queued-is_waiting t.status (and_right (has_ticket_id id t) (is_queued t.status) h)))

  end-Fine :
      (now : Time) (id : Text) (e : Ending) (db : Db)
      → Fine db (record db {
        chat_tickets =
            update_where
              (λ t. has_ticket_id id t && is_waiting t.status)
              (end_ticket now e)
              db.chat_tickets;
      })
  end-Fine now id e db =
      Fine-update (λ t. has_ticket_id id t && is_waiting t.status) (end_ticket now e) db
        (λ t h.
          Kept-waiting t (end_ticket now e t) refl
            (and_right (has_ticket_id id t) (is_waiting t.status) h))

  finish-Fine :
      (now : Time) (id : Text) (e : Ending) (db : Db)
      → Ensures (λ a db'. Fine db db') (finish_chat_ticket now id e db)
  unfolding finish_chat_ticket update_tickets note_finished event
  finish-Fine now id e db = elim (Bool-cases (is_waiting e.status)) [
    | inl x ↦ rw (finish_chat_ticket, x) tt
    | inr x ↦
        elim (Bool-cases
          (count_where (λ t. has_ticket_id id t && is_waiting t.status) db.chat_tickets == 0)) [
            | inl c ↦ rw (finish_chat_ticket, x, c) (end-Fine now id e db)
            | inr c ↦
                rw (finish_chat_ticket, x, c)
                  (Fine-event
                    (plain_event now (EventDetail.chat_finished id e.status) e.approval_id) db
                    (record db {
                      chat_tickets =
                          update_where (λ t. has_ticket_id id t && is_waiting t.status)
                            (end_ticket now e) db.chat_tickets;
                    })
                    (no_call now day_start) (end-Fine now id e db))
          ]
  ]

  abbrev charged_db : Text → Db → Db
  charged_db id db = record db {
    chat_tickets =
        update_where (has_ticket_id id) (λ t. record t { llm_calls = t.llm_calls + 1 })
          db.chat_tickets;
  }

  charged_same :
      (id : Text) (db : Db) → chat_quota day_start (charged_db id db) ≡ chat_quota day_start db
  unfolding chat_quota
  charged_same id db = refl

  charged :
      (now : Time) (id : Text) (db : Db)
      → leb limit (chat_quota day_start db) ≡ false
      → Fine db
          (append_event (plain_event now (EventDetail.chat_llm_call id) none) (charged_db id db))
  charged now id db l =
      let f =
        Fine-update (has_ticket_id id) (λ t. record t { llm_calls = t.llm_calls + 1 }) db
          (λ t h. record {
            same_id = refl;
            finished = λ e. refl;
            same_answer = λ e. (refl, refl, refl);
          }) in
      record {
        tickets = f.tickets;
        quota = λ h.
            rw
              (chat_quota-append_event (plain_event now (EventDetail.chat_llm_call id) none)
                (charged_db id db))
              (ground (arith, l, charged_same id db));
      }

  reserve-Fine :
      (now : Time) (id : Text) (db : Db)
      → Ensures (λ a db'. Fine db db') (reserve_llm_call now id limit day_start db)
  unfolding reserve_llm_call charge update_tickets event
  reserve-Fine now id db = elim (Bool-cases (leb limit (chat_quota day_start db))) [
    | inl l ↦ rw (reserve_llm_call, l) (Fine-refl db)
    | inr l ↦ elim (Bool-cases (count_where (has_ticket_id id) db.chat_tickets == 0)) [
      | inl c ↦ rw (reserve_llm_call, l, c) tt
      | inr c ↦ rw (reserve_llm_call, l, c) (charged now id db l)
    ]
  ]

  interrupt-Fine :
      (now : Time) (reason : Text) (db : Db)
      → Ensures (λ a db'. Fine db db') (interrupt_chat_tickets now reason db)
  unfolding interrupt_chat_tickets update_tickets
  interrupt-Fine now reason db =
      Fine-update (λ t. is_waiting t.status)
        (λ t. record t {
          status = ChatStatus.interrupted;
          error = some reason;
          finished_at = some now;
        })
        db
        (λ t h.
          Kept-waiting t
            (record t {
              status = ChatStatus.interrupted;
              error = some reason;
              finished_at = some now;
            })
            refl h)

  -- What a sequence of calls leaves, each at its time.
  unfoldable pub chat_call : Db → Time × ChatCall → Db
  unfolding create_chat_ticket set_chat_ticket_running finish_chat_ticket reserve_llm_call
      interrupt_chat_tickets
  chat_call db (now, creates id o s q) = (write (create_chat_ticket now id o s q) db).1
  chat_call db (now, runs id) = (write (set_chat_ticket_running id) db).1
  chat_call db (now, finishes id e) = (write (finish_chat_ticket now id e) db).1
  chat_call db (now, reserves id) = (write (reserve_llm_call now id limit day_start) db).1
  chat_call db (now, interrupts reason) = (write (interrupt_chat_tickets now reason) db).1

  unfoldable pub chat_calls : Db → List (Time × ChatCall) → Db
  unfolding chat_call
  chat_calls db [] = db
  chat_calls db (c ∷ cs) = chat_calls (chat_call db c) cs

  chat_call-Fine : (db : Db) (c : Time × ChatCall) → Fine db (chat_call db c)
  unfolding chat_call
  chat_call-Fine db (now, creates id o s q) =
      Ensures-write (Fine db) (create_chat_ticket now id o s q) db (Fine-refl db)
        (create-Fine now id o s q db)
  chat_call-Fine db (now, runs id) =
      Ensures-write (Fine db) (set_chat_ticket_running id) db (Fine-refl db) (running-Fine id db)
  chat_call-Fine db (now, finishes id e) =
      Ensures-write (Fine db) (finish_chat_ticket now id e) db (Fine-refl db)
        (finish-Fine now id e db)
  chat_call-Fine db (now, reserves id) =
      Ensures-write (Fine db) (reserve_llm_call now id limit day_start) db (Fine-refl db)
        (reserve-Fine now id db)
  chat_call-Fine db (now, interrupts reason) =
      Ensures-write (Fine db) (interrupt_chat_tickets now reason) db (Fine-refl db)
        (interrupt-Fine now reason db)

  Fine-trans : (a b c : Db) → Fine a b → Fine b c → Fine a c
  Fine-trans a b c x y = record {
    tickets =
        Evolves-trans Kept NewRow Kept-trans (λ t u n k. tt) a.chat_tickets b.chat_tickets
          c.chat_tickets x.tickets y.tickets;
    quota = λ h. y.quota (x.quota h);
  }

  chat_calls-Fine : (db : Db) (cs : List (Time × ChatCall)) → Fine db (chat_calls db cs)
  unfolding chat_calls
  chat_calls-Fine db [] = Fine-refl db
  chat_calls-Fine db (c ∷ cs) =
      Fine-trans db (chat_call db c) (chat_calls (chat_call db c) cs) (chat_call-Fine db c)
        (chat_calls-Fine (chat_call db c) cs)

  -- Over any sequence of the operations on chat tickets, all with one limit and one start of the day: the
  -- calls to the model that the day counts stay within the limit if they were; and a ticket is found again
  -- under its id, with its status, its answer and its end unchanged if it was finished.
  pub chat_calls_keep :
      (db : Db) (cs : List (Time × ChatCall)) (id : Text) (t : ChatTicket)
      → chat_quota day_start db ≤ limit
      → find_row (has_ticket_id id) db.chat_tickets ≡ some t
      → (chat_quota day_start (chat_calls db cs) ≤ limit)
        × ((u : ChatTicket) × (find_row (has_ticket_id id) (chat_calls db cs).chat_tickets ≡ some u)
            × Kept t u)
  chat_calls_keep db cs id t h f =
      let k = chat_calls-Fine db cs in
      (
        k.quota h,
        Evolves-find_row Kept NewRow (has_ticket_id id) (λ x y e. ap (λ i. i == id) e.same_id)
            db.chat_tickets (chat_calls db cs).chat_tickets k.tickets t f,
      )
