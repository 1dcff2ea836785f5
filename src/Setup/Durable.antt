-- ===== src/Setup/Durable.antt =====
-- What the journal's file keeps: an event that is appended is read again, and a write that a crash
-- tears costs no event but its own.
use mathlib.Core.List.{append-nil, append_assoc}
use mathlib.Core.List.{append-nil, append_assoc}
use mathlib.Core.List.{append-nil, append_assoc}
use planet_express.Store.Rows.{Text, Time}
use planet_express.Prelude.{
  ℕ, ◌+◌, ◌≤◌, ◌<◌, ◌≡◌, refl, ap, ◌∙◌, subst, ◌≢◌, true, false, Option, none, some, List, [], ◌∷◌,
  ◌++◌, map, arith, ltb, length, length-append,
}
use planet_express.Setup.Events.{Event, Body}
use planet_express.Setup.Journal.{
  File, Line, Journal, json, read, append, last_seq, since, read_lines, add_line, new_event, events,
  open_journal, all_lines, repair_torn_tail, journal_of,
}

-- A file whose lines are these events, the last with its newline.
abbrev pub clean_file : List Event → File
clean_file es = record { lines = map json es; torn = none }

read_lines-json : (es : List Event) → read_lines (map json es) ≡ read es
unfolding read_lines
read_lines-json [] = refl
read_lines-json (e ∷ es) = rw (read_lines-json es)

map-json-append :
    (es : List Event) (e : Event) → map json es ++ (json e ∷ []) ≡ map json (es ++ (e ∷ []))
map-json-append [] e = refl
map-json-append (x ∷ es) e = ap (λ l. json x ∷ l) (map-json-append es e)

-- The sequence numbers go up from `n`.
abbrev IsNumbered : ℕ → List Event → Type 0
IsNumbered n [] = Unit
IsNumbered n (e ∷ es) = (e.seq ≡ n + 1) × IsNumbered (n + 1) es

IsNumbered-append :
    (n : ℕ) (es : List Event) (e : Event)
    → IsNumbered n es
    → e.seq ≡ n + length es + 1
    → IsNumbered n (es ++ (e ∷ []))
IsNumbered-append n [] e h k = (omega arith, tt)
IsNumbered-append n (x ∷ es) e h k = (h.0, IsNumbered-append (n + 1) es e h.1 (omega arith))

last_seq-numbered :
    (n : ℕ) (es : List Event) → IsNumbered n es → es ≢ [] → last_seq es ≡ n + length es
unfolding last_seq
last_seq-numbered n [] h k = absurd (k refl)
last_seq-numbered n (e ∷ []) h k = omega (arith, h.0)
last_seq-numbered n (e ∷ d ∷ es) h k =
    omega (arith, last_seq-numbered (n + 1) (d ∷ es) h.1 (λ q. cc))

-- A journal in use: its file is clean, and its events are numbered from 1 to `seq`.
pub record Holds (j : Journal) (es : List Event) : Type 0 where
  pub clean : j.file ≡ clean_file es
  pub numbered : IsNumbered 0 es
  pub count : j.seq ≡ length es

last_seq-length : (es : List Event) → IsNumbered 0 es → last_seq es ≡ length es
unfolding last_seq
last_seq-length [] h = refl
last_seq-length (e ∷ es) h = omega (arith, last_seq-numbered 0 (e ∷ es) h (λ q. cc))

lt→ltb : (a b : ℕ) → a < b → ltb a b ≡ true
lt→ltb a b h = ground arith

ge→ltb : (a b : ℕ) → b ≤ a → ltb a b ≡ false
ge→ltb a b h = ground arith

since_all : (k n : ℕ) (es : List Event) → k ≤ n → IsNumbered n es → since k es ≡ es
since_all k n [] le h = refl
since_all k n (e ∷ es) le h =
    rw (lt→ltb k e.seq (omega (arith, h.0)))
      (ap (λ l. e ∷ l) (since_all k (n + 1) es (omega arith) h.1))

since_new :
    (k n : ℕ) (es fs : List Event)
    → n + length es ≡ k
    → IsNumbered n es
    → since k (es ++ fs) ≡ since k fs
since_new k n [] fs e h = refl
since_new k n (x ∷ es) fs e h =
    rw (ge→ltb k x.seq (omega (arith, h.0))) (since_new k (n + 1) es fs (omega arith) h.1)

events_clean : (k : ℕ) (es : List Event) → events k (clean_file es) ≡ read (since k es)
unfolding events all_lines
events_clean k es = rw (read_lines-json es, events)

reopens_clean :
    (es : List Event) (t : Option Line) (p : Option Text)
    → IsNumbered 0 es
    → open_journal (record (clean_file es) { torn = t }) p
      ≡ some (record { file = clean_file es; seq = length es; plan = p })
unfolding open_journal repair_torn_tail journal_of
reopens_clean es t p h =
    ap (journal_of (clean_file es) p)
      (events_clean 0 es ∙ ap read (since_all 0 0 es (omega arith) h))
    ∙ ap (λ n. some (record { file = clean_file es; seq = n; plan = p })) (last_seq-length es h)

abbrev pub blank : Journal
blank = record { file = record { lines = []; torn = none }; seq = 0; plan = none }

blank-Holds : Holds blank []
blank-Holds = record { clean = refl; numbered = tt; count = refl }

module _ (redact : Text → Text) (clock : ℕ → Time) where
  -- The event that `append` writes is the next one of the journal.
  append_adds :
      (j : Journal) (es : List Event) (b : Body)
      → Holds j es
      → Holds (append redact clock b j) (es ++ (new_event redact clock j.seq b ∷ []))
  unfolding append add_line new_event
  append_adds j es b h =
      let e = new_event redact clock j.seq b in
      record {
        clean =
            ap (add_line (json e)) h.clean
            ∙ ap (λ l. record { lines = l; torn = none }) (map-json-append es e);
        numbered = IsNumbered-append 0 es e h.numbered (omega (arith, h.count));
        count = rw (length-append es (e ∷ [])) (omega (arith, h.count));
      }

  abbrev pub append_all : List Body → Journal → Journal
  append_all [] j = j
  append_all (b ∷ bs) j = append_all bs (append redact clock b j)

  -- The events that `append` writes of the bodies, from the number behind `n` on.
  abbrev pub new_events : ℕ → List Body → List Event
  new_events n [] = []
  new_events n (b ∷ bs) = new_event redact clock n b ∷ new_events (n + 1) bs

  appended :
      (j : Journal) (es : List Event) (bs : List Body)
      → Holds j es
      → Holds (append_all bs j) (es ++ new_events j.seq bs)
  unfolding append
  appended j es [] h = rw append-nil h
  appended j es (b ∷ bs) h =
      subst (Holds (append_all bs (append redact clock b j)))
        (append_assoc es (new_event redact clock j.seq b ∷ []) (new_events (j.seq + 1) bs))
        (appended (append redact clock b j) _ bs (append_adds j es b h))

  IsNumbered-new : (n : ℕ) (bs : List Body) → IsNumbered n (new_events n bs)
  unfolding new_event
  IsNumbered-new n [] = tt
  IsNumbered-new n (b ∷ bs) = (refl, IsNumbered-new (n + 1) bs)

  -- After any events that are appended to a new journal, the file reads back as those events, in
  -- their order and numbered from 1; and a journal that is opened on that file, with anything that a
  -- torn write has left behind its last line, is the one that was closed.
  pub journal_reopens :
      (bs : List Body) (t : Option Line)
      → let j = append_all bs blank in
        (events 0 j.file ≡ read (new_events 0 bs))
        × (open_journal (record j.file { torn = t }) j.plan ≡ some j)
  journal_reopens bs t =
      let j = append_all bs blank in
      let es = new_events 0 bs in
      let h = appended blank [] bs blank-Holds in
      (
        ap (events 0) h.clean
            ∙ events_clean 0 es
            ∙ ap read (since_all 0 0 es (omega arith) h.numbered),
        ap (λ f. open_journal (record f { torn = t }) j.plan) h.clean
            ∙ reopens_clean es t j.plan h.numbered
            ∙ ground (arith, h.clean, h.count),
      )

  -- A reader that asks for what came after the events it knows gets exactly the new ones.
  pub events_since :
      (cs bs : List Body)
      → let j = append_all cs blank in
        events j.seq (append_all bs j).file ≡ read (new_events j.seq bs)
  events_since cs bs =
      let j = append_all cs blank in
      let h = appended blank [] cs blank-Holds in
      let k = appended j (new_events 0 cs) bs h in
      ap (events j.seq) k.clean
      ∙ events_clean j.seq (new_events 0 cs ++ new_events j.seq bs)
      ∙ ap read (
          since_new j.seq 0 (new_events 0 cs) (new_events j.seq bs) (omega (arith, h.count))
            h.numbered
          ∙ since_all j.seq j.seq (new_events j.seq bs) (omega arith) (IsNumbered-new j.seq bs))
