-- ===== src/Setup/Journal.antt =====
-- The journal's file: `Journal` of planet_express/setup/journal.py, its lines complete or torn. The
-- plan of one journal has one directory, and `_open`, `_exists` and `close` are the file system's.
use planet_express.Store.Rows.{Text, Time}
use planet_express.Prelude.{ℕ, ◌+◌, Option, none, some, List, [], ◌∷◌, ◌++◌, ltb, select}
use planet_express.Setup.Events.{Event, Body, scrub}

-- A line is an event's JSON or is not valid JSON.
pub data Line : Type 0 where
  json : Event → Line
  garbage : Line

-- The complete lines, and what stands behind the last newline.
pub record File : Type 0 where
  pub lines : List Line
  pub torn : Option Line

pub data Reading : Type 0 where
  read : List Event → Reading
  corrupt : Reading

-- `loads` of the lines in turn: only the last may be bad.
unfoldable pub read_lines : List Line → Reading
read_lines [] = read []
read_lines (json e ∷ ls) = elim (read_lines ls) [ read es ↦ read (e ∷ es) | corrupt ↦ corrupt ]
read_lines (garbage ∷ []) = read []
read_lines (garbage ∷ l ∷ ls) = corrupt

unfoldable pub all_lines : File → List Line
all_lines f = elim f.torn [ none ↦ f.lines | some l ↦ f.lines ++ (l ∷ []) ]

abbrev pub since : ℕ → List Event → List Event
since after es = select (λ e. ltb after e.seq) es

-- `events`; a file that is not there has no lines.
unfoldable pub events : ℕ → File → Reading
unfolding read_lines all_lines
events after f = elim (read_lines (all_lines f)) [
  | read es ↦ read (since after es)
  | corrupt ↦ corrupt
]

-- `_repair_torn_tail`
unfoldable pub repair_torn_tail : File → File
repair_torn_tail f = record f { torn = none }

pub record Journal : Type 0 where
  pub file : File
  pub seq : ℕ
  pub plan : Option Text

-- `existing[-1]["seq"]`, or 0
unfoldable pub last_seq : List Event → ℕ
last_seq [] = 0
last_seq (e ∷ []) = e.seq
last_seq (e ∷ d ∷ es) = last_seq (d ∷ es)

-- The journal whose file has been read; `none` is `JournalCorrupt`.
unfoldable pub journal_of : File → Option Text → Reading → Option Journal
unfolding last_seq
journal_of f p (read es) = some (record { file = f; seq = last_seq es; plan = p })
journal_of f p corrupt = none

-- `__init__`, on the file that an earlier run left.
unfoldable pub open_journal : File → Option Text → Option Journal
unfolding repair_torn_tail events journal_of
open_journal f p = let g = repair_torn_tail f in journal_of g p (events 0 g)

-- What `O_APPEND` makes of the file: behind an unfinished line the new one is part of no JSON.
unfoldable pub add_line : Line → File → File
add_line l f = elim f.torn [
  | none ↦ record f { lines = f.lines ++ (l ∷ []) }
  | some t ↦ record { lines = f.lines ++ (garbage ∷ []); torn = none }
]

module _ (redact : Text → Text) (clock : ℕ → Time) where
  -- `append`: the event that is written, `clock n` the time at which event `n` is.
  unfoldable pub new_event : ℕ → Body → Event
  unfolding scrub
  new_event last b = record { seq = last + 1; ts = clock (last + 1); body = scrub redact b }

  unfoldable pub append : Body → Journal → Journal
  unfolding new_event add_line
  append b j = record j { seq = j.seq + 1; file = add_line (json (new_event j.seq b)) j.file }

-- `save_plan`: once.
unfoldable pub save_plan : Text → Journal → Journal
save_plan p j = elim j.plan [ none ↦ record j { plan = some p } | some q ↦ j ]
