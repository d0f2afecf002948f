-- ===== src/Multipart/Feeding.antt =====
-- The loop of `http_parse_multipart` (ext/iodine/http.c), which gives the body to facil.io's parser
-- a buffer at a time.
use iodine.Base.{ℕ, zero, suc, ◌+◌, Bool, ◌||◌, List, [], Option, none, some, if◌then◌else◌, u64}
use iodine.Multipart.{Descriptor, Form, new_form, Event, Outcome, returns, raised, call_all}

-- What one call of `http_mime_parse` does: its callbacks, what it consumes, and its new state.
pub record Parsed (S : Type 0) : Type 0 where
  pub events : List Event
  pub consumed : ℕ
  pub state : S

-- What the loop uses of facil.io: the parser with its two flags, and `fiobj_data_pread` on the
-- body, where no buffer is `none`.
pub record Feed : Type 1 where
  pub State : Type 0
  pub parse : State → List ℕ → Parsed State
  pub is_done : State → Bool
  pub is_error : State → Bool
  pub pread : ℕ → Option (List ℕ)

-- How the loop ends, or where it is when the fuel is out: it goes on with this buffer.
pub data Answer (S : Type 0) : Type 0 where
  ended : Outcome → S → Answer S
  still : S → List ℕ → Form → Answer S

abbrev pub advance : ℕ → Form → Form
advance n f = record f { pos = u64 (f.pos + n) }

module _ (feed : Feed) (after : ℕ) (open_file : ℕ → Descriptor) (body : List ℕ) where
  open feed use {State, parse, is_done, is_error, pread}

  abbrev pub go_on :
      (State → List ℕ → Form → Answer State) → State → Form → Option (List ℕ) → Answer State
  go_on loop st f none = ended (returns f) st
  go_on loop st f (some buffer) =
      if is_done st || is_error st then ended (returns f) st else loop st buffer f

  abbrev pub after_calls :
      (State → List ℕ → Form → Answer State) → Parsed State → Outcome → Answer State
  after_calls loop p (raised e f) = ended (raised e f) p.state
  after_calls loop p (returns f) =
      let g = advance p.consumed f in go_on loop p.state g (pread g.pos)

  unfoldable pub feed_loop : ℕ → State → List ℕ → Form → Answer State
  unfolding call_all
  feed_loop zero st buffer f = still st buffer f
  feed_loop (suc fuel) st buffer f =
      let p = parse st buffer in
      after_calls (λ st' buffer' g. feed_loop fuel st' buffer' g) p
        (call_all after open_file body p.events f)

  -- `none` for a content type that `http_mime_parser_init` refuses: "Malformed multipart request".
  unfoldable pub parse_multipart : ℕ → Option State → Option (Answer State)
  unfolding feed_loop new_form
  parse_multipart fuel none = none
  parse_multipart fuel (some st) = some (feed_loop fuel st [] new_form)
