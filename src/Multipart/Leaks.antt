-- ===== src/Multipart/Leaks.antt =====
-- Which descriptors a multipart body leaves open (ext/iodine/http.c).
use iodine.Base.{
  arith, ℕ, zero, suc, ◌+◌, ◌≡◌, ◌≢◌, refl, ap, inl, inr, Bool, true, false, ◌||◌, List, [],
  Option-cases, Bool-cases,
}
use iodine.Params.Tree.{Error, raises}
use iodine.Params.Adding.{add_to_params}
use iodine.Multipart.{
  Descriptor, no_file, fd, Form, new_form, on_partial_end, Outcome, returns, raised, call, call_all,
}
use iodine.Multipart.Feeding.{Parsed, Feed, advance, Answer, ended, still, after_calls, feed_loop}
use iodine.Multipart.Descriptors.{
  opens, closes, held, Balanced, Leaves, IsOrdered, IsKept, IsKept-all,
}

-- What is open when the loop has ended, by whether the parser ended inside of a part.
abbrev pub EndsClosed : Bool → Outcome → Type 0
EndsClosed false (returns f) = opens f.done ≡ closes f.done
EndsClosed true (returns f) = opens f.done ≡ closes f.done + held f.partial_fd
EndsClosed inside (raised e f) = opens f.done ≡ closes f.done + held f.partial_fd

ends_closed : (inside : Bool) (o : Outcome) → Leaves (IsKept inside) o → EndsClosed inside o
ends_closed false (returns f) (bal, none_held) = omega (arith, bal, ap held (none_held refl))
ends_closed true (returns f) (bal, none_held) = bal
ends_closed false (raised e f) bal = bal
ends_closed true (raised e f) bal = bal

module _ (feed : Feed) (after : ℕ) (open_file : ℕ → Descriptor) (body : List ℕ)
    (inside : feed.State → Bool) (some_file : (i : ℕ) → open_file i ≢ no_file)
    (ordered : (st : feed.State) (buffer : List ℕ)
      → let p = feed.parse st buffer in IsOrdered (inside st) p.events (inside p.state)) where
  open feed use {State, parse, is_done, is_error, pread}

  abbrev AnswerKept : Answer State → Type 0
  AnswerKept (still st buffer f) = IsKept (inside st) f
  AnswerKept (ended o st) = Leaves (IsKept (inside st)) o

  -- Every descriptor is accounted for: in the end as above, and between two rounds it is closed unless
  -- it is that of the part at hand.
  abbrev pub Accounted : Answer State → Type 0
  Accounted (still st buffer f) = opens f.done ≡ closes f.done + held f.partial_fd
  Accounted (ended o st) = EndsClosed (inside st) o

  closed_of_kept : (a : Answer State) → AnswerKept a → Accounted a
  closed_of_kept (still st buffer f) (bal, none_held) = bal
  closed_of_kept (ended o st) kept = ends_closed (inside st) o kept

  kept_round :
      (loop : State → List ℕ → Form → Answer State) (p : Parsed State) (o : Outcome)
      → ((buffer : List ℕ) (g : Form)
          → IsKept (inside p.state) g
          → AnswerKept (loop p.state buffer g))
      → Leaves (IsKept (inside p.state)) o
      → AnswerKept (after_calls feed after open_file body loop p o)
  kept_round loop p (raised e g) h kept = kept
  kept_round loop p (returns g) h kept = elim (Option-cases (pread (advance p.consumed g).pos)) [
    | inl over ↦ rw over kept
    | inr (buffer, more) ↦ elim (Bool-cases (is_done p.state || is_error p.state)) [
      | inl stop ↦ rw (more, stop) kept
      | inr on ↦ rw (more, on) (h buffer (advance p.consumed g) kept)
    ]
  ]

  kept_loop :
      (fuel : ℕ) (st : State) (buffer : List ℕ) (f : Form)
      → IsKept (inside st) f
      → AnswerKept (feed_loop feed after open_file body fuel st buffer f)
  unfolding feed_loop
  kept_loop zero st buffer f kept = kept
  kept_loop (suc fuel) st buffer f kept =
      let p = parse st buffer in
      kept_round (feed_loop feed after open_file body fuel) p
        (call_all after open_file body p.events f) (λ more g k. kept_loop fuel p.state more g k)
        (IsKept-all after open_file body some_file (inside st) (inside p.state) p.events f
          (ordered st buffer) kept)

  -- After any number of rounds, whether the loop has ended or goes on, every descriptor that was
  -- opened is closed but for that of the part at hand. When it has ended without an exception and
  -- the parser is not inside of a part, all are closed. It is taken that the parser gives the parts
  -- one after the other, and that `open` never gives the descriptor of the standard input.
  pub feed_loop-closed :
      (fuel : ℕ) (st : State)
      → inside st ≡ false
      → Accounted (feed_loop feed after open_file body fuel st [] new_form)
  unfolding new_form
  feed_loop-closed fuel st outside =
      let fresh : IsKept (inside st) new_form = (refl, λ h. refl) in
      closed_of_kept (feed_loop feed after open_file body fuel st [] new_form)
        (kept_loop fuel st [] new_form fresh)

-- At the end of a part that was written to a file, a name that http_add_to_params refuses leaves
-- the part's descriptor open: the exception passes by `close`.
pub refused_file-leaks :
    (after : ℕ) (open_file : ℕ → Descriptor) (body : List ℕ) (f : Form) (n : ℕ) (e : Error)
    → f.partial_fd ≡ fd n
    → Balanced f
    → add_to_params after f.params f.partial_name f.partial_tempfile ≡ raises e
    → (call after open_file body on_partial_end f ≡ raised e f)
      × (opens f.done ≡ suc (closes f.done))
unfolding call
refused_file-leaks after open_file body f n e file bal refused =
    (rw (file, refused) refl, omega (arith, bal, ap held file))
