-- ===== src/Multipart/Driving.antt =====
-- When the loop of `http_parse_multipart` (ext/iodine/http.c) ends.
use iodine.Base.{
  arith, ℕ, zero, suc, ◌+◌, ◌≤◌, ◌<◌, ◌≡◌, refl, sym, ap, ◌∙◌, ◌⊎◌, inl, inr, true, false, not,
  ◌||◌, List, [], ◌∷◌, Option, some, Option-cases, Bool-cases, length, u64, word_mod, ◌==◌, take,
  drop,
}
use iodine.Params.Tree.{Entries, string, Result, ok, raises}
use iodine.Params.Adding.{add_to_params}
use iodine.Multipart.{
  Descriptor, is_no_file, Form, new_form, Event, on_data, on_partial_start, on_partial_data,
  on_partial_end, Outcome, returns, raised, form_of, filed, and_then, end_file, end_value, call,
  call_all,
}
use iodine.Multipart.Feeding.{Feed, advance, Answer, ended, still, feed_loop}

pos_filed : (f : Form) (r : Result Entries) → (form_of (filed f r)).pos ≡ f.pos
pos_filed f (ok params) = refl
pos_filed f (raises e) = refl

pos_returns :
    (f : Form) (r : Result Entries) (k : Form → Form)
    → ((g : Form) → (k g).pos ≡ g.pos)
    → (form_of (and_then (filed f r) (λ g. returns (k g)))).pos ≡ f.pos
pos_returns f (ok params) k h = h _
pos_returns f (raises e) k h = refl

pos_and_then :
    (f : Form) (o : Outcome) (k : Form → Outcome)
    → (form_of o).pos ≡ f.pos
    → ((g : Form) → (form_of (k g)).pos ≡ g.pos)
    → (form_of (and_then o k)).pos ≡ f.pos
pos_and_then f (returns g) k e h = h g ∙ e
pos_and_then f (raised x g) k e h = e

module _ (after : ℕ) (open_file : ℕ → Descriptor) (body : List ℕ) where
  pos_call : (e : Event) (f : Form) → (form_of (call after open_file body e f)).pos ≡ f.pos
  unfolding call
  pos_call (on_data name [] value) f = pos_filed f _
  pos_call (on_data name (c ∷ filename) value) f = pos_filed _ _
  pos_call (on_partial_start name false) f = refl
  pos_call (on_partial_start name true) f = refl
  pos_call (on_partial_data at_ value) f = elim (Bool-cases (not (is_no_file f.partial_fd))) [
    | inl file ↦ rw file refl
    | inr text ↦ rw text refl
  ]
  pos_call on_partial_end f = elim (Bool-cases (not (is_no_file f.partial_fd))) [
    | inl file ↦ rw file (
        pos_returns f (add_to_params after f.params f.partial_name f.partial_tempfile) end_file
          (λ g. refl))
    | inr text ↦
        let value = string (take f.partial_length (drop f.partial_offset body)) in
        rw text
          (pos_returns f (add_to_params after f.params f.partial_name value) end_value (λ g. refl))
  ]

  pos_call_all :
      (es : List Event) (f : Form) → (form_of (call_all after open_file body es f)).pos ≡ f.pos
  unfolding call_all
  pos_call_all [] f = refl
  pos_call_all (e ∷ es) f =
      pos_and_then f (call after open_file body e f) _ (pos_call e f) (λ g. pos_call_all es g)

-- What facil.io promises of its data object: a buffer is a piece of the body.
abbrev pub ReadsBody : (ℕ → Option (List ℕ)) → List ℕ → Type 0
ReadsBody pread body =
    (pos : ℕ) (buffer : List ℕ)
    → pread pos ≡ some buffer
    → (0 < length buffer) × (pos + length buffer ≤ length body)

-- A parser consumes no more than it is given. It may consume nothing, and wait for more data.
abbrev pub Consumes : Feed → Type 0
Consumes feed =
    (st : feed.State) (buffer : List ℕ) → (feed.parse st buffer).consumed ≤ length buffer

module _ (feed : Feed) (after : ℕ) (open_file : ℕ → Descriptor) (body : List ℕ) where
  open feed use {State, parse, is_done, is_error, pread}

  abbrev pub Ends : Answer State → Type 0
  Ends a = (o : Outcome) × (st : State) × (a ≡ ended o st)

  -- The loop comes to a buffer with a byte in it, of which the parser takes nothing although it is
  -- neither done nor in error.
  abbrev pub Idles : State → List ℕ → Form → Type 0
  Idles st buffer f =
      (n : ℕ) × (at_ : State) × (rest : List ℕ) × (g : Form) × (feed_loop feed after open_file body
          n st buffer f
        ≡ still at_ rest g)
      × (0 < length rest)
      × ((parse at_ rest).consumed ≡ 0)
      × ((is_done (parse at_ rest).state || is_error (parse at_ rest).state) ≡ false)

  -- A round that goes on.
  GoesOn : State → List ℕ → Form → Type 0
  GoesOn st buffer f =
      let p = parse st buffer in
      (g : Form) × (more : List ℕ) × (call_all after open_file body p.events f ≡ returns g)
      × (pread (advance p.consumed g).pos ≡ some more)
      × ((is_done p.state || is_error p.state) ≡ false)

  round_of :
      (st : State) (buffer : List ℕ) (f : Form) (o : Outcome)
      → call_all after open_file body (parse st buffer).events f ≡ o
      → ((fuel : ℕ) → Ends (feed_loop feed after open_file body (suc fuel) st buffer f))
        ⊎ GoesOn st buffer f
  unfolding feed_loop GoesOn
  round_of st buffer f (raised e g) called = inl λ fuel. rw called (_, _, refl)
  round_of st buffer f (returns g) called =
      let p = parse st buffer in
      elim (Option-cases (pread (advance p.consumed g).pos)) [
        | inl over ↦ inl λ fuel. rw (called, over) (_, _, refl)
        | inr (buffer', more) ↦ elim (Bool-cases (is_done p.state || is_error p.state)) [
          | inl stop ↦ inl λ fuel. rw (called, more, stop) (_, _, refl)
          | inr on ↦ inr (g, buffer', called, more, on)
        ]
      ]

  next_round :
      (n : ℕ) (st : State) (buffer : List ℕ) (f g : Form) (more : List ℕ)
      → call_all after open_file body (parse st buffer).events f ≡ returns g
      → pread (advance (parse st buffer).consumed g).pos ≡ some more
      → (is_done (parse st buffer).state || is_error (parse st buffer).state) ≡ false
      → feed_loop feed after open_file body (suc n) st buffer f
        ≡ feed_loop feed after open_file body n
            (parse st buffer).state
            more
            (advance (parse st buffer).consumed g)
  unfolding feed_loop
  next_round n st buffer f g more called read on = rw (called, read, on) refl

  -- What holds of the rest of the loop holds of the loop.
  before :
      (fuel : ℕ) (st : State) (buffer : List ℕ) (f g : Form) (more : List ℕ)
      → ((n : ℕ)
          → feed_loop feed after open_file body (suc n) st buffer f
            ≡ feed_loop feed after open_file body n
                (parse st buffer).state
                more
                (advance (parse st buffer).consumed g))
      → Ends (
          feed_loop feed after open_file body fuel
            (parse st buffer).state
            more
            (advance (parse st buffer).consumed g))
        ⊎ Idles (parse st buffer).state more (advance (parse st buffer).consumed g)
      → Ends (feed_loop feed after open_file body (suc fuel) st buffer f) ⊎ Idles st buffer f
  before fuel st buffer f g more step (inl (o, end, done)) = inl (o, end, step fuel ∙ done)
  before fuel st buffer f g more step (inr (n, at_, rest, h, done, long, none_taken, on)) =
      inr (suc n, at_, rest, h, step n ∙ done, long, none_taken, on)

  ends_from :
      ReadsBody pread body
      → Consumes feed
      → length body < word_mod
      → (fuel : ℕ) (st : State) (buffer : List ℕ) (f : Form) → f.pos + length buffer ≤ length body
      → length body < f.pos + fuel
      → 0 < length buffer
      → Ends (feed_loop feed after open_file body fuel st buffer f) ⊎ Idles st buffer f
  unfolding GoesOn feed_loop
  ends_from reads fits small zero st buffer f le lt some_bytes = absurd (omega arith)
  ends_from reads fits small (suc fuel) st buffer f le lt some_bytes =
      let p = parse st buffer in
      elim (round_of st buffer f (call_all after open_file body p.events f) refl) [
        | inl ends ↦ inl (ends fuel)
        | inr (g, more, called, read, on) ↦ elim (Bool-cases (p.consumed == 0)) [
          | inl nothing ↦ inr (0, st, buffer, f, refl, some_bytes, ground (arith, nothing), on)
          | inr forward ↦
              let here : g.pos ≡ f.pos =
                ap (λ o. (form_of o).pos) (sym called)
                ∙ pos_call_all after open_file body p.events f in
              let (some_more, inside) = reads (advance p.consumed g).pos more read in
              let taken : 0 < p.consumed = ground (arith, forward) in
              before fuel st buffer f g more (λ n. next_round n st buffer f g more called read on)
                (ends_from reads fits small fuel p.state more (advance p.consumed g) inside
                  (omega (arith, fits st buffer, taken, here, lt, le, small)) some_more)
        ]
      ]

  -- The loop ends within as many rounds as the body has bytes and two, whatever the callbacks
  -- raise, or it comes to a buffer with a byte in it of which the parser takes nothing although it
  -- is neither done nor in error. It is taken that facil.io's buffers are pieces of a body shorter
  -- than 2^64 bytes, and that its parser consumes no more than it is given.
  pub feed_loop-ends_or_idles :
      ReadsBody pread body
      → Consumes feed
      → length body < word_mod
      → (st : State)
      → Ends (feed_loop feed after open_file body (suc (suc (length body))) st [] new_form)
        ⊎ Idles st [] new_form
  unfolding GoesOn new_form
  feed_loop-ends_or_idles reads fits small st =
      let p = parse st [] in
      elim (round_of st [] new_form (call_all after open_file body p.events new_form) refl) [
        | inl ends ↦ inl (ends (suc (length body)))
        | inr (g, more, called, read, on) ↦
            let here : g.pos ≡ 0 =
              ap (λ o. (form_of o).pos) (sym called)
              ∙ pos_call_all after open_file body p.events new_form in
            let (some_more, inside) = reads (advance p.consumed g).pos more read in
            before (suc (length body)) st [] new_form g more
              (λ n. next_round n st [] new_form g more called read on)
              (ends_from reads fits small (suc (length body)) p.state more (advance p.consumed g)
                inside (omega (arith, fits st [], here, small)) some_more)
      ]

  -- A parser that takes nothing of the buffer at hand, and does not say that it is done or in
  -- error, holds the loop for good: it is given the same bytes again and again.
  pub feed_loop-stuck :
      (st : State) (buffer : List ℕ) (f : Form)
      → f.pos < word_mod
      → pread f.pos ≡ some buffer
      → parse st buffer ≡ record { events = []; consumed = 0; state = st }
      → (is_done st || is_error st) ≡ false
      → (fuel : ℕ) → feed_loop feed after open_file body fuel st buffer f ≡ still st buffer f
  unfolding feed_loop call_all
  feed_loop-stuck st buffer f small read idle on zero = refl
  feed_loop-stuck st buffer f small read idle on (suc fuel) =
      let same : u64 (f.pos + 0) ≡ f.pos = omega arith in
      rw (idle, same, read, on) (feed_loop-stuck st buffer f small read idle on fuel)
