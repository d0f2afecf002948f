-- ===== src/Http/Request/Balance.antt =====
-- Which objects a request leaves in the storage (ext/iodine/iodine_http.c with iodine_store.c).
use iodine.Base.{
  ℕ, ◌+◌, ◌-◌, ◌≤◌, ◌≡◌, Bool, true, false, List, [], ◌∷◌, ◌++◌, Option, none, some, arith,
  if◌then◌else◌, length, ◌∙◌,
}
use iodine.Ruby.{Value, is_falsy, one_of}
use iodine.Fio.Table.{Table}
use iodine.Store.{Storage, refs}
use iodine.Store.Counts.{add, drop, tally, tally-append, refs-run-tally, HasRoom, run}
use iodine.Http.Upgrades.{held, attach, attach-kept}
use iodine.Http.Headers.{set_headers}
use iodine.Http.Response.{
  none_type, deferred, Facil, Handle, response_send, review_upgrade, Upgrade, Body,
}
use iodine.Http.Request.{
  First, wait_directive, status_text, status_number, no_status, Second, no_hash, hash, Answer,
  no_array, triple, Request, Outcome, handle_request, on_rack_request, resume_request, with_status,
  text_under, is_below_300, file_or, answer_or_fail, with_answer, upgrade_or_answer, x_sendfile,
  new_handle, send_file, copy_or,
}

abbrev pub is_array : Answer → Bool
is_array (no_array v) = false
is_array (triple v first second body) = true

file_or-both :
    (P : Outcome → Type 0) (file : Option (List ℕ)) (sent : List ℕ → Outcome) (outcome : Outcome)
    → ((f : List ℕ) → P (sent f))
    → P outcome
    → P (file_or file sent outcome)
file_or-both P none sent outcome p q = q
file_or-both P (some f) sent outcome p q = p f

-- The outcome lets go of the `env`, and adds what it waits for and a connection that stays.
abbrev Balanced : Value → Value → ℕ → Outcome → Type 0
Balanced env w n o = tally w n o.calls ≡ n - one_of env w + held o.fiber w + held o.connection w

module _ (F : Facil) where
  open F use {atol}

  with_status-Balanced :
      (r : Request) (v : Value) (st : Option ℕ) (second : Second) (body : Body) (h : Handle)
      (w : Value) (n : ℕ)
      → is_falsy r.attaching.handler ≡ false
      → one_of r.env w ≤ n
      → Balanced r.env w n (with_status F r (add v ∷ []) v st second body h)
  unfolding tally upgrade_or_answer response_send
  with_status-Balanced r v none second body h w n real le = omega arith
  with_status-Balanced r v (some s) (no_hash x) body h w n real le = omega arith
  with_status-Balanced r v (some s) (hash x fr hs) body h w n real le =
      let plain : Handle = record h { status = s; headers = set_headers hs h.headers } in
      let up = if is_below_300 s then review_upgrade r.upgrades else none in
      file_or-both (Balanced r.env w n)
        (if r.support_xsendfile then text_under x_sendfile hs else none)
        (λ f. send_file (add v ∷ []) v r.env (copy_or fr x) f hs (record h { status = s }))
        (upgrade_or_answer (add v ∷ []) v r.env r.attaching up body plain) (λ file. omega arith)
        (answered up plain)
    where
      sent :
          (o : Option Handle) (p : Handle)
          → Balanced r.env w n (answer_or_fail (add v ∷ []) v r.env o p)
      sent none p = omega arith
      sent (some q) p = omega arith

      answered :
          (up : Option Upgrade) (p : Handle)
          → Balanced r.env w n (upgrade_or_answer (add v ∷ []) v r.env r.attaching up body p)
      answered (some u) p =
          let kept = attach u r.env r.attaching in
          tally-append (add v ∷ kept.0) (drop v ∷ drop r.env ∷ []) w n
          ∙ omega (arith, le, attach-kept u r.env r.attaching w (n + one_of v w) real)
      answered none p = sent (response_send body p) p

  with_answer-Balanced :
      (r : Request) (v : Value) (first : First) (second : Second) (body : Body) (h : Handle)
      (w : Value) (n : ℕ)
      → is_falsy r.attaching.handler ≡ false
      → one_of r.env w ≤ n
      → Balanced r.env w n (with_answer F r (triple v first second body) h)
  unfolding tally
  with_answer-Balanced r v wait_directive (no_hash x) body h w n real le = omega arith
  with_answer-Balanced r v wait_directive (hash x fr hs) body h w n real le = omega arith
  with_answer-Balanced r v (status_text t) second body h w n real le =
      with_status-Balanced r v (some (atol t)) second body h w n real le
  with_answer-Balanced r v (status_number k) second body h w n real le =
      with_status-Balanced r v (some k) second body h w n real le
  with_answer-Balanced r v no_status second body h w n real le =
      with_status-Balanced r v none second body h w n real le

  answered-Balanced :
      (r : Request) (answer : Answer) (h : Handle) (w : Value) (n : ℕ)
      → is_array answer ≡ true
      → is_falsy r.attaching.handler ≡ false
      → one_of r.env w ≤ n
      → Balanced r.env w n (with_answer F r answer h)
  answered-Balanced r (no_array v) h w n arr real le = absurd (ground arith)
  answered-Balanced r (triple v first second body) h w n arr real le =
      with_answer-Balanced r v first second body h w n real le

  -- Where there is an application, it answers with an Array and a handler that it gives for an
  -- upgrade is neither nil nor false, a request leaves the count of every object in the storage as
  -- it was, if the storage has room for its counts, with two exceptions: the fiber that a paused
  -- request waits for, and the object of a connection that an upgrade leaves open, are counted once
  -- more.
  pub refs-on_rack_request :
      (T : Table ℕ) (s : Storage T) (r : Request) (w : Value)
      → r.has_app ≡ true
      → is_array r.answer ≡ true
      → is_falsy r.attaching.handler ≡ false
      → HasRoom T s (length (on_rack_request F r).outcome.calls)
      → refs T (run T s (on_rack_request F r).outcome.calls) w
        ≡ refs T s w
          + held (on_rack_request F r).outcome.fiber w
          + held (on_rack_request F r).outcome.connection w
  unfolding on_rack_request handle_request tally
  refs-on_rack_request T s r w app arr real room =
      let h = new_handle none_type in
      let balanced =
        answered-Balanced r r.answer h w (refs T s w + one_of r.env w) arr real (omega arith) in
      refs-run-tally T (handle_request F false r).calls s w room ∙ rw app (omega (arith, balanced))

  -- A resumed request that is answered with an Array, in a storage with room for the counts and
  -- with no nil or false for the handler of an upgrade, lets go of the fiber that it waited for, if
  -- that is held, and leaves every other object but the `env` as it was; a fiber that it is to wait
  -- for again, and the object of a connection that an upgrade leaves open, are counted once more.
  pub refs-resume_request :
      (T : Table ℕ) (s : Storage T) (fiber : Value) (r : Request) (w : Value)
      → r.has_app ≡ true
      → is_array r.answer ≡ true
      → is_falsy r.attaching.handler ≡ false
      → one_of r.env w ≡ 0
      → one_of fiber w ≤ refs T s w
      → HasRoom T s (length (resume_request F fiber r).outcome.calls)
      → refs T (run T s (resume_request F fiber r).outcome.calls) w
        ≡ refs T s w
          - one_of fiber w
          + held (resume_request F fiber r).outcome.fiber w
          + held (resume_request F fiber r).outcome.connection w
  unfolding resume_request handle_request tally
  refs-resume_request T s fiber r w app arr real other holds room =
      let h = new_handle deferred in
      let balanced =
        answered-Balanced r r.answer h w (refs T s w) arr real (omega (arith, other)) in
      let o = with_answer F r r.answer h in
      refs-run-tally T ((handle_request F true r).calls ++ drop fiber ∷ []) s w room
      ∙ rw app (
          tally-append o.calls (drop fiber ∷ []) w (refs T s w)
          ∙ omega (arith, balanced, other, holds))

  -- An answer that is no Array is let go of although the request never held it: in a storage with
  -- room for the counts, its count is one less.
  pub refs-no_array :
      (T : Table ℕ) (s : Storage T) (r : Request) (v w : Value)
      → r.has_app ≡ true
      → r.answer ≡ no_array v
      → HasRoom T s (length (on_rack_request F r).outcome.calls)
      → refs T (run T s (on_rack_request F r).outcome.calls) w ≡ refs T s w - one_of v w
  unfolding on_rack_request handle_request tally
  refs-no_array T s r v w app answered room =
      refs-run-tally T (handle_request F false r).calls s w room ∙ rw (app, answered) (omega arith)
