-- ===== src/Http/Request/Answers.antt =====
-- How a request ends (`on_rack_request` and `http_resume_deferred_request_handler` of
-- ext/iodine/iodine_http.c).
use iodine.Base.{ℕ, ◌≡◌, ◌≢◌, refl, ◌⊎◌, true, false, List, Option, none, some}
use iodine.Ruby.{Value}
use iodine.Http.Response.{
  Body, Handle, ResponseType, none_type, send_body, xsendfile, empty, error, wait, deferred,
  Upgrade, Reply, warned, Facil, perform_handle_action,
}
use iodine.Http.Request.{
  triple, wait_directive, Second, no_hash, hash, Request, Outcome, handle_request, resume_request,
}

-- What the handler may leave to be done, by its type: nothing only after an upgrade, and a string
-- only where it is sent and freed.
abbrev IsReady : ResponseType → Option Upgrade → Option (List ℕ) → Option (List ℕ) → Type 0
IsReady none_type up body root = ((u : Upgrade) × (up ≡ some u)) × (body ≡ none) × (root ≡ none)
IsReady send_body up body root = (up ≡ none) × (root ≡ none)
IsReady xsendfile up body root = up ≡ none
IsReady empty up body root = (up ≡ none) × (body ≡ none) × (root ≡ none)
IsReady error up body root = (up ≡ none) × (body ≡ none) × (root ≡ none)
IsReady wait up body root = (up ≡ none) × (body ≡ none) × (root ≡ none)
IsReady deferred up body root = ⊥

abbrev Ready : Outcome → Type 0
Ready o = IsReady o.handle.kind o.upgraded o.handle.body o.handle.root

-- Nothing was allocated yet.
abbrev IsFresh : Handle → Type 0
IsFresh h = (h.body ≡ none) × (h.root ≡ none)

module _ (F : Facil) where
  open F use {atol, sendfile_fails}

  -- No reply but an upgrade, or a reply of facil.io and no upgrade.
  abbrev pub IsAnswered : Option Reply → Option Upgrade → Type 0
  IsAnswered reply up =
      ((reply ≡ none) × ((u : Upgrade) × (up ≡ some u)))
      ⊎ ((r : Reply) × (reply ≡ some r) × (r ≢ warned) × (up ≡ none))

  -- The handle that is left, and the reply.
  abbrev IsPerformed : Handle → Option Upgrade → Type 0
  IsPerformed h up =
      ((perform_handle_action F h).1.body ≡ none)
      × ((perform_handle_action F h).1.root ≡ none)
      × IsAnswered (perform_handle_action F h).0 up

  -- A resumed request whose application pauses it again gets no reply at all: the case is only
  -- warned about, and nothing waits for the new fiber.
  pub resume_request-wait :
      (fiber : Value) (r : Request) (v : Value) (second : Second) (body : Body)
      → r.has_app ≡ true
      → r.answer ≡ triple v wait_directive second body
      → ((resume_request F fiber r).reply ≡ some warned)
        × ((resume_request F fiber r).paused ≡ false)
        × ((w : Value) × ((resume_request F fiber r).outcome.fiber ≡ some w))
  unfolding resume_request handle_request perform_handle_action
  resume_request-wait fiber r v (no_hash x) body app answered =
      rw (app, answered) (refl, refl, (x, refl))
  resume_request-wait fiber r v (hash x fr hs) body app answered =
      rw (app, answered) (refl, refl, (x, refl))
