-- ===== src/Http/Request/Examples.antt =====
-- Requests of ext/iodine/iodine_http.c on concrete answers.
use iodine.Base.{arith, ℕ, ◌+◌, ◌≡◌, refl, true, false, [], ◌∷◌, none, word_mod, ltb}
use iodine.Ruby.{qnil, qtrue, qfalse, object}
use iodine.Fio.Table.{assoc_table}
use iodine.Store.{Storage, refs}
use iodine.Store.Counts.{HasRoom, run}
use iodine.Store.Examples.{fresh, fresh-HasRoom}
use iodine.Connection.State.{Answers}
use iodine.Connection.Creation.{connection_new}
use iodine.Http.Upgrades.{attach, attach_handler}
use iodine.Http.Headers.{text_key, text}
use iodine.Http.Response.{review_upgrade, falsy, websocket_type, Facil, Body, response_send}
use iodine.Http.Request.{
  Request, Answer, triple, status_number, wait_directive, hash, no_hash, on_rack_request,
  resume_request, handle_request, upgrade_or_answer,
}
use iodine.Http.Request.Balance.{refs-on_rack_request, refs-resume_request}

-- facil.io as far as the requests below need it.
abbrev facil : Facil
facil = record {
  atol = λ s. 200;
  encoding_length = λ calls. 0;
  without_encoding = λ calls. calls;
  sendfile_fails = λ root file. false;
}

abbrev silent : Answers
silent = record {
  on_open = false;
  on_message = false;
  on_drained = false;
  ping = false;
  on_shutdown = false;
  on_close = false;
}

abbrev asks : Answer → Request
asks answer = record {
  has_app = true;
  support_xsendfile = false;
  env = object 2;
  upgrades = record {
    hijack_cb = false;
    hijack_io = false;
    upgrade_tcp = false;
    upgrade = false;
    upgrade_type = falsy;
  };
  attaching = record {
    handler = object 5;
    made = object 6;
    respond_to = λ v. silent;
    refused = false;
  };
  answer = answer;
}

abbrev hello : Answer
hello =
    triple (object 3) (status_number 200)
      (hash (object 4) none ((text_key (b'a' ∷ []), text (b'b' ∷ [])) ∷ []))
      (Body.text (b'h' ∷ b'i' ∷ []))

-- A request that becomes a WebSocket.
abbrev upgrades : Request
upgrades = record (asks hello) {
  upgrades = record {
    hijack_cb = false;
    hijack_io = false;
    upgrade_tcp = false;
    upgrade = true;
    upgrade_type = websocket_type;
  };
}

abbrev pause : Answer
pause = triple (object 3) wait_directive (no_hash (object 9)) Body.nil_body

refs-on_rack_request_example :
    refs
      (assoc_table ℕ)
      (run (assoc_table ℕ) fresh (on_rack_request facil upgrades).outcome.calls)
      (object 6)
    ≡ 1
unfolding on_rack_request handle_request refs review_upgrade attach attach_handler connection_new
refs-on_rack_request_example =
    refs-on_rack_request facil (assoc_table ℕ) fresh upgrades (object 6) refl refl refl
      (fresh-HasRoom 5 refl)

-- The storage of a server that waits for the fiber 9.
abbrev waiting : Storage (assoc_table ℕ)
waiting = record { items = (9, 1) ∷ []; count_max = 1 }

waiting-HasRoom : (n : ℕ) → ltb (n + 1) word_mod ≡ true → HasRoom (assoc_table ℕ) waiting n
unfolding refs
waiting-HasRoom n h (object k) = ground arith
waiting-HasRoom n h qnil = ground arith
waiting-HasRoom n h qtrue = ground arith
waiting-HasRoom n h qfalse = ground arith

refs-resume_request_example :
    refs
      (assoc_table ℕ)
      (run (assoc_table ℕ) waiting (resume_request facil (object 9) (asks hello)).outcome.calls)
      (object 9)
    ≡ 0
unfolding resume_request handle_request refs review_upgrade response_send upgrade_or_answer
refs-resume_request_example =
    refs-resume_request facil (assoc_table ℕ) waiting (object 9) (asks hello) (object 9) refl refl
      refl refl (omega arith) (waiting-HasRoom 4 refl)
