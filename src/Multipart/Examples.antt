-- ===== src/Multipart/Examples.antt =====
-- A small multipart body (ext/iodine/http.c).
use iodine.Base.{
  arith, ℕ, zero, suc, ◌+◌, ◌≡◌, ◌≢◌, ◌<◌, ◌≤◌, subst, refl, ◌⊎◌, ◌==◌, Bool, true, false, List, [],
  ◌∷◌, Option, none, some, length,
}
use iodine.Params.Tree.{no_entries, entry, nil, string, uploaded_file, bad_params, raises}
use iodine.Params.Adding.{add_to_params}
use iodine.Multipart.{
  Descriptor, no_file, fd, opened, Form, new_form, on_partial_start, on_partial_data,
  on_partial_end, and_then, call,
}
use iodine.Multipart.Feeding.{Parsed, Feed, feed_loop}
use iodine.Multipart.Descriptors.{IsOrdered}
use iodine.Multipart.Driving.{ReadsBody, Consumes, Ends, Idles, feed_loop-ends_or_idles}
use iodine.Multipart.Leaks.{Accounted, feed_loop-closed}
use iodine.Multipart.Values.{Move, chunk, moved, value_of, run, params_after, part-value}

abbrev open_file : ℕ → Descriptor
open_file i = fd (i + 3)

abbrev body : List ℕ
body = 0 ∷ 1 ∷ 2 ∷ []

-- The body is in two buffers.
abbrev pread : ℕ → Option (List ℕ)
pread zero = some (0 ∷ 1 ∷ [])
pread (suc zero) = none
pread (suc (suc zero)) = some (2 ∷ [])
pread (suc (suc (suc n))) = none

-- A parser that finds one part, which is a file: it begins in the first buffer and ends in the next.
-- Its state is 0 before the part, 1 inside of it, and 2 behind it.
abbrev finding : ℕ → List ℕ → Parsed ℕ
finding st [] = record { events = []; consumed = 0; state = st }
finding zero (c ∷ cs) = record {
  events = on_partial_start (b'a' ∷ []) true ∷ on_partial_data 0 (c ∷ cs) ∷ [];
  consumed = length (c ∷ cs);
  state = 1;
}
finding (suc zero) (c ∷ cs) = record {
  events = on_partial_data 0 (c ∷ cs) ∷ on_partial_end ∷ [];
  consumed = length (c ∷ cs);
  state = 2;
}
finding (suc (suc n)) (c ∷ cs) = record { events = []; consumed = 0; state = suc (suc n) }

abbrev feed : Feed
feed = record {
  State = ℕ;
  parse = finding;
  is_done = λ st. st == 2;
  is_error = λ st. false;
  pread = pread;
}

reads : ReadsBody pread body
reads zero buffer e =
    let same : 0 ∷ 1 ∷ [] ≡ buffer = cc in
    subst (λ b. (0 < length b) × (0 + length b ≤ 3)) same (omega arith, omega arith)
reads (suc zero) buffer e = absurd cc
reads (suc (suc zero)) buffer e =
    let same : 2 ∷ [] ≡ buffer = cc in
    subst (λ b. (0 < length b) × (2 + length b ≤ 3)) same (omega arith, omega arith)
reads (suc (suc (suc n))) buffer e = absurd cc

consumes : Consumes feed
consumes st [] = omega arith
consumes zero (c ∷ cs) = omega arith
consumes (suc zero) (c ∷ cs) = omega arith
consumes (suc (suc n)) (c ∷ cs) = omega arith

feed_loop-ends_or_idles_example :
    Ends feed 0 open_file body (feed_loop feed 0 open_file body 5 0 [] new_form)
    ⊎ Idles feed 0 open_file body 0 [] new_form
feed_loop-ends_or_idles_example =
    feed_loop-ends_or_idles feed 0 open_file body reads consumes (omega arith) 0

some_file : (i : ℕ) → open_file i ≢ no_file
some_file i e = cc

abbrev inside : ℕ → Bool
inside st = st == 1

ordered :
    (st : ℕ) (buffer : List ℕ)
    → IsOrdered (inside st) (finding st buffer).events (inside (finding st buffer).state)
ordered st [] = refl
ordered zero (c ∷ cs) = (refl, (refl, refl))
ordered (suc zero) (c ∷ cs) = (refl, (refl, refl))
ordered (suc (suc n)) (c ∷ cs) = refl

feed_loop-closed_example :
    Accounted feed 0 open_file body inside some_file ordered
      (feed_loop feed 0 open_file body 5 0 [] new_form)
feed_loop-closed_example = feed_loop-closed feed 0 open_file body inside some_file ordered 5 0 refl

abbrev final : Form
final = record {
  pos = 3;
  partial_offset = 0;
  partial_length = 0;
  partial_name = [];
  partial_fd = no_file;
  partial_tempfile = nil;
  params = entry (b'a' ∷ []) (string body) no_entries;
  files = 0;
  done = [];
}

-- A file whose name is `a[b`.
abbrev holding : Form
holding = record final {
  partial_name = b'a' ∷ b'[' ∷ b'b' ∷ [];
  partial_fd = fd 3;
  partial_tempfile = uploaded_file 0;
  done = opened 0 (fd 3) ∷ [];
}

refused_lem :
    add_to_params 0 holding.params holding.partial_name holding.partial_tempfile ≡ raises bad_params
unfolding add_to_params
refused_lem = refl

-- The byte 1 at the end of a buffer of two bytes, and 2 at the front of the next.
abbrev pieces : List Move
pieces = chunk 1 (1 ∷ []) ∷ moved 2 ∷ chunk 0 (2 ∷ []) ∷ []

abbrev empty_form : Form
empty_form = record final { pos = 0; params = no_entries }

part-value_example :
    params_after 0 open_file body (
      and_then
        (and_then
          (call 0 open_file body (on_partial_start (b'v' ∷ []) false) empty_form)
          (λ g. run 0 open_file body pieces g))
        (λ g. call 0 open_file body on_partial_end g))
    ≡ add_to_params 0 empty_form.params (b'v' ∷ []) (string (value_of pieces))
part-value_example =
    part-value 0 open_file body (b'v' ∷ []) pieces 1 empty_form (omega arith) refl refl refl
      (omega arith) (omega arith)
      (refl, omega arith, refl, (omega arith, (refl, omega arith, refl, tt)))
