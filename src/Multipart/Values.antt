-- ===== src/Multipart/Values.antt =====
-- The value of a part that comes in pieces (ext/iodine/http.c).
use iodine.Base.{
  arith, ℕ, zero, suc, ◌+◌, ◌≤◌, ◌<◌, ◌≡◌, ◌≢◌, refl, sym, ap, ◌∙◌, subst, ◌⊎◌, inl, inr, false,
  List, [], ◌∷◌, ◌++◌, append_assoc, append-nil, ◌==◌, take, drop, take-nil, drop-nil, length, u64,
  word_mod,
}
use iodine.Params.Tree.{Key, Entries, string, Result, ok, raises}
use iodine.Params.Adding.{add_to_params}
use iodine.Multipart.{
  no_file, Descriptor, Form, Outcome, returns, raised, and_then, filed, end_value, on_partial_start,
  on_partial_data, on_partial_end, partial_data, call,
}
use iodine.Multipart.Feeding.{advance}

suc_add : (m n : ℕ) → suc m + n ≡ suc (m + n)
suc_add m n = omega arith

zero_add : (n : ℕ) → 0 + n ≡ n
zero_add n = omega arith

drop-drop : (m n : ℕ) (xs : List ℕ) → drop n (drop m xs) ≡ drop (m + n) xs
drop-drop zero n xs = rw (zero_add n) refl
drop-drop (suc m) n [] = rw (suc_add m n) (drop-nil n)
drop-drop (suc m) n (x ∷ xs) = rw (suc_add m n) (drop-drop m n xs)

take-add : (m n : ℕ) (xs : List ℕ) → take (m + n) xs ≡ take m xs ++ take n (drop m xs)
take-add zero n xs = rw (zero_add n) refl
take-add (suc m) n [] = rw (suc_add m n) (sym (take-nil n))
take-add (suc m) n (x ∷ xs) = rw (suc_add m n) (ap (◌∷◌ x) (take-add m n xs))

-- What comes between the start and the end of a part: data, at an offset into the buffer, and the
-- move of the buffer.
pub data Move : Type 0 where
  chunk : ℕ → List ℕ → Move
  moved : ℕ → Move

abbrev pub value_of : List Move → List ℕ
value_of [] = []
value_of (chunk at_ bytes ∷ ms) = bytes ++ value_of ms
value_of (moved n ∷ ms) = value_of ms

module _ (after : ℕ) (open_file : ℕ → Descriptor) (body : List ℕ) where
  pub run : List Move → Form → Outcome
  run [] f = returns f
  run (chunk at_ bytes ∷ ms) f =
      and_then (call after open_file body (on_partial_data at_ bytes) f) (λ g. run ms g)
  run (moved n ∷ ms) f = run ms (advance n f)

  -- The pieces lie in the body one behind the other, the first at `next`, for a buffer at `pos`.
  abbrev pub Consecutive : ℕ → ℕ → List Move → Type 0
  Consecutive next pos [] = Unit {0}
  Consecutive next pos (chunk at_ bytes ∷ ms) =
      (pos + at_ ≡ next)
      × (next + length bytes ≤ length body)
      × (take (length bytes) (drop next body) ≡ bytes)
      × Consecutive (next + length bytes) pos ms
  Consecutive next pos (moved n ∷ ms) = (pos + n ≤ length body) × Consecutive next (pos + n) ms

  -- What was taken so far, `v`, ends before `next`.
  abbrev Taken : List ℕ → ℕ → Form → Type 0
  Taken v next f =
      (f.partial_fd ≡ no_file)
      × (0 < next)
      × (next ≤ length body)
      × (((f.partial_offset ≡ 0) × (f.partial_length ≡ 0) × (v ≡ []))
          ⊎ ((f.partial_offset ≢ 0)
              × (f.partial_offset + f.partial_length ≡ next)
              × (take f.partial_length (drop f.partial_offset body) ≡ v)))

  Taken-chunk :
      (v : List ℕ) (next : ℕ) (f : Form) (at_ : ℕ) (bytes : List ℕ)
      → length body < word_mod
      → Taken v next f
      → f.pos + at_ ≡ next
      → next + length bytes ≤ length body
      → take (length bytes) (drop next body) ≡ bytes
      → Taken (v ++ bytes) (next + length bytes) (partial_data after open_file body at_ bytes f)
  Taken-chunk v next f at_ bytes small (text, above, le, inl (none_yet, no_length, empty)) here fits
        same =
      let start : u64 (f.pos + at_) ≡ next = omega arith in
      let len : u64 (0 + length bytes) ≡ length bytes = omega arith in
      rw (text, none_yet, no_length, empty, start, len)
        (refl, omega arith, fits, inr ((λ z. absurd (omega arith)), refl, same))
  Taken-chunk v next f at_ bytes small (text, above, le, inr (begun, reaches, taken)) here fits
        same =
      let later : (f.partial_offset == 0) ≡ false = ground arith in
      let len : u64 (f.partial_length + length bytes) ≡ f.partial_length + length bytes =
        omega arith in
      let behind : drop f.partial_length (drop f.partial_offset body) ≡ drop next body =
        drop-drop f.partial_offset f.partial_length body ∙ ap (λ n. drop n body) reaches in
      rw (text, later, len)
        (
          refl,
          omega arith,
          fits,
          inr (
            begun,
            omega arith,
            take-add f.partial_length (length bytes) (drop f.partial_offset body)
                ∙ ap (◌++◌ (take f.partial_length (drop f.partial_offset body)))
                    (ap (take (length bytes)) behind ∙ same)
                ∙ ap (λ w. w ++ bytes) taken,
          ),
        )

  Taken-moved :
      (v : List ℕ) (next n : ℕ) (f : Form)
      → length body < word_mod
      → Taken v next f
      → f.pos + n ≤ length body
      → Taken v next (advance n f) × ((advance n f).pos ≡ f.pos + n)
  Taken-moved v next n f small taken le = (taken, omega arith)

  -- What the end of the part files.
  abbrev pub files : Key → List ℕ → Form → Outcome
  files name value f =
      and_then (filed f (add_to_params after f.params name (string value)))
        (λ g. returns (end_value g))

  ends_with :
      (v : List ℕ) (next : ℕ) (f : Form)
      → Taken v next f
      → call after open_file body on_partial_end f ≡ files f.partial_name v f
  unfolding call
  ends_with v next f (text, above, le, inl (none_yet, no_length, empty)) =
      rw (text, no_length, empty) refl
  ends_with v next f (text, above, le, inr (begun, reaches, taken)) = rw (text, taken) refl

  abbrev pub params_after : Outcome → Result Entries
  params_after (returns f) = ok f.params
  params_after (raised e f) = raises e

  params_after-files :
      (name value : List ℕ) (f : Form)
      → params_after (files name value f) ≡ add_to_params after f.params name (string value)
  params_after-files name value f = by_result (add_to_params after f.params name (string value))
    where
      by_result :
          (r : Result Entries)
          → params_after (and_then (filed f r) (λ g. returns (end_value g))) ≡ r
      by_result (ok params) = refl
      by_result (raises e) = refl

  to_the_end : Form → Outcome
  to_the_end g = call after open_file body on_partial_end g

  same_names :
      (at_ : ℕ) (bytes : List ℕ) (f : Form)
      → f.partial_fd ≡ no_file
      → let g = partial_data after open_file body at_ bytes f in
        (g.pos ≡ f.pos) × (g.params ≡ f.params) × (g.partial_name ≡ f.partial_name)
  same_names at_ bytes f text = rw text (refl, refl, refl)

  values :
      (ms : List Move) (v : List ℕ) (next : ℕ) (f : Form)
      → length body < word_mod
      → Taken v next f
      → Consecutive next f.pos ms
      → params_after (and_then (run ms f) to_the_end)
        ≡ add_to_params after f.params f.partial_name (string (v ++ value_of ms))
  unfolding run to_the_end call
  values [] v next f small taken h =
      ap params_after (ends_with v next f taken)
      ∙ params_after-files f.partial_name v f
      ∙ ap (λ w. add_to_params after f.params f.partial_name (string w)) (sym (append-nil v))
  values (moved n ∷ ms) v next f small taken (le, h) =
      let (more, here) = Taken-moved v next n f small taken le in
      values ms v next (advance n f) small more (subst (λ p. Consecutive next p ms) (sym here) h)
  values (chunk at_ bytes ∷ ms) v next f small taken (here, fits, same, h) =
      let g = partial_data after open_file body at_ bytes f in
      let (pos, params, name) = same_names at_ bytes f taken.0 in
      let more = Taken-chunk v next f at_ bytes small taken here fits same in
      let rest = subst (λ p. Consecutive (next + length bytes) p ms) (sym pos) h in
      values ms (v ++ bytes) (next + length bytes) g small more rest
      ∙ ap (λ ps. add_to_params after ps g.partial_name (string ((v ++ bytes) ++ value_of ms)))
          params
      ∙ ap (λ k. add_to_params after f.params k (string ((v ++ bytes) ++ value_of ms))) name
      ∙ ap (λ w. add_to_params after f.params f.partial_name (string w))
          (append_assoc v bytes (value_of ms))

  -- A part without a file name that comes in pieces is filed under its name with all of its bytes,
  -- or refused as `http_add_to_params` refuses it. It is taken that no part is at hand before, and
  -- that the pieces lie in the body one behind the other, behind its first byte.
  pub part-value :
      (name : Key) (ms : List Move) (next : ℕ) (f : Form)
      → length body < word_mod
      → f.partial_fd ≡ no_file
      → f.partial_offset ≡ 0
      → f.partial_length ≡ 0
      → 0 < next
      → next ≤ length body
      → Consecutive next f.pos ms
      → params_after (
          and_then
            (and_then (call after open_file body (on_partial_start name false) f) (λ g. run ms g))
            (λ g. call after open_file body on_partial_end g))
        ≡ add_to_params after f.params name (string (value_of ms))
  unfolding call to_the_end
  part-value name ms next f small text offset len above le h =
      values ms [] next (record f { partial_name = name }) small
        (text, above, le, inl (offset, len, refl)) h
