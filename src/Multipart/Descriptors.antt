-- ===== src/Multipart/Descriptors.antt =====
-- The descriptors that the multipart callbacks of ext/iodine/http.c open and close.
use iodine.Base.{
  arith, ℕ, ◌+◌, ◌≡◌, ◌≢◌, refl, ap, inl, inr, Bool, true, false, not, List, [], ◌∷◌, ◌++◌,
  Bool-cases, subst, if◌then◌else◌,
}
use iodine.Params.Tree.{Entries, Result, ok, raises}
use iodine.Multipart.{
  Descriptor, no_file, failed, fd, Effect, stored, linked, opened, wrote, closed, Form, Event,
  on_data, on_partial_start, on_partial_data, on_partial_end, Outcome, returns, raised, is_no_file,
  filed, end_file, end_value, and_then, call, call_all,
}

abbrev is_open : Descriptor → ℕ
is_open failed = 0
is_open d = 1

abbrev opening : Effect → ℕ
opening (opened path d) = is_open d
opening e = 0

abbrev closing : Effect → ℕ
closing (closed d) = is_open d
closing e = 0

-- How many descriptors were opened, and how many closed.
abbrev pub opens : List Effect → ℕ
opens [] = 0
opens (e ∷ es) = opening e + opens es

abbrev pub closes : List Effect → ℕ
closes [] = 0
closes (e ∷ es) = closing e + closes es

abbrev pub held : Descriptor → ℕ
held (fd n) = 1
held d = 0

opens-append : (xs ys : List Effect) → opens (xs ++ ys) ≡ opens xs + opens ys
opens-append [] ys = omega arith
opens-append (x ∷ xs) ys = omega (arith, opens-append xs ys)

closes-append : (xs ys : List Effect) → closes (xs ++ ys) ≡ closes xs + closes ys
closes-append [] ys = omega arith
closes-append (x ∷ xs) ys = omega (arith, closes-append xs ys)

-- Every descriptor that was opened is closed, but for that of the part at hand.
abbrev pub Balanced : Form → Type 0
Balanced f = opens f.done ≡ closes f.done + held f.partial_fd

-- What a callback leaves, if it returns and if it raises.
abbrev pub Leaves : (Form → Type 0) → Outcome → Type 0
Leaves P (returns f) = P f
Leaves P (raised e f) = Balanced f

-- The calls of a parser: a part is given at once or begins, goes on and ends, one after the other.
abbrev pub IsOrdered : Bool → List Event → Bool → Type 0
IsOrdered inside [] last = inside ≡ last
IsOrdered inside (on_data name filename value ∷ es) last =
    (inside ≡ false) × IsOrdered false es last
IsOrdered inside (on_partial_start name has_file ∷ es) last =
    (inside ≡ false) × IsOrdered true es last
IsOrdered inside (on_partial_data at_ value ∷ es) last = (inside ≡ true) × IsOrdered true es last
IsOrdered inside (on_partial_end ∷ es) last = (inside ≡ true) × IsOrdered false es last

-- Outside of a part no file is held.
abbrev pub IsKept : Bool → Form → Type 0
IsKept inside f = Balanced f × (inside ≡ false → f.partial_fd ≡ no_file)

Leaves-filed :
    (P : Form → Type 0) (f : Form) (r : Result Entries)
    → Balanced f
    → ((params : Entries) → P (record f { params = params }))
    → Leaves P (filed f r)
Leaves-filed P f (ok params) bal h = h params
Leaves-filed P f (raises e) bal h = bal

Leaves-if :
    (P : Form → Type 0) (b : Bool) (o p : Outcome)
    → (b ≡ true → Leaves P o)
    → (b ≡ false → Leaves P p)
    → Leaves P (if b then o else p)
Leaves-if P true o p h k = h refl
Leaves-if P false o p h k = k refl

open_held : (d : Descriptor) → d ≢ no_file → is_open d ≡ held d
open_held no_file h = absurd (h refl)
open_held failed h = refl
open_held (fd n) h = refl

held_file : (d : Descriptor) → not (is_no_file d) ≡ true → is_open d ≡ held d
held_file no_file h = cc
held_file failed h = refl
held_file (fd n) h = refl

no_file_of : (d : Descriptor) → not (is_no_file d) ≡ false → d ≡ no_file
no_file_of no_file h = refl
no_file_of failed h = cc
no_file_of (fd n) h = cc

Leaves-and_then :
    (P Q : Form → Type 0) (o : Outcome) (k : Form → Outcome)
    → Leaves P o
    → ((f : Form) → P f → Leaves Q (k f))
    → Leaves Q (and_then o k)
Leaves-and_then P Q (returns f) k p h = h f p
Leaves-and_then P Q (raised e f) k p h = p

module _ (after : ℕ) (open_file : ℕ → Descriptor) (body : List ℕ)
    (some_file : (i : ℕ) → open_file i ≢ no_file) where
  IsKept-data :
      (name filename value : List ℕ) (f : Form)
      → IsKept false f
      → Leaves (IsKept false) (call after open_file body (on_data name filename value) f)
  unfolding call
  IsKept-data name [] value f (bal, none_held) =
      Leaves-filed (IsKept false) f _ bal λ params. (bal, none_held)
  IsKept-data name (c ∷ filename) value f (bal, none_held) =
      let made = stored f.files ∷ linked f.files ∷ [] in
      let file = open_file f.files in
      let used = opened f.files file ∷ wrote file value ∷ closed file ∷ [] in
      let same : opens ((f.done ++ made) ++ used)
          ≡ closes ((f.done ++ made) ++ used) + held f.partial_fd =
        omega (
          arith,
          opens-append (f.done ++ made) used,
          opens-append f.done made,
          closes-append (f.done ++ made) used,
          closes-append f.done made,
          bal,
        ) in
      Leaves-filed (IsKept false) _ _ same λ params. (same, none_held)

  IsKept-start :
      (name : List ℕ) (has_file : Bool) (f : Form)
      → IsKept false f
      → Leaves (IsKept true) (call after open_file body (on_partial_start name has_file) f)
  unfolding call
  IsKept-start name false f (bal, none_held) = (bal, λ e. absurd cc)
  IsKept-start name true f (bal, none_held) =
      let made = stored f.files ∷ linked f.files ∷ [] in
      let file = open_file f.files in
      (
        omega (
          arith,
          opens-append (f.done ++ made) (opened f.files file ∷ []),
          opens-append f.done made,
          closes-append (f.done ++ made) (opened f.files file ∷ []),
          closes-append f.done made,
          open_held file (some_file f.files),
          ap held (none_held refl),
          bal,
        ),
        λ e. absurd cc,
      )

  IsKept-partial_data :
      (at_ : ℕ) (value : List ℕ) (f : Form)
      → IsKept true f
      → Leaves (IsKept true) (call after open_file body (on_partial_data at_ value) f)
  unfolding call
  IsKept-partial_data at_ value f (bal, held_now) =
      elim (Bool-cases (not (is_no_file f.partial_fd))) [
        | inl file ↦ rw file (
          omega (
            arith,
            opens-append f.done (wrote f.partial_fd value ∷ []),
            closes-append f.done (wrote f.partial_fd value ∷ []),
            bal,
          ),
          λ e. absurd cc,
        )
        | inr text ↦ rw text (bal, λ e. absurd cc)
      ]

  ended_file :
      (f : Form) (r : Result Entries)
      → not (is_no_file f.partial_fd) ≡ true
      → IsKept true f
      → Leaves (IsKept false) (and_then (filed f r) (λ g. returns (end_file g)))
  ended_file f (ok params) file (bal, held_now) = (
    omega (
      arith,
      opens-append f.done (closed f.partial_fd ∷ []),
      closes-append f.done (closed f.partial_fd ∷ []),
      held_file f.partial_fd file,
      bal,
    ),
    λ e. refl,
  )
  ended_file f (raises e) file (bal, held_now) = bal

  ended_value :
      (f : Form) (r : Result Entries)
      → not (is_no_file f.partial_fd) ≡ false
      → IsKept true f
      → Leaves (IsKept false) (and_then (filed f r) (λ g. returns (end_value g)))
  ended_value f (ok params) text (bal, held_now) = (bal, λ e. no_file_of f.partial_fd text)
  ended_value f (raises e) text (bal, held_now) = bal

  IsKept-end :
      (f : Form)
      → IsKept true f
      → Leaves (IsKept false) (call after open_file body on_partial_end f)
  unfolding call
  IsKept-end f k =
      Leaves-if (IsKept false) (not (is_no_file f.partial_fd)) _ _ (λ file. ended_file f _ file k)
        (λ text. ended_value f _ text k)

  pub IsKept-all :
      (inside last : Bool) (es : List Event) (f : Form)
      → IsOrdered inside es last
      → IsKept inside f
      → Leaves (IsKept last) (call_all after open_file body es f)
  unfolding call_all
  IsKept-all inside last [] f order k = subst (λ b. IsKept b f) order k
  IsKept-all inside last (on_data name filename value ∷ es) f (e, order) k =
      Leaves-and_then (IsKept false) (IsKept last)
        (call after open_file body (on_data name filename value) f) _
        (IsKept-data name filename value f (subst (λ b. IsKept b f) e k))
        λ g kg. IsKept-all false last es g order kg
  IsKept-all inside last (on_partial_start name has_file ∷ es) f (e, order) k =
      Leaves-and_then (IsKept true) (IsKept last)
        (call after open_file body (on_partial_start name has_file) f) _
        (IsKept-start name has_file f (subst (λ b. IsKept b f) e k))
        λ g kg. IsKept-all true last es g order kg
  IsKept-all inside last (on_partial_data at_ value ∷ es) f (e, order) k =
      Leaves-and_then (IsKept true) (IsKept last)
        (call after open_file body (on_partial_data at_ value) f) _
        (IsKept-partial_data at_ value f (subst (λ b. IsKept b f) e k))
        λ g kg. IsKept-all true last es g order kg
  IsKept-all inside last (on_partial_end ∷ es) f (e, order) k =
      Leaves-and_then (IsKept false) (IsKept last) (call after open_file body on_partial_end f) _
        (IsKept-end f (subst (λ b. IsKept b f) e k)) λ g kg. IsKept-all false last es g order kg
