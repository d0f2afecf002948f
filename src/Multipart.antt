-- ===== src/Multipart.antt =====
-- The multipart bodies of ext/iodine/http.c: the callbacks by which facil.io's MIME parser fills
-- the parameters and writes uploaded files, and the loop that feeds it. The parser itself
-- (http_mime_parser.h) is facil.io's, an argument, as are the body's bytes and the answers of `open`.
pub mod Feeding
pub mod Descriptors
pub mod Values
pub mod Driving
pub mod Leaks
mod Examples
use iodine.Base.{
  ℕ, zero, suc, ◌+◌, Bool, true, false, not, ◌&&◌, ◌||◌, List, [], ◌∷◌, ◌++◌, Option, none, some,
  ◌==◌, if◌then◌else◌, take, drop, length, u64,
}
use iodine.Params.Tree.{
  Key, Node, Entries, no_entries, nil, string, uploaded_file, Error, Result, ok, raises,
}
use iodine.Params.Adding.{add_to_params}

-- What `open` gives: 0, which the code reads as no file, -1, or another descriptor.
pub data Descriptor : Type 0 where
  no_file : Descriptor
  failed : Descriptor
  fd : ℕ → Descriptor

-- What the callbacks do outside of their own data; a temporary file is named by its number.
pub data Effect : Type 0 where
  stored linked : ℕ → Effect
  opened : ℕ → Descriptor → Effect
  wrote : Descriptor → List ℕ → Effect
  closed : Descriptor → Effect

-- http_fio_mime_s, with the number of temporary files made and what was done.
pub record Form : Type 0 where
  pub pos : ℕ
  pub partial_offset : ℕ
  pub partial_length : ℕ
  pub partial_name : Key
  pub partial_fd : Descriptor
  pub partial_tempfile : Node
  pub params : Entries
  pub files : ℕ
  pub done : List Effect

-- `{.h = h, .params = params}`
unfoldable pub new_form : Form
new_form = record {
  pos = 0;
  partial_offset = 0;
  partial_length = 0;
  partial_name = [];
  partial_fd = no_file;
  partial_tempfile = nil;
  params = no_entries;
  files = 0;
  done = [];
}

-- The parser's calls. An empty file name has no length; the pointer of a partial start may be NULL.
pub data Event : Type 0 where
  on_data : Key → List ℕ → List ℕ → Event
  on_partial_start : Key → Bool → Event
  on_partial_data : ℕ → List ℕ → Event
  on_partial_end : Event

-- A callback returns, or Ruby raises through the parser.
pub data Outcome : Type 0 where
  returns : Form → Outcome
  raised : Error → Form → Outcome

abbrev pub and_then : Outcome → (Form → Outcome) → Outcome
and_then (returns f) k = k f
and_then (raised e f) k = raised e f

abbrev pub form_of : Outcome → Form
form_of (returns f) = f
form_of (raised e f) = f

abbrev pub does : List Effect → Form → Form
does es f = record f { done = f.done ++ es }

abbrev pub is_no_file : Descriptor → Bool
is_no_file no_file = true
is_no_file d = false

-- create_temp_file: the file's path is kept, and linked to the connection, whose close deletes it.
abbrev pub create_temp_file : Form → Form
create_temp_file f = does (stored f.files ∷ linked f.files ∷ []) (record f { files = suc f.files })

-- cleanup_temp_file: IodineStore.remove(path), unlink(path).
pub data Cleanup : Type 0 where
  unstored unlinked : ℕ → Cleanup

unfoldable pub cleanup_temp_file : ℕ → List Cleanup
cleanup_temp_file path = unstored path ∷ unlinked path ∷ []

abbrev pub filed : Form → Result Entries → Outcome
filed f (ok params) = returns (record f { params = params })
filed f (raises e) = raised e f

-- What follows `http_add_to_params` at the end of a part.
abbrev pub end_file : Form → Form
end_file f =
    does (closed f.partial_fd ∷ [])
      (record f { partial_name = []; partial_tempfile = nil; partial_fd = no_file })

abbrev pub end_value : Form → Form
end_value f = record f { partial_name = []; partial_length = 0; partial_offset = 0 }

-- The names end in a byte that is no bracket: the quote or line end behind it, or a NUL.
module _ (after : ℕ) (open_file : ℕ → Descriptor) (body : List ℕ) where
  abbrev pub add : Key → Node → Form → Outcome
  add name value f = filed f (add_to_params after f.params name value)

  -- For a file: open, write, close, and then the parameters.
  abbrev pub upload : Key → List ℕ → Form → Outcome
  upload name value f =
      let path = f.files in
      let file = open_file path in
      add name (uploaded_file path)
        (does (opened path file ∷ wrote file value ∷ closed file ∷ []) (create_temp_file f))

  abbrev pub data_ : Key → List ℕ → List ℕ → Form → Outcome
  data_ name [] value f = add name (string value) f
  data_ name (c ∷ filename) value f = upload name value f

  abbrev pub partial_start : Key → Bool → Form → Form
  partial_start name false f = record f { partial_name = name }
  partial_start name true f =
      let path = f.files in
      let file = open_file path in
      does (opened path file ∷ []) (record (create_temp_file f) {
        partial_name = name;
        partial_fd = file;
        partial_tempfile = uploaded_file path;
      })

  -- `at` is where the data begins in the buffer; an offset of 0 is none.
  abbrev pub partial_data : ℕ → List ℕ → Form → Form
  partial_data at_ value f =
      if not (is_no_file f.partial_fd) then does (wrote f.partial_fd value ∷ []) f else record f {
        partial_offset = if f.partial_offset == 0 then u64 (f.pos + at_) else f.partial_offset;
        partial_length = u64 (f.partial_length + length value);
      }

  -- fiobj_data_slice and its bytes
  abbrev pub slice : ℕ → ℕ → List ℕ
  slice offset len = take len (drop offset body)

  abbrev pub partial_end : Form → Outcome
  partial_end f =
      if not (is_no_file f.partial_fd)
      then and_then (add f.partial_name f.partial_tempfile f) (λ g. returns (end_file g))
      else and_then (add f.partial_name (string (slice f.partial_offset f.partial_length)) f)
          (λ g. returns (end_value g))

  unfoldable pub call : Event → Form → Outcome
  unfolding add_to_params
  call (on_data name filename value) f = data_ name filename value f
  call (on_partial_start name has_file) f = returns (partial_start name has_file f)
  call (on_partial_data at_ value) f = returns (partial_data at_ value f)
  call on_partial_end f = partial_end f

  -- The calls of one round of the parser; a raise leaves it.
  unfoldable pub call_all : List Event → Form → Outcome
  unfolding call
  call_all [] f = returns f
  call_all (e ∷ es) f = and_then (call e f) (λ g. call_all es g)
