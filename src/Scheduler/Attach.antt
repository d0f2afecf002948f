-- ===== src/Scheduler/Attach.antt =====
-- `iodine_scheduler_attach` of ext/iodine/scheduler.c and the callbacks that it registers. The
-- reactor calls them, in several threads: a callback calls the waiting block first and sets the flag
-- behind it, and other callbacks may run between the two. The block is resumed with what is listed
-- as `Resumed`.
use Prim.Native.Nat.{bit_and}
use iodine.Base.{
  ℕ, ◌+◌, ◌-◌, Bool, true, false, not, ◌&&◌, ◌||◌, ltb, List, [], ◌∷◌, ◌++◌, Option, none, some,
  ◌==◌, if◌then◌else◌, u8,
}

-- How the waiting block is called: with no argument, or with a result.
pub data Resumed : Type 0 where
  with_event with_timeout with_closed with_not_ready : Resumed

-- The functions that a protocol's slots may hold.
pub data Handler : Type 0 where
  noop perform deferred_not_ready : Handler

-- scheduler_protocol_s
pub record Protocol : Type 0 where
  pub on_data : Handler
  pub on_ready : Handler
  pub block : ℕ
  pub fulfilled : Bool

-- IO::READABLE and IO::WRITABLE, which Ruby gives.
pub record Flags : Type 0 where
  pub readable : ℕ
  pub writable : ℕ

-- The three assignments to `*protocol`; `none` where none of them is made and the memory from
-- `fio_malloc` stays as it was.
unfoldable pub protocol_for : Flags → ℕ → ℕ → Option Protocol
protocol_for flags waittype block =
    let reads = not (bit_and waittype flags.readable == 0) in
    let writes = not (bit_and waittype flags.writable == 0) in
    if reads && writes
    then some (record { on_data = perform; on_ready = perform; block = block; fulfilled = false })
    else if reads
    then some (record { on_data = perform; on_ready = noop; block = block; fulfilled = false })
    else if writes
    then some (record { on_data = noop; on_ready = perform; block = block; fulfilled = false })
    else none

-- The three ways into a callback that resumes: under the reactor's lock for tasks (`on_data`), under
-- its lock for writes (`on_ready`, `ping`), and from a task of `fio_defer`, which takes no lock.
pub data Lane : Type 0 where
  task_lock write_lock no_lock : Lane

-- A watched descriptor: the protocol, whether its memory was freed, the timeout that `fio` was
-- given (0 is none), the tasks of `fio_defer` that point to it, the calls of the block in each lane
-- whose flag is still to be set, and what has happened so far. `overlaps` counts the calls of the
-- block that began while another was under way.
pub record Watch : Type 0 where
  pub protocol : Protocol
  pub freed : Bool
  pub timeout : ℕ
  pub deferred : ℕ
  pub in_task : Bool
  pub in_write : Bool
  pub in_deferred : ℕ
  pub overlaps : ℕ
  pub resumed : List Resumed
  pub removed : List ℕ

abbrev watching : Protocol → ℕ → Watch
watching protocol timeout = record {
  protocol = protocol;
  freed = false;
  timeout = timeout;
  deferred = 0;
  in_task = false;
  in_write = false;
  in_deferred = 0;
  overlaps = 0;
  resumed = [];
  removed = [];
}

-- A timeout of 0 asks to return at once. `fio_timeout_set` takes a `uint8_t`.
set_timeout : Option ℕ → Protocol → Watch
set_timeout none p = watching p 0
set_timeout (some t) p =
    if t == 0 then watching (record p { on_ready = deferred_not_ready }) 0 else watching p (u8 t)

unfoldable pub attach : Flags → ℕ → ℕ → Option ℕ → Option Watch
unfolding set_timeout protocol_for
attach flags waittype block timeout = elim (protocol_for flags waittype block) [
  | none ↦ none
  | some p ↦ some (set_timeout timeout p)
]

abbrev pub is_under_way : Watch → Bool
is_under_way w = w.in_task || (w.in_write || ltb 0 w.in_deferred)

abbrev pub enter : Lane → Watch → Watch
enter task_lock w = record w { in_task = true }
enter write_lock w = record w { in_write = true }
enter no_lock w = record w { in_deferred = w.in_deferred + 1 }

abbrev pub resume : Resumed → Watch → Watch
resume r w = record w {
  resumed = w.resumed ++ r ∷ [];
  overlaps = w.overlaps + (if is_under_way w then 1 else 0);
}

-- The first half of what `task_perform`, `task_not_ready` and `task_timeout` share: the test and
-- the call of the block.
unfoldable pub fulfil : Lane → Resumed → Watch → Watch
fulfil lane r w = if w.protocol.fulfilled then w else enter lane (resume r w)

-- The second half, where the call comes back: the flag.
abbrev pub fulfilled_now : Watch → Watch
fulfilled_now w = record w { protocol = record (w.protocol) { fulfilled = true } }

unfoldable pub task_close : Watch → Watch
task_close w =
    let called = if w.protocol.fulfilled then w else resume with_closed w in
    record called { removed = w.removed ++ w.protocol.block ∷ []; freed = true }

unfoldable pub handle : Lane → Handler → Watch → Watch
unfolding fulfil
handle lane noop w = w
handle lane perform w = fulfil lane with_event w
handle lane deferred_not_ready w = record w { deferred = w.deferred + 1 }

-- What the reactor does, and where a call of the block comes back.
pub data Event : Type 0 where
  on_data on_ready ping on_close runs_deferred : Event
  comes_back : Lane → Event

-- What a step of the reactor comes to.
pub data Outcome : Type 0 where
  runs : Watch → Outcome
  impossible : Outcome
  use_after_free : Outcome

abbrev pub come_back : Lane → Watch → Outcome
come_back task_lock w =
    if w.in_task then runs (record (fulfilled_now w) { in_task = false }) else impossible
come_back write_lock w =
    if w.in_write then runs (record (fulfilled_now w) { in_write = false }) else impossible
come_back no_lock w =
    if w.in_deferred == 0
    then impossible
    else if w.freed
    then use_after_free
    else runs (record (fulfilled_now w) { in_deferred = w.in_deferred - 1 })

-- The reactor gives no event to a closed descriptor, runs one callback under each lock, and closes
-- when no lock is taken; a task of `fio_defer` runs whatever became of the protocol.
unfoldable pub react : Event → Watch → Outcome
unfolding handle task_close fulfil
react on_data w =
    if w.freed || w.in_task then impossible else runs (handle task_lock w.protocol.on_data w)
react on_ready w =
    if w.freed || w.in_write then impossible else runs (handle write_lock w.protocol.on_ready w)
react ping w = if w.freed || w.in_write then impossible else runs (fulfil write_lock with_timeout w)
react on_close w = if w.freed || (w.in_task || w.in_write) then impossible else runs (task_close w)
react runs_deferred w =
    if w.deferred == 0
    then impossible
    else if w.freed
    then use_after_free
    else runs (fulfil no_lock with_not_ready (record w { deferred = w.deferred - 1 }))
react (comes_back lane) w = come_back lane w

abbrev pub and_then : Outcome → (Watch → Outcome) → Outcome
and_then (runs w) k = k w
and_then impossible k = impossible
and_then use_after_free k = use_after_free

unfoldable pub react_all : List Event → Watch → Outcome
react_all [] w = runs w
react_all (e ∷ es) w = and_then (react e w) (react_all es)
