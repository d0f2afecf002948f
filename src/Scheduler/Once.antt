-- ===== src/Scheduler/Once.antt =====
-- How often a waiting fiber of ext/iodine/scheduler.c is resumed.
use Prim.Native.Nat.{bit_and}
use iodine.Base.{
  ℕ, ◌+◌, ◌-◌, ◌||◌, ◌==◌, subst, ◌≡◌, refl, true, false, List, [], ◌∷◌, Option, none, some, arith,
  if◌then◌else◌, length, length-append,
}
use iodine.Scheduler.Attach.{
  Resumed, with_event, with_timeout, with_closed, with_not_ready, Handler, noop, perform,
  deferred_not_ready, Flags, Watch, attach, fulfil, task_close, handle, Event, on_data, on_ready,
  ping, on_close, runs_deferred, comes_back, Lane, task_lock, write_lock, no_lock, come_back,
  is_under_way, Outcome, runs, impossible, use_after_free, and_then, react, react_all,
}

-- While the wait lasts the block was resumed once if the flag is set or a call is under way, and not
-- before; each call that began while another was under way comes on top. When the wait is over the
-- block was let go of once.
pub record Once (block : ℕ) (w : Watch) : Type 0 where
  pub same_block : w.protocol.block ≡ block
  pub open_count :
      w.freed ≡ false
      → length w.resumed ≡ (if w.protocol.fulfilled || is_under_way w then 1 else 0) + w.overlaps
  pub open_held : w.freed ≡ false → w.removed ≡ []
  pub closed_count : w.freed ≡ true → length w.resumed ≡ 1 + w.overlaps
  pub closed_held : w.freed ≡ true → w.removed ≡ block ∷ []

attach-Once :
    (flags : Flags) (waittype block : ℕ) (timeout : Option ℕ) (w : Watch)
    → attach flags waittype block timeout ≡ some w
    → Once block w
unfolding attach
attach-Once flags waittype block none w h = ground arith
attach-Once flags waittype block (some t) w h = ground arith

fulfil-Once :
    (b : ℕ) (lane : Lane) (r : Resumed) (w : Watch)
    → w.freed ≡ false
    → Once b w
    → Once b (fulfil lane r w)
unfolding fulfil
fulfil-Once b task_lock r w f o = ground (arith, length-append w.resumed (r ∷ []))
fulfil-Once b write_lock r w f o = ground (arith, length-append w.resumed (r ∷ []))
fulfil-Once b no_lock r w f o = ground (arith, length-append w.resumed (r ∷ []))

task_close-Once : (b : ℕ) (w : Watch) → w.freed ≡ false → Once b w → Once b (task_close w)
unfolding task_close
task_close-Once b w f o = ground (arith, length-append w.resumed (with_closed ∷ []))

handle-Once :
    (b : ℕ) (lane : Lane) (h : Handler) (w : Watch)
    → w.freed ≡ false
    → Once b w
    → Once b (handle lane h w)
unfolding handle
handle-Once b lane noop w f o = o
handle-Once b lane perform w f o = fulfil-Once b lane with_event w f o
handle-Once b lane deferred_not_ready w f o = ground arith

come_back-Once :
    (b : ℕ) (lane : Lane) (w v : Watch) → come_back lane w ≡ runs v → Once b w → Once b v
come_back-Once b task_lock w v h o = ground arith
come_back-Once b write_lock w v h o = ground arith
come_back-Once b no_lock w v h o = ground arith

react-Once : (b : ℕ) (e : Event) (w v : Watch) → react e w ≡ runs v → Once b w → Once b v
unfolding react
react-Once b on_data w v h o = ground (arith, handle-Once b task_lock w.protocol.on_data w)
react-Once b on_ready w v h o = ground (arith, handle-Once b write_lock w.protocol.on_ready w)
react-Once b ping w v h o = ground (arith, fulfil-Once b write_lock with_timeout w)
react-Once b on_close w v h o = ground (arith, task_close-Once b w)
react-Once b runs_deferred w v h o =
    let v' = record w { deferred = w.deferred - 1 } in
    ground (arith, fulfil-Once b no_lock with_not_ready v')
react-Once b (comes_back lane) w v h o = come_back-Once b lane w v h o

and_then-eq :
    (r : Outcome) (k : Watch → Outcome) (v : Watch)
    → and_then r k ≡ runs v
    → (u : Watch) × (r ≡ runs u) × (k u ≡ runs v)
and_then-eq (runs u) k v h = (u, refl, h)
and_then-eq impossible k v h = cc
and_then-eq use_after_free k v h = cc

react_all-Once :
    (b : ℕ) (es : List Event) (w v : Watch) → react_all es w ≡ runs v → Once b w → Once b v
unfolding react_all
react_all-Once b [] w v h o = ground arith
react_all-Once b (e ∷ es) w v h o =
    let (u, q, k) = and_then-eq (react e w) (react_all es) v h in
    react_all-Once b es u v k (react-Once b e w u q o)

-- If a wait is over and no freed memory was read, then whatever the order of the events in the
-- threads of the reactor, its block was resumed at least once and let go of exactly once. It was
-- resumed once more for each call that began while another was under way, and not otherwise.
pub resumed_once :
    (flags : Flags) (waittype block : ℕ) (timeout : Option ℕ) (w v : Watch) (es : List Event)
    → attach flags waittype block timeout ≡ some w
    → react_all es w ≡ runs v
    → v.freed ≡ true
    → (length v.resumed ≡ 1 + v.overlaps) × (v.removed ≡ block ∷ [])
resumed_once flags waittype block timeout w v es a r f =
    let o = react_all-Once block es w v r (attach-Once flags waittype block timeout w a) in
    (o.closed_count f, o.closed_held f)

-- A wait for both events without a timeout.
abbrev waits_for_both : ℕ → Watch
waits_for_both block = record {
  protocol = record { on_data = perform; on_ready = perform; block = block; fulfilled = false };
  freed = false;
  timeout = 0;
  deferred = 0;
  in_task = false;
  in_write = false;
  in_deferred = 0;
  overlaps = 0;
  resumed = [];
  removed = [];
}

abbrev Resumes : Watch → Type 0
Resumes u =
    (v : Watch) × (react_all
        (on_data ∷ on_ready ∷ comes_back task_lock ∷ comes_back write_lock ∷ []) u
      ≡ runs v)
    × (v.resumed ≡ with_event ∷ with_event ∷ [])

-- A wait for both events can resume its block twice: the flag is set only when the call comes back,
-- and `on_data` and `on_ready` run under different locks.
pub resumed_twice :
    (flags : Flags) (waittype block : ℕ) (w : Watch)
    → (bit_and waittype flags.readable == 0) ≡ false
    → (bit_and waittype flags.writable == 0) ≡ false
    → attach flags waittype block none ≡ some w
    → (v : Watch) × (react_all
          (on_data ∷ on_ready ∷ comes_back task_lock ∷ comes_back write_lock ∷ [])
          w
        ≡ runs v)
      × (v.resumed ≡ with_event ∷ with_event ∷ [])
unfolding attach react_all react
resumed_twice flags waittype block w reads writes h =
    let both : attach flags waittype block none ≡ some (waits_for_both block) =
      ground (arith, reads, writes) in
    let same : waits_for_both block ≡ w = cc in subst Resumes same (_, refl, refl)
