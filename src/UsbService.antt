-- ===== src/UsbService.antt =====
-- The watchers of libusb's file descriptors, classes libusb_service and libusb_service_fd_watcher
-- (src/libusb_asio/libusb_service.h and libusb_service.cpp): a heap of watcher objects, the map from the
-- descriptors to them, and the waits for input and output that asio still has to complete. What
-- happens, and in which order, is a relation of steps. The hotplug callbacks and the message about a
-- failed wait are left out.
pub mod Invariant
pub mod Entries
pub mod Runs
pub mod Stop
mod Tests
use fpga_device_server.Common.{
  ℕ, suc, ◌+◌, ◌-◌, ◌<◌, ◌≡◌, Bool, true, false, Option, none, some, List, [], ◌∷◌, ◌==◌, ltb,
  if◌then◌else◌,
}
use fpga_device_server.Common.Maps.{find, insert, erase, is_some}

-- POLLIN and POLLOUT.
pub data Kind : Type 0 where
  input output : Kind

abbrev pub same_kind : Kind → Kind → Bool
same_kind input input = true
same_kind input output = false
same_kind output input = false
same_kind output output = true

-- `handle` is the descriptor that m_descriptor holds, none once it is released: native_handle is then -1,
-- which is no descriptor. `events` is what `start` was called with. `waits` are the waits that asio has
-- still to complete, each of which holds the object, and `failed` those that ended in an error.
pub record Watcher : Type 0 where
  pub handle : Option ℕ
  pub events : Kind → Bool
  pub waits : Kind → ℕ
  pub failed : Kind → ℕ

-- The heap is a function on addresses, of which those below `next` are in use.
pub record Service : Type 0 where
  pub fd_watchers : List (ℕ × ℕ)
  pub watchers : ℕ → Watcher
  pub next : ℕ

abbrev pub put : ℕ → Watcher → Service → Service
put p w s = record s { watchers = λ q. if q == p then w else s.watchers q }

abbrev pub add_at : Kind → ℕ → (Kind → ℕ) → Kind → ℕ
add_at k n counts k' = if same_kind k' k then counts k' + n else counts k'

abbrev pub less_at : Kind → (Kind → ℕ) → Kind → ℕ
less_at k counts k' = if same_kind k' k then counts k' - 1 else counts k'

abbrev pub find_fd : ℕ → Service → Option ℕ
find_fd fd s = find (◌==◌) fd s.fd_watchers

-- libusb_service::isWatching, of a descriptor and of what native_handle returns.
unfoldable pub is_watching : ℕ → Service → Bool
is_watching fd s = is_some (find_fd fd s)

unfoldable pub is_watching_handle : Option ℕ → Service → Bool
unfolding is_watching
is_watching_handle none s = false
is_watching_handle (some fd) s = is_watching fd s

-- do_read and do_write of the watcher at an address.
unfoldable pub do_wait : Kind → ℕ → Service → Service
do_wait k p s = let w = s.watchers p in put p (record w { waits = add_at k 1 w.waits }) s

-- libusb_service_fd_watcher::stop
unfoldable pub stop_at : ℕ → Service → Service
stop_at p s = put p (record (s.watchers p) { handle = none }) s

abbrev pub new_watcher : ℕ → (Kind → Bool) → Watcher
new_watcher fd events = record {
  handle = some fd;
  events = events;
  waits = λ k. 0;
  failed = λ k. 0;
}

-- libusb_service_fd_watcher::start
unfoldable pub start_at : ℕ → (Kind → Bool) → Service → Service
unfolding do_wait
start_at p events s =
    let reading = if events input then do_wait input p s else s in
    if events output then do_wait output p reading else reading

unfoldable pub start_watcher : ℕ → (Kind → Bool) → Service → Service
start_watcher fd events s =
    let p = s.next in
    let entered : Service = record (put p (new_watcher fd events) s) {
      fd_watchers = insert (◌==◌) ltb fd p s.fd_watchers;
      next = p + 1;
    } in
    if is_watching fd s then s else start_at p events entered

unfoldable pub stop_watcher : ℕ → Service → Service
unfolding stop_at
stop_watcher fd s = elim (find_fd fd s) [
  | none ↦ s
  | some p ↦ stop_at p (record s { fd_watchers = erase (◌==◌) fd s.fd_watchers })
]

-- libusb_service::stop
unfoldable pub stop_all : List (ℕ × ℕ) → Service → Service
unfolding stop_at
stop_all [] s = s
stop_all ((fd, p) ∷ entries) s = stop_all entries (stop_at p s)

unfoldable pub stop : Service → Service
unfolding stop_all
stop s = record (stop_all s.fd_watchers s) { fd_watchers = [] }

-- The calls that libusb makes of _pollfd_added_cb and _pollfd_removed_cb.
pub data Note : Type 0 where
  added : ℕ → (Kind → Bool) → Note
  removed : ℕ → Note

unfoldable pub notify : Note → Service → Service
notify (added fd events) s = start_watcher fd events s
notify (removed fd) s = stop_watcher fd s

-- handleEvents: libusb handles what is due, and makes these calls meanwhile.
unfoldable pub handle_events : List Note → Service → Service
unfolding notify
handle_events [] s = s
handle_events (n ∷ notes) s = handle_events notes (notify n s)

-- A wait is over when its handler runs.
abbrev pub take_wait : Kind → ℕ → Service → Service
take_wait k p s = let w = s.watchers p in put p (record w { waits = less_at k w.waits }) s

-- The handlers of do_read and do_write, by the error code: none, operation_aborted, and another.
unfoldable pub wait_done : Kind → List Note → ℕ → Service → Service
unfolding is_watching_handle
wait_done k notes p s =
    let s' = handle_events notes (take_wait k p s) in
    if is_watching_handle (s'.watchers p).handle s' then do_wait k p s' else s'

unfoldable pub wait_aborted : Kind → ℕ → Service → Service
wait_aborted k p s = take_wait k p s

abbrev pub count_failed : Kind → ℕ → Service → Service
count_failed k p s = let w = s.watchers p in put p (record w { failed = add_at k 1 w.failed }) s

unfoldable pub wait_failed : Kind → List Note → ℕ → Service → Service
wait_failed k notes p s = handle_events notes (count_failed k p (take_wait k p s))

-- The loop of the constructor over libusb's list of descriptors, and the state that it starts from.
unfoldable pub watch_all : List (ℕ × (Kind → Bool)) → Service → Service
watch_all [] s = s
watch_all ((fd, events) ∷ fds) s = watch_all fds (start_watcher fd events s)

abbrev pub no_watcher : Watcher
no_watcher = record { handle = none; events = λ k. false; waits = λ k. 0; failed = λ k. 0 }

abbrev pub no_watchers : Service
no_watchers = record { fd_watchers = []; watchers = λ p. no_watcher; next = 0 }

unfoldable pub service : List (ℕ × (Kind → Bool)) → Service
service fds = watch_all fds no_watchers

-- What may happen: libusb opens or closes a descriptor, a wait ends, or the service is stopped. A wait is
-- aborted only after its descriptor has been released.
pub data Step (s : Service) : Service → Type 0 where
  noted : (n : Note) → Step s (notify n s)
  done :
      (k : Kind) (notes : List Note) (p : ℕ)
      → 0 < (s.watchers p).waits k
      → Step s (wait_done k notes p s)
  aborted :
      (k : Kind) (p : ℕ)
      → 0 < (s.watchers p).waits k
      → (s.watchers p).handle ≡ none
      → Step s (wait_aborted k p s)
  failed :
      (k : Kind) (notes : List Note) (p : ℕ)
      → 0 < (s.watchers p).waits k
      → Step s (wait_failed k notes p s)
  stopped : Step s (stop s)

pub data Reach (fds : List (ℕ × (Kind → Bool))) : Service → Type 0 where
  here : Reach fds (service fds)
  next_step : {s t : Service} → Reach fds s → Step s t → Reach fds t
