-- ===== src/UsbService/Runs.antt =====
-- The handlers of the waits, and every run of the libusb service (src/libusb_asio/libusb_service.cpp).
use fpga_device_server.Common.{
  ℕ, ◌+◌, ◌<◌, ◌≡◌, refl, ap, ◌∙◌, inl, inr, Bool, true, false, none, List, Option-cases, arith,
}
use fpga_device_server.Common.Maps.{nat_eq_refl}
use fpga_device_server.UsbService.{
  Kind, Service, is_watching, is_watching_handle, Note, handle_events, take_wait, wait_done,
  wait_aborted, count_failed, wait_failed, no_watchers, service, Step, noted, done, aborted, failed,
  stopped, Reach, here, next_step,
}
use fpga_device_server.UsbService.Invariant.{
  IsService, nothing, one_at, take_wait-IsService, do_wait-IsService, count_failed-IsService,
  forgive,
}
use fpga_device_server.UsbService.Entries.{
  notify-IsService, handle_events-IsService, watch_all-IsService,
}
use fpga_device_server.UsbService.Stop.{stop-IsService}

in_use :
    (k : Kind) (p : ℕ) (s : Service) → IsService nothing s → 0 < (s.watchers p).waits k → p < s.next
in_use k p s i h = ground (arith, i.unused p k)

pays_one : (k : Kind) (p q : ℕ) (k' : Kind) → one_at k p q k' ≡ nothing q k' + one_at k p q k'
pays_one k p q k' = omega arith

-- The handler renews the wait just if the watcher still holds its descriptor, also when libusb has
-- closed that descriptor, or opened it again, while the handler ran.
wait_done-IsService :
    (k : Kind) (notes : List Note) (p : ℕ) (s : Service)
    → 0 < (s.watchers p).waits k
    → IsService nothing s
    → IsService nothing (wait_done k notes p s)
unfolding wait_done
wait_done-IsService k notes p s h i =
    let owed = one_at k p in
    let s' = handle_events notes (take_wait k p s) in
    let taken = take_wait-IsService nothing owed k p s (pays_one k p) h (in_use k p s i h) i in
    let i' = handle_events-IsService owed notes (take_wait k p s) taken in
    elim (Option-cases (s'.watchers p).handle) [
      | inl closed ↦
          let gone : is_watching_handle (s'.watchers p).handle s' ≡ false =
            unfold is_watching_handle in rw closed refl in
          rw gone (
            forgive owed nothing p s' closed (λ q k' other. rw other refl) (λ q k'. omega arith) i')
      | inr (fd, open_fd) ↦
          let found = i'.entered p fd open_fd in
          let watched : is_watching_handle (s'.watchers p).handle s' ≡ true =
            ap (λ x. is_watching_handle x s') open_fd
            ∙ unfold is_watching_handle is_watching in rw found refl in
          rw watched
            (do_wait-IsService owed nothing k p s' (pays_one k p) (i'.registered fd p found).1 i')
    ]

wait_aborted-IsService :
    (k : Kind) (p : ℕ) (s : Service)
    → 0 < (s.watchers p).waits k
    → (s.watchers p).handle ≡ none
    → IsService nothing s
    → IsService nothing (wait_aborted k p s)
unfolding wait_aborted
wait_aborted-IsService k p s h closed i =
    let taken =
      take_wait-IsService nothing (one_at k p) k p s (pays_one k p) h (in_use k p s i h) i in
    forgive (one_at k p) nothing p (take_wait k p s) (still_closed p s closed)
      (λ q k' other. rw other refl) (λ q k'. omega arith) taken
  where
    still_closed :
        (p : ℕ) (s : Service)
        → (s.watchers p).handle ≡ none
        → ((take_wait k p s).watchers p).handle ≡ none
    still_closed p s e = rw (nat_eq_refl p) e

wait_failed-IsService :
    (k : Kind) (notes : List Note) (p : ℕ) (s : Service)
    → 0 < (s.watchers p).waits k
    → IsService nothing s
    → IsService nothing (wait_failed k notes p s)
unfolding wait_failed
wait_failed-IsService k notes p s h i =
    let used = in_use k p s i h in
    let taken = take_wait-IsService nothing (one_at k p) k p s (pays_one k p) h used i in
    handle_events-IsService nothing notes (count_failed k p (take_wait k p s))
      (count_failed-IsService (one_at k p) nothing k p (take_wait k p s) (pays_one k p) used taken)

Step-IsService : {s t : Service} → Step s t → IsService nothing s → IsService nothing t
Step-IsService {s} (noted n) i = notify-IsService nothing n s i
Step-IsService {s} (done k notes p h) i = wait_done-IsService k notes p s h i
Step-IsService {s} (aborted k p h closed) i = wait_aborted-IsService k p s h closed i
Step-IsService {s} (failed k notes p h) i = wait_failed-IsService k notes p s h i
Step-IsService {s} stopped i = stop-IsService nothing s i

no_watchers-IsService : IsService nothing no_watchers
no_watchers-IsService = record {
  registered = λ fd p e. absurd (cc);
  entered = λ p fd e. absurd (cc);
  armed = λ p fd k e. absurd (cc);
  unused = λ p k h. (refl, refl);
}

-- Whatever libusb opens and closes, inside a handler or outside, however the waits end, and also when
-- the service is stopped: the map holds just the watchers that hold a descriptor, each under its own,
-- so that no descriptor is held twice; and each of them has just one wait for each event that it was
-- started for, unless that wait has ended in an error other than an abort.
pub Reach-IsService :
    {fds : List (ℕ × (Kind → Bool))} {s : Service} → Reach fds s → IsService nothing s
unfolding service
Reach-IsService {fds} here = watch_all-IsService nothing fds no_watchers no_watchers-IsService
Reach-IsService (next_step r step) = Step-IsService step (Reach-IsService r)
