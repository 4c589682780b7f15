-- ===== src/UsbService/Tests.antt =====
-- Runs of the libusb service, and its theorems at them.
use fpga_device_server.Common.{
  ◌≡◌, refl, ℕ, ◌+◌, ◌<◌, Bool, true, false, none, some, [], ◌∷◌, arith,
}
use fpga_device_server.UsbService.{
  Kind, input, output, Service, service, watch_all, start_watcher, is_watching, is_watching_handle,
  start_at, stop_watcher, stop_at, do_wait, find_fd, stop, handle_events, notify, added, removed,
  wait_done, done, here, next_step,
}
use fpga_device_server.UsbService.Invariant.{IsService, nothing}
use fpga_device_server.UsbService.Runs.{Reach-IsService}
use fpga_device_server.UsbService.Stop.{stop-Releases}

abbrev both : Kind → Bool
both k = true

abbrev only_input : Kind → Bool
only_input input = true
only_input output = false

-- One descriptor for input; during its first wait libusb closes it and opens it again for both.
abbrev one_fd : Service
one_fd = service ((5, only_input) ∷ [])

abbrev reopened : Service
reopened = wait_done input (removed 5 ∷ added 5 both ∷ []) 0 one_fd

-- The old watcher does not wait again, the new one does.
run_reopened :
    ((reopened.watchers 0).waits input + (reopened.watchers 0).waits output ≡ 0)
    × ((reopened.watchers 1).waits input + (reopened.watchers 1).waits output ≡ 2)
    × (find_fd 5 reopened ≡ some 1)
unfolding service watch_all start_watcher is_watching start_at stop_watcher stop_at do_wait
    wait_done handle_events notify is_watching_handle
run_reopened = (refl, refl, refl)

one_wait : 0 < (one_fd.watchers 0).waits input
unfolding service watch_all start_watcher is_watching start_at do_wait
one_wait = omega arith

Reach-IsService_example : IsService nothing reopened
Reach-IsService_example =
    Reach-IsService (next_step here (done input (removed 5 ∷ added 5 both ∷ []) 0 one_wait))

stop-Releases_example :
    ((p : ℕ) → ((stop reopened).watchers p).handle ≡ none)
    × ((fd : ℕ) → find_fd fd (stop reopened) ≡ none)
stop-Releases_example =
    stop-Releases nothing reopened
      (Reach-IsService (next_step here (done input (removed 5 ∷ added 5 both ∷ []) 0 one_wait)))
