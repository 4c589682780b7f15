-- ===== src/Connection/Queue.antt =====
-- The queue of a connection over all that can happen to it, in any order.
use fpga_device_server.Common.{
  ℕ, ◌+◌, ◌≡◌, refl, sym, ap, ◌∙◌, true, false, List, [], ◌∷◌, ◌++◌, append-nil, arith,
  if◌then◌else◌, drop, drop-all,
}
use fpga_device_server.Connection.{
  Connection, connection_init, is_empty, do_read, start, stop, manager_stop, manager_start, send,
  do_write, run_posted, write_completed, write_failed,
}
use fpga_device_server.Connection.Steps.{
  Step, Run, IsQueue, concat-append, send-IsQueue, run_posted-IsQueue, write_completed-IsQueue,
  write_failed-IsQueue, sends, runs_posted, completes, fails, stops, reads, begins, goes_on, concat,
}

step-IsQueue :
    (bytes : List ℕ) (new : List (List ℕ)) (c c' : Connection)
    → IsQueue bytes c
    → Step new c c'
    → IsQueue (bytes ++ concat new) c'
unfolding stop manager_stop do_read
step-IsQueue bytes _ _ _ q (sends packet c) = rw append-nil (send-IsQueue packet bytes c q)
step-IsQueue bytes _ _ _ q (runs_posted c h) = rw append-nil (run_posted-IsQueue bytes c q h)
step-IsQueue bytes _ _ _ q (completes n c h fits) =
    rw append-nil (write_completed-IsQueue n bytes c q h fits)
step-IsQueue bytes _ _ _ q (fails aborted shutdown_throws c h) =
    rw append-nil (write_failed-IsQueue aborted shutdown_throws bytes c q h)
step-IsQueue bytes _ _ _ q (stops shutdown_throws c) = rw append-nil (record {
  one_writer = q.one_writer;
  offset_fits = q.offset_fits;
  stream = q.stream;
  broken_waits = q.broken_waits;
})
step-IsQueue bytes _ _ _ q (reads c) = rw append-nil (record {
  one_writer = q.one_writer;
  offset_fits = q.offset_fits;
  stream = q.stream;
  broken_waits = q.broken_waits;
})

-- Whatever happens on a connection, in any order: the bytes that the socket has taken, followed by
-- what waits in the queue, are the packets that were sent, in order. While packets wait, just one
-- call of do_write is posted or one write is under way, unless a write has failed; and otherwise
-- there is none.
pub Run-IsQueue : (sent : List (List ℕ)) (c : Connection) → Run sent c → IsQueue (concat sent) c
unfolding connection_init manager_start start do_read
Run-IsQueue _ _ begins = record {
  one_writer = refl;
  offset_fits = omega arith;
  stream = refl;
  broken_waits = λ b. absurd (ground arith);
}
Run-IsQueue _ _ (goes_on sent new c c' r s) =
    rw (concat-append sent new) (step-IsQueue (concat sent) new c c' (Run-IsQueue sent c r) s)

-- When asio has nothing more to do for a connection on which no write has failed, every byte of
-- every packet has been taken by the socket, in order.
pub quiet_all_delivered :
    (sent : List (List ℕ)) (c : Connection)
    → Run sent c
    → c.write_broken ≡ false
    → c.posted + c.writes ≡ 0
    → c.delivered ≡ concat sent
quiet_all_delivered sent c r sound quiet =
    let q = Run-IsQueue sent c r in
    let nothing = none_wait c.msgbuffer_out (rw sound at (sym quiet ∙ q.one_writer)) in
    sym (append-nil c.delivered)
    ∙ ap (◌++◌ c.delivered) (
        sym (drop-all c.msgbuffer_out_offset [] (omega arith))
        ∙ ap (λ ps. drop c.msgbuffer_out_offset (concat ps)) (sym nothing))
    ∙ q.stream
  where
    none_wait : (ps : List (List ℕ)) → ◌≡◌ {A = ℕ} 0 (if is_empty ps then 0 else 1) → ps ≡ []
    none_wait [] e = refl
    none_wait (p ∷ ps) e = absurd (omega arith)

step-registered :
    (new : List (List ℕ)) (c c' : Connection)
    → Step new c c'
    → (c.registered ≡ true → c.is_open ≡ true)
    → c'.registered ≡ true
    → c'.is_open ≡ true
unfolding manager_stop stop do_read run_posted do_write write_completed write_failed send
step-registered _ _ _ (sends packet c) before h = before h
step-registered _ _ _ (runs_posted c _) before h = ground (arith, before)
step-registered _ _ _ (completes n c _ _) before h = ground (arith, before)
step-registered _ _ _ (fails aborted shutdown_throws c _) before h = ground (arith, before)
step-registered _ _ _ (stops shutdown_throws c) before h = absurd (ground arith)
step-registered _ _ _ (reads c) before h = before h

-- A connection that the manager holds has an open socket.
pub Run-registered :
    (sent : List (List ℕ)) (c : Connection) → Run sent c → c.registered ≡ true → c.is_open ≡ true
unfolding connection_init manager_start start do_read
Run-registered _ _ begins h = refl
Run-registered _ _ (goes_on sent new c c' r s) h =
    step-registered new c c' s (Run-registered sent c r) h
