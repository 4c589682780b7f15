-- ===== src/Server/Stopping.antt =====
-- Stopping the server (Server::stop) and sending to all (ConnectionManager::sendAll).
use fpga_device_server.Common.{
  ℕ, ◌≡◌, refl, Bool, true, false, List, [], ◌∷◌, map, arith, if◌then◌else◌,
}
use fpga_device_server.Connection.{
  Connection, manager_stop, stop, send, do_read, run_posted, do_write, write_completed,
  write_failed,
}
use fpga_device_server.Connection.Steps.{Step, sends, runs_posted, completes, fails, stops, reads}
use fpga_device_server.Server.{
  Server, accept_completed, send_all, stop_all, server_stop, num_connections,
}
use fpga_device_server.Server.Clients.{ClientStep, ServerStep, ServerRun}

step-unregistered :
    (new : List (List ℕ)) (c c' : Connection)
    → Step new c c'
    → c.registered ≡ false
    → c'.registered ≡ false
unfolding manager_stop stop do_read run_posted do_write write_completed write_failed send
step-unregistered _ _ _ (sends packet c) h = h
step-unregistered _ _ _ (runs_posted c _) h = ground arith
step-unregistered _ _ _ (completes n c _ _) h = ground arith
step-unregistered _ _ _ (fails aborted shutdown_throws c _) h = ground arith
step-unregistered _ _ _ (stops shutdown_throws c) h = refl
step-unregistered _ _ _ (reads c) h = h

-- None of the connections is held by the manager.
abbrev NoneRegistered : List Connection → Type 0
NoneRegistered [] = Unit {0}
NoneRegistered (c ∷ cs) = (c.registered ≡ false) × NoneRegistered cs

NoneRegistered-count : (cs : List Connection) → NoneRegistered cs → num_connections cs ≡ 0
unfolding num_connections
NoneRegistered-count [] h = refl
NoneRegistered-count (c ∷ cs) (e, h) = rw (e, NoneRegistered-count cs h) refl

-- Either way the connection is not held.
either_unregistered :
    (b : Bool) (c d : Connection)
    → c.registered ≡ false
    → (b ≡ false → d.registered ≡ false)
    → (if b then c else d).registered ≡ false
either_unregistered true c d e h = e
either_unregistered false c d e h = h refl

NoneRegistered-stop :
    (shutdown_throws : Connection → Bool) (cs : List Connection)
    → NoneRegistered (map (λ c. if c.registered then manager_stop (shutdown_throws c) c else c) cs)
unfolding manager_stop stop
NoneRegistered-stop shutdown_throws [] = tt
NoneRegistered-stop shutdown_throws (c ∷ cs) = (
  either_unregistered c.registered (manager_stop (shutdown_throws c) c) c refl (λ e. e),
  NoneRegistered-stop shutdown_throws cs,
)

NoneRegistered-send :
    (packet : List ℕ) (cs : List Connection)
    → NoneRegistered cs
    → NoneRegistered (map (λ c. if c.registered then send packet c else c) cs)
unfolding send
NoneRegistered-send packet [] h = tt
NoneRegistered-send packet (c ∷ cs) (e, h) =
    (either_unregistered c.registered (send packet c) c e (λ _. e), NoneRegistered-send packet cs h)

NoneRegistered-step :
    (cs cs' : List Connection) → ClientStep cs cs' → NoneRegistered cs → NoneRegistered cs'
NoneRegistered-step _ _ (ClientStep.here new c c' cs s) (e, h) = (step-unregistered new c c' s e, h)
NoneRegistered-step _ _ (ClientStep.there c cs cs' s) (e, h) = (e, NoneRegistered-step cs cs' s h)

step-stopped :
    (s t : Server)
    → ServerStep s t
    → (s.listening ≡ false) × NoneRegistered s.clients
    → (t.listening ≡ false) × NoneRegistered t.clients
unfolding accept_completed send_all server_stop stop_all
step-stopped _ _ (ServerStep.accepts failed s _) (l, h) = rw l (refl, h)
step-stopped _ _ (ServerStep.sends_all packet s) (l, h) =
    (l, NoneRegistered-send packet s.clients h)
step-stopped _ _ (ServerStep.server_stops shutdown_throws s) (l, h) =
    (refl, NoneRegistered-stop shutdown_throws s.clients)
step-stopped _ _ (ServerStep.client_steps s cs step) (l, h) =
    (l, NoneRegistered-step s.clients cs step h)

run-stopped :
    (s t : Server)
    → ServerRun s t
    → (s.listening ≡ false) × NoneRegistered s.clients
    → (t.listening ≡ false) × NoneRegistered t.clients
run-stopped _ _ (ServerRun.stays s) h = h
run-stopped _ _ (ServerRun.then_steps s t u r step) h = step-stopped t u step (run-stopped s t r h)

-- A server that has been stopped holds no connection and does not listen, and that stays so whatever
-- happens to it and its clients afterwards: an accept that was still under way adds no client.
pub server_stop-final :
    (shutdown_throws : Connection → Bool) (s t : Server)
    → ServerRun (server_stop shutdown_throws s) t
    → (num_connections t.clients ≡ 0) × (t.listening ≡ false)
unfolding server_stop stop_all
server_stop-final shutdown_throws s t r =
    let done =
      run-stopped (server_stop shutdown_throws s) t r
        (refl, NoneRegistered-stop shutdown_throws s.clients) in
    (NoneRegistered-count t.clients done.1, done.0)
