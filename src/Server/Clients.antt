-- ===== src/Server/Clients.antt =====
-- What holds of the server and all its clients in every run.
use fpga_device_server.Common.{
  ℕ, ◌+◌, ◌-◌, ◌<◌, ◌≤◌, ◌≡◌, refl, Bool, true, false, List, [], ◌∷◌, ◌++◌, map, arith,
  if◌then◌else◌, Bool-cases, inl, inr,
}
use fpga_device_server.Connection.{Connection, connection_init, manager_start, manager_stop, send}
use fpga_device_server.Connection.Steps.{Step, Run, sends, stops, begins, goes_on}
use fpga_device_server.Server.{
  Server, do_accept, server_init, accept_completed, send_all, stop_all, server_stop,
}

-- One client has taken a step.
pub data ClientStep : List Connection → List Connection → Type 0 where
  here :
      (new : List (List ℕ)) (c c' : Connection) (cs : List Connection)
      → Step new c c'
      → ClientStep (c ∷ cs) (c' ∷ cs)
  there :
      (c : Connection) (cs cs' : List Connection)
      → ClientStep cs cs'
      → ClientStep (c ∷ cs) (c ∷ cs')

-- What can happen to the server.
pub data ServerStep : Server → Server → Type 0 where
  accepts : (failed : Bool) (s : Server) → 0 < s.accepts → ServerStep s (accept_completed failed s)
  sends_all : (packet : List ℕ) (s : Server) → ServerStep s (send_all packet s)
  server_stops :
      (shutdown_throws : Connection → Bool) (s : Server)
      → ServerStep s (server_stop shutdown_throws s)
  client_steps :
      (s : Server) (cs : List Connection)
      → ClientStep s.clients cs
      → ServerStep s (record s { clients = cs })

pub data ServerRun : Server → Server → Type 0 where
  stays : (s : Server) → ServerRun s s
  then_steps : (s t u : Server) → ServerRun s t → ServerStep t u → ServerRun s u

-- The connection came about by the steps of a connection.
abbrev pub HasRun : Connection → Type 0
HasRun c = (sent : List (List ℕ)) × Run sent c

-- Every client is a connection that came about by the steps of a connection.
abbrev pub AllRun : List Connection → Type 0
AllRun [] = Unit {0}
AllRun (c ∷ cs) = HasRun c × AllRun cs

pub record IsServer (s : Server) : Type 0 where
  pub clients_run : AllRun s.clients
  pub one_accept : s.accepts ≤ 1
  pub listens : s.listening ≡ true → s.accepts ≡ 1

step_run : (new : List (List ℕ)) (c c' : Connection) → HasRun c → Step new c c' → HasRun c'
step_run new c c' (sent, r) s = (sent ++ new, goes_on sent new c c' r s)

AllRun-append : (cs ds : List Connection) → AllRun cs → AllRun ds → AllRun (cs ++ ds)
AllRun-append [] ds a b = b
AllRun-append (c ∷ cs) ds (r, a) b = (r, AllRun-append cs ds a b)

AllRun-map :
    (f : Connection → Connection)
    → ((c : Connection) → HasRun c → HasRun (f c))
    → (cs : List Connection) → AllRun cs
    → AllRun (map f cs)
AllRun-map f h [] a = tt
AllRun-map f h (c ∷ cs) (r, a) = (h c r, AllRun-map f h cs a)

AllRun-step : (cs cs' : List Connection) → ClientStep cs cs' → AllRun cs → AllRun cs'
AllRun-step _ _ (here new c c' cs s) (r, a) = (step_run new c c' r s, a)
AllRun-step _ _ (there c cs cs' s) (r, a) = (r, AllRun-step cs cs' s a)

either_run : (b : Bool) (c d : Connection) → HasRun c → HasRun d → HasRun (if b then c else d)
either_run true c d r s = r
either_run false c d r s = s

maybe_send :
    (packet : List ℕ) (c : Connection)
    → HasRun c
    → HasRun (if c.registered then send packet c else c)
maybe_send packet c r =
    either_run c.registered (send packet c) c
      (step_run (packet ∷ []) c (send packet c) r (sends packet c)) r

maybe_stop :
    (shutdown_throws : Connection → Bool) (c : Connection)
    → HasRun c
    → HasRun (if c.registered then manager_stop (shutdown_throws c) c else c)
maybe_stop shutdown_throws c r =
    let c' = manager_stop (shutdown_throws c) c in
    either_run c.registered c' c (step_run [] c c' r (stops (shutdown_throws c) c)) r

accept_completed-IsServer :
    (failed : Bool) (s : Server) → 0 < s.accepts → IsServer s → IsServer (accept_completed failed s)
unfolding accept_completed do_accept
accept_completed-IsServer failed s h i = elim (Bool-cases s.listening) [
  | inr closed ↦ rw closed (record {
    clients_run = i.clients_run;
    one_accept = omega (arith, i.one_accept);
    listens = λ l. absurd (ground arith);
  })
  | inl listens ↦
      let again : s.accepts - 1 + 1 ≡ 1 = omega (arith, i.one_accept) in
      elim (Bool-cases failed) [
        | inl bad ↦
            rw (listens, bad)
              (record {
                clients_run = i.clients_run;
                one_accept = omega (arith, again);
                listens = λ l. again;
              })
        | inr good ↦
            rw (listens, good)
              (record {
                clients_run =
                    AllRun-append s.clients (manager_start connection_init ∷ []) i.clients_run
                      (([], begins), tt);
                one_accept = omega (arith, again);
                listens = λ l. again;
              })
      ]
]

step-IsServer : (s t : Server) → ServerStep s t → IsServer s → IsServer t
unfolding send_all stop_all server_stop
step-IsServer _ _ (accepts failed s h) i = accept_completed-IsServer failed s h i
step-IsServer _ _ (sends_all packet s) i = record {
  clients_run = AllRun-map _ (maybe_send packet) s.clients i.clients_run;
  one_accept = i.one_accept;
  listens = i.listens;
}
step-IsServer _ _ (server_stops shutdown_throws s) i = record {
  clients_run = AllRun-map _ (maybe_stop shutdown_throws) s.clients i.clients_run;
  one_accept = i.one_accept;
  listens = λ l. absurd (ground arith);
}
step-IsServer _ _ (client_steps s cs h) i = record {
  clients_run = AllRun-step s.clients cs h i.clients_run;
  one_accept = i.one_accept;
  listens = i.listens;
}

-- In every run of the server each client is a connection that runs as one alone does, however the
-- steps of the clients, the accepts and the broadcasts are interleaved; and while the server listens
-- just one accept is under way.
pub run-IsServer : (s : Server) → ServerRun server_init s → IsServer s
unfolding server_init do_accept
run-IsServer _ (stays _) = record {
  clients_run = tt;
  one_accept = omega arith;
  listens = λ l. refl;
}
run-IsServer _ (then_steps _ t u r h) = step-IsServer t u h (run-IsServer t r)
