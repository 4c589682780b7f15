-- ===== src/Server.antt =====
-- The server and its clients: classes Server (src/network/Server.h, Server.cpp) and ConnectionManager
-- (src/network/ConnectionManager.h, ConnectionManager.cpp). The clients are all connections that were
-- ever made, in the order of their making; the manager's set holds those that are `registered`.
-- The set is walked in the order of its pointers, which no connection can see.
pub mod Clients
pub mod Stopping
mod Tests
use fpga_device_server.Common.{
  ℕ, zero, suc, ◌+◌, ◌-◌, Bool, true, false, not, List, [], ◌∷◌, ◌++◌, map, if◌then◌else◌,
}
use fpga_device_server.Connection.{Connection, connection_init, manager_start, manager_stop, send}

-- `accepts` counts the asynchronous accepts that have been started and have not ended.
pub record Server : Type 0 where
  pub listening : Bool
  pub accepts : ℕ
  pub clients : List Connection

pub do_accept : Server → Server
do_accept s = record s { accepts = s.accepts + 1 }

-- Server::Server, on a port that can be bound.
pub server_init : Server
server_init = do_accept (record { listening = true; accepts = 0; clients = [] })

-- The handler of an accept, with or without an error.
pub accept_completed : Bool → Server → Server
accept_completed failed s =
    let ended = record s { accepts = s.accepts - 1 } in
    if not s.listening
    then ended
    else do_accept (
        if not failed
        then record ended { clients = ended.clients ++ manager_start connection_init ∷ [] }
        else ended)

-- ConnectionManager::sendAll, which Server::sendAll calls.
pub send_all : List ℕ → Server → Server
send_all packet s = record s {
  clients = map (λ c. if c.registered then send packet c else c) s.clients;
}

-- ConnectionManager::stopAll; `shutdown_throws` says for which connections shutdown throws.
pub stop_all : (Connection → Bool) → Server → Server
stop_all shutdown_throws s = record s {
  clients = map (λ c. if c.registered then manager_stop (shutdown_throws c) c else c) s.clients;
}

-- Server::stop
pub server_stop : (Connection → Bool) → Server → Server
server_stop shutdown_throws s = stop_all shutdown_throws (record s { listening = false })

pub num_connections : List Connection → ℕ
num_connections [] = 0
num_connections (c ∷ cs) = (if c.registered then 1 else 0) + num_connections cs
