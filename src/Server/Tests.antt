-- ===== src/Server/Tests.antt =====
-- Runs of the server.
use fpga_device_server.Common.{◌≡◌, Bool, false, [], ◌∷◌, arith}
use fpga_device_server.Connection.{Connection}
use fpga_device_server.Server
use fpga_device_server.Server.{
  Server, server_init, do_accept, accept_completed, send_all, server_stop, num_connections,
}
use fpga_device_server.Server.Clients.{
  IsServer, ServerRun, stays, then_steps, accepts, sends_all, run-IsServer,
}
use fpga_device_server.Server.Stopping.{server_stop-final}

abbrev s1 : Server
s1 = accept_completed false server_init

abbrev s2 : Server
s2 = send_all (1 ∷ []) s1

s2-Run : ServerRun server_init s2
unfolding server_init do_accept
s2-Run =
    then_steps server_init s1 s2
      (then_steps server_init server_init s1 (stays server_init)
        (accepts false server_init (omega arith)))
      (sends_all (1 ∷ []) s1)

run-IsServer_example : IsServer s2
run-IsServer_example = run-IsServer s2 s2-Run

abbrev never : Connection → Bool
never c = false

abbrev s3 : Server
s3 = accept_completed false (server_stop never s2)

s3-Run : ServerRun (server_stop never s2) s3
unfolding server_init do_accept accept_completed send_all server_stop Server.stop_all
s3-Run =
    then_steps _ _ s3 (stays (server_stop never s2))
      (accepts false (server_stop never s2) (omega arith))

server_stop-final_example : (num_connections s3.clients ≡ 0) × (s3.listening ≡ false)
server_stop-final_example = server_stop-final never s2 s3 s3-Run
