-- ===== src/Connection/Tests.antt =====
-- Runs of a connection.
use fpga_device_server.Common.{ℕ, ◌+◌, ◌≡◌, refl, true, Option, some, List, [], ◌∷◌, ◌++◌, arith}
use fpga_device_server.Connection.{
  Connection, connection_init, manager_start, send, run_posted, write_completed, start, do_read,
  do_write, Unpacked, message, need_more, handle_messages,
}
use fpga_device_server.Connection.Steps.{
  concat, Run, IsQueue, begins, goes_on, sends, runs_posted, completes,
}
use fpga_device_server.Connection.Queue.{Run-IsQueue, quiet_all_delivered}
use fpga_device_server.Connection.Messages.{
  Answers, handle_messages-Answers, handle_messages-Run, replies,
}

abbrev c0 : Connection
c0 = manager_start connection_init

abbrev c1 : Connection
c1 = send (1 ∷ 2 ∷ []) c0

abbrev c2 : Connection
c2 = run_posted c1

abbrev c3 : Connection
c3 = write_completed 1 c2

abbrev c4 : Connection
c4 = write_completed 1 c3

abbrev sent : List (List ℕ)
sent = (((([] ++ (1 ∷ 2 ∷ []) ∷ []) ++ []) ++ []) ++ [])

c2-Run : Run (([] ++ (1 ∷ 2 ∷ []) ∷ []) ++ []) c2
unfolding manager_start start do_read connection_init send
c2-Run =
    goes_on _ [] c1 c2 (goes_on [] _ c0 c1 begins (sends (1 ∷ 2 ∷ []) c0))
      (runs_posted c1 (omega arith))

c4-Run : Run sent c4
unfolding manager_start start do_read connection_init send run_posted do_write write_completed
c4-Run =
    goes_on _ [] c3 c4 (goes_on _ [] c2 c3 c2-Run (completes 1 c2 (omega arith) (omega arith)))
      (completes 1 c3 (omega arith) (omega arith))

Run-IsQueue_example : IsQueue (concat sent) c4
Run-IsQueue_example = Run-IsQueue sent c4 c4-Run

quiet_all_delivered_example : c4.delivered ≡ concat sent
unfolding manager_start start do_read connection_init send run_posted do_write write_completed
quiet_all_delivered_example = quiet_all_delivered sent c4 c4-Run refl refl

-- A handler that answers each message by its count.
abbrev counting : ℕ → ℕ → ℕ × Option (List ℕ)
counting n object = (n + 1, some (object ∷ n ∷ []))

abbrev two_messages : Unpacked ℕ
two_messages = message 7 (message 8 (need_more 0))

handle_messages-Answers_example :
    Answers counting true two_messages 0 c0 (handle_messages counting true two_messages 0 c0).1
handle_messages-Answers_example = handle_messages-Answers counting true two_messages 0 c0

handle_messages-Run_example :
    Run ([] ++ replies counting two_messages 0) (handle_messages counting true two_messages 0 c0).1
handle_messages-Run_example = handle_messages-Run counting true two_messages 0 [] c0 begins
