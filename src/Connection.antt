-- ===== src/Connection.antt =====
-- One client of the server, class ClientConnection (src/network/ClientConnection.h and .cpp): the queue
-- of packets that wait to be written, and the handlers that run when the socket is done with a piece of
-- work. What asio has still to run is counted: the posted calls of do_write, and the writes and reads
-- that have been started and have not ended.
pub mod Steps
pub mod Queue
pub mod Messages
mod Tests
use fpga_device_server.Common.{
  ltb, ◌*◌, ℕ, zero, suc, ◌+◌, ◌-◌, ◌≤◌, ◌<◌, ◌≡◌, Bool, true, false, not, Option, none, some, List,
  [], ◌∷◌, ◌++◌, ◌==◌, if◌then◌else◌, length, take, drop,
}

-- `delivered` is the bytes that the socket has taken, and `write_broken` says that a write has ended
-- with an error; `registered` that the connection manager holds the connection in its set.
pub record Connection : Type 0 where
  pub msgbuffer_out : List (List ℕ)
  pub msgbuffer_out_offset : ℕ
  pub posted : ℕ
  pub writes : ℕ
  pub reads : ℕ
  pub is_open : Bool
  pub delivered : List ℕ
  pub write_broken : Bool
  pub registered : Bool

-- ClientConnection::ClientConnection, on a socket that is open.
unfoldable pub connection_init : Connection
connection_init = record {
  msgbuffer_out = [];
  msgbuffer_out_offset = 0;
  posted = 0;
  writes = 0;
  reads = 0;
  is_open = true;
  delivered = [];
  write_broken = false;
  registered = false;
}

abbrev pub is_empty : {A : Type 0} → List A → Bool
is_empty [] = true
is_empty (x ∷ xs) = false

abbrev pub front : List (List ℕ) → List ℕ
front [] = []
front (p ∷ ps) = p

abbrev pub pop_front : List (List ℕ) → List (List ℕ)
pop_front [] = []
pop_front (p ∷ ps) = ps

-- The start of an asynchronous read.
unfoldable pub do_read : Connection → Connection
do_read c = record c { reads = c.reads + 1 }

unfoldable pub start : Connection → Connection
start c = do_read c

-- If shutdown throws, close is not reached.
unfoldable pub stop : Bool → Connection → Connection
stop shutdown_throws c = record c { is_open = if c.is_open then shutdown_throws else false }

-- ConnectionManager::stop: the connection leaves the set and is stopped.
unfoldable pub manager_stop : Bool → Connection → Connection
manager_stop shutdown_throws c = stop shutdown_throws (record c { registered = false })

-- ConnectionManager::start
unfoldable pub manager_start : Connection → Connection
manager_start c = start (record c { registered = true })

unfoldable pub send : List ℕ → Connection → Connection
send packet c = record c {
  posted = if is_empty c.msgbuffer_out then c.posted + 1 else c.posted;
  msgbuffer_out = c.msgbuffer_out ++ packet ∷ [];
}

-- The start of an asynchronous write of what is left of the first packet.
unfoldable pub do_write : Connection → Connection
do_write c = if is_empty c.msgbuffer_out then c else record c { writes = c.writes + 1 }

-- asio runs a posted call of do_write.
unfoldable pub run_posted : Connection → Connection
run_posted c = do_write (record c { posted = c.posted - 1 })

-- The handler of a write that has taken `n` bytes.
unfoldable pub write_completed : ℕ → Connection → Connection
write_completed n c =
    let packet = front c.msgbuffer_out in
    let done = record c {
      writes = c.writes - 1;
      delivered = c.delivered ++ take n (drop c.msgbuffer_out_offset packet);
      msgbuffer_out_offset = c.msgbuffer_out_offset + n;
    } in
    let next = record done {
      msgbuffer_out = pop_front c.msgbuffer_out;
      msgbuffer_out_offset = 0;
    } in
    if not (c.msgbuffer_out_offset + n == length packet)
    then do_write done
    else (if not (is_empty (pop_front c.msgbuffer_out)) then do_write next else next)

-- The handler of a write that has ended with an error: unless the operation was aborted, the
-- connection manager stops the connection.
unfoldable pub write_failed : Bool → Bool → Connection → Connection
write_failed aborted shutdown_throws c =
    let ended = record c { writes = c.writes - 1; write_broken = true } in
    if aborted then ended else manager_stop shutdown_throws ended

-- What the msgpack unpacker answers to one call of next() after another: a message, that it needs
-- more bytes (with the size of the message it is in), or an unpack_error.
pub data Unpacked (Obj : Type 0) : Type 0 where
  message : Obj → Unpacked Obj → Unpacked Obj
  need_more : ℕ → Unpacked Obj
  malformed : Unpacked Obj

-- CONTROL_MSG_MAX_BYTES
abbrev pub control_msg_max_bytes : ℕ
control_msg_max_bytes = 10 * 1024 * 1024

-- RequestHandler::handleRequest, over the state behind it: the reply, or nothing if it throws.
abbrev pub Handler : Type 0 → Type 0 → Type 0
Handler S Obj = S → Obj → S × Option (List ℕ)

-- The loop over the messages of one read and what comes after it.
unfoldable pub handle_messages :
    {S Obj : Type 0} → Handler S Obj → Bool → Unpacked Obj → S → Connection → S × Connection
handle_messages handle shutdown_throws malformed s c = (s, manager_stop shutdown_throws c)
handle_messages handle shutdown_throws (need_more size) s c =
    if ltb control_msg_max_bytes size then (s, manager_stop shutdown_throws c) else (s, do_read c)
handle_messages handle shutdown_throws (message object rest) s c =
    let (s', reply) = handle s object in
    elim reply [
      | none ↦ (s', manager_stop shutdown_throws c)
      | some buffer_out ↦ handle_messages handle shutdown_throws rest s' (send buffer_out c)
    ]

-- The handler of a read: bytes have come, the operation was aborted, or there was another error.
pub data ReadEnd (Obj : Type 0) : Type 0 where
  received : Unpacked Obj → ReadEnd Obj
  aborted : ReadEnd Obj
  failed : ReadEnd Obj

unfoldable pub read_completed :
    {S Obj : Type 0} → Handler S Obj → Bool → ReadEnd Obj → S → Connection → S × Connection
read_completed handle shutdown_throws end s c =
    let ended = record c { reads = c.reads - 1 } in
    elim end [
      | received unpacked ↦ handle_messages handle shutdown_throws unpacked s ended
      | aborted ↦ (s, ended)
      | failed ↦ (s, manager_stop shutdown_throws ended)
    ]
