-- ===== src/Device.antt =====
-- One FPGA board, class Device (src/devices/Device.h and Device.cpp), over an open FTDI handle.
-- The calls of libftdi that move data are the operations of a `Link`, with what the code relies on as
-- its laws; opening and closing a handle is in Device/Handle.
pub mod Raw
pub mod Packets
pub mod Tracking
pub mod Commands
pub mod Stored
pub mod Registers
pub mod Handle
pub mod Ids
pub mod Returns
pub mod Words
mod Tests
use fpga_device_server.Common.{
  ℕ, zero, suc, ◌+◌, ◌-◌, ◌*◌, ◌≤◌, ◌<◌, ◌≡◌, Bool, true, false, not, ◌&&◌, Option, none, some,
  List, [], ◌∷◌, ◌++◌, min, ltb, ◌==◌, if◌then◌else◌, length, take, drop, ◌||◌, get_or,
}
use fpga_device_server.Common.Int.{ℤ, pos, negsuc, ltb_ℤ, leb_ℤ, eqb_ℤ, pos_part, int_of}
use fpga_device_server.Common.Effect.{
  Result, ok, err, Action, pure, throw, throw_if, or_throw, modify, gets, ◌>>=◌, ◌>>◌,
}
use fpga_device_server.Protocol.{
  cmd_readreg, cmd_writereg, cmd_readreg_n, cmd_writereg_n, htobe16, be16toh, command_head,
  word_bytes, words_of, n_packet_max,
}

-- ftdi_write_data and ftdi_read_data on one handle, the bytes that have gone out on it and those that have
-- been read from it.
pub record Link (F : Type 0) : Type 0 where
  -- the number of bytes written, or a negative error
  pub write_data : F → List ℕ → ℤ × F
  -- at most as many bytes as asked for; `none` is a negative error
  pub read_data : F → ℕ → Option (List ℕ) × F
  pub sent : F → List ℕ
  pub got : F → List ℕ
  -- a write sends the first bytes it is given, and reports how many if it reports no error
  pub write_prefix :
      (f : F) (bs : List ℕ)
      → (k : ℕ) × (k ≤ length bs)
        × (sent (write_data f bs).1 ≡ sent f ++ take k bs)
        × ((n : ℕ) → (write_data f bs).0 ≡ pos n → k ≡ n)
  pub read_sends_nothing : (f : F) (size : ℕ) → sent (read_data f size).1 ≡ sent f
  pub write_reads_nothing : (f : F) (bs : List ℕ) → got (write_data f bs).1 ≡ got f
  pub read_gets :
      (f : F) (size : ℕ) (bs : List ℕ)
      → (read_data f size).0 ≡ some bs
      → got (read_data f size).1 ≡ got f ++ bs
  pub read_fits :
      (f : F) (size : ℕ) (bs : List ℕ) → (read_data f size).0 ≡ some bs → length bs ≤ size

-- What a method throws. The last two are no exceptions of the code: `undefined_copy` stands for a call
-- with undefined behaviour, from which the code does not go on, and `out_of_fuel` for a loop that ran
-- out of fuel.
pub data Error : Type 0 where
  write_error partial_write read_error read_timeout new_failed ftdi_failed program_failed
        undefined_copy out_of_fuel :
      Error

-- The call has not come back.
abbrev pub no_return : Error → Bool
no_return write_error = false
no_return partial_write = false
no_return read_error = false
no_return read_timeout = false
no_return new_failed = false
no_return ftdi_failed = false
no_return program_failed = false
no_return undefined_copy = true
no_return out_of_fuel = true

-- addr_port_t, a key of m_tracked_regs
abbrev pub AddrPort : Type 0
AddrPort = ℕ × ℕ

-- A call of the register callback: name, address, port and value.
pub record RegChange : Type 0 where
  pub name : List ℕ
  pub addr : ℕ
  pub port : ℕ
  pub value : ℕ

-- m_ftdi is `none` when it is null. m_tracked_regs is in the order of its keys.
pub record Device (F : Type 0) : Type 0 where
  pub name : List ℕ
  pub usb_device : ℕ
  pub ftdi : Option F
  pub tracked_regs : List (AddrPort × ℕ)
  pub has_callback : Bool
  pub changes : List RegChange

-- A second of waiting, in rounds of ten milliseconds.
abbrev pub read_rounds : ℕ
read_rounds = 100

module _ {F : Type 0} (link : Link F) where
  abbrev pub Method : Type 0 → Type 0
  Method A = Action Error (Device F) A

  -- On a null handle libftdi answers -666.
  unfoldable pub write_on : List ℕ → Option F → ℤ × Option F
  write_on bs none = (negsuc 665, none)
  write_on bs (some f) = ((link.write_data f bs).0, some (link.write_data f bs).1)

  unfoldable pub read_on : ℕ → Option F → Option (List ℕ) × Option F
  read_on size none = (none, none)
  read_on size (some f) = ((link.read_data f size).0, some (link.read_data f size).1)

  abbrev pub call_write : List ℕ → Method ℤ
  call_write bs d = let (n, h) = write_on bs d.ftdi in (ok n, record d { ftdi = h })

  abbrev pub call_read : ℕ → Method (Option (List ℕ))
  call_read size d = let (answer, h) = read_on size d.ftdi in (ok answer, record d { ftdi = h })

  -- The loop of ftdi_read_data_wait, over the rounds left and the bytes received so far. Each round
  -- that leaves bytes missing sleeps for ten milliseconds.
  read_loop : ℕ → ℕ → List ℕ → Method (List ℕ)
  read_loop zero size received =
      if length received == size then pure received else throw read_timeout
  read_loop (suc rounds) size received = call_read (size - length received) >>= λ answer.
      or_throw answer read_error >>= λ bs.
      let rest = read_loop rounds size (received ++ bs) in
      if length (received ++ bs) == size then pure (received ++ bs) else rest

  -- ftdi_read_data on a size below zero. A null handle is an error; on an open one, whose
  -- packets have a size, any such size is taken for one that the read buffer can serve, and so many
  -- bytes are copied as the size has as an unsigned number.
  pub read_below_zero : Method (List ℕ)
  read_below_zero d = (elim d.ftdi [ none ↦ err read_error | some f ↦ err undefined_copy ], d)

  -- ftdi_read_data_wait, whose size is an int.
  pub read_data_wait : ℤ → Method (List ℕ)
  read_data_wait (pos size) = read_loop read_rounds size []
  read_data_wait (negsuc n) = read_below_zero

  -- The loop of writeRaw over `n_sent`, on fuel.
  write_loop : ℕ → List ℕ → ℕ → Method (Unit {0})
  write_loop zero bs n_sent = throw out_of_fuel
  write_loop (suc fuel) bs n_sent =
      let more = call_write (drop n_sent bs) >>= λ r.
      let rest = write_loop fuel bs (n_sent + pos_part r) in
      if leb_ℤ r (pos 0) then throw write_error else rest in
      if n_sent == length bs then pure tt else more

  -- Every round sends a byte at least, so one round more than there are bytes is enough.
  pub write_raw : List ℕ → Method (Unit {0})
  write_raw bs = if length bs == 0 then pure tt else write_loop (suc (length bs)) bs 0

  -- The size_t `n` is passed on as an int.
  pub read_raw : ℕ → Method (List ℕ)
  read_raw n = if n == 0 then pure [] else read_data_wait (int_of n)

  -- A command that has to go out whole.
  pub write_whole : List ℕ → Method (Unit {0})
  write_whole bs = call_write bs >>= λ n. throw_if (not (eqb_ℤ n (pos (length bs)))) write_error

  pub write_reg : ℕ → ℕ → ℕ → Method (Unit {0})
  write_reg addr port value = write_whole (command_head cmd_writereg addr port ++ htobe16 value)

  -- One round of writeRegN: a packet with the first words, as many as its count can hold. The words
  -- are given by their values; they lie in memory most significant byte first, and are copied so.
  write_packet : ℕ → ℕ → List ℕ → ℕ → Method (Unit {0})
  write_packet addr port ws n_packet =
      let packet =
        command_head cmd_writereg_n addr port
        ++ (htobe16 n_packet ++ word_bytes (take n_packet ws)) in
      call_write packet >>= λ n.
      throw_if (leb_ℤ n (pos 0)) write_error
      >> throw_if (ltb_ℤ n (pos (2 * (2 + n_packet)))) partial_write

  -- The loop of writeRegN over the words left, on fuel.
  write_packets : ℕ → ℕ → ℕ → List ℕ → Method (Unit {0})
  write_packets zero addr port ws = throw out_of_fuel
  write_packets (suc fuel) addr port ws =
      let n_packet = min (length ws) n_packet_max in
      let more =
        write_packet addr port ws n_packet >> write_packets fuel addr port (drop n_packet ws) in
      if length ws == 0 then pure tt else more

  -- Every packet takes a word at least.
  pub write_reg_n : ℕ → ℕ → List ℕ → Method (Unit {0})
  write_reg_n addr port ws =
      if length ws == 0 then pure tt else write_packets (suc (length ws)) addr port ws

  -- The loop of readRegN over the words left, on fuel, with the bytes read so far.
  read_packets : ℕ → ℕ → ℕ → ℕ → List ℕ → Method (List ℕ)
  read_packets zero addr port n received = throw out_of_fuel
  read_packets (suc fuel) addr port n received =
      let n_packet = min n n_packet_max in
      let more =
        write_whole (command_head cmd_readreg_n addr port ++ htobe16 n_packet)
        >> (read_data_wait (pos (2 * n_packet)) >>= λ bs.
            read_packets fuel addr port (n - n_packet) (received ++ bs)) in
      if n == 0 then pure received else more

  pub read_reg_n : ℕ → ℕ → ℕ → Method (List ℕ)
  read_reg_n addr port n = if n == 0 then pure [] else read_packets (suc n) addr port n []

-- The order of std::pair on the keys.
abbrev pub key_lt : AddrPort → AddrPort → Bool
key_lt (a, p) (b, q) = ltb a b || (a == b && ltb p q)

abbrev pub key_eq : AddrPort → AddrPort → Bool
key_eq (a, p) (b, q) = a == b && p == q

-- insert of std::map, which keeps a value that is there.
unfoldable pub insert_reg : AddrPort → ℕ → List (AddrPort × ℕ) → List (AddrPort × ℕ)
insert_reg k v [] = (k, v) ∷ []
insert_reg k v ((j, w) ∷ m) =
    if key_lt k j
    then (k, v) ∷ (j, w) ∷ m
    else if key_eq k j
    then (j, w) ∷ m
    else (j, w) ∷ insert_reg k v m

unfoldable pub erase_reg : AddrPort → List (AddrPort × ℕ) → List (AddrPort × ℕ)
erase_reg k [] = []
erase_reg k ((j, w) ∷ m) = if key_eq k j then m else (j, w) ∷ erase_reg k m

unfoldable pub find_reg : AddrPort → List (AddrPort × ℕ) → Option ℕ
find_reg k [] = none
find_reg k ((j, w) ∷ m) = if key_eq k j then some w else find_reg k m

-- `it->second = v` at the entry that was found.
unfoldable pub assign_reg : AddrPort → ℕ → List (AddrPort × ℕ) → List (AddrPort × ℕ)
assign_reg k v [] = []
assign_reg k v ((j, w) ∷ m) = if key_eq k j then (j, v) ∷ m else (j, w) ∷ assign_reg k v m

-- The callback is called if it is set and the value is another one.
abbrev pub change_of : List ℕ → Bool → AddrPort → ℕ → ℕ → List RegChange
change_of name has_callback (addr, port) old value =
    if not (value == old) && has_callback
    then record { name = name; addr = addr; port = port; value = value } ∷ []
    else []

-- What readReg does with a value, if its register is tracked.
pub store_value : {F : Type 0} → AddrPort → ℕ → Device F → Device F
store_value key value d = elim (find_reg key d.tracked_regs) [
  | none ↦ d
  | some old ↦ record d {
    tracked_regs = assign_reg key value d.tracked_regs;
    changes = d.changes ++ change_of d.name d.has_callback key old value;
  }
]

-- The last loop of updateTrackedRegs: the registers with their new values, and the calls made.
pub store_values :
    List ℕ → Bool → List (AddrPort × ℕ) → List ℕ → List (AddrPort × ℕ) × List RegChange
store_values name has_callback [] values = ([], [])
store_values name has_callback (r ∷ rs) [] = (r ∷ rs, [])
store_values name has_callback ((key, old) ∷ rs) (v ∷ vs) =
    let (rs', changes) = store_values name has_callback rs vs in
    ((key, v) ∷ rs', change_of name has_callback key old v ++ changes)

store_all : {F : Type 0} → List ℕ → Device F → Device F
store_all bs d =
    let (rs, changes) = store_values d.name d.has_callback d.tracked_regs (words_of bs) in
    record d { tracked_regs = rs; changes = d.changes ++ changes }

-- The command words of updateTrackedRegs, in the order of the map.
pub read_commands : List (AddrPort × ℕ) → List ℕ
read_commands [] = []
read_commands (((addr, port), _) ∷ rs) = command_head cmd_readreg addr port ++ read_commands rs

abbrev first_word : List ℕ → ℕ
first_word bs = get_or (words_of bs) 0 0

module _ {F : Type 0} (link : Link F) where
  pub read_reg : ℕ → ℕ → Method link ℕ
  read_reg addr port =
      write_whole link (command_head cmd_readreg addr port)
      >> (read_data_wait link (pos 2) >>= λ bs.
          modify (store_value (addr, port) (first_word bs)) >> pure (first_word bs))

  -- The keys are pairs of bytes, so that the size of the answer fits an int.
  pub update_tracked_regs : Method link (Unit {0})
  update_tracked_regs d =
      let regs = d.tracked_regs in
      let update =
        write_whole link (read_commands regs)
        >> (read_data_wait link (pos (2 * length regs)) >>= λ bs. modify (store_all bs)) in
      (if length regs == 0 then pure tt else update) d

unfoldable pub track_reg : {F : Type 0} → ℕ → ℕ → Bool → Device F → Device F
track_reg addr port enabled d = record d {
  tracked_regs =
      if enabled
      then insert_reg (addr, port) 0 d.tracked_regs
      else erase_reg (addr, port) d.tracked_regs;
}

unfoldable pub set_reg_changed_callback : {F : Type 0} → Bool → Device F → Device F
set_reg_changed_callback is_set d = record d { has_callback = is_set }

pub is_open : {F : Type 0} → Device F → Bool
is_open d = elim d.ftdi [ none ↦ false | some _ ↦ true ]
