-- ===== src/Requests.antt =====
-- The commands of a client, class DeviceRequestHandler (src/DeviceRequestHandler.h and .cpp). Parsing a
-- message and converting its parts are msgpack's; what is packed into the reply is a list of the
-- packer's calls. A method that throws leaves what it had packed in the reply.
pub mod Parts
pub mod Replies
mod Tests
use fpga_device_server.Common.{
  ℕ, zero, suc, ◌+◌, ◌-◌, ◌/◌, ◌<◌, ◌^◌, ◌≡◌, Bool, true, false, Option, none, some, List, [], ◌∷◌,
  ◌++◌, length, get_elem?, if◌then◌else◌,
}
use fpga_device_server.Common.Int.{ℤ, pos, negsuc}
use fpga_device_server.Common.Effect.{
  Result, ok, err, Action, pure, throw, or_throw, modify, gets, ◌>>=◌, ◌>>◌,
}
use fpga_device_server.Common.Maps.{find, str_eq}
use fpga_device_server.Protocol.{words_of}
use fpga_device_server.Device.{Link, Method, Error, no_return, read_raw, write_raw}
use fpga_device_server.Device
use fpga_device_server.Device.Handle.{Ftdi}
use fpga_device_server.Manager.{
  Manager, Host, get_device, get_device_list, reprogram_device, call_device,
}

-- Conversions of msgpack objects; `none` is an exception. A number that does not fit the width throws.
pub record Msgpack (Obj : Type 0) : Type 0 where
  pub as_array : Obj → Option (List Obj)
  pub as_string : Obj → Option (List ℕ)
  pub as_uint : ℕ → Obj → Option ℕ
  -- the bytes of an object of type BIN
  pub bin : Obj → Option (List ℕ)
  pub uint_fits : (w : ℕ) (o : Obj) (n : ℕ) → as_uint w o ≡ some n → n < 2 ^ w

-- What is thrown in a handler: by a conversion or by `at`, or by a device.
pub data RpcError : Type 0 where
  bad_argument : RpcError
  device_error : Error → RpcError

-- A call of the device has not come back.
abbrev pub is_lost : RpcError → Bool
is_lost bad_argument = false
is_lost (device_error e) = no_return e

pub data Message : Type 0 where
  invalid_message invalid_command unknown_device invalid_argument : Message
  exception : RpcError → Message

-- A call of the packer.
pub data Packed : Type 0 where
  pack_array : ℕ → Packed
  pack_int8 : ℤ → Packed
  pack_uint : ℕ → Packed
  pack_bool : Bool → Packed
  pack_bin : List ℕ → Packed
  pack_message : Message → Packed
  pack_strings : List (List ℕ) → Packed

-- RPC_RCODE_OK and RPC_RCODE_ERROR
abbrev pub rcode_ok : ℤ
rcode_ok = pos 0

abbrev pub rcode_error : ℤ
rcode_error = negsuc 0

-- RPC_REPLY_VALUE (and RPC_REPLY_BINARY, whose value is a BIN) and RPC_REPLY_ERROR
abbrev pub value_reply : Packed → List Packed
value_reply v = pack_array 2 ∷ pack_int8 rcode_ok ∷ v ∷ []

abbrev pub error_reply : Message → List Packed
error_reply m = pack_array 2 ∷ pack_int8 rcode_error ∷ pack_message m ∷ []

-- The keys of m_functions.
pub data Function : Type 0 where
  devicelist reprogram writereg readreg writeregn readregn writeraw readraw : Function

abbrev functions : List (List ℕ × Function)
functions =
    (100 ∷ 101 ∷ 118 ∷ 105 ∷ 99 ∷ 101 ∷ 108 ∷ 105 ∷ 115 ∷ 116 ∷ [], devicelist)
    ∷ (114 ∷ 101 ∷ 112 ∷ 114 ∷ 111 ∷ 103 ∷ 114 ∷ 97 ∷ 109 ∷ [], reprogram)
    ∷ (119 ∷ 114 ∷ 105 ∷ 116 ∷ 101 ∷ 114 ∷ 101 ∷ 103 ∷ [], writereg)
    ∷ (114 ∷ 101 ∷ 97 ∷ 100 ∷ 114 ∷ 101 ∷ 103 ∷ [], readreg)
    ∷ (119 ∷ 114 ∷ 105 ∷ 116 ∷ 101 ∷ 114 ∷ 101 ∷ 103 ∷ 110 ∷ [], writeregn)
    ∷ (114 ∷ 101 ∷ 97 ∷ 100 ∷ 114 ∷ 101 ∷ 103 ∷ 110 ∷ [], readregn)
    ∷ (119 ∷ 114 ∷ 105 ∷ 116 ∷ 101 ∷ 114 ∷ 97 ∷ 119 ∷ [], writeraw)
    ∷ (114 ∷ 101 ∷ 97 ∷ 100 ∷ 114 ∷ 97 ∷ 119 ∷ [], readraw)
    ∷ []

pub function_of : List ℕ → Option Function
function_of cmd = find str_eq cmd functions

-- What a handler works on.
pub record Call (F W : Type 0) : Type 0 where
  pub manager : Manager F W
  pub reply : List Packed

module _ {F W Obj : Type 0} (link : Link F) (ftdi : Ftdi F W) (host : Host W)
    (msg : Msgpack Obj) where
  abbrev pub Rpc : Type 0 → Type 0
  Rpc A = Action RpcError (Call F W) A

  -- args.at(i)
  pub argument : List Obj → ℕ → Rpc Obj
  argument args i = or_throw (get_elem? args i) bad_argument

  pub uint_argument : ℕ → List Obj → ℕ → Rpc ℕ
  uint_argument w args i = argument args i >>= λ o. or_throw (msg.as_uint w o) bad_argument

  pub reply : List Packed → Rpc (Unit {0})
  reply ps = modify (λ c. record c { reply = c.reply ++ ps })

  -- Every command but devicelist starts so: args.at(1) names a device.
  pub with_device : List Obj → (ℕ → Rpc (Unit {0})) → Rpc (Unit {0})
  with_device args handler = argument args 1 >>= λ o.
      or_throw (msg.as_string o) bad_argument >>= λ serial.
      gets (λ c. get_device c.manager serial) >>= λ device. elim device [
        | none ↦ reply (error_reply unknown_device)
        | some p ↦ handler p
      ]

  -- A method of the manager, or of one of its devices.
  pub on_manager : {A : Type 0} → (Manager F W → Result Error A × Manager F W) → Rpc A
  on_manager method c =
      let (r, m) = method c.manager in
      (elim r [ ok a ↦ ok a | err e ↦ err (device_error e) ], record c { manager = m })

  pub on_device : {A : Type 0} → Method link A → ℕ → Rpc A
  on_device method p = on_manager (call_device link ftdi host method p)

  -- The argument `i` of type BIN; another type is answered by an error.
  pub with_bin : List Obj → ℕ → (List ℕ → Rpc (Unit {0})) → Rpc (Unit {0})
  with_bin args i handler = argument args i >>= λ o. elim (msg.bin o) [
    | none ↦ reply (error_reply invalid_argument)
    | some bytes ↦ handler bytes
  ]

  run_devicelist : Rpc (Unit {0})
  run_devicelist =
      gets (λ c. get_device_list c.manager) >>= λ names. reply (value_reply (pack_strings names))

  -- The value of RPC_REPLY_VALUE is computed after the head of the reply is packed.
  pub run_reprogram : List Obj → Rpc (Unit {0})
  run_reprogram args = with_device args (λ p.
      reply (pack_array 2 ∷ pack_int8 rcode_ok ∷ [])
      >> (on_manager (reprogram_device link ftdi host p) >>= λ b. reply (pack_bool b ∷ [])))

  run_writereg : List Obj → Rpc (Unit {0})
  run_writereg args = with_device args (λ p. uint_argument 8 args 2 >>= λ addr.
      uint_argument 8 args 3 >>= λ port. uint_argument 16 args 4 >>= λ value.
      on_device (Device.write_reg link addr port value) p >> reply (value_reply (pack_uint 0)))

  run_readreg : List Obj → Rpc (Unit {0})
  run_readreg args = with_device args (λ p. uint_argument 8 args 2 >>= λ addr.
      uint_argument 8 args 3 >>= λ port. on_device (Device.read_reg link addr port) p >>= λ value.
      reply (value_reply (pack_uint value)))

  -- The words of the buffer; a last odd byte is left out.
  run_writeregn : List Obj → Rpc (Unit {0})
  run_writeregn args = with_device args (λ p. uint_argument 8 args 2 >>= λ addr.
      uint_argument 8 args 3 >>= λ port. with_bin args 4 (λ bytes.
        on_device (Device.write_reg_n link addr port (words_of bytes)) p
        >> reply (value_reply (pack_uint 0))))

  run_readregn : List Obj → Rpc (Unit {0})
  run_readregn args = with_device args (λ p. uint_argument 8 args 2 >>= λ addr.
      uint_argument 8 args 3 >>= λ port. uint_argument 32 args 4 >>= λ n_words.
      on_device (Device.read_reg_n link addr port n_words) p >>= λ bytes.
      reply (value_reply (pack_bin bytes)))

  run_writeraw : List Obj → Rpc (Unit {0})
  run_writeraw args = with_device args (λ p.
      with_bin args 2
        (λ bytes. on_device (write_raw link bytes) p >> reply (value_reply (pack_uint 0))))

  run_readraw : List Obj → Rpc (Unit {0})
  run_readraw args = with_device args (λ p. uint_argument 32 args 2 >>= λ n_bytes.
      on_device (read_raw link n_bytes) p >>= λ bytes. reply (value_reply (pack_bin bytes)))

  run_function : Function → List Obj → Rpc (Unit {0})
  run_function devicelist args = run_devicelist
  run_function reprogram args = run_reprogram args
  run_function writereg args = run_writereg args
  run_function readreg args = run_readreg args
  run_function writeregn args = run_writeregn args
  run_function readregn args = run_readregn args
  run_function writeraw args = run_writeraw args
  run_function readraw args = run_readraw args

  -- An exception of a handler is answered by its text, after what is in the reply. `none` is a handler
  -- that has not come back.
  answer_errors : Rpc (Unit {0}) → Call F W → Option (Call F W)
  answer_errors handler c =
      let (r, c') = handler c in
      elim r [
        | ok _ ↦ some c'
        | err e ↦
            if is_lost e
            then none
            else some (record c' { reply = c'.reply ++ error_reply (exception e) })
      ]

  -- The command of a message, and its arguments.
  pub command : Obj → Result Message (Function × List Obj)
  command request = elim (msg.as_array request) [
    | none ↦ err invalid_message
    | some args ↦ elim (get_elem? args 0) [
      | none ↦ err invalid_message
      | some o ↦ elim (msg.as_string o) [
        | none ↦ err invalid_message
        | some cmd ↦ elim (function_of cmd) [ none ↦ err invalid_command | some f ↦ ok (f, args) ]
      ]
    ]
  ]

  -- DeviceRequestHandler::handleRequest on an empty reply; `none` if it has not come back.
  pub handle_request : Obj → Manager F W → Option (Manager F W × List Packed)
  handle_request request m = elim (command request) [
    | err e ↦ some (m, error_reply e)
    | ok (f, args) ↦
        elim (answer_errors (run_function f args) (record { manager = m; reply = [] })) [
          | none ↦ none
          | some c ↦ some (c.manager, c.reply)
        ]
  ]
