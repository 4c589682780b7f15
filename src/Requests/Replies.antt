-- ===== src/Requests/Replies.antt =====
-- Every reply is one answer (DeviceRequestHandler::handleRequest), with one exception.
use fpga_device_server.Common.{
  ℕ, ◌^◌, ◌<◌, ◌≡◌, ◌⊎◌, Bool, true, false, Option, some, List, [], ◌∷◌, ◌++◌, get_elem?,
}
use fpga_device_server.Common.Effect.{Result, ok, err}
use fpga_device_server.Device.{Link, Method, Error}
use fpga_device_server.Device
use fpga_device_server.Device.Handle.{Ftdi}
use fpga_device_server.Device.Returns.{Returns}
use fpga_device_server.Manager.{Manager, Host}
use fpga_device_server.Requests.{
  Msgpack, RpcError, device_error, exception, Packed, pack_bool, error_reply, Function, Call, reply,
  command,
}
use fpga_device_server.Requests.Parts.{IsReply, ok_head, Step}

module _ {F W Obj : Type 0} (link : Link F) (ftdi : Ftdi F W) (host : Host W)
    (msg : Msgpack Obj) where
  pack_bool_then : Bool → Step link ftdi host msg (Unit {0})
  pack_bool_then b = reply link ftdi host msg (pack_bool b ∷ [])

  lifted : Result Error Bool → Result RpcError Bool
  lifted (ok b) = ok b
  lifted (err e) = err (device_error e)

  -- The count of a readraw, as an int, is not below zero.
  abbrev ArgFits : List Obj → Type 0
  ArgFits args =
      (o : Obj) (n : ℕ) → get_elem? args 2 ≡ some o → msg.as_uint 32 o ≡ some n → n < 2 ^ 31

  -- Only reprogram may throw with the head of an answer packed.
  abbrev packs_early : Function → Bool
  packs_early Function.reprogram = true
  packs_early Function.devicelist = false
  packs_early Function.writereg = false
  packs_early Function.readreg = false
  packs_early Function.writeregn = false
  packs_early Function.readregn = false
  packs_early Function.writeraw = false
  packs_early Function.readraw = false

  -- The handler comes back, and this is in the reply when the exceptions are answered too.
  Answered : Bool → Option (Call F W) → Type 0
  Answered half o =
      (c : Call F W) × (o ≡ some c)
      × (IsReply c.reply
          ⊎ ((half ≡ true)
              × ((e : Error) × (c.reply ≡ ok_head ++ error_reply (exception (device_error e))))))

  -- A message that is a readraw asks for less than 2^31 bytes: the size becomes an int in Device::readRaw,
  -- and what happens on one below zero is undefined.
  abbrev pub CountFits : Obj → Type 0
  CountFits request =
      (args : List Obj) (o : Obj) (n : ℕ)
      → command link ftdi host msg request ≡ ok (Function.readraw, args)
      → get_elem? args 2 ≡ some o
      → msg.as_uint 32 o ≡ some n
      → n < 2 ^ 31

  -- What a call of handleRequest that comes back has packed.
  abbrev pub Replies : Obj → Option (Manager F W × List Packed) → Type 0
  Replies request o =
      (m' : Manager F W) × (ps : List Packed) × (o ≡ some (m', ps))
      × (IsReply ps
          ⊎ ((args : List Obj) × (e : Error) × (command link ftdi host msg request
                ≡ ok (Function.reprogram, args))
              × (ps ≡ ok_head ++ error_reply (exception (device_error e)))))
