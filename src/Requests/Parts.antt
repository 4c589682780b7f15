-- ===== src/Requests/Parts.antt =====
-- The parts of the handlers in DeviceRequestHandler.cpp: what they may have packed into the reply when
-- they end.
use fpga_device_server.Common.{
  ℕ, ◌≡◌, refl, sym, ap, ◌∙◌, subst, ◌⊎◌, inl, inr, Bool, true, false, Option, none, some, List, [],
  ◌∷◌, ◌++◌, get_elem?, Option-cases,
}
use fpga_device_server.Common.Effect.{Result, ok, err, or_throw, gets, ◌>>=◌, >>=-ok, >>=-err}
use fpga_device_server.Device.{Link, Method, Error, no_return}
use fpga_device_server.Device.Returns.{Fine, Returns}
use fpga_device_server.Device.Handle.{Ftdi}
use fpga_device_server.Manager.{Manager, Host, get_device, call_device}
use fpga_device_server.Manager.Returns.{call_device-Returns}
use fpga_device_server.Requests.{
  Msgpack, RpcError, device_error, is_lost, bad_argument, Message, Packed, pack_array, pack_int8,
  rcode_ok, value_reply, error_reply, Call, Rpc, argument, uint_argument, reply, with_device,
  on_manager, on_device, with_bin, unknown_device, invalid_argument,
}

-- One answer: an array of a code and a value, with a text if the code is the error code.
abbrev pub IsReply : List Packed → Type 0
IsReply ps = ((v : Packed) × (ps ≡ value_reply v)) ⊎ ((m : Message) × (ps ≡ error_reply m))

-- The head of an answer with the code for success.
abbrev pub ok_head : List Packed
ok_head = pack_array 2 ∷ pack_int8 rcode_ok ∷ []

module _ {F W Obj : Type 0} (link : Link F) (ftdi : Ftdi F W) (host : Host W)
    (msg : Msgpack Obj) where
  abbrev pub Step : Type 0 → Type 0
  Step A = Rpc link ftdi host msg A

  -- Nothing is packed, and the call comes back.
  unfoldable pub Quiet : {A : Type 0} → Step A → Type 0
  Quiet m =
      (c : Call F W)
      → ((m c).1.reply ≡ c.reply) × ((e : RpcError) → (m c).0 ≡ err e → is_lost e ≡ false)

  -- From an empty reply, and the call comes back: one answer is packed, or the handler throws and has packed nothing, or else
  -- (if that is allowed) a device has thrown after the head of an answer was packed.
  unfoldable pub Ended : Bool → Result RpcError (Unit {0}) × Call F W → Type 0
  Ended half (r, c) =
      ((e : RpcError) × (r ≡ err e) × (is_lost e ≡ false) × (c.reply ≡ []))
      ⊎ ((r ≡ ok tt) × IsReply c.reply)
      ⊎ ((half ≡ true)
          × ((e : Error) × (r ≡ err (device_error e))
              × (no_return e ≡ false)
              × (c.reply ≡ ok_head)))

  unfoldable pub Clean : Bool → Step (Unit {0}) → Type 0
  Clean half m = (c : Call F W) → c.reply ≡ [] → Ended half (m c)

  -- What follows may rely on its value being one that the first part gives.
  pub Clean-bind_given :
      (half : Bool) {A : Type 0} (m : Step A) (k : A → Step (Unit {0}))
      → Quiet m
      → ((a : A) (c : Call F W) → (m c).0 ≡ ok a → Clean half (k a))
      → Clean half (m >>= k)
  unfolding Quiet Clean Ended
  Clean-bind_given half {A} m k quiet clean c empty = went (m c).0 refl
    where
      went : (r : Result RpcError A) → (m c).0 ≡ r → Ended half ((m >>= k) c)
      went (ok a) e =
          subst (Ended half) (sym (>>=-ok m k c a e)) (clean a c e (m c).1 ((quiet c).0 ∙ empty))
      went (err x) e =
          subst (Ended half) (sym (>>=-err m k c x e))
            (inl (x, refl, (quiet c).1 x e, (quiet c).0 ∙ empty))

  pub Clean-bind :
      (half : Bool) {A : Type 0} (m : Step A) (k : A → Step (Unit {0}))
      → Quiet m
      → ((a : A) → Clean half (k a))
      → Clean half (m >>= k)
  Clean-bind half m k quiet clean = Clean-bind_given half m k quiet (λ a c e. clean a)

  pub or_throw-Quiet : {A : Type 0} (o : Option A) → Quiet (or_throw o bad_argument)
  unfolding Quiet
  or_throw-Quiet none c = (refl, λ x h. let x_is : bad_argument ≡ x = cc in ap is_lost (sym x_is))
  or_throw-Quiet (some a) c = (refl, λ x h. absurd cc)

  pub gets-Quiet : {A : Type 0} (f : Call F W → A) → Quiet (gets f)
  unfolding Quiet
  gets-Quiet f c = (refl, λ x h. absurd cc)

  pub argument-Quiet : (args : List Obj) (i : ℕ) → Quiet (argument link ftdi host msg args i)
  unfolding argument
  argument-Quiet args i = or_throw-Quiet (get_elem? args i)

  pub Quiet-bind :
      {A B : Type 0} (m : Step A) (k : A → Step B)
      → Quiet m
      → ((a : A) → Quiet (k a))
      → Quiet (m >>= k)
  unfolding Quiet
  Quiet-bind {A} m k quiet next c = went (m c).0 refl
    where
      went :
          (r : Result RpcError A)
          → (m c).0 ≡ r
          → (((m >>= k) c).1.reply ≡ c.reply)
            × ((e : RpcError) → ((m >>= k) c).0 ≡ err e → is_lost e ≡ false)
      went (ok a) e =
          let out = >>=-ok m k c a e in
          (
            ap (λ o. o.1.reply) out ∙ (next a (m c).1).0 ∙ (quiet c).0,
            λ y h. (next a (m c).1).1 y (sym (ap (λ o. o.0) out) ∙ h),
          )
      went (err x) e =
          let out = >>=-err m k c x e in
          (
            ap (λ o. o.1.reply) out ∙ (quiet c).0,
            λ y h.
                let thrown = sym (ap (λ o. o.0) out) ∙ h in
                let x_is : x ≡ y = cc in (quiet c).1 y (e ∙ ap err x_is),
          )

  pub uint_argument-Quiet :
      (w : ℕ) (args : List Obj) (i : ℕ) → Quiet (uint_argument link ftdi host msg w args i)
  unfolding uint_argument
  uint_argument-Quiet w args i =
      Quiet-bind (argument link ftdi host msg args i) (λ o. or_throw (msg.as_uint w o) bad_argument)
        (argument-Quiet args i) (λ o. or_throw-Quiet (msg.as_uint w o))

  pub on_manager-Quiet :
      {A : Type 0} (method : Manager F W → Result Error A × Manager F W)
      → Returns method
      → Quiet (on_manager link ftdi host msg method)
  unfolding Quiet on_manager
  on_manager-Quiet {A} method returns c = (refl, lifted (method c.manager).0 (returns c.manager))
    where
      lifted :
          (r : Result Error A)
          → Fine r
          → (e : RpcError)
          → (elim r as (λ _. Result RpcError A) [ ok a ↦ ok a | err e ↦ err (device_error e) ])
            ≡ err e
          → is_lost e ≡ false
      lifted (ok a) fine e h = absurd cc
      lifted (err x) fine e h =
          let x_is : device_error x ≡ e = cc in ap is_lost (sym x_is) ∙ fine x refl

  pub on_device-Quiet :
      {A : Type 0} (method : Method link A) (p : ℕ)
      → Returns method
      → Quiet (on_device link ftdi host msg method p)
  unfolding on_device
  on_device-Quiet method p returns =
      on_manager-Quiet (call_device link ftdi host method p)
        (call_device-Returns link ftdi host method p returns)

  pub value-Clean :
      (half : Bool) (v : Packed) → Clean half (reply link ftdi host msg (value_reply v))
  unfolding Clean Ended reply
  value-Clean half v c empty = inr (inl (refl, inl (v, ap (λ ps. ps ++ value_reply v) empty)))

  pub error-Clean :
      (half : Bool) (m : Message) → Clean half (reply link ftdi host msg (error_reply m))
  unfolding Clean Ended reply
  error-Clean half m c empty = inr (inl (refl, inr (m, ap (λ ps. ps ++ error_reply m) empty)))

  pub with_bin-Clean :
      (half : Bool) (args : List Obj) (i : ℕ) (handler : List ℕ → Step (Unit {0}))
      → ((bytes : List ℕ) → Clean half (handler bytes))
      → Clean half (with_bin link ftdi host msg args i handler)
  unfolding with_bin
  with_bin-Clean half args i handler clean =
      Clean-bind _ (argument link ftdi host msg args i) (λ o. of_type (msg.bin o))
        (argument-Quiet args i) (λ o. cases (msg.bin o))
    where
      of_type : Option (List ℕ) → Step (Unit {0})
      of_type o = elim o [
        | none ↦ reply link ftdi host msg (error_reply invalid_argument)
        | some bytes ↦ handler bytes
      ]

      cases : (o : Option (List ℕ)) → Clean half (of_type o)
      cases none = error-Clean _ invalid_argument
      cases (some bytes) = clean bytes

  pub with_device-Clean :
      (half : Bool) (args : List Obj) (handler : ℕ → Step (Unit {0}))
      → ((p : ℕ) → Clean half (handler p))
      → Clean half (with_device link ftdi host msg args handler)
  unfolding with_device
  with_device-Clean half args handler clean =
      Clean-bind _ (argument link ftdi host msg args 1) by_name (argument-Quiet args 1) (λ o.
        Clean-bind _ (or_throw (msg.as_string o) bad_argument) look_up
          (or_throw-Quiet (msg.as_string o))
          (λ serial.
            Clean-bind _ (gets (λ c. get_device c.manager serial)) found
              (gets-Quiet (λ c. get_device c.manager serial)) cases))
    where
      found : Option ℕ → Step (Unit {0})
      found device = elim device [
        | none ↦ reply link ftdi host msg (error_reply unknown_device)
        | some p ↦ handler p
      ]

      look_up : List ℕ → Step (Unit {0})
      look_up serial = gets (λ c. get_device c.manager serial) >>= found

      by_name : Obj → Step (Unit {0})
      by_name o = or_throw (msg.as_string o) bad_argument >>= look_up

      cases : (device : Option ℕ) → Clean half (found device)
      cases none = error-Clean _ unknown_device
      cases (some p) = clean p

  -- A method of a device, and the answer with what it gives.
  pub then_answer :
      (half : Bool) {A : Type 0} (method : Method link A) (p : ℕ) (value : A → Packed)
      → Returns method
      → Clean half (
          on_device link ftdi host msg method p >>= λ a.
          reply link ftdi host msg (value_reply (value a)))
  then_answer half method p value returns =
      Clean-bind _ (on_device link ftdi host msg method p)
        (λ a. reply link ftdi host msg (value_reply (value a))) (on_device-Quiet method p returns)
        (λ a. value-Clean _ (value a))

  -- The address and the port, and what is done with them.
  pub with_reg-Clean :
      (half : Bool) (args : List Obj) (handler : ℕ → ℕ → Step (Unit {0}))
      → ((addr port : ℕ) → Clean half (handler addr port))
      → Clean half (
          uint_argument link ftdi host msg 8 args 2 >>= λ addr.
          uint_argument link ftdi host msg 8 args 3 >>= λ port. handler addr port)
  with_reg-Clean half args handler clean =
      Clean-bind _ (uint_argument link ftdi host msg 8 args 2)
        (λ addr. uint_argument link ftdi host msg 8 args 3 >>= handler addr)
        (uint_argument-Quiet 8 args 2)
        (λ addr.
          Clean-bind _ (uint_argument link ftdi host msg 8 args 3) (handler addr)
            (uint_argument-Quiet 8 args 3) (clean addr))

  -- The argument that an unsigned number stands in.
  pub uint_argument-ok :
      (w : ℕ) (args : List Obj) (i n : ℕ) (c : Call F W)
      → (uint_argument link ftdi host msg w args i c).0 ≡ ok n
      → (o : Obj) × (get_elem? args i ≡ some o) × (msg.as_uint w o ≡ some n)
  unfolding uint_argument argument
  uint_argument-ok w args i n c h = elim (Option-cases (get_elem? args i)) [
    | inl missing ↦ let threw : err bad_argument ≡ ok n = rw missing at h in absurd cc
    | inr (o, there) ↦ elim (Option-cases (msg.as_uint w o)) [
      | inl other ↦ let threw : err bad_argument ≡ ok n = rw (there, other) at h in absurd cc
      | inr (k, number) ↦
          let went : ok k ≡ ok n = rw (there, number) at h in
          let k_is : k ≡ n = cc in (o, there, number ∙ ap some k_is)
    ]
  ]
