-- ===== src/IoFtdi/Tms.antt =====
-- Patterns on TMS (IOFtdi::tx_tms in src/devices/xc3sprog/ioftdi.cpp), as the chip clocks them.
mod Gather
use fpga_device_server.Common.{
  ◌≡◌, refl, sym, ap, ◌∙◌, subst, ℕ, zero, suc, ◌+◌, ◌-◌, ◌*◌, ◌/◌, ◌%◌, ◌^◌, ◌≤◌, ◌<◌, bit_or,
  some, Bool, true, false, not, ◌||◌, List, [], ◌∷◌, ◌++◌, append-nil, ◌==◌, ==_iff, ltb,
  if◌then◌else◌, length, get_or, arith, Bool-cases, inl, inr, if_ind, every_below, every_below_at,
}
use mathlib.Core.Path.{ap₂}
use fpga_device_server.Common.Effect.{Result, ok, err, pure, ◌>>=◌, ◌>>◌}
use fpga_device_server.Device.{Link}
use fpga_device_server.IoBase.Bits.{bit, sets_bit_lem, bit_or_byte}
use fpga_device_server.IoFtdi.{
  Cable, CableError, Method, gather_tms, tms_op, mpsse_add_cmd, mpsse_send, tms_loop, tx_tms,
}
use fpga_device_server.IoFtdi.Tms.Gather.{same_tms_clocks, tms_byte, bit-tms_byte, tms_byte_tdi}
use fpga_device_server.IoFtdi.Mpsse.{Clock, tms_clocks, Command, tms_bits, Runs, Runs-one, done}
use fpga_device_server.IoFtdi.Stream.{
  Fits, Sends, Emits, Sends-Emits, Emits-bind, pure-Emits, Sends-bind, stream,
}
use fpga_device_server.IoFtdi.Buffer.{mpsse_add_cmd-Sends, mpsse_send-Sends}

-- The level of TMS after `n` bits of a pattern.
abbrev pub level_after : Bool → List ℕ → ℕ → ℕ → Bool
level_after level pat j zero = level
level_after level pat j (suc n) = bit pat (j + n)

tms_clocks-append :
    (tdi : Bool) (pat : List ℕ) (j m n : ℕ)
    → tms_clocks tdi pat j m ++ tms_clocks tdi pat (j + m) n ≡ tms_clocks tdi pat j (m + n)
tms_clocks-append tdi pat j zero n =
    let e : j + 0 ≡ j = omega arith in let e' : 0 + n ≡ n = omega arith in rw (e, e') refl
tms_clocks-append tdi pat j (suc m) n =
    let e : j + suc m ≡ j + 1 + m = omega arith in
    let e' : suc m + n ≡ suc (m + n) = omega arith in
    rw (e, e', tms_clocks-append tdi pat (j + 1) m n) refl

level_after-append :
    (level : Bool) (pat : List ℕ) (j m n : ℕ)
    → level_after (level_after level pat j m) pat (j + m) n ≡ level_after level pat j (m + n)
level_after-append level pat j m zero = let e : m + 0 ≡ m = omega arith in rw e refl
level_after-append level pat j m (suc n) =
    let e : m + suc n ≡ suc (m + n) = omega arith in
    let e' : j + m + n ≡ j + (m + n) = omega arith in rw (e, e') refl

-- One command moves as many bits of the pattern as it says.
tms_command :
    (level : Bool) (pat : List ℕ) (j n : ℕ)
    → n < 6
    → Runs level
        (tms_op false ∷ n ∷ tms_byte pat j (n + 1) ∷ [])
        (tms_clocks true pat j (n + 1))
        (level_after level pat j (n + 1))
tms_command level pat j n few =
    let byte = tms_byte pat j (n + 1) in
    let high = tms_byte_tdi pat j (n + 1) (omega arith) in
    let moved = same_tms_clocks true (byte ∷ []) pat 0 j (n + 1) (λ k lt.
      let e : 0 + k ≡ k = omega arith in rw e (bit-tms_byte pat j (n + 1) k (omega arith) lt)) in
    let end = bit-tms_byte pat j (n + 1) n (omega arith) (omega arith) in
    let next : suc n ≡ n + 1 = omega arith in
    let one = Runs-one (tms_bits level 0x4b n byte (inl refl) (omega arith)) in
    subst (λ m. Runs level (0x4b ∷ n ∷ byte ∷ []) (tms_clocks true pat j (n + 1)) m)
      (end ∙ ap (level_after level pat j) next)
      (subst (λ cs. Runs level (0x4b ∷ n ∷ byte ∷ []) cs (bit (byte ∷ []) n))
        (ap (λ t. tms_clocks t (byte ∷ []) 0 (n + 1)) high ∙ moved) one)

module _ {F : Type 0} (link : Link F) (errno : F → ℕ) where
  tms_loop-Emits :
      (fuel : ℕ) (pat : List ℕ) (j len : ℕ) (level : Bool) (c : Cable F)
      → len ≤ fuel
      → Fits c
      → Emits link level
          (tms_clocks true pat j len)
          (level_after level pat j len)
          c
          (tms_loop link errno fuel pat j len c)
  unfolding tms_loop
  tms_loop-Emits zero pat j zero level c enough fits = pure-Emits link level tt c fits
  tms_loop-Emits zero pat j (suc len) level c enough fits = absurd (omega arith)
  tms_loop-Emits (suc fuel) pat j zero level c enough fits = pure-Emits link level tt c fits
  tms_loop-Emits (suc fuel) pat j (suc rest) level c enough fits =
      let len = suc rest in
      let n = if ltb 6 len then 5 else len - 1 in
      let cmd = tms_op false ∷ n ∷ tms_byte pat j (n + 1) ∷ [] in
      let few : n < 6 = ground arith in
      let left : n + 1 + (len - (n + 1)) ≡ len = ground arith in
      let some_left : ltb 0 len ≡ true = ground arith in
      let mid = level_after level pat j (n + 1) in
      let first =
        Sends-Emits link level mid (tms_clocks true pat j (n + 1)) cmd c
          (mpsse_add_cmd link errno cmd c) (tms_command level pat j n few)
          (mpsse_add_cmd-Sends link errno cmd c (omega arith) fits) in
      let both =
        Emits-bind link level mid (level_after mid pat (j + (n + 1)) (len - (n + 1)))
          (tms_clocks true pat j (n + 1)) (tms_clocks true pat (j + (n + 1)) (len - (n + 1))) c
          (mpsse_add_cmd link errno cmd)
          (λ _. tms_loop link errno fuel pat (j + (n + 1)) (len - (n + 1))) first
          (λ _ c' fits'.
            tms_loop-Emits fuel pat (j + (n + 1)) (len - (n + 1)) mid c' (ground arith) fits') in
      let clocks =
        tms_clocks-append true pat j (n + 1) (len - (n + 1)) ∙ ap (tms_clocks true pat j) left in
      let end =
        level_after-append level pat j (n + 1) (len - (n + 1))
        ∙ ap (level_after level pat j) left in
      let out = tms_loop link errno (suc fuel) pat j len c in
      let more : Emits link level
          (tms_clocks true pat j (n + 1) ++ tms_clocks true pat (j + (n + 1)) (len - (n + 1)))
          (level_after mid pat (j + (n + 1)) (len - (n + 1))) c out =
        rw some_left both in
      subst (λ m. Emits link level (tms_clocks true pat j len) m c out) end
        (subst (λ cs. Emits link level cs (level_after mid pat (j + (n + 1)) (len - (n + 1))) c out)
          clocks more)

  finish :
      (force level : Bool) (c : Cable F)
      → Fits c
      → Emits link level [] level c ((if force then mpsse_send link errno else pure tt) c)
  finish true level c fits =
      Sends-Emits link level level [] [] c (mpsse_send link errno c) (done level)
        (mpsse_send-Sends link errno c fits)
  finish false level c fits = pure-Emits link level tt c fits

  -- tx_tms, if it returns, has added commands to the stream that clock just the bits of the pattern on
  -- TMS, in order, with TDI high, and leave TMS at the last of them. It never overfills the buffer.
  pub tx_tms-Emits :
      (pat : List ℕ) (length : ℕ) (force level : Bool) (c : Cable F)
      → Fits c
      → Emits link level
          (tms_clocks true pat 0 length)
          (level_after level pat 0 length)
          c
          (tx_tms link errno pat length force c)
  unfolding tx_tms
  tx_tms-Emits pat zero force level c fits = pure-Emits link level tt c fits
  tx_tms-Emits pat (suc n) force level c fits =
      let end = level_after level pat 0 (suc n) in
      let clocks = tms_clocks true pat 0 (suc n) in
      let some_bits : (suc n == 0) ≡ false = ground arith in
      let all =
        Emits-bind link level end end clocks [] c (tms_loop link errno (suc n) pat 0 (suc n))
          (λ _. if force then mpsse_send link errno else pure tt)
          (tms_loop-Emits (suc n) pat 0 (suc n) level c (omega arith) fits)
          (λ _ c' fits'. finish force end c' fits') in
      rw some_bits (
        subst
          (λ cs. Emits link level cs end c (
            (tms_loop link errno (suc n) pat 0 (suc n)
                >> (if force then mpsse_send link errno else pure tt))
              c))
          (append-nil clocks) all)
