-- ===== src/IoBase/Blocks.antt =====
-- Blocks on the cable: every shift clocks exactly the bits asked for, TMS low but at the end.
use fpga_device_server.Common.{
  ℕ, zero, suc, ◌+◌, ◌-◌, ◌≤◌, ◌<◌, ◌≡◌, refl, sym, ap, ◌∙◌, Bool, true, false, Option, none, some,
  List, [], ◌∷◌, ◌++◌, append_assoc, append-nil, arith, ltb, ◌==◌, replicate, inl, inr, Bool-cases,
  ==_iff,
}
use fpga_device_server.IoBase.{
  chunk_bits, Io, emit, flush_tms, transfer, shift_tdi_tdo, shift_tdi, shift_tdo, block,
  shift_chunks, shift, usleep_io, usleep,
}
use fpga_device_server.IoBase.Wire.{
  IsBuffer, wire, block_clocks, log_clocks, log_clocks-append, flush_tms-IsBuffer, wire-flush_tms,
}

-- What an operation on the cable has done: the buffer is sound and these clocks were added.
abbrev pub Clocked : Io → List Bool → Io → Type 0
Clocked io cs io' = IsBuffer io' × (wire io' ≡ wire io ++ cs)

pub emptied-wire :
    (io : Io) (force : Bool) → wire (flush_tms io force) ≡ log_clocks (flush_tms io force).log
unfolding wire flush_tms
emptied-wire io force = simp append-nil

transfer-Clocked :
    (io : Io) (tdi : Option (List ℕ)) (wants_tdo : Bool) (length : ℕ) (last : Bool)
    → IsBuffer io
    → io.tms_len ≡ 0
    → Clocked io (block_clocks length last) (transfer io tdi wants_tdo length last).0
unfolding transfer wire
transfer-Clocked io tdi wants_tdo length last b e = (
  record { size = b.size; bytes = b.bytes; fits = b.fits; clear = b.clear },
  rw (e, log_clocks-append) (simp append-nil),
)

pub shift_tdi_tdo-Clocked :
    (io : Io) (tdi : Option (List ℕ)) (wants_tdo : Bool) (length : ℕ) (last : Bool)
    → IsBuffer io
    → Clocked io (block_clocks length last) (shift_tdi_tdo io tdi wants_tdo length last).0
unfolding shift_tdi_tdo
shift_tdi_tdo-Clocked io tdi wants_tdo length last b = elim (Bool-cases (length == 0)) [
  | inl nothing ↦
      let e : length ≡ 0 = (==_iff _ _).0 nothing in rw (e) (b, sym (append-nil (wire io)))
  | inr something ↦
      let done =
        transfer-Clocked (flush_tms io false) tdi wants_tdo length last
          (flush_tms-IsBuffer io false) (emptied io) in
      rw something
        (done.0, done.1 ∙ ap (λ w. w ++ block_clocks length last) (wire-flush_tms io false))
]
  where
    emptied : (io : Io) → (flush_tms io false).tms_len ≡ 0
    emptied io = refl

pub shift_tdi-Clocked :
    (io : Io) (tdi : List ℕ) (length : ℕ) (last : Bool)
    → IsBuffer io
    → Clocked io (block_clocks length last) (shift_tdi io tdi length last)
unfolding shift_tdi
shift_tdi-Clocked io tdi length last b = shift_tdi_tdo-Clocked io (some tdi) false length last b

pub shift_tdo-Clocked :
    (io : Io) (length : ℕ) (last : Bool)
    → IsBuffer io
    → Clocked io (block_clocks length last) (shift_tdo io length last).0
unfolding shift_tdo
shift_tdo-Clocked io length last b = shift_tdi_tdo-Clocked io none true length last b

replicate-block_clocks :
    (m n : ℕ) (last : Bool)
    → replicate m false ++ block_clocks (suc n) last ≡ block_clocks (m + suc n) last
replicate-block_clocks zero n last = let e : 0 + suc n ≡ suc n = omega arith in rw e
replicate-block_clocks (suc m) n last =
    let e : suc m + suc n ≡ suc (suc (m + n)) = omega arith in
    let e' : m + suc n ≡ suc (m + n) = omega arith in
    rw e (ap (◌∷◌ false) (replicate-block_clocks m n last ∙ ap (λ k. block_clocks k last) e'))

low_block : (n : ℕ) → block_clocks n false ≡ replicate n false
low_block zero = refl
low_block (suc zero) = refl
low_block (suc (suc n)) = ap (◌∷◌ false) (low_block (suc n))

-- A whole chunk with TMS low before a block that is not empty is one longer block.
pub block_clocks-append :
    (m n : ℕ) (last : Bool)
    → 0 < n
    → block_clocks m false ++ block_clocks n last ≡ block_clocks (m + n) last
block_clocks-append m zero last h = absurd (omega arith)
block_clocks-append m (suc n) last h = rw (low_block m) (replicate-block_clocks m n last)

-- With as much fuel as bits the loop ends by its own test, what is left fits one chunk, and nothing
-- has been sent that does not belong to the block.
shift_chunks-Clocked :
    (fuel : ℕ) (io : Io) (tdi : Bool) (len : ℕ) (last : Bool)
    → len ≤ fuel
    → IsBuffer io
    → io.tms_len ≡ 0
    → let (io', left) = shift_chunks fuel io tdi len in
      IsBuffer io'
      × (left ≤ chunk_bits)
      × (wire io' ++ block_clocks left last ≡ wire io ++ block_clocks len last)
unfolding shift_chunks
shift_chunks-Clocked zero io tdi len last h b e = (b, omega arith, refl)
shift_chunks-Clocked (suc fuel) io tdi len last h b e = elim (Bool-cases (ltb chunk_bits len)) [
  | inl more ↦
      let one = transfer-Clocked io (some (block tdi)) false chunk_bits false b e in
      let rest =
        shift_chunks-Clocked fuel (transfer io (some (block tdi)) false chunk_bits false).0 tdi
          (len - chunk_bits) last (ground arith) one.0 (still io tdi e) in
      let whole : chunk_bits + (len - chunk_bits) ≡ len = ground arith in
      rw more (
        rest.0,
        rest.1,
        rest.2
            ∙ ap (λ w. w ++ block_clocks (len - chunk_bits) last) one.1
            ∙ append_assoc (wire io) (block_clocks chunk_bits false)
                (block_clocks (len - chunk_bits) last)
            ∙ ap (◌++◌ (wire io)) (
                block_clocks-append chunk_bits (len - chunk_bits) last (ground arith)
                ∙ ap (λ k. block_clocks k last) whole),
      )
  | inr fits ↦ rw fits (b, ground arith, refl)
]
  where
    still :
        (io : Io) (tdi : Bool)
        → io.tms_len ≡ 0
        → (transfer io (some (block tdi)) false chunk_bits false).0.tms_len ≡ 0
    still io tdi e = e

-- IOBase::shift ends, and clocks just as many bits as it is asked for, however many chunks that takes,
-- with TMS high on the last bit only, and only if that is asked for.
pub shift-Clocked :
    (io : Io) (tdi : Bool) (length : ℕ) (last : Bool)
    → IsBuffer io
    → Clocked io (block_clocks length last) (shift io tdi length last)
unfolding shift
shift-Clocked io tdi length last b =
    let loop =
      shift_chunks-Clocked length (flush_tms io false) tdi length last (omega arith)
        (flush_tms-IsBuffer io false) refl in
    let (io', len) = shift_chunks length (flush_tms io false) tdi length in
    let done = shift_tdi_tdo-Clocked io' (some (block tdi)) false len last loop.0 in
    (done.0, done.1 ∙ loop.2 ∙ ap (λ w. w ++ block_clocks length last) (wire-flush_tms io false))

pub usleep_io-Clocked : (io : Io) (usec : ℕ) → IsBuffer io → Clocked io [] (usleep_io io usec)
unfolding usleep_io
usleep_io-Clocked io usec b = (
  record {
    size = refl;
    bytes = (flush_tms-IsBuffer io false).bytes;
    fits = omega arith;
    clear = (flush_tms-IsBuffer io false).clear;
  },
  kept (flush_tms io false) ∙ wire-flush_tms io false ∙ sym (append-nil (wire io)),
)
  where
    kept : (io : Io) → wire (emit io (usleep usec)) ≡ wire io
    kept io = unfold wire in rw (log_clocks-append) (simp append-nil)
