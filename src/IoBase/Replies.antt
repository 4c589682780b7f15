-- ===== src/IoBase/Replies.antt =====
-- What the calls of the cable's base class read: a reply for each block whose answer is wanted.
use fpga_device_server.Common.{
  ℕ, zero, suc, ◌-◌, ◌<◌, ◌≡◌, refl, ap, ◌∙◌, inl, inr, Bool, true, false, Option, List, arith, ltb,
  ◌==◌, if◌then◌else◌, Bool-cases,
}
use fpga_device_server.IoBase.{
  Io, set_tms, flush_tms, shift_tdi_tdo, shift, shift_chunks, usleep_io, next_reply, later_replies,
  chunk_bits,
}

pub set_tms-replies : (io : Io) (val : Bool) → (set_tms io val).replies ≡ io.replies
unfolding set_tms
set_tms-replies io val = ground arith

pub flush_tms-replies : (io : Io) (force : Bool) → (flush_tms io force).replies ≡ io.replies
unfolding flush_tms
flush_tms-replies io force = ground arith

-- A block whose answer is wanted takes one reply.
pub block-replies :
    (io : Io) (tdi : Option (List ℕ)) (wants_tdo : Bool) (length : ℕ) (last : Bool)
    → 0 < length
    → let (io', tdo) = shift_tdi_tdo io tdi wants_tdo length last in
      (io'.replies ≡ (if wants_tdo then later_replies io.replies else io.replies))
      × (wants_tdo ≡ true → tdo ≡ next_reply io.replies)
unfolding shift_tdi_tdo
block-replies io tdi true zero last h = elim h [ ]
block-replies io tdi false zero last h = elim h [ ]
block-replies io tdi true (suc n) last h =
    let e : (suc n == 0) ≡ false = ground arith in
    rw e (
      ap later_replies (flush_tms-replies io false),
      λ _. ap next_reply (flush_tms-replies io false),
    )
block-replies io tdi false (suc n) last h =
    let e : (suc n == 0) ≡ false = ground arith in
    rw e (flush_tms-replies io false, λ c. absurd (cc))

sent-replies :
    (io : Io) (tdi : Option (List ℕ)) (length : ℕ) (last : Bool)
    → (shift_tdi_tdo io tdi false length last).0.replies ≡ io.replies
sent-replies io tdi zero last = unfold shift_tdi_tdo in refl
sent-replies io tdi (suc n) last = (block-replies io tdi false (suc n) last (omega arith)).0

shift_chunks-replies :
    (fuel : ℕ) (io : Io) (tdi : Bool) (len : ℕ)
    → (shift_chunks fuel io tdi len).0.replies ≡ io.replies
unfolding shift_chunks
shift_chunks-replies zero io tdi len = refl
shift_chunks-replies (suc fuel) io tdi len = elim (Bool-cases (ltb chunk_bits len)) [
  | inl more ↦ rw more (shift_chunks-replies fuel _ tdi (len - chunk_bits))
  | inr done ↦ rw done
]

pub shift-replies :
    (io : Io) (tdi : Bool) (length : ℕ) (last : Bool)
    → (shift io tdi length last).replies ≡ io.replies
unfolding shift
shift-replies io tdi length last =
    sent-replies (shift_chunks length (flush_tms io false) tdi length).0 _
      (shift_chunks length (flush_tms io false) tdi length).1 last
    ∙ shift_chunks-replies length (flush_tms io false) tdi length
    ∙ flush_tms-replies io false

pub usleep_io-replies : (io : Io) (usec : ℕ) → (usleep_io io usec).replies ≡ io.replies
unfolding usleep_io
usleep_io-replies io usec = flush_tms-replies io false
