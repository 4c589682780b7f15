-- ===== src/IoBase/Wire.antt =====
-- What the cable sees: the TMS bit of every clock, those still in the buffer included.
use fpga_device_server.Common.{
  ℕ, zero, suc, ◌+◌, ◌/◌, ◌%◌, ◌^◌, ◌≤◌, ◌<◌, ◌≡◌, ◌≢◌, refl, ap, ◌∙◌, bit_or, Bool, true, false,
  ◌||◌, List, [], ◌∷◌, ◌++◌, append_assoc, append-nil, arith, ltb, ◌==◌, get_or, set, replicate,
  length, inl, inr, Bool-cases, ==_iff,
}
use native.Mathlib.Numerals.{add-one}
use fpga_device_server.IoBase.Bits.{
  bit, bits, get_or-replicate, get_or-set_self, get_or-set_ne, length-set, sets_bit_lem,
  bit_or_byte,
}
use fpga_device_server.IoBase.{
  chunk_size, chunk_bits, Event, tx_tms, txrx_block, usleep, Io, io_init, flush_tms, push_tms,
  set_tms,
}

-- A block of n bits holds TMS low but for its last bit, which has TMS as `last` says.
abbrev pub block_clocks : ℕ → Bool → List Bool
block_clocks zero last = []
block_clocks (suc n) last = replicate n false ++ last ∷ []

abbrev pub clocks : Event → List Bool
clocks (tx_tms pat len force) = bits pat len
clocks (txrx_block tdi wants_tdo len last) = block_clocks len last
clocks (usleep usec) = []

abbrev pub log_clocks : List Event → List Bool
log_clocks [] = []
log_clocks (e ∷ es) = clocks e ++ log_clocks es

unfoldable pub wire : Io → List Bool
wire io = log_clocks io.log ++ bits io.tms_buf io.tms_len

-- The buffer is a chunk of bytes, and is clear from the pending bits on.
pub record IsBuffer (io : Io) : Type 0 where
  pub size : length io.tms_buf ≡ chunk_size
  pub bytes : (i : ℕ) → get_or io.tms_buf i 0 < 256
  pub fits : io.tms_len ≤ chunk_bits
  pub clear : (i : ℕ) → io.tms_len ≤ i → bit io.tms_buf i ≡ false

-- Writing bit n of the buffer sets it, and changes no other.
abbrev with_bit : List ℕ → ℕ → List ℕ
with_bit buf n = set buf (n / 8) (bit_or (get_or buf (n / 8) 0) (2 ^ (n % 8)))

bit-with_bit :
    (buf : List ℕ) (n i : ℕ)
    → length buf ≡ chunk_size
    → ((i : ℕ) → get_or buf i 0 < 256)
    → n < chunk_bits
    → bit (with_bit buf n) i ≡ (i == n || bit buf i)
bit-with_bit buf n i size bytes h = elim (Bool-cases (i / 8 == n / 8)) [
  | inl same ↦
      let e : i / 8 ≡ n / 8 = (==_iff _ _).0 same in
      let e' : (i % 8 == n % 8) ≡ (i == n) = ground arith in
      rw
        (
          e,
          get_or-set_self buf (n / 8) (bit_or (get_or buf (n / 8) 0) (2 ^ (n % 8))) (omega arith),
          ← e',
        )
        (sets_bit_lem (get_or buf (n / 8) 0) (n % 8) (i % 8) (bytes (n / 8)) (omega arith)
          (omega arith))
  | inr other ↦
      let e : n / 8 ≢ i / 8 = ground arith in
      let e' : (i == n) ≡ false = ground arith in
      rw (get_or-set_ne buf (n / 8) (i / 8) (bit_or (get_or buf (n / 8) 0) (2 ^ (n % 8))) e, e')
]

bits-with_bit :
    (buf : List ℕ) (n m : ℕ)
    → length buf ≡ chunk_size
    → ((i : ℕ) → get_or buf i 0 < 256)
    → n < chunk_bits
    → m ≤ n
    → bits (with_bit buf n) m ≡ bits buf m
bits-with_bit buf n zero size bytes h le = refl
bits-with_bit buf n (suc m) size bytes h le =
    let ne : (m == n) ≡ false = ground arith in
    rw (bits-with_bit buf n m size bytes h (omega arith), bit-with_bit buf n m size bytes h, ne)

bytes-with_bit :
    (buf : List ℕ) (n : ℕ)
    → ((i : ℕ) → get_or buf i 0 < 256)
    → length buf ≡ chunk_size
    → n < chunk_bits
    → (i : ℕ) → get_or (with_bit buf n) i 0 < 256
bytes-with_bit buf n bytes size h i = elim (Bool-cases (n / 8 == i)) [
  | inl same ↦
      let e : n / 8 ≡ i = (==_iff _ _).0 same in
      rw
        (
          ← e,
          get_or-set_self buf (n / 8) (bit_or (get_or buf (n / 8) 0) (2 ^ (n % 8))) (omega arith),
        )
        (bit_or_byte (get_or buf (n / 8) 0) (n % 8) (bytes (n / 8)) (omega arith))
  | inr other ↦
      let ne : n / 8 ≢ i = ground arith in
      rw (get_or-set_ne buf (n / 8) i (bit_or (get_or buf (n / 8) 0) (2 ^ (n % 8))) ne) (bytes i)
]

bit-cleared : (i : ℕ) → bit (replicate chunk_size 0) i ≡ false
bit-cleared i = rw (get_or-replicate chunk_size (i / 8)) (bit-zero (i % 8))
  where
    bit-zero : (k : ℕ) → (0 / 2 ^ k % 2 == 1) ≡ false
    bit-zero k = ground arith

pub io_init-IsBuffer : (replies : List (List ℕ)) → IsBuffer (io_init replies)
unfolding io_init
io_init-IsBuffer replies = record {
  size = refl;
  bytes = λ i. rw (get_or-replicate chunk_size i) (omega arith);
  fits = omega arith;
  clear = λ i h. bit-cleared i;
}

pub flush_tms-IsBuffer : (io : Io) (force : Bool) → IsBuffer (flush_tms io force)
unfolding flush_tms
flush_tms-IsBuffer io force = record {
  size = refl;
  bytes = λ i. rw (get_or-replicate chunk_size i) (omega arith);
  fits = omega arith;
  clear = λ i h. bit-cleared i;
}

push_tms-IsBuffer :
    (io : Io) (val : Bool) → IsBuffer io → io.tms_len < chunk_bits → IsBuffer (push_tms io val)
unfolding push_tms
push_tms-IsBuffer io true b h = record {
  size =
      rw
        (length-set io.tms_buf (io.tms_len / 8)
          (bit_or (get_or io.tms_buf (io.tms_len / 8) 0) (2 ^ (io.tms_len % 8))))
        b.size;
  bytes = bytes-with_bit io.tms_buf io.tms_len b.bytes b.size h;
  fits = omega arith;
  clear = λ i le.
      let ne : (i == io.tms_len) ≡ false = ground arith in
      rw (bit-with_bit io.tms_buf io.tms_len i b.size b.bytes h, ne) (b.clear i (omega arith));
}
push_tms-IsBuffer io false b h = record {
  size = b.size;
  bytes = b.bytes;
  fits = omega arith;
  clear = λ i le. b.clear i (omega arith);
}

wire-push_tms :
    (io : Io) (val : Bool)
    → IsBuffer io
    → io.tms_len < chunk_bits
    → wire (push_tms io val) ≡ wire io ++ val ∷ []
unfolding push_tms wire
wire-push_tms io true b h =
    let same : (io.tms_len == io.tms_len) ≡ true = ground arith in
    rw (
      add-one,
      bits-with_bit io.tms_buf io.tms_len io.tms_len b.size b.bytes h (omega arith),
      bit-with_bit io.tms_buf io.tms_len io.tms_len b.size b.bytes h,
      same,
      append_assoc,
    )
wire-push_tms io false b h = rw (add-one, b.clear io.tms_len (omega arith), append_assoc)

pub log_clocks-append :
    (es fs : List Event) → log_clocks (es ++ fs) ≡ log_clocks es ++ log_clocks fs
log_clocks-append [] fs = refl
log_clocks-append (e ∷ es) fs = rw (log_clocks-append es fs, append_assoc)

-- Sending the buffer moves its bits to the cable, and no clock is lost or made up.
pub wire-flush_tms : (io : Io) (force : Bool) → wire (flush_tms io force) ≡ wire io
unfolding flush_tms wire
wire-flush_tms io force = elim (Bool-cases (io.tms_len == 0)) [
  | inl none_pending ↦ let e : io.tms_len ≡ 0 = (==_iff _ _).0 none_pending in rw (none_pending, e)
  | inr pending ↦ rw (pending, log_clocks-append) (simp append-nil)
]

-- One TMS bit is one more clock, also when the buffer is full and has to be sent first.
pub wire-set_tms :
    (io : Io) (val : Bool)
    → IsBuffer io
    → IsBuffer (set_tms io val) × (wire (set_tms io val) ≡ wire io ++ val ∷ [])
unfolding set_tms
wire-set_tms io val b = elim (Bool-cases (ltb chunk_bits (io.tms_len + 1))) [
  | inl full ↦ rw full (
    push_tms-IsBuffer (flush_tms io false) val (flush_tms-IsBuffer io false) (flushed io),
    wire-push_tms (flush_tms io false) val (flush_tms-IsBuffer io false) (flushed io)
        ∙ ap (λ w. w ++ val ∷ []) (wire-flush_tms io false),
  )
  | inr room ↦
      rw room (push_tms-IsBuffer io val b (ground arith), wire-push_tms io val b (ground arith))
]
  where
    flushed : (io : Io) → (flush_tms io false).tms_len < chunk_bits
    flushed io = ground arith
