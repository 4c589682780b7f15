-- ===== src/Ftdi/Transfer/Stream.antt =====
-- The stream of data that ftdi_read_data (src/libftdi/ftdi.c) takes from the transfers and hands out.
use fpga_device_server.Common.{
  ℕ, zero, suc, ◌+◌, ◌-◌, ◌≤◌, ◌<◌, ◌≡◌, refl, sym, ap, ◌∙◌, ◌⊎◌, inl, inr, true, false, not, List,
  [], ◌∷◌, ◌++◌, append_assoc, append-nil, arith, ◌==◌, ltb, leb, if◌then◌else◌, length, take, drop,
  take-append-drop, drop-drop, drop-all, take-add, Bool-cases, subst,
}
use fpga_device_server.Common.Int.{pos}
use fpga_device_server.Ftdi.{Context, Usb, Chip, BulkRead, bulk_failed, received, minus}
use fpga_device_server.Ftdi.Transfer.Packets.{IsData, take_nil, drop-take}
use fpga_device_server.Ftdi.Transfer.Unpack.{unpack-Unpacks}
use fpga_device_server.Ftdi.Transfer.{unpack, buffered, Reading, read_round, read_loop, read_data}

-- What a round takes for data.
payload_of : ℕ → List ℕ → List ℕ
payload_of packet_size got =
    if ltb 2 (length got)
    then take (unpack packet_size got).0 (drop 2 (unpack packet_size got).1)
    else []

-- The data of the transfers that have been used up.
pub data Arrives (packet_size chunksize : ℕ) : List BulkRead → List ℕ → List BulkRead → Type 0 where
  nothing_yet : (us : List BulkRead) → Arrives packet_size chunksize us [] us
  transfer :
      (bs here bytes : List ℕ) (us us' : List BulkRead)
      → IsData packet_size (take chunksize bs) here
      → Arrives packet_size chunksize us bytes us'
      → Arrives packet_size chunksize (received bs ∷ us) (here ++ bytes) us'

-- One of the transfers fails with this code.
pub data HasFailure : ℕ → List BulkRead → Type 0 where
  now : (e : ℕ) (us : List BulkRead) → HasFailure e (bulk_failed e ∷ us)
  after : (e : ℕ) (r : BulkRead) (us : List BulkRead) → HasFailure e us → HasFailure e (r ∷ us)

-- How a read can end. Either the bytes before it, in the caller's buffer, and those that arrive are
-- the bytes given and those kept in the read buffer; or a transfer fails.
abbrev pub Streams : ℕ → List ℕ → Chip → Reading → Type 0
Streams size before (c, u) (r, out, (c', u')) =
    ((k : ℕ) × (r ≡ pos k)
      × (k ≤ size)
      × ((bytes : List ℕ) × Arrives c.max_packet_size c.readbuffer_chunksize u.incoming bytes
            u'.incoming
          × (before ++ bytes ≡ out ++ buffered c')))
    ⊎ ((e : ℕ) × (r ≡ minus (suc e)) × HasFailure e u.incoming)

payload_of-IsData :
    (packet_size : ℕ) (got : List ℕ)
    → 2 < packet_size
    → IsData packet_size got (payload_of packet_size got)
unfolding payload_of
payload_of-IsData packet_size got large = elim (Bool-cases (ltb 2 (length got))) [
  | inl some_data ↦ rw some_data ((unpack-Unpacks packet_size got large (ground arith)).1)
  | inr status ↦
      let nothing : drop 2 got ≡ [] = drop-all 2 got (ground arith) in
      rw status (subst (IsData packet_size got) nothing (IsData.last got (ground arith)))
]

-- A round, if the rounds after it are right.
read_round-Streams :
    (size offset : ℕ) (out : List ℕ) (c : Context) (u : Usb) (got : List ℕ)
    (rest : ℕ → List ℕ → Chip → Reading)
    → 2 < c.max_packet_size
    → offset ≤ size
    → ((more : ℕ) (out' : List ℕ) (s : Chip)
        → 2 < s.0.max_packet_size
        → 0 < more
        → offset + more < size
        → Streams size out' s (rest (offset + more) out' s))
    → Streams size
        (out ++ payload_of c.max_packet_size got)
        (c, u)
        (read_round size offset out c u got rest)
unfolding read_round payload_of
read_round-Streams size offset out c u got rest large fits next =
    let (actual, buf) = unpack c.max_packet_size got in
    let payload = take actual (drop 2 buf) in
    elim (Bool-cases (ltb 2 (length got))) [
      | inr status ↦
          rw status
            (inl (offset, refl, fits, ([], Arrives.nothing_yet u.incoming, append-nil (out ++ []))))
      | inl some_data ↦ elim (Bool-cases (actual == 0)) [
        | inl no_data ↦
            let positive = (unpack-Unpacks c.max_packet_size got large (ground arith)).0 in
            absurd (ground arith)
        | inr data_there ↦ elim (Bool-cases (leb (offset + actual) size)) [
          | inl all ↦ elim (Bool-cases (offset + actual == size)) [
            | inl exact ↦
                rw (some_data, data_there, all, exact)
                  (inl (size, refl, omega arith, ([], Arrives.nothing_yet u.incoming, refl)))
            | inr more ↦
                rw (some_data, data_there, all, more)
                  (next actual (out ++ payload) _ large (ground arith) (ground arith))
          ]
          | inr too_much ↦
              let part = size - offset in
              rw (some_data, data_there, too_much)
                (inl (
                  size,
                  refl,
                  omega arith,
                  (
                    [],
                    Arrives.nothing_yet u.incoming,
                    append-nil (out ++ payload)
                        ∙ ap (◌++◌ out) (
                            sym (take-append-drop part payload)
                            ∙ ap (◌++◌ (take part payload)) (
                                sym (drop-take part actual (drop 2 buf))
                                ∙ ap (take (actual - part)) (drop-drop 2 part buf)))
                        ∙ sym (append_assoc out (take part payload) _),
                  ),
                ))
        ]
      ]
    ]

-- What comes first is part of what comes in all.
Streams-transfer :
    (size : ℕ) (before bs : List ℕ) (c : Context) (u : Usb) (us : List BulkRead) (out : Reading)
    → 2 < c.max_packet_size
    → u.incoming ≡ received bs ∷ us
    → Streams size
        (before ++ payload_of c.max_packet_size (take c.readbuffer_chunksize bs))
        (c, record u { incoming = us })
        out
    → Streams size before (c, u) out
Streams-transfer size before bs c u us (r, out, (c', u')) large e
      (inl (k, went, fits, (bytes, arrived, flow))) =
    inl (
      k,
      went,
      fits,
      (
        payload_of c.max_packet_size (take c.readbuffer_chunksize bs) ++ bytes,
        rw e (
            Arrives.transfer bs _ bytes us u'.incoming
              (payload_of-IsData c.max_packet_size (take c.readbuffer_chunksize bs) large) arrived),
        sym (append_assoc before _ bytes) ∙ flow,
      ),
    )
Streams-transfer size before bs c u us out large e (inr (x, failed, there)) =
    inr (x, failed, rw e (HasFailure.after x (received bs) us there))

read_loop-Streams :
    (fuel size offset : ℕ) (out : List ℕ) (c : Context) (u : Usb)
    → 2 < c.max_packet_size
    → offset < size
    → size - offset < fuel
    → Streams size out (c, u) (read_loop fuel size offset out (c, u))
unfolding read_loop read_round
read_loop-Streams zero size offset out c u large missing enough = absurd (omega arith)
read_loop-Streams (suc fuel) size offset out c u large missing enough =
    let next : (more : ℕ) (out' : List ℕ) (s : Chip)
        → 2 < s.0.max_packet_size
        → 0 < more
        → offset + more < size
        → Streams size out' s (read_loop fuel size (offset + more) out' s) =
      λ more out' s large' positive left.
        read_loop-Streams fuel size (offset + more) out' s.0 s.1 large' left (omega arith) in
    elim (incoming_cases u.incoming) [
      | inl e ↦
          rw (e, take_nil c.readbuffer_chunksize)
            (inl (offset, refl, omega arith, ([], Arrives.nothing_yet [], refl)))
      | inr (inl (x, us, e)) ↦ rw e (inr (x, refl, HasFailure.now x us))
      | inr (inr (bs, us, e)) ↦
          let got = take c.readbuffer_chunksize bs in
          let one =
            read_round-Streams size offset out c (record u { incoming = us }) got
              (read_loop fuel size) large (omega arith) next in
          rw e (
            Streams-transfer size out bs c (record u { incoming = received bs ∷ us }) us
              (read_round size offset out c (record u { incoming = us }) got (read_loop fuel size))
              large refl one)
    ]
  where
    incoming_cases :
        (us : List BulkRead)
        → (us ≡ [])
          ⊎ (((e : ℕ) × (rest : List BulkRead) × (us ≡ bulk_failed e ∷ rest))
              ⊎ ((bs : List ℕ) × (rest : List BulkRead) × (us ≡ received bs ∷ rest)))
    incoming_cases [] = inl refl
    incoming_cases (bulk_failed e ∷ us) = inr (inl (e, us, refl))
    incoming_cases (received bs ∷ us) = inr (inr (bs, us, refl))

-- ftdi_read_data, for a size that is not below zero, on an open chip whose packets have more than the two
-- status bytes, ends. If it returns a number, no more than was asked for, then what was in the read
-- buffer followed by the data of the transfers that have come is just what it hands out followed by
-- what is in the read buffer now; the data of a transfer is that of its packets, each without its two
-- first bytes. Or else a transfer failed and its code is returned.
pub read_data-Streams :
    (size : ℕ) (c : Context) (u : Usb)
    → c.is_open ≡ true
    → 2 < c.max_packet_size
    → Streams size (buffered c) (c, u) (read_data size (c, u))
unfolding read_data
read_data-Streams size c u is_open large =
    let sane : (c.max_packet_size == 0) ≡ false = ground arith in
    let opened : not c.is_open ≡ false = ap not is_open in
    elim (Bool-cases (leb size c.readbuffer_remaining)) [
      | inr some_missing ↦
          rw (opened, sane, some_missing)
            (read_loop-Streams (suc size) size c.readbuffer_remaining (buffered c) c u large
              (ground arith) (omega arith))
      | inl all_there ↦
          let rest = c.readbuffer_remaining - size in
          let whole : size + rest ≡ c.readbuffer_remaining = ground arith in
          let data_in = drop c.readbuffer_offset c.readbuffer in
          rw (opened, sane, all_there)
            (inl (
              size,
              refl,
              omega arith,
              (
                [],
                Arrives.nothing_yet u.incoming,
                append-nil (buffered c)
                    ∙ ap (λ n. take n data_in) (sym whole)
                    ∙ sym (take-add size rest data_in)
                    ∙ ap (λ xs. take size data_in ++ take rest xs)
                        (drop-drop c.readbuffer_offset size c.readbuffer),
              ),
            ))
    ]
