-- ===== src/Device/Packets.antt =====
-- Long transfers (Device::writeRegN): the packets that go out against the commands they stand for.
use fpga_device_server.Common.{
  ℕ, zero, suc, ◌+◌, ◌*◌, ◌≤◌, ◌<◌, ◌≡◌, refl, sym, ap, ◌∙◌, subst, ◌⊎◌, inl, inr, false, List, [],
  ◌∷◌, ◌++◌, min, append_assoc, append-nil, arith, ◌==◌, if◌then◌else◌, length, take, drop,
  length-append, length-drop, length-take, take-append-drop, take-append_le, take-append_add,
  take-min, drop-min, take-all, Bool-cases,
}
use fpga_device_server.Common.Int.{pos, pos_part, leb_ℤ, ltb_ℤ}
use fpga_device_server.Common.Effect.{Result, ok, err, ◌>>◌, >>-ok, >>-err}
use fpga_device_server.Protocol.{
  write_reg_n, encode, command_head, cmd_writereg_n, htobe16, word_bytes, n_packet_max,
}
use fpga_device_server.Protocol.Decode.{length-word_bytes}
use fpga_device_server.Device.{
  Link, write_on, read_on, Error, write_error, partial_write, out_of_fuel, Device, call_write,
  write_packet, write_packets,
}
use fpga_device_server.Device
use fpga_device_server.Device.Raw.{
  SameButHandle, SameButHandle-refl, SameButHandle-trans, SameButHandle-handle, sent_on,
  write_on_lem,
}

-- The words of each packet: as many as fit, and the rest.
pub chunks : ℕ → List ℕ → List (List ℕ)
chunks zero ws = []
chunks (suc fuel) ws =
    let rest = chunks fuel (drop n_packet_max ws) in
    if length ws == 0 then [] else take n_packet_max ws ∷ rest

abbrev pub concat : List (List ℕ) → List ℕ
concat [] = []
concat (xs ∷ xss) = xs ++ concat xss

abbrev pub AllChunks : List (List ℕ) → Type 0
AllChunks [] = Unit {0}
AllChunks (ws ∷ wss) = (0 < length ws) × (length ws ≤ n_packet_max) × AllChunks wss

-- The packets carry the words in order, none of them is empty, and none is too long for its count.
pub concat-chunks :
    (fuel : ℕ) (ws : List ℕ)
    → length ws < fuel
    → (concat (chunks fuel ws) ≡ ws) × AllChunks (chunks fuel ws)
unfolding chunks
concat-chunks zero ws h = absurd (omega arith)
concat-chunks (suc fuel) [] h = (refl, tt)
concat-chunks (suc fuel) (w ∷ ws) h =
    let some_left : (length (w ∷ ws) == 0) ≡ false = ground arith in
    let ih =
      concat-chunks fuel (drop n_packet_max (w ∷ ws))
        (omega (arith, length-drop n_packet_max (w ∷ ws))) in
    rw some_left (
      ap (◌++◌ (take n_packet_max (w ∷ ws))) ih.0 ∙ take-append-drop n_packet_max (w ∷ ws),
      (
        omega (arith, length-take n_packet_max (w ∷ ws)),
        omega (arith, length-take n_packet_max (w ∷ ws)),
        ih.1,
      ),
    )

-- The bytes of the commands that write these words to a register.
abbrev pub packets : ℕ → ℕ → List (List ℕ) → List ℕ
packets addr port [] = []
packets addr port (ws ∷ wss) = encode (write_reg_n addr port ws) ++ packets addr port wss

module _ {F : Type 0} (link : Link F) where
  -- How a transfer of some bytes in whole packets can end.
  abbrev pub Sends : List ℕ → Device F → Result Error (Unit {0}) × Device F → Type 0
  Sends bs d (r, d') =
      SameButHandle d d'
      × ((r ≡ ok tt) × (sent_on link d'.ftdi ≡ sent_on link d.ftdi ++ bs)
          ⊎ ((r ≡ err write_error) ⊎ (r ≡ err partial_write))
            × ((k : ℕ) × (k ≤ length bs)
                × (sent_on link d'.ftdi ≡ sent_on link d.ftdi ++ take k bs)))

  length-packet :
      (addr port : ℕ) (ws : List ℕ)
      → length (encode (write_reg_n addr port ws)) ≡ 2 * (2 + length ws)
  unfolding encode
  length-packet addr port ws = omega (arith, length-word_bytes ws)

  -- A packet goes out whole, or a first part of it does and the method throws.
  write_packet-Sends :
      (addr port : ℕ) (ws : List ℕ) (n : ℕ) (d : Device F)
      → n ≤ length ws
      → Sends (encode (write_reg_n addr port (take n ws))) d (write_packet link addr port ws n d)
  unfolding write_packet
  write_packet-Sends addr port ws n d le =
      let packet = command_head cmd_writereg_n addr port ++ (htobe16 n ++ word_bytes (take n ws)) in
      let count : n ≡ length (take n ws) = omega (arith, length-take n ws) in
      let same_packet : packet ≡ encode (write_reg_n addr port (take n ws)) =
        unfold encode in
        ap (λ m. command_head cmd_writereg_n addr port ++ (htobe16 m ++ word_bytes (take n ws)))
          count in
      let size : length packet ≡ 2 * (2 + n) =
        ap length same_packet
        ∙ length-packet addr port (take n ws)
        ∙ ap (λ m. 2 * (2 + m)) (sym count) in
      let (k, fits, now, exact) = write_on_lem link packet d.ftdi in
      let r = (write_on link packet d.ftdi).0 in
      let same = SameButHandle-handle d d (write_on link packet d.ftdi).1 (SameButHandle-refl d) in
      rw (← same_packet) (elim (Bool-cases (leb_ℤ r (pos 0))) [
        | inl failed ↦ rw failed (same, inr (inl refl, (k, fits, now)))
        | inr went ↦ rw went (elim (Bool-cases (ltb_ℤ r (pos (2 * (2 + n))))) [
          | inl short ↦ rw short (same, inr (inr refl, (k, fits, now)))
          | inr whole ↦
              let positive : r ≡ pos (pos_part r) = ground arith in
              let k_is : k ≡ pos_part r = exact (pos_part r) positive in
              rw whole (
                same,
                inl (
                  refl,
                  now ∙ ap (◌++◌ (sent_on link d.ftdi)) (take-all k packet (ground arith)),
                ),
              )
        ])
      ])

  -- What is left to send after some bytes have gone out.
  Sends-after :
      (done bs : List ℕ) (start d : Device F) (out : Result Error (Unit {0}) × Device F)
      → SameButHandle start d
      → sent_on link d.ftdi ≡ sent_on link start.ftdi ++ done
      → Sends bs d out
      → Sends (done ++ bs) start out
  Sends-after done bs start d out same e (same', inl (r, s)) = (
    SameButHandle-trans same same',
    inl (r, s ∙ ap (λ w. w ++ bs) e ∙ append_assoc (sent_on link start.ftdi) done bs),
  )
  Sends-after done bs start d out same e (same', inr (r, (k, le, s))) = (
    SameButHandle-trans same same',
    inr (
      r,
      (
        length done + k,
        omega (arith, length-append done bs),
        s
            ∙ ap (λ w. w ++ take k bs) e
            ∙ append_assoc (sent_on link start.ftdi) done (take k bs)
            ∙ ap (◌++◌ (sent_on link start.ftdi)) (sym (take-append_add k done bs)),
      ),
    ),
  )

  write_packets-Sends :
      (fuel addr port : ℕ) (ws : List ℕ) (d : Device F)
      → length ws < fuel
      → Sends (packets addr port (chunks fuel ws)) d (write_packets link fuel addr port ws d)
  unfolding write_packets chunks
  write_packets-Sends zero addr port ws d h = absurd (omega arith)
  write_packets-Sends (suc fuel) addr port ws d h = elim (Bool-cases (length ws == 0)) [
    | inl nothing ↦
        rw nothing (SameButHandle-refl d, inl (refl, sym (append-nil (sent_on link d.ftdi))))
    | inr something ↦
        let n = min (length ws) n_packet_max in
        let one = write_packet-Sends addr port ws n d (omega arith) in
        let first = encode (write_reg_n addr port (take n ws)) in
        let rest = packets addr port (chunks fuel (drop n ws)) in
        let out = write_packet link addr port ws n d in
        rw (something, ← take-min n_packet_max ws, ← drop-min n_packet_max ws)
          (elim one.1 [
            | inl (went, sent) ↦
                subst (Sends (first ++ rest) d)
                  (sym (
                    >>-ok (write_packet link addr port ws n)
                      (write_packets link fuel addr port (drop n ws)) d tt went))
                  (Sends-after first rest d out.1
                    (write_packets link fuel addr port (drop n ws) out.1) one.0 sent
                    (write_packets-Sends fuel addr port (drop n ws) out.1
                      (ground (arith, length-drop n ws))))
            | inr (inl failed, k) ↦ stopped n write_error failed (inl refl) one.0 k
            | inr (inr failed, k) ↦ stopped n partial_write failed (inr refl) one.0 k
          ])
  ]
    where
      stopped :
          (n : ℕ) (x : Error)
          → (write_packet link addr port ws n d).0 ≡ err x
          → (◌≡◌ {A = Result Error (Unit {0})} (err x) (err write_error))
            ⊎ (◌≡◌ {A = Result Error (Unit {0})} (err x) (err partial_write))
          → SameButHandle d (write_packet link addr port ws n d).1
          → ((k : ℕ) × (k ≤ length (encode (write_reg_n addr port (take n ws))))
              × (sent_on link (write_packet link addr port ws n d).1.ftdi
                  ≡ sent_on link d.ftdi ++ take k (encode (write_reg_n addr port (take n ws)))))
          → Sends
              (encode (write_reg_n addr port (take n ws))
                ++ packets addr port (chunks fuel (drop n ws)))
              d
              ((write_packet link addr port ws n >> write_packets link fuel addr port (drop n ws))
                d)
      stopped n x failed which same (k, le, sent) =
          let first = encode (write_reg_n addr port (take n ws)) in
          let rest = packets addr port (chunks fuel (drop n ws)) in
          subst (Sends (first ++ rest) d)
            (sym (
              >>-err (write_packet link addr port ws n)
                (write_packets link fuel addr port (drop n ws)) d x failed))
            (
              same,
              inr (
                which,
                (
                  k,
                  omega (arith, length-append first rest),
                  rw (take-append_le k first rest le) sent,
                ),
              ),
            )

  -- writeRegN ends, and what it sends is the commands that write the words to the register, in order,
  -- split so that each packet's count fits sixteen bits; if it throws, a first part of those bytes has
  -- gone out. It touches nothing but the handle.
  pub write_reg_n-Sends :
      (addr port : ℕ) (ws : List ℕ) (d : Device F)
      → Sends
          (packets addr port (chunks (suc (length ws)) ws))
          d
          (Device.write_reg_n link addr port ws d)
  unfolding Device.write_reg_n chunks
  write_reg_n-Sends addr port ws d = elim (Bool-cases (length ws == 0)) [
    | inl nothing ↦
        rw (nothing) (SameButHandle-refl d, inl (refl, sym (append-nil (sent_on link d.ftdi))))
    | inr something ↦
        rw something
          (rw something at (write_packets-Sends (suc (length ws)) addr port ws d (omega arith)))
  ]
