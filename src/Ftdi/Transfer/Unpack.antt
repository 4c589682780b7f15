-- ===== src/Ftdi/Transfer/Unpack.antt =====
-- What ftdi_read_data (src/libftdi/ftdi.c) takes for the data of a transfer.
use fpga_device_server.Common.{
  ℕ, zero, suc, ◌+◌, ◌-◌, ◌*◌, ◌/◌, ◌%◌, ◌≤◌, ◌<◌, ◌≡◌, sym, ap, ◌∙◌, subst, inl, inr, List, [],
  ◌++◌, append_assoc, append-nil, arith, ◌==◌, ==_iff, ltb, if◌then◌else◌, length, take, drop,
  length-take, length-drop, take-append-drop, drop-drop, take-all, drop-all, Bool-cases,
}
use native.Mathlib.Nat.{div-add-mod, mod-lt}
use fpga_device_server.Ftdi.Transfer.{unpack, memmove, move_chunks}
use fpga_device_server.Ftdi.Transfer.Packets.{
  IsData, full, drop-take, drop_append, IsMoved, move_rest, move_chunks-IsMoved, first_packet,
}

-- Whole packets and what is left of them.
full-IsData :
    (q n : ℕ) (xs : List ℕ)
    → (q + 2) * n ≤ length xs
    → length xs ≤ (q + 2) * n + (q + 2)
    → IsData (q + 2) xs (full q n xs ++ drop 2 (drop ((q + 2) * n) xs))
unfolding full
full-IsData q zero xs above below =
    let e : (q + 2) * 0 ≡ 0 = grind arith in rw e (IsData.last xs (omega (arith, e)))
full-IsData q (suc n) xs above below =
    let e : (q + 2) * suc n ≡ (q + 2) + (q + 2) * n = grind arith in
    let left = length-drop (q + 2) xs in
    let rest = drop (q + 2) xs in
    let after = full q n rest ++ drop 2 (drop ((q + 2) * n) rest) in
    let d : q + 2 - 2 ≡ q = omega arith in
    let whole : length (take (q + 2) xs) ≡ q + 2 = length-take (q + 2) xs ∙ omega (arith, e) in
    let one : IsData (q + 2) (take (q + 2) xs ++ rest) (drop 2 (take (q + 2) xs) ++ after) =
      IsData.packet (take (q + 2) xs) rest after whole
        (full-IsData q n rest (omega (arith, e)) (omega (arith, e))) in
    let same : drop 2 (take (q + 2) xs) ++ after
        ≡ (take q (drop 2 xs) ++ full q n rest) ++ drop 2 (drop ((q + 2) * suc n) xs) =
      ap (λ ys. ys ++ after) (sym (drop-take 2 (q + 2) xs) ∙ ap (λ k. take k (drop 2 xs)) d)
      ∙ sym (append_assoc (take q (drop 2 xs)) (full q n rest) _)
      ∙ ap (λ ys. (take q (drop 2 xs) ++ full q n rest) ++ drop 2 ys)
          (drop-drop (q + 2) ((q + 2) * n) xs ∙ ap (λ k. drop k xs) (sym e)) in
    subst
      (λ ys.
        IsData (q + 2) ys
          ((take q (drop 2 xs) ++ full q n rest) ++ drop 2 (drop ((q + 2) * suc n) xs)))
      (take-append-drop (q + 2) xs) (subst (IsData (q + 2) (take (q + 2) xs ++ rest)) same one)

-- What lies behind the two first bytes.
behind_status :
    (n : ℕ) (got buf bytes : List ℕ)
    → 2 ≤ length got
    → take (2 + n) buf ≡ take 2 got ++ bytes
    → take n (drop 2 buf) ≡ bytes
behind_status n got buf bytes two head =
    let e : 2 + n - 2 ≡ n = omega arith in
    let size : length (take 2 got) ≡ 2 = length-take 2 got ∙ omega arith in
    ap (λ k. take k (drop 2 buf)) (sym e)
    ∙ drop-take 2 (2 + n) buf
    ∙ ap (drop 2) head
    ∙ drop_append (take 2 got) bytes 2 0 size

-- What a read takes for data: `actual` bytes in the buffer, from the third on.
abbrev pub Unpacks : ℕ → List ℕ → ℕ × List ℕ → Type 0
Unpacks packet_size got (actual, buf) =
    (0 < actual) × IsData packet_size got (take actual (drop 2 buf))

abbrev unpack_long : ℕ → ℕ → ℕ → List ℕ → ℕ × List ℕ
unpack_long q chunks remains got =
    let actual = length got - 2 in
    let moved = move_chunks (chunks - 1) 1 (q + 2) got in
    if ltb 2 remains
    then (actual - 2 * chunks, memmove moved (2 + q * chunks) (2 + (q + 2) * chunks) (remains - 2))
    else (actual - (2 * (chunks - 1) + remains), moved)

unpack_long-Unpacks :
    (q chunks remains : ℕ) (got : List ℕ)
    → 0 < q
    → 0 < chunks
    → remains < q + 2
    → (q + 2) * chunks + remains ≡ length got
    → Unpacks (q + 2) got (unpack_long q chunks remains got)
unpack_long-Unpacks q chunks remains got some_data some_chunks small whole =
    let a : (q + 2) * chunks ≡ q * chunks + 2 * chunks = grind arith in
    let at_least : q * chunks ≡ q * (chunks - 1) + q =
      let s : chunks ≡ chunks - 1 + 1 = omega arith in
      ap (λ k. q * k) s
      ∙ (let m : q * (chunks - 1 + 1) ≡ q * (chunks - 1) + q = grind arith in m) in
    let s : 1 + (chunks - 1) ≡ chunks = omega arith in
    let moved = move_chunks (chunks - 1) 1 (q + 2) got in
    let together : IsMoved q chunks got moved =
      subst (λ k. IsMoved q k got moved) s
        (move_chunks-IsMoved (chunks - 1) q 1 got got (omega arith)
          (subst (λ k. (q + 2) * k ≤ length got) (sym s) (omega arith)) (first_packet q got)) in
    let data_of = full-IsData q chunks got (omega arith) (omega arith) in
    let left = length-drop ((q + 2) * chunks) got in
    elim (Bool-cases (ltb 2 remains)) [
      | inl more ↦
          let many : 2 < remains = ground arith in
          let n = remains - 2 in
          let count : length got - 2 - 2 * chunks ≡ q * chunks + n = omega (arith, a) in
          let c : 2 + q * chunks + n ≡ 2 + (q * chunks + n) = omega arith in
          let (size, head, tail) =
            move_rest q chunks n got moved (omega arith) (omega arith) together in
          let buf = memmove moved (2 + q * chunks) (2 + (q + 2) * chunks) n in
          let end : take n (drop ((q + 2) * chunks + 2) got)
              ≡ drop 2 (drop ((q + 2) * chunks) got) =
            ap (take n) (sym (drop-drop ((q + 2) * chunks) 2 got))
            ∙ take-all n (drop 2 (drop ((q + 2) * chunks) got))
                (omega (arith, left, length-drop 2 (drop ((q + 2) * chunks) got))) in
          let bytes =
            behind_status (q * chunks + n) got buf _ (omega (arith, a))
              (ap (λ k. take k buf) (sym c) ∙ head)
            ∙ ap (◌++◌ (full q chunks got)) end in
          rw (more, count) (omega arith, subst (IsData (q + 2) got) (sym bytes) data_of)
      | inr few ↦
          let none_left : remains ≤ 2 = ground arith in
          let count : length got - 2 - (2 * (chunks - 1) + remains) ≡ q * chunks =
            omega (arith, a) in
          let nothing : drop 2 (drop ((q + 2) * chunks) got) ≡ [] =
            drop-all 2 (drop ((q + 2) * chunks) got) (omega (arith, left)) in
          let bytes =
            behind_status (q * chunks) got moved (full q chunks got) (omega (arith, a))
              together.head
            ∙ sym (append-nil (full q chunks got))
            ∙ ap (◌++◌ (full q chunks got)) (sym nothing) in
          rw (few, count) (omega (arith, at_least), subst (IsData (q + 2) got) (sym bytes) data_of)
    ]

unpack_parts :
    (q : ℕ) (got : List ℕ) → 0 < q → 2 < length got → Unpacks (q + 2) got (unpack (q + 2) got)
unfolding unpack
unpack_parts q got some_data some_bytes =
    let d : q + 2 - 2 ≡ q = omega arith in
    let chunks = length got / (q + 2) in
    let whole = div-add-mod (length got) (q + 2) in
    let small = mod-lt (length got) {m = q + 2} (omega arith) in
    elim (Bool-cases (ltb q (length got - 2))) [
      | inl long ↦
          let some_chunks : 0 < chunks = elim (Bool-cases (chunks == 0)) [
            | inr more ↦ ground arith
            | inl nothing ↦
                let zero_chunks : chunks ≡ 0 = (==_iff _ _).0 nothing in
                let e : (q + 2) * chunks ≡ 0 =
                  ap (λ k. (q + 2) * k) zero_chunks
                  ∙ (let m : (q + 2) * 0 ≡ 0 = grind arith in m) in
                absurd (ground (arith, e, whole, small))
          ] in
          rw (d, long)
            (unpack_long-Unpacks q chunks (length got % (q + 2)) got some_data some_chunks small
              whole)
      | inr short ↦
          let e : take (length got - 2) (drop 2 got) ≡ drop 2 got =
            take-all (length got - 2) (drop 2 got) (omega (arith, length-drop 2 got)) in
          rw (d, short, e) (omega arith, IsData.last got (ground arith))
    ]

-- ftdi_read_data takes for data just the data in the packets of a transfer, and there is some.
pub unpack-Unpacks :
    (packet_size : ℕ) (got : List ℕ)
    → 2 < packet_size
    → 2 < length got
    → Unpacks packet_size got (unpack packet_size got)
unpack-Unpacks packet_size got large some_bytes =
    let e : packet_size - 2 + 2 ≡ packet_size = omega arith in
    subst (λ p. Unpacks p got (unpack p got)) e
      (unpack_parts (packet_size - 2) got (omega arith) some_bytes)
