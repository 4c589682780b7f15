-- ===== src/Ftdi/Transfer/Packets.antt =====
-- The data in the bytes of one transfer, and how ftdi_read_data (src/libftdi/ftdi.c) moves that
-- of the whole packets together.
use fpga_device_server.Common.{
  ℕ, zero, suc, ◌+◌, ◌-◌, ◌*◌, ◌≤◌, ◌≡◌, refl, sym, ap, ◌∙◌, List, [], ◌∷◌, ◌++◌, append_assoc,
  append-nil, arith, length, take, drop, length-append, length-take, length-drop, drop-drop,
  take-add, take-append_add, drop-append,
}
use mathlib.Core.Path.{ap₂}
use fpga_device_server.Ftdi.Transfer.{memmove, move_chunks}

-- The data in some bytes: they are packets, all of `packet_size` bytes but the last, which has no more;
-- and each begins with two status bytes, but the last may have less.
pub data IsData (packet_size : ℕ) : List ℕ → List ℕ → Type 0 where
  last : (bs : List ℕ) → length bs ≤ packet_size → IsData packet_size bs (drop 2 bs)
  packet :
      (bs rest bytes : List ℕ)
      → length bs ≡ packet_size
      → IsData packet_size rest bytes
      → IsData packet_size (bs ++ rest) (drop 2 bs ++ bytes)

-- The data of the first packets, of which each has `q` bytes of data.
unfoldable pub full : ℕ → ℕ → List ℕ → List ℕ
full q zero xs = []
full q (suc n) xs = take q (drop 2 xs) ++ full q n (drop (q + 2) xs)

pub take_nil : (k : ℕ) → take {A = ℕ} k [] ≡ []
take_nil zero = refl
take_nil (suc k) = refl

pub drop-take : (m n : ℕ) (xs : List ℕ) → take (n - m) (drop m xs) ≡ drop m (take n xs)
drop-take zero n xs = let e : n - 0 ≡ n = omega arith in rw e refl
drop-take (suc m) zero xs = let e : 0 - suc m ≡ 0 = omega arith in rw e refl
drop-take (suc m) (suc n) [] = take_nil (suc n - suc m)
drop-take (suc m) (suc n) (x ∷ xs) =
    let e : suc n - suc m ≡ n - m = omega arith in rw e (drop-take m n xs)

take_append : (xs ys : List ℕ) (n m : ℕ) → length xs ≡ n → take (n + m) (xs ++ ys) ≡ xs ++ take m ys
take_append xs ys n m h = rw (← h) (take-append_add m xs ys)

pub drop_append : (xs ys : List ℕ) (n m : ℕ) → length xs ≡ n → drop (n + m) (xs ++ ys) ≡ drop m ys
drop_append xs ys n m h =
    rw (← h) (sym (drop-drop (length xs) m (xs ++ ys)) ∙ ap (drop m) (drop-append xs ys))

-- One packet more.
full_snoc :
    (q n : ℕ) (xs : List ℕ) → full q (suc n) xs ≡ full q n xs ++ take q (drop ((q + 2) * n + 2) xs)
unfolding full
full_snoc q zero xs =
    let e : (q + 2) * 0 + 2 ≡ 2 = grind arith in rw e (append-nil (take q (drop 2 xs)))
full_snoc q (suc n) xs =
    let e : (q + 2) * suc n + 2 ≡ (q + 2) + ((q + 2) * n + 2) = grind arith in
    ap (◌++◌ (take q (drop 2 xs))) (
      full_snoc q n (drop (q + 2) xs)
      ∙ ap (λ ys. full q n (drop (q + 2) xs) ++ take q ys)
          (drop-drop (q + 2) ((q + 2) * n + 2) xs ∙ ap (λ k. drop k xs) (sym e)))
    ∙ sym (append_assoc (take q (drop 2 xs)) (full q n (drop (q + 2) xs)) _)

-- What a move within a buffer to a place before leaves there, and behind.
memmove_head :
    (buf : List ℕ) (dst src n : ℕ)
    → dst ≤ src
    → src + n ≤ length buf
    → take (dst + n) (memmove buf dst src n) ≡ take dst buf ++ take n (drop src buf)
unfolding memmove
memmove_head buf dst src n before fits =
    let size : length (take dst buf) ≡ dst = length-take dst buf ∙ omega arith in
    let moved : length (take n (drop src buf)) ≡ n =
      omega (arith, length-take n (drop src buf), length-drop src buf) in
    let e : n + 0 ≡ n = omega arith in
    take_append (take dst buf) _ dst n size
    ∙ ap (◌++◌ (take dst buf)) (
        ap (λ k. take k (take n (drop src buf) ++ drop (dst + n) buf)) (sym e)
        ∙ take_append (take n (drop src buf)) (drop (dst + n) buf) n 0 moved
        ∙ append-nil (take n (drop src buf)))

memmove_tail :
    (buf : List ℕ) (dst src n m : ℕ)
    → dst ≤ src
    → src + n ≤ length buf
    → drop (dst + n + m) (memmove buf dst src n) ≡ drop (dst + n + m) buf
unfolding memmove
memmove_tail buf dst src n m before fits =
    let size : length (take dst buf) ≡ dst = length-take dst buf ∙ omega arith in
    let moved : length (take n (drop src buf)) ≡ n =
      omega (arith, length-take n (drop src buf), length-drop src buf) in
    let e : dst + n + m ≡ dst + (n + m) = omega arith in
    ap (λ k. drop k (memmove buf dst src n)) e
    ∙ drop_append (take dst buf) _ dst (n + m) size
    ∙ drop_append (take n (drop src buf)) (drop (dst + n) buf) n m moved
    ∙ drop-drop (dst + n) m buf

length-memmove :
    (buf : List ℕ) (dst src n : ℕ)
    → dst ≤ src
    → src + n ≤ length buf
    → length (memmove buf dst src n) ≡ length buf
unfolding memmove
length-memmove buf dst src n before fits = omega (
  arith,
  length-append (take dst buf) (take n (drop src buf) ++ drop (dst + n) buf),
  length-append (take n (drop src buf)) (drop (dst + n) buf),
  length-take dst buf,
  length-take n (drop src buf),
  length-drop src buf,
  length-drop (dst + n) buf,
)

-- The data of the first `i` packets lie together, and what comes after these packets is where it was.
pub record IsMoved (q i : ℕ) (got buf : List ℕ) : Type 0 where
  pub same_length : length buf ≡ length got
  pub head : take (2 + q * i) buf ≡ take 2 got ++ full q i got
  pub tail : drop ((q + 2) * i) buf ≡ drop ((q + 2) * i) got

-- Moving `n` bytes after the packets that are done to the data of these.
pub move_rest :
    (q i n : ℕ) (got buf : List ℕ)
    → 1 ≤ i
    → (q + 2) * i + 2 + n ≤ length got
    → IsMoved q i got buf
    → let buf' = memmove buf (2 + q * i) (2 + (q + 2) * i) n in
      (length buf' ≡ length got)
      × (take (2 + q * i + n) buf'
          ≡ take 2 got ++ (full q i got ++ take n (drop ((q + 2) * i + 2) got)))
      × ((m : ℕ) → drop (2 + q * i + n + m) buf' ≡ drop (2 + q * i + n + m) buf)
unfolding memmove
move_rest q i n got buf some_done fits moved =
    let e : (q + 2) * i ≡ q * i + 2 * i = grind arith in
    let size = moved.same_length in
    let there : drop (2 + (q + 2) * i) buf ≡ drop ((q + 2) * i + 2) got =
      ap (λ k. drop k buf) (let c : 2 + (q + 2) * i ≡ (q + 2) * i + 2 = omega arith in c)
      ∙ sym (drop-drop ((q + 2) * i) 2 buf)
      ∙ ap (drop 2) moved.tail
      ∙ drop-drop ((q + 2) * i) 2 got in
    let before : 2 + q * i ≤ 2 + (q + 2) * i = omega (arith, e) in
    let inside : 2 + (q + 2) * i + n ≤ length buf = omega (arith, size) in
    (
      length-memmove buf (2 + q * i) (2 + (q + 2) * i) n before inside ∙ size,
      memmove_head buf (2 + q * i) (2 + (q + 2) * i) n before inside
          ∙ ap₂ ◌++◌ moved.head (ap (take n) there)
          ∙ append_assoc (take 2 got) (full q i got) _,
      λ m. memmove_tail buf (2 + q * i) (2 + (q + 2) * i) n m before inside,
    )

move_one :
    (q i : ℕ) (got buf : List ℕ)
    → 1 ≤ i
    → (q + 2) * (i + 1) ≤ length got
    → IsMoved q i got buf
    → IsMoved q (i + 1) got (memmove buf (2 + q * i) (2 + (q + 2) * i) q)
move_one q i got buf some_done fits moved =
    let a : q * (i + 1) ≡ q * i + q = grind arith in
    let b : (q + 2) * (i + 1) ≡ (q + 2) * i + (q + 2) = grind arith in
    let c : (q + 2) * i ≡ q * i + 2 * i = grind arith in
    let d : 2 + q * (i + 1) ≡ 2 + q * i + q = omega (arith, a) in
    let e : (q + 2) * (i + 1) ≡ 2 + q * i + q + 2 * i = omega (arith, b, c) in
    let s : i + 1 ≡ suc i = omega arith in
    let (size, head, tail) = move_rest q i q got buf some_done (omega (arith, b)) moved in
    record {
      same_length = size;
      head =
          ap (λ k. take k (memmove buf (2 + q * i) (2 + (q + 2) * i) q)) d
          ∙ head
          ∙ ap (◌++◌ (take 2 got)) (sym (full_snoc q i got) ∙ ap (λ k. full q k got) (sym s));
      tail =
          ap (λ k. drop k (memmove buf (2 + q * i) (2 + (q + 2) * i) q)) e
          ∙ tail (2 * i)
          ∙ ap (λ k. drop k buf) (sym e ∙ b)
          ∙ sym (drop-drop ((q + 2) * i) (q + 2) buf)
          ∙ ap (drop (q + 2)) moved.tail
          ∙ drop-drop ((q + 2) * i) (q + 2) got
          ∙ ap (λ k. drop k got) (sym b);
    }

pub move_chunks-IsMoved :
    (rounds q i : ℕ) (got buf : List ℕ)
    → 1 ≤ i
    → (q + 2) * (i + rounds) ≤ length got
    → IsMoved q i got buf
    → IsMoved q (i + rounds) got (move_chunks rounds i (q + 2) buf)
unfolding move_chunks
move_chunks-IsMoved zero q i got buf some_done fits moved =
    let e : i + 0 ≡ i = omega arith in rw e moved
move_chunks-IsMoved (suc rounds) q i got buf some_done fits moved =
    let e : i + suc rounds ≡ i + 1 + rounds = omega arith in
    let d : q + 2 - 2 ≡ q = omega arith in
    let fits' : (q + 2) * (i + 1 + rounds) ≤ length got = rw (← e) fits in
    let one : (q + 2) * (i + 1 + rounds) ≡ (q + 2) * (i + 1) + (q + 2) * rounds = grind arith in
    rw (e, d)
      (move_chunks-IsMoved rounds q (i + 1) got (memmove buf (2 + q * i) (2 + (q + 2) * i) q)
        (omega arith) fits' (move_one q i got buf some_done (omega (arith, one)) moved))

pub first_packet : (q : ℕ) (got : List ℕ) → IsMoved q 1 got got
unfolding full
first_packet q got =
    let e : q * 1 ≡ q = grind arith in
    record {
      same_length = refl;
      head =
          ap (λ k. take (2 + k) got) e
          ∙ sym (take-add 2 q got)
          ∙ ap (◌++◌ (take 2 got)) (sym (append-nil (take q (drop 2 got))));
      tail = refl;
    }
