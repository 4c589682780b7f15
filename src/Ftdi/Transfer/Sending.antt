-- ===== src/Ftdi/Transfer/Sending.antt =====
-- How ftdi_write_data (src/libftdi/ftdi.c) can end, and the bytes that have been sent then.
use fpga_device_server.Common.{
  ◌≡◌, refl, sym, ap, ◌∙◌, subst, ℕ, zero, suc, ◌+◌, ◌-◌, ◌≤◌, ◌<◌, true, false, not, ◌⊎◌, inl, inr,
  Option, none, some, List, [], ◌∷◌, ◌++◌, append_assoc, append-nil, ltb, length, take, drop, min,
  take-append-drop, drop-drop, take-add, Bool-cases, arith,
}
use fpga_device_server.Common.Int.{ℤ, pos}
use fpga_device_server.Ftdi.{Context, Usb, Chip, minus, next_or, later}
use fpga_device_server.Ftdi.Transfer.{write_loop, write_data}

-- All of the bytes are sent and counted, or a transfer fails after some of them.
abbrev pub Sends : ℕ → List ℕ → Chip → ℤ × Chip → Type 0
Sends size bs (c, u) (r, (c', u')) =
    ((r ≡ pos size) × (u'.sent ≡ u.sent ++ bs))
    ⊎ ((k : ℕ) × (r ≡ minus 1) × (u'.sent ≡ u.sent ++ take k bs))

option_cases : (o : Option ℕ) → (o ≡ none) ⊎ ((n : ℕ) × (o ≡ some n))
option_cases none = inl refl
option_cases (some n) = inr (n, refl)

drop_all : (bs : List ℕ) (k : ℕ) → length bs ≤ k → drop k bs ≡ []
drop_all [] zero h = refl
drop_all [] (suc k) h = refl
drop_all (b ∷ bs) zero h = absurd (omega arith)
drop_all (b ∷ bs) (suc k) h = drop_all bs k (omega arith)

abbrev taken : ℕ → Option ℕ → ℕ
taken default none = default
taken default (some n) = n

-- A round uses up an answer, or the transfer takes a byte.
progress :
    (answers : List (Option ℕ)) (size n left : ℕ)
    → 0 < size
    → size ≤ left
    → next_or (some size) answers ≡ some n
    → length (later answers) + (left - min n size) < length answers + left
progress [] size n left positive fits e = let same_size : size ≡ n = ap (taken 0) e in ground arith
progress (a ∷ answers) size n left positive fits e = ground arith

Sends-some :
    (size n : ℕ) (bs : List ℕ) (c : Context) (u u' : Usb) (out : ℤ × Chip)
    → u'.sent ≡ u.sent ++ take n bs
    → Sends size (drop n bs) (c, u') out
    → Sends size bs (c, u) out
Sends-some size n bs c u u' (r, (c'', u'')) e (inl (all, sent)) = inl (
  all,
  sent
      ∙ ap (λ xs. xs ++ drop n bs) e
      ∙ append_assoc u.sent (take n bs) (drop n bs)
      ∙ ap (λ xs. u.sent ++ xs) (take-append-drop n bs),
)
Sends-some size n bs c u u' (r, (c'', u'')) e (inr (k, failed, sent)) = inr (
  n + k,
  failed,
  sent
      ∙ ap (λ xs. xs ++ take k (drop n bs)) e
      ∙ append_assoc u.sent (take n bs) (take k (drop n bs))
      ∙ ap (λ xs. u.sent ++ xs) (take-add n k bs),
)

write_loop-Sends :
    (fuel : ℕ) (bs : List ℕ) (offset : ℕ) (c : Context) (u : Usb)
    → 0 < c.writebuffer_chunksize
    → offset ≤ length bs
    → length u.write_answers + (length bs - offset) < fuel
    → Sends (length bs) (drop offset bs) (c, u) (write_loop fuel bs offset (c, u))
unfolding write_loop
write_loop-Sends zero bs offset c u positive inside enough = absurd (omega arith)
write_loop-Sends (suc fuel) bs offset c u positive inside enough =
    elim (Bool-cases (ltb offset (length bs))) [
      | inr done ↦
          let whole : offset ≡ length bs = ground arith in
          rw done (
            inl (
              ap pos whole,
              sym (ap (λ xs. u.sent ++ xs) (drop_all bs offset (omega arith)) ∙ append-nil u.sent),
            ))
      | inl missing ↦
          let write_size = min c.writebuffer_chunksize (length bs - offset) in
          elim (option_cases (next_or (some write_size) u.write_answers)) [
            | inl failed ↦ rw (missing, failed) (inr (0, refl, sym (append-nil u.sent)))
            | inr (n, answered) ↦
                let actual = min n write_size in
                let u' : Usb = record u {
                  write_answers = later u.write_answers;
                  sent = u.sent ++ take actual (drop offset bs);
                } in
                let shorter =
                  progress u.write_answers write_size n (length bs - offset) (ground arith)
                    (ground arith) answered in
                let fits : offset + actual ≤ length bs = ground arith in
                let rest =
                  write_loop-Sends fuel bs (offset + actual) c u' positive fits (ground arith) in
                rw (missing, answered)
                  (Sends-some (length bs) actual (drop offset bs) c u u'
                    (write_loop fuel bs (offset + actual) (c, u')) refl
                    (subst
                      (λ xs.
                        Sends (length bs) xs (c, u') (write_loop fuel bs (offset + actual) (c, u')))
                      (sym (drop-drop offset actual bs)) rest))
          ]
    ]

-- ftdi_write_data on an open chip whose chunks are not empty ends. It returns the size and has sent all of
-- the bytes, in order, or it returns -1 and has sent some first bytes.
pub write_data-Sends :
    (bs : List ℕ) (c : Context) (u : Usb)
    → c.is_open ≡ true
    → 0 < c.writebuffer_chunksize
    → Sends (length bs) bs (c, u) (write_data bs (c, u))
unfolding write_data
write_data-Sends bs c u is_open positive =
    let opened : not c.is_open ≡ false = ap not is_open in
    rw opened (
      write_loop-Sends (suc (length u.write_answers + length bs)) bs 0 c u positive (omega arith)
        (omega arith))
