-- ===== src/Programmer/Polls.antt =====
-- The two loops of array_program that poll the device (src/devices/xc3sprog/progalgxc3s.cpp): how many rounds
-- they make, by what the device answers.
use fpga_device_server.Common.{
  ℕ, zero, suc, ◌+◌, ◌<◌, ◌≤◌, ◌≡◌, refl, sym, ap, ◌∙◌, ◌⊎◌, inl, inr, true, false, Option, none,
  some, List, replicate, get_or, Bool-cases, arith,
}
use fpga_device_server.Tap.{TapState}
use fpga_device_server.IoBase.{next_reply, later_replies}
use fpga_device_server.Jtag.{ChainParam, Jtag, shift_ir_data, usleep_jtag}
use fpga_device_server.Jtag.Idle.{IsIdle, shift_ir_data-IsIdle, usleep_jtag-IsIdle}
use fpga_device_server.Jtag.Replies.{shift_ir_data-Reads, usleep_jtag-replies}
use fpga_device_server.Programmer.{cfg_in, bypass, is_cleared, is_up, clear_loop, up_loop}
use fpga_device_server.Programmer.Script.{run, clear_poll, up_polls}

-- The status after some polls: the first byte of an answer, or the last status where an answer is empty.
pub status_after : ℕ → List (List ℕ) → ℕ → ℕ
status_after status replies zero = status
status_after status replies (suc k) =
    status_after (get_or (next_reply replies) 0 status) (later_replies replies) k

-- The device has not cleared its configuration in any of the polls.
pub record StillWaits (fuel status : ℕ) (j : Jtag) (r : Option ℕ × Jtag) : Type 0 where
  pub result : r ≡ (none, run (replicate fuel clear_poll) j)
  pub never : (k : ℕ) → k < fuel → is_cleared (status_after status j.io.replies (suc k)) ≡ false

-- It has, in poll `n` for the first time, counted from none.
pub record ClearedAt (n fuel status : ℕ) (j : Jtag) (r : Option ℕ × Jtag) : Type 0 where
  pub in_time : n < fuel
  pub result :
      r ≡ (some (status_after status j.io.replies (suc n)), run (replicate (suc n) clear_poll) j)
  pub not_before : (k : ℕ) → k < n → is_cleared (status_after status j.io.replies (suc k)) ≡ false
  pub cleared : is_cleared (status_after status j.io.replies (suc n)) ≡ true

-- The device was up after `m` polls for the first time, or it was not before the last of them.
pub record UpAfter (m left i status : ℕ) (j : Jtag) (r : ℕ × Jtag) : Type 0 where
  pub in_time : m ≤ left
  pub result : r ≡ (i + m, run (up_polls m) j)
  pub not_before : (k : ℕ) → k < m → is_up (status_after status j.io.replies k) ≡ false
  pub up : (m ≡ left) ⊎ (is_up (status_after status j.io.replies m) ≡ true)

below_suc :
    (P : ℕ → Type 0) (n : ℕ) → P 0 → ((k : ℕ) → k < n → P (suc k)) → (k : ℕ) → k < suc n → P k
below_suc P n first later zero h = first
below_suc P n first later (suc k) h = later k (omega arith)

module _ {t0 : TapState} {index : ℕ} {d : ChainParam} where
  -- A poll reads the next reply.
  polled :
      (j : Jtag) (code : List ℕ)
      → IsIdle t0 index d j
      → let (j', tdo) = shift_ir_data j code true in
        IsIdle t0 index d j'
        × (tdo ≡ next_reply j.io.replies)
        × (j'.io.replies ≡ later_replies j.io.replies)
  polled j code s =
      let p = s.prepared in
      let reads = shift_ir_data-Reads j index d code true p.selected p.there p.irlen in
      (shift_ir_data-IsIdle j code true p, reads.1 refl, reads.0)

  pub clear_loop-Polls :
      (fuel status : ℕ) (j : Jtag)
      → IsIdle t0 index d j
      → StillWaits fuel status j (clear_loop fuel status j)
        ⊎ ((n : ℕ) × ClearedAt n fuel status j (clear_loop fuel status j))
  unfolding clear_loop run status_after
  clear_loop-Polls zero status j s = inl (record { result = refl; never = λ k h. elim h [ ] })
  clear_loop-Polls (suc fuel) status j s =
      let j' = (shift_ir_data j cfg_in true).0 in
      let replies = j.io.replies in
      let (s', tdo, later) = polled j cfg_in s in
      let status' = get_or (next_reply replies) 0 status in
      let shift_status : (k : ℕ)
          → status_after status' j'.io.replies k ≡ status_after status' (later_replies replies) k =
        λ k. ap (λ r. status_after status' r k) later in
      elim (Bool-cases (is_cleared status')) [
        | inl done ↦ inr (
          0,
          record {
            in_time = omega arith;
            result = rw (tdo, done) refl;
            not_before = λ k h. elim h [ ];
            cleared = done;
          },
        )
        | inr more ↦ elim (clear_loop-Polls fuel status' j' s') [
          | inl w ↦ inl (record {
            result = rw (tdo, more) w.result;
            never =
                below_suc (λ k. is_cleared (status_after status replies (suc k)) ≡ false) fuel more
                  (λ k h. ap is_cleared (sym (shift_status (suc k))) ∙ w.never k h);
          })
          | inr (n, c) ↦ inr (
            suc n,
            record {
              in_time = omega (arith, c.in_time);
              result =
                  rw (tdo, more)
                    (c.result
                      ∙ ap (λ x. (some x, run (replicate (suc n) clear_poll) j'))
                          (shift_status (suc n)));
              not_before =
                  below_suc (λ k. is_cleared (status_after status replies (suc k)) ≡ false) n more
                    (λ k h. ap is_cleared (sym (shift_status (suc k))) ∙ c.not_before k h);
              cleared = ap is_cleared (sym (shift_status (suc n))) ∙ c.cleared;
            },
          )
        ]
      ]

  pub up_loop-Polls :
      (left i status : ℕ) (j : Jtag)
      → IsIdle t0 index d j
      → (m : ℕ) × UpAfter m left i status j (up_loop left i status j)
  unfolding up_loop run up_polls status_after
  up_loop-Polls zero i status j s = (
    0,
    record {
      in_time = omega arith;
      result = ap (λ k. (k, j)) (omega arith);
      not_before = λ k h. elim h [ ];
      up = inl refl;
    },
  )
  up_loop-Polls (suc left) i status j s =
      let j' = (shift_ir_data j bypass true).0 in
      let j'' = usleep_jtag j' 1000 in
      let replies = j.io.replies in
      let (s', tdo, later) = polled j bypass s in
      let s'' = usleep_jtag-IsIdle j' 1000 s' in
      let status' = get_or (next_reply replies) 0 status in
      let shift_status : (k : ℕ)
          → status_after status' j''.io.replies k ≡ status_after status' (later_replies replies) k =
        λ k. ap (λ r. status_after status' r k) (usleep_jtag-replies j' 1000 ∙ later) in
      elim (Bool-cases (is_up status)) [
        | inl done ↦ (
          0,
          record {
            in_time = omega arith;
            result = rw done (ap (λ k. (k, j)) (omega arith));
            not_before = λ k h. elim h [ ];
            up = inr done;
          },
        )
        | inr more ↦
            let (m, u) = up_loop-Polls left (i + 1) status' j'' s'' in
            (
              suc m,
              record {
                in_time = omega (arith, u.in_time);
                result =
                    rw (more, tdo) (u.result ∙ ap (λ k. (k, run (up_polls m) j'')) (omega arith));
                not_before =
                    below_suc (λ k. is_up (status_after status replies k) ≡ false) m more
                      (λ k h. ap is_up (sym (shift_status k)) ∙ u.not_before k h);
                up = elim u.up [
                  | inl last ↦ inl (ap suc last)
                  | inr up ↦ inr (ap is_up (sym (shift_status m)) ∙ up)
                ];
              },
            )
      ]
