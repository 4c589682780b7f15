-- ===== src/Programmer/Configures.antt =====
-- array_program (src/devices/xc3sprog/progalgxc3s.cpp): what it does on each way out.
use fpga_device_server.Common.{
  ℕ, suc, ◌<◌, ◌≤◌, ◌≡◌, refl, sym, ap, ◌∙◌, subst, ◌⊎◌, inl, inr, true, false, List, [], ◌∷◌, ◌++◌,
  replicate, ◌==◌, if◌then◌else◌, Bool-cases, arith,
}
use fpga_device_server.Common.Effect.{Result, ok, err}
use fpga_device_server.Tap.{TapState}
use fpga_device_server.BitFile.{BitFile}
use fpga_device_server.Jtag.{ChainParam, Jtag}
use fpga_device_server.Jtag.Idle.{IsPrepared, IsIdle}
use fpga_device_server.Programmer.{
  ProgAlg, ProgError, configuring, not_cleared, family_xc2s, family_xc2se, is_one_of, isc_enable,
  get_length, has_dna, read_dna, flow_enable, flow_disable, flow_program_legacy, is_cleared, is_up,
  clear_loop, up_loop, load, array_program, send_ir, jprogram,
}
use fpga_device_server.Programmer.Script.{
  run, run-append, clear_ops, dna_ops, load_ops, clear_poll, up_polls, before_up, script,
  AreOps-append, AreOps-polls, AreOps-up_polls, AreOps-before_up, replies_after, started,
  started-replies,
}
use fpga_device_server.Programmer.Polls.{status_after, UpAfter, clear_loop-Polls, up_loop-Polls}

abbrev pub Outcome : Type 0
Outcome = Result ProgError (Unit {0}) × Jtag

module _ (fuel : ℕ) (alg : ProgAlg) (file : BitFile) (j : Jtag) where
  -- The status in poll `k` of those that wait for the configuration to be cleared, counted from none.
  abbrev pub clear_status : ℕ → ℕ
  clear_status k = status_after 0 j.io.replies (suc k)

  -- The status after `k` of the polls that wait for the device to be up.
  abbrev pub up_status : ℕ → ℕ → ℕ
  up_status n k =
      status_after (clear_status n) (replies_after (before_up alg file (suc n)) j.io.replies) k

  -- The device never says that its configuration is cleared.
  pub record NotCleared (r : Outcome) : Type 0 where
    pub result : r ≡ (err not_cleared, run (clear_ops alg ++ replicate fuel clear_poll) j)
    pub never : (k : ℕ) → k < fuel → is_cleared (clear_status k) ≡ false

  -- It does in poll `n`, and it is up after `m` polls, if that is less than fifty.
  pub record Loaded (n m : ℕ) (r : Outcome) : Type 0 where
    pub in_time : n < fuel
    pub not_cleared_before : (k : ℕ) → k < n → is_cleared (clear_status k) ≡ false
    pub cleared : is_cleared (clear_status n) ≡ true
    pub few : m ≤ 50
    pub not_up_before : (k : ℕ) → k < m → is_up (up_status n k) ≡ false
    pub up : (m ≡ 50) ⊎ (is_up (up_status n m) ≡ true)
    pub result : r ≡ (if m == 50 then err configuring else ok tt, run (script alg file (suc n) m) j)

  abbrev pub Configures : Outcome → Type 0
  Configures r = NotCleared r ⊎ ((n : ℕ) × (m : ℕ) × Loaded n m r)

read_dna_lem : (alg : ProgAlg) (j : Jtag) → read_dna alg j ≡ run (dna_ops alg) j
unfolding read_dna run
read_dna_lem alg j = elim (Bool-cases (has_dna alg)) [
  | inl has ↦ rw has refl
  | inr lacks ↦ rw lacks refl
]

-- What comes between the two loops, after `n` polls of the first.
before_up_lem :
    (alg : ProgAlg) (file : BitFile) (n : ℕ) (j : Jtag)
    → flow_disable alg (
        flow_program_legacy alg file
          (read_dna alg (run (replicate n clear_poll) (run (clear_ops alg) j))))
      ≡ run (before_up alg file n) j
before_up_lem alg file n j =
    let polled = run (replicate n clear_poll) (run (clear_ops alg) j) in
    let flows : (k : Jtag)
        → flow_disable alg (flow_program_legacy alg file k) ≡ run (load_ops alg file) k =
      λ k. unfold flow_disable flow_program_legacy run in refl in
    ap (λ k. flow_disable alg (flow_program_legacy alg file k)) (read_dna_lem alg polled)
    ∙ flows (run (dna_ops alg) polled)
    ∙ sym (run-append (dna_ops alg) (load_ops alg file) polled)
    ∙ sym (
        run-append (replicate n clear_poll) (dna_ops alg ++ load_ops alg file)
          (run (clear_ops alg) j))
    ∙ sym (
        run-append (clear_ops alg) (replicate n clear_poll ++ (dna_ops alg ++ load_ops alg file)) j)

module _ {t0 : TapState} {index : ℕ} {d : ChainParam} where
  -- The last loop, from the state that the script has led to.
  load-Polls :
      (alg : ProgAlg) (file : BitFile) (status : ℕ) (j j' : Jtag)
      → flow_disable alg (flow_program_legacy alg file (read_dna alg j)) ≡ j'
      → IsIdle t0 index d j'
      → (m : ℕ) × UpAfter m 50 0 status j' (up_loop 50 0 status j')
        × (load alg file status j
            ≡ (if m == 50 then err configuring else ok tt, run (up_polls m) j'))
  unfolding load
  load-Polls alg file status j j' e s =
      let (m, u) = up_loop-Polls 50 0 status j' s in
      let rounds : up_loop 50 0 status j' ≡ (m, run (up_polls m) j') =
        u.result ∙ ap (λ k. (k, run (up_polls m) j')) (omega arith) in
      (m, u, rw (e, rounds) refl)

  -- array_program for every family but the XC2S and XC2SE, on a prepared chain and a file that is not
  -- empty, with fuel for the first loop, whose rounds the code does not limit. Either it still waits
  -- for the device to clear its configuration, which no poll has shown; or poll `n` was the first to
  -- show it, and then just the script with `n + 1` polls was run on the chain and `m` polls more, where
  -- `m` is the first number of polls after which the device is up, fifty at most, and the call
  -- succeeds just if `m` is not fifty.
  pub array_program-Configures :
      (fuel : ℕ) (junk : List ℕ) (alg : ProgAlg) (file : BitFile) (j : Jtag)
      → IsPrepared t0 index d j
      → 0 < get_length file
      → is_one_of alg.family (family_xc2s ∷ family_xc2se ∷ []) ≡ false
      → Configures fuel alg file j (array_program fuel junk alg file j)
  unfolding array_program
  array_program-Configures fuel junk alg file j p h family =
      let j' = run (clear_ops alg) j in
      let s : IsIdle t0 index d j' = started isc_enable _ j (omega arith) p in
      let unread : j'.io.replies ≡ j.io.replies = started-replies isc_enable _ j (omega arith) p in
      let same : (k : ℕ) → status_after 0 j'.io.replies k ≡ status_after 0 j.io.replies k =
        λ k. ap (λ r. status_after 0 r k) unread in
      let first : send_ir jprogram (flow_enable alg j) ≡ j' = unfold flow_enable run in refl in
      elim (clear_loop-Polls fuel 0 j' s) [
        | inl w ↦ inl (record {
          result =
              rw (family, ap (clear_loop fuel 0) first ∙ w.result)
                (ap (λ k. (err not_cleared, k))
                  (sym (run-append (clear_ops alg) (replicate fuel clear_poll) j)));
          never = λ k below. ap is_cleared (sym (same (suc k))) ∙ w.never k below;
        })
        | inr (n, c) ↦
            let all = before_up alg file (suc n) in
            let ops = AreOps-before_up alg file (suc n) h in
            let status = clear_status fuel alg file j n in
            let (m, u, l) =
              load-Polls alg file status (run (replicate (suc n) clear_poll) j') (run all j)
                (before_up_lem alg file (suc n) j) (started isc_enable _ j ops.1 p) in
            let unread' : (run all j).io.replies ≡ replies_after all j.io.replies =
              started-replies isc_enable _ j ops.1 p in
            let same' : (k : ℕ)
                → status_after status (run all j).io.replies k ≡ up_status fuel alg file j n k =
              λ k. ap (λ r. status_after status r k) unread' in
            inr (
              n,
              m,
              record {
                in_time = c.in_time;
                not_cleared_before =
                    λ k below. ap is_cleared (sym (same (suc k))) ∙ c.not_before k below;
                cleared = ap is_cleared (sym (same (suc n))) ∙ c.cleared;
                few = u.in_time;
                not_up_before = λ k below. ap is_up (sym (same' k)) ∙ u.not_before k below;
                up = elim u.up [ inl all ↦ inl all | inr up ↦ inr (ap is_up (sym (same' m)) ∙ up) ];
                result =
                    rw (family, ap (clear_loop fuel 0) first ∙ c.result, same (suc n))
                      (l
                        ∙ ap (λ k. (if m == 50 then err configuring else ok tt, k))
                            (sym (run-append all (up_polls m) j)));
              },
            )
      ]

  -- However array_program ends for those families, the controllers are where the program believes them
  -- to be, in Run-Test/Idle, and the device is still selected: another shift can follow.
  pub array_program-IsIdle :
      (fuel : ℕ) (junk : List ℕ) (alg : ProgAlg) (file : BitFile) (j : Jtag)
      → IsPrepared t0 index d j
      → 0 < get_length file
      → is_one_of alg.family (family_xc2s ∷ family_xc2se ∷ []) ≡ false
      → IsIdle t0 index d (array_program fuel junk alg file j).1
  array_program-IsIdle fuel junk alg file j p h family =
      elim (array_program-Configures fuel junk alg file j p h family) [
        | inl waits ↦
            subst (λ r. IsIdle t0 index d r.1) (sym waits.result)
              (started isc_enable _ j
                (AreOps-append (clear_ops alg) (replicate fuel clear_poll) (omega arith)
                  (AreOps-polls fuel)).1
                p)
        | inr (n, m, done) ↦
            subst (λ r. IsIdle t0 index d r.1) (sym done.result)
              (started isc_enable _ j
                (AreOps-append (before_up alg file (suc n)) (up_polls m)
                  (AreOps-before_up alg file (suc n) h) (AreOps-up_polls m)).1
                p)
      ]
