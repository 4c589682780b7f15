-- ===== src/UsbService/Invariant.antt =====
-- The map and the watchers of the libusb service stay in step (src/libusb_asio/libusb_service.cpp).
use fpga_device_server.Common.{
  ℕ, ◌+◌, ◌<◌, ◌≤◌, ◌≡◌, refl, sym, ap, ◌∙◌, subst, inl, inr, true, false, Option, none, some, ◌==◌,
  if◌then◌else◌, Bool-cases, arith,
}
use fpga_device_server.Common.Maps.{nat_eq_sound, nat_eq_refl}
use fpga_device_server.UsbService.{
  Kind, input, output, same_kind, Watcher, Service, put, find_fd, do_wait, take_wait, count_failed,
}

pub none-some : {A : Type 0} {o : Option A} {a : A} → o ≡ none → o ≡ some a → ⊥
none-some e f = cc

-- `owed` are the waits that a handler has taken and has still to renew.
pub record IsService (owed : ℕ → Kind → ℕ) (s : Service) : Type 0 where
  -- A descriptor in the map is held by its watcher.
  pub registered :
      (fd p : ℕ) → find_fd fd s ≡ some p → ((s.watchers p).handle ≡ some fd) × (p < s.next)
  -- A watcher that holds a descriptor stands in the map under it.
  pub entered : (p fd : ℕ) → (s.watchers p).handle ≡ some fd → find_fd fd s ≡ some p
  -- It has just one wait for each event that it was started for, unless that wait has failed.
  pub armed :
      (p fd : ℕ) (k : Kind)
      → (s.watchers p).handle ≡ some fd
      → (s.watchers p).waits k + (s.watchers p).failed k + owed p k
        ≡ (if (s.watchers p).events k then 1 else 0)
  pub unused : (p : ℕ) (k : Kind) → s.next ≤ p → ((s.watchers p).waits k ≡ 0) × (owed p k ≡ 0)

abbrev pub nothing : ℕ → Kind → ℕ
nothing p k = 0

abbrev pub one_at : Kind → ℕ → ℕ → Kind → ℕ
one_at k p q k' = if q == p then (if same_kind k' k then 1 else 0) else 0

-- A watcher that keeps its descriptor and its events, and the sum of what it waits for.
put-IsService :
    (owed owed' : ℕ → Kind → ℕ) (p : ℕ) (w : Watcher) (s : Service)
    → w.handle ≡ (s.watchers p).handle
    → w.events ≡ (s.watchers p).events
    → ((k : Kind)
        → w.waits k + w.failed k + owed' p k
          ≡ (s.watchers p).waits k + (s.watchers p).failed k + owed p k)
    → ((q : ℕ) (k : Kind) → (q == p) ≡ false → owed' q k ≡ owed q k)
    → p < s.next
    → IsService owed s
    → IsService owed' (put p w s)
put-IsService owed owed' p w s handle events sums others used i = record {
  registered = λ fd q e. elim (Bool-cases (q == p)) [
    | inl same ↦ rw same (
      handle ∙ (i.registered fd p (e ∙ ap some (nat_eq_sound q p same))).0,
      (i.registered fd q e).1,
    )
    | inr other ↦ rw other (i.registered fd q e)
  ];
  entered = λ q fd h. elim (Bool-cases (q == p)) [
    | inl same ↦ i.entered p fd (sym handle ∙ rw same at h) ∙ ap some (sym (nat_eq_sound q p same))
    | inr other ↦ i.entered q fd (rw other at h)
  ];
  armed = λ q fd k h. elim (Bool-cases (q == p)) [
    | inl same ↦
        let at_p : w.waits k + w.failed k + owed' p k ≡ (if w.events k then 1 else 0) =
          sums k
          ∙ i.armed p fd k (sym handle ∙ rw same at h)
          ∙ ap (λ es. if es k then 1 else 0) (sym events) in
        rw same (ap (λ x. w.waits k + w.failed k + owed' x k) (nat_eq_sound q p same) ∙ at_p)
    | inr other ↦ rw other (
        ap (λ n. (s.watchers q).waits k + (s.watchers q).failed k + n) (others q k other)
        ∙ i.armed q fd k (rw other at h))
  ];
  unused = λ q k h. elim (Bool-cases (q == p)) [
    | inl same ↦ absurd (ground (arith, nat_eq_sound q p same))
    | inr other ↦ rw other ((i.unused q k h).0, others q k other ∙ (i.unused q k h).1)
  ];
}

-- A new wait pays one that is owed.
pub do_wait-IsService :
    (owed owed' : ℕ → Kind → ℕ) (k : Kind) (p : ℕ) (s : Service)
    → ((q : ℕ) (k' : Kind) → owed q k' ≡ owed' q k' + one_at k p q k')
    → p < s.next
    → IsService owed s
    → IsService owed' (do_wait k p s)
unfolding do_wait
do_wait-IsService owed owed' k p s pays used i =
    put-IsService owed owed' p _ s refl refl
      (λ k'. elim (Bool-cases (same_kind k' k)) [
        | inl same ↦ ground (arith, pays p k', nat_eq_refl p)
        | inr other ↦ ground (arith, pays p k', nat_eq_refl p)
      ])
      (λ q k' other. ground (arith, pays q k')) used i

same_kind_sound : (k k' : Kind) → same_kind k k' ≡ true → k ≡ k'
same_kind_sound input input e = refl
same_kind_sound input output e = absurd (cc)
same_kind_sound output input e = absurd (cc)
same_kind_sound output output e = refl

-- A handler that runs owes a wait.
pub take_wait-IsService :
    (owed owed' : ℕ → Kind → ℕ) (k : Kind) (p : ℕ) (s : Service)
    → ((q : ℕ) (k' : Kind) → owed' q k' ≡ owed q k' + one_at k p q k')
    → 0 < (s.watchers p).waits k
    → p < s.next
    → IsService owed s
    → IsService owed' (take_wait k p s)
take_wait-IsService owed owed' k p s owes some_wait used i =
    put-IsService owed owed' p _ s refl refl
      (λ k'. elim (Bool-cases (same_kind k' k)) [
        | inl same ↦
            let here =
              subst (λ x. 0 < (s.watchers p).waits x) (sym (same_kind_sound k' k same)) some_wait in
            ground (arith, owes p k', nat_eq_refl p)
        | inr other ↦ ground (arith, owes p k', nat_eq_refl p)
      ])
      (λ q k' other. ground (arith, owes q k')) used i

-- A wait that has failed is owed no more.
pub count_failed-IsService :
    (owed owed' : ℕ → Kind → ℕ) (k : Kind) (p : ℕ) (s : Service)
    → ((q : ℕ) (k' : Kind) → owed q k' ≡ owed' q k' + one_at k p q k')
    → p < s.next
    → IsService owed s
    → IsService owed' (count_failed k p s)
count_failed-IsService owed owed' k p s pays used i =
    put-IsService owed owed' p _ s refl refl
      (λ k'. elim (Bool-cases (same_kind k' k)) [
        | inl same ↦ ground (arith, pays p k', nat_eq_refl p)
        | inr other ↦ ground (arith, pays p k', nat_eq_refl p)
      ])
      (λ q k' other. ground (arith, pays q k')) used i

-- The debt of a watcher that holds no descriptor is none.
pub forgive :
    (owed owed' : ℕ → Kind → ℕ) (p : ℕ) (s : Service)
    → (s.watchers p).handle ≡ none
    → ((q : ℕ) (k : Kind) → (q == p) ≡ false → owed q k ≡ owed' q k)
    → ((q : ℕ) (k : Kind) → owed' q k ≤ owed q k)
    → IsService owed s
    → IsService owed' s
forgive owed owed' p s closed others less i = record {
  registered = i.registered;
  entered = i.entered;
  armed = λ q fd k h. elim (Bool-cases (q == p)) [
    | inl same ↦
        absurd (none-some (ap (λ x. (s.watchers x).handle) (nat_eq_sound q p same) ∙ closed) h)
    | inr other ↦
        ap (λ n. (s.watchers q).waits k + (s.watchers q).failed k + n) (sym (others q k other))
        ∙ i.armed q fd k h
  ];
  unused = λ q k h. ((i.unused q k h).0, omega (arith, less q k, (i.unused q k h).1));
}
