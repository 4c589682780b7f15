-- ===== src/UsbService/Stop.antt =====
-- Stopping the libusb service (libusb_service::stop, src/libusb_asio/libusb_service.cpp).
use fpga_device_server.Common.{
  ℕ, ◌≡◌, refl, sym, ap, ◌∙◌, ◌⊎◌, inl, inr, none, some, List, [], ◌∷◌, ◌==◌, Bool-cases,
  Option-cases, some_same, arith,
}
use fpga_device_server.Common.Maps.{find, nat_eq_sound, nat_eq_refl}
use fpga_device_server.UsbService.{Kind, Service, find_fd, stop_at, stop_all, stop}
use fpga_device_server.UsbService.Invariant.{IsService, none-some}

-- What stopping watchers leaves alone.
record Stopped (s t : Service) : Type 0 where
  pub next : t.next ≡ s.next
  pub waits : (p : ℕ) → (t.watchers p).waits ≡ (s.watchers p).waits
  pub handle :
      (p : ℕ) → ((t.watchers p).handle ≡ none) ⊎ ((t.watchers p).handle ≡ (s.watchers p).handle)

stop_at-Stopped : (p : ℕ) (s : Service) → Stopped s (stop_at p s)
unfolding stop_at
stop_at-Stopped p s = record {
  next = refl;
  waits = λ q. elim (Bool-cases (q == p)) [
    | inl same ↦ rw same (ap (λ x. (s.watchers x).waits) (sym (nat_eq_sound q p same)))
    | inr other ↦ rw other refl
  ];
  handle = λ q. elim (Bool-cases (q == p)) [
    | inl same ↦ inl (rw same refl)
    | inr other ↦ inr (rw other refl)
  ];
}

stop_at-closed : (p : ℕ) (s : Service) → ((stop_at p s).watchers p).handle ≡ none
unfolding stop_at
stop_at-closed p s = rw (nat_eq_refl p) refl

stop_all-Stopped : (entries : List (ℕ × ℕ)) (s : Service) → Stopped s (stop_all entries s)
unfolding stop_all
stop_all-Stopped [] s = record { next = refl; waits = λ p. refl; handle = λ p. inr refl }
stop_all-Stopped ((fd, p) ∷ entries) s =
    let a = stop_at-Stopped p s in
    let b = stop_all-Stopped entries (stop_at p s) in
    record {
      next = b.next ∙ a.next;
      waits = λ q. b.waits q ∙ a.waits q;
      handle = λ q. elim (b.handle q) [
        | inl closed ↦ inl closed
        | inr same ↦ elim (a.handle q) [
          | inl closed ↦ inl (same ∙ closed)
          | inr same' ↦ inr (same ∙ same')
        ]
      ];
    }

stop_all-closed :
    (entries : List (ℕ × ℕ)) (s : Service) (fd p : ℕ)
    → find (◌==◌) fd entries ≡ some p
    → ((stop_all entries s).watchers p).handle ≡ none
unfolding stop_all
stop_all-closed [] s fd p e = absurd (cc)
stop_all-closed ((fd', q) ∷ entries) s fd p e = elim (Bool-cases (fd == fd')) [
  | inl same ↦
      let q_is : q ≡ p = some_same (rw same at e) in
      elim ((stop_all-Stopped entries (stop_at q s)).handle p) [
        | inl closed ↦ closed
        | inr kept ↦
            kept ∙ ap (λ x. ((stop_at q s).watchers x).handle) (sym q_is) ∙ stop_at-closed q s
      ]
  | inr other ↦ stop_all-closed entries (stop_at q s) fd p (rw other at e)
]

-- Stopping the service releases every descriptor that a watcher holds, and empties the map: none is
-- watched any more, and so no handler that is still to run renews its wait.
pub stop-Releases :
    (owed : ℕ → Kind → ℕ) (s : Service)
    → IsService owed s
    → ((p : ℕ) → ((stop s).watchers p).handle ≡ none) × ((fd : ℕ) → find_fd fd (stop s) ≡ none)
unfolding stop
stop-Releases owed s i = (
  λ p. elim (Option-cases (s.watchers p).handle) [
    | inl closed ↦ elim ((stop_all-Stopped s.fd_watchers s).handle p) [
      | inl now ↦ now
      | inr kept ↦ kept ∙ closed
    ]
    | inr (fd, holds) ↦ stop_all-closed s.fd_watchers s fd p (i.entered p fd holds)
  ],
  λ fd. refl,
)

pub stop-IsService :
    (owed : ℕ → Kind → ℕ) (s : Service) → IsService owed s → IsService owed (stop s)
stop-IsService owed s i =
    let r = stop-Releases owed s i in
    let (same_next, same_waits) = kept s in
    record {
      registered = λ fd p e. absurd (none-some (r.1 fd) e);
      entered = λ p fd h. absurd (none-some (r.0 p) h);
      armed = λ p fd k h. absurd (none-some (r.0 p) h);
      unused = λ p k h.
          let before = i.unused p k (omega (arith, same_next)) in
          (ap (λ w. w k) (same_waits p) ∙ before.0, before.1);
    }
  where
    kept :
        (s : Service)
        → ((stop s).next ≡ s.next) × ((p : ℕ) → ((stop s).watchers p).waits ≡ (s.watchers p).waits)
    kept s = let a = stop_all-Stopped s.fd_watchers s in unfold stop in (a.next, a.waits)
