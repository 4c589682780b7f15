-- ===== src/UsbService/Entries.antt =====
-- Descriptors that libusb opens and closes: startWatcher and stopWatcher (src/libusb_asio/libusb_service.cpp).
use fpga_device_server.Common.{
  ℕ, ◌+◌, ◌<◌, ◌≡◌, refl, sym, ap, ◌∙◌, subst, inl, inr, Bool, true, false, none, some, List, [],
  ◌∷◌, ◌==◌, ltb, if◌then◌else◌, Bool-cases, Option-cases, some_same, arith,
}
use fpga_device_server.Common.Maps.{
  find, insert, erase, find-insert, find-erase, nat_eq_sound, nat_eq_refl,
}
use fpga_device_server.UsbService.{
  Kind, input, output, Service, put, find_fd, is_watching, do_wait, stop_at, new_watcher, start_at,
  start_watcher, stop_watcher, Note, added, removed, notify, handle_events, watch_all,
}
use fpga_device_server.UsbService.Invariant.{IsService, one_at, do_wait-IsService, none-some}

module _ (owed : ℕ → Kind → ℕ) (s : Service) where
  -- libusb closes a descriptor.
  pub stop_watcher-IsService : (fd : ℕ) → IsService owed s → IsService owed (stop_watcher fd s)
  unfolding stop_watcher stop_at
  stop_watcher-IsService fd i = elim (Option-cases (find_fd fd s)) [
    | inl absent ↦ rw (absent, stop_watcher) i
    | inr (p, there) ↦
        rw (there, stop_watcher)
          (record {
            registered = λ fd' q e.
                let (elsewhere, before) = left fd fd' q e in
                let apart : (q == p) ≡ false =
                  other_watcher fd fd' q p elsewhere (i.registered fd p there).0
                    (i.registered fd' q before).0 in
                rw apart (i.registered fd' q before);
            entered = λ q fd' h. elim (Bool-cases (q == p)) [
              | inl same ↦ absurd (ground (arith, rw same at h))
              | inr apart ↦
                  let h' = rw apart at h in
                  let before = i.entered q fd' h' in
                  find-erase (◌==◌) nat_eq_sound fd fd' s.fd_watchers
                  ∙ rw (other_fd fd fd' q p apart there before) before
            ];
            armed = λ q fd' k h. elim (Bool-cases (q == p)) [
              | inl same ↦ absurd (ground (arith, rw same at h))
              | inr apart ↦ rw apart (i.armed q fd' k (rw apart at h))
            ];
            unused = λ q k h. elim (Bool-cases (q == p)) [
              | inl same ↦ absurd (ground (arith, nat_eq_sound q p same, i.registered fd p there))
              | inr apart ↦ rw apart (i.unused q k h)
            ];
          })
  ]
    where
      left :
          (fd fd' q : ℕ)
          → find (◌==◌) fd' (erase (◌==◌) fd s.fd_watchers) ≡ some q
          → ((fd' == fd) ≡ false) × (find_fd fd' s ≡ some q)
      left fd fd' q e = elim (Bool-cases (fd' == fd)) [
        | inl same ↦
            absurd
              (ground (arith, rw (find-erase (◌==◌) nat_eq_sound fd fd' s.fd_watchers, same) at e))
        | inr other ↦ (other, rw (find-erase (◌==◌) nat_eq_sound fd fd' s.fd_watchers, other) at e)
      ]

      other_watcher :
          (fd fd' q p : ℕ)
          → (fd' == fd) ≡ false
          → (s.watchers p).handle ≡ some fd
          → (s.watchers q).handle ≡ some fd'
          → (q == p) ≡ false
      other_watcher fd fd' q p apart hp hq = elim (Bool-cases (q == p)) [
        | inl same ↦
            let e : fd' ≡ fd =
              some_same (sym hq ∙ ap (λ x. (s.watchers x).handle) (nat_eq_sound q p same) ∙ hp) in
            absurd (ground (arith, e))
        | inr other ↦ other
      ]

      other_fd :
          (fd fd' q p : ℕ)
          → (q == p) ≡ false
          → find_fd fd s ≡ some p
          → find_fd fd' s ≡ some q
          → (fd' == fd) ≡ false
      other_fd fd fd' q p apart hp hq = elim (Bool-cases (fd' == fd)) [
        | inl same ↦
            let e : q ≡ p =
              some_same (sym hq ∙ ap (λ x. find_fd x s) (nat_eq_sound fd' fd same) ∙ hp) in
            absurd (ground (arith, e))
        | inr other ↦ other
      ]

-- A new watcher owes a wait for each of its events.
abbrev new_owed : (ℕ → Kind → ℕ) → ℕ → (Kind → Bool) → ℕ → Kind → ℕ
new_owed owed p events q k = owed q k + (if q == p then (if events k then 1 else 0) else 0)

abbrev entered_fd : ℕ → (Kind → Bool) → Service → Service
entered_fd fd events s = record (put s.next (new_watcher fd events) s) {
  fd_watchers = insert (◌==◌) ltb fd s.next s.fd_watchers;
  next = s.next + 1;
}

module _ (owed : ℕ → Kind → ℕ) (s : Service) where
  entered_fd-IsService :
      (fd : ℕ) (events : Kind → Bool)
      → find_fd fd s ≡ none
      → IsService owed s
      → IsService (new_owed owed s.next events) (entered_fd fd events s)
  entered_fd-IsService fd events absent i =
      let in_map =
        λ (fd' : ℕ). find-insert (◌==◌) ltb nat_eq_sound fd fd' s.next s.fd_watchers absent in
      record {
        registered = λ fd' q e. elim (Bool-cases (fd' == fd)) [
          | inl same ↦
              let now : find_fd fd' (entered_fd fd events s) ≡ some s.next =
                in_map fd' ∙ rw same refl in
              let q_is : s.next ≡ q = some_same (sym now ∙ e) in
              let here : (q == s.next) ≡ true =
                ap (λ x. x == s.next) (sym q_is) ∙ nat_eq_refl s.next in
              rw here (ap some (sym (nat_eq_sound fd' fd same)), omega (arith, q_is))
          | inr other ↦
              let still : find_fd fd' (entered_fd fd events s) ≡ find_fd fd' s =
                in_map fd' ∙ rw other refl in
              let before = i.registered fd' q (sym still ∙ e) in
              let apart : (q == s.next) ≡ false = ground (arith, before.1) in
              rw apart (before.0, omega (arith, before.1))
        ];
        entered = λ q fd' h. elim (Bool-cases (q == s.next)) [
          | inl same ↦
              let fd_is : fd ≡ fd' = some_same (rw same at h) in
              let here : (fd' == fd) ≡ true = ap (λ x. x == fd) (sym fd_is) ∙ nat_eq_refl fd in
              in_map fd' ∙ rw here (ap some (sym (nat_eq_sound q s.next same)))
          | inr apart ↦
              let before = i.entered q fd' (rw apart at h) in
              elim (Bool-cases (fd' == fd)) [
                | inl same ↦
                    absurd
                      (none-some (ap (λ x. find_fd x s) (nat_eq_sound fd' fd same) ∙ absent) before)
                | inr other ↦ in_map fd' ∙ rw other before
              ]
        ];
        armed = λ q fd' k h. elim (Bool-cases (q == s.next)) [
          | inl same ↦
              let none_yet = (i.unused q k (omega (arith, nat_eq_sound q s.next same))).1 in
              rw (same, none_yet) (omega arith)
          | inr apart ↦
              let before = i.armed q fd' k (rw apart at h) in rw apart (omega (arith, before))
        ];
        unused = λ q k h. elim (Bool-cases (q == s.next)) [
          | inl same ↦ absurd (omega (arith, nat_eq_sound q s.next same))
          | inr apart ↦
              let before = i.unused q k (omega arith) in
              rw apart (before.0, omega (arith, before.1))
        ];
      }

abbrev wait_if : Bool → Kind → ℕ → Service → Service
wait_if b k p s = if b then do_wait k p s else s

wait_if-IsService :
    (b : Bool) (owed owed' : ℕ → Kind → ℕ) (k : Kind) (p : ℕ) (s : Service)
    → ((q : ℕ) (k' : Kind) → owed q k' ≡ owed' q k' + (if b then one_at k p q k' else 0))
    → p < s.next
    → IsService owed s
    → IsService owed' (wait_if b k p s)
wait_if-IsService true owed owed' k p s pays used i = do_wait-IsService owed owed' k p s pays used i
wait_if-IsService false owed owed' k p s pays used i = record {
  registered = i.registered;
  entered = i.entered;
  armed = λ q fd k' h. omega (arith, pays q k', i.armed q fd k' h);
  unused = λ q k' h. ((i.unused q k' h).0, omega (arith, pays q k', (i.unused q k' h).1));
}

wait_if-next : (b : Bool) (k : Kind) (p : ℕ) (s : Service) → (wait_if b k p s).next ≡ s.next
unfolding do_wait
wait_if-next true k p s = refl
wait_if-next false k p s = refl

-- The waits are started one after the other.
start_at-IsService :
    (owed : ℕ → Kind → ℕ) (p : ℕ) (events : Kind → Bool) (s : Service)
    → p < s.next
    → IsService (new_owed owed p events) s
    → IsService owed (start_at p events s)
unfolding start_at
start_at-IsService owed p events s used i =
    let later : ℕ → Kind → ℕ =
      λ q k. owed q k + (if events output then one_at output p q k else 0) in
    let first =
      wait_if-IsService (events input) (new_owed owed p events) later input p s
        (split owed p events) used i in
    let used' = subst (λ n. p < n) (sym (wait_if-next (events input) input p s)) used in
    wait_if-IsService (events output) later owed output p (wait_if (events input) input p s)
      (λ q k. refl) used' first
  where
    split :
        (owed : ℕ → Kind → ℕ) (p : ℕ) (events : Kind → Bool) (q : ℕ) (k : Kind)
        → new_owed owed p events q k
          ≡ (owed q k + (if events output then one_at output p q k else 0))
            + (if events input then one_at input p q k else 0)
    split owed p events q input = ground arith
    split owed p events q output = ground arith

start_watcher-IsService :
    (owed : ℕ → Kind → ℕ) (s : Service) (fd : ℕ) (events : Kind → Bool)
    → IsService owed s
    → IsService owed (start_watcher fd events s)
unfolding start_watcher
start_watcher-IsService owed s fd events i = elim (Option-cases (find_fd fd s)) [
  | inl absent ↦
      let new : is_watching fd s ≡ false = unfold is_watching in rw absent refl in
      rw (new, start_watcher)
        (start_at-IsService owed s.next events (entered_fd fd events s) (omega arith)
          (entered_fd-IsService owed s fd events absent i))
  | inr (p, there) ↦
      let known : is_watching fd s ≡ true = unfold is_watching in rw there refl in
      rw (known, start_watcher) i
]

pub notify-IsService :
    (owed : ℕ → Kind → ℕ) (n : Note) (s : Service) → IsService owed s → IsService owed (notify n s)
unfolding notify
notify-IsService owed (added fd events) s i = start_watcher-IsService owed s fd events i
notify-IsService owed (removed fd) s i = stop_watcher-IsService owed s fd i

pub handle_events-IsService :
    (owed : ℕ → Kind → ℕ) (notes : List Note) (s : Service)
    → IsService owed s
    → IsService owed (handle_events notes s)
unfolding handle_events
handle_events-IsService owed [] s i = i
handle_events-IsService owed (n ∷ notes) s i =
    handle_events-IsService owed notes (notify n s) (notify-IsService owed n s i)

pub watch_all-IsService :
    (owed : ℕ → Kind → ℕ) (fds : List (ℕ × (Kind → Bool))) (s : Service)
    → IsService owed s
    → IsService owed (watch_all fds s)
unfolding watch_all
watch_all-IsService owed [] s i = i
watch_all-IsService owed ((fd, events) ∷ fds) s i =
    watch_all-IsService owed fds (start_watcher fd events s)
      (start_watcher-IsService owed s fd events i)
