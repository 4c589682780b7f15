-- ===== src/Manager/Index.antt =====
-- The two maps of the manager as one index: adding and removing one device.
use fpga_device_server.Common.{
  ℕ, suc, ◌<◌, ◌≡◌, refl, sym, ap, ◌∙◌, subst, Option, none, some, List, ◌==◌, if◌then◌else◌, ltb,
  arith, Bool-cases, inl, inr, some_same,
}
use fpga_device_server.Common.Maps.{
  insert, erase, str_eq, str_lt, find-insert, find-erase, str_eq_sound, str_eq_refl, nat_eq_sound,
  nat_eq_refl,
}
use fpga_device_server.Manager.{find_dev, find_serial}

-- Each entry of one map has its entry in the other, by the name and the USB device of the object that
-- both point to, and no pointer is one that has still to be given out.
pub record IsIndex (name : ℕ → List ℕ) (usb : ℕ → ℕ) (next : ℕ) (devices : List (ℕ × ℕ))
    (serials : List (List ℕ × ℕ)) : Type 0 where
  pub by_serial :
      (s : List ℕ) (p : ℕ)
      → find_serial s serials ≡ some p
      → (name p ≡ s) × (find_dev (usb p) devices ≡ some p) × (p < next)
  pub by_device :
      (d p : ℕ)
      → find_dev d devices ≡ some p
      → (usb p ≡ d) × (find_serial (name p) serials ≡ some p)

none_some : {A : Type 0} {a : A} {o : Option A} → o ≡ none → o ≡ some a → {B : Type 0} → B
none_some e f = absurd (ground (arith, sym e ∙ f))

module _ (name : ℕ → List ℕ) (usb : ℕ → ℕ) (devices : List (ℕ × ℕ))
    (serials : List (List ℕ × ℕ)) where
  -- A device that is in neither map is added to both.
  pub IsIndex-insert :
      (p next next' : ℕ)
      → IsIndex name usb next devices serials
      → find_dev (usb p) devices ≡ none
      → find_serial (name p) serials ≡ none
      → p < next'
      → next < suc next'
      → IsIndex name usb next'
          (insert (◌==◌) ltb (usb p) p devices)
          (insert str_eq str_lt (name p) p serials)
  IsIndex-insert p next next' i new_dev new_serial fits grows = record {
    by_serial = serial_entry;
    by_device = device_entry;
  }
    where
      in_devices :
          (d : ℕ)
          → find_dev d (insert (◌==◌) ltb (usb p) p devices)
            ≡ (if d == usb p then some p else find_dev d devices)
      in_devices d = find-insert (◌==◌) ltb nat_eq_sound (usb p) d p devices new_dev

      in_serials :
          (s : List ℕ)
          → find_serial s (insert str_eq str_lt (name p) p serials)
            ≡ (if str_eq s (name p) then some p else find_serial s serials)
      in_serials s = find-insert str_eq str_lt str_eq_sound (name p) s p serials new_serial

      serial_entry :
          (s : List ℕ) (q : ℕ)
          → find_serial s (insert str_eq str_lt (name p) p serials) ≡ some q
          → (name q ≡ s)
            × (find_dev (usb q) (insert (◌==◌) ltb (usb p) p devices) ≡ some q)
            × (q < next')
      serial_entry s q e = elim (Bool-cases (str_eq s (name p))) [
        | inl same ↦
            let e' = rw same at (sym (in_serials s) ∙ e) in
            let q_is : p ≡ q = some_same e' in
            subst
              (λ q.
                (name q ≡ s)
                × (find_dev (usb q) (insert (◌==◌) ltb (usb p) p devices) ≡ some q)
                × (q < next'))
              q_is
              (
                sym (str_eq_sound s (name p) same),
                in_devices (usb p) ∙ rw (nat_eq_refl (usb p)) refl,
                fits,
              )
        | inr other ↦
            let e' = rw other at (sym (in_serials s) ∙ e) in
            let (named, entry, old) = i.by_serial s q e' in
            (named, kept (usb q) q entry, omega arith)
      ]
        where
          kept :
              (d q : ℕ)
              → find_dev d devices ≡ some q
              → find_dev d (insert (◌==◌) ltb (usb p) p devices) ≡ some q
          kept d q entry = elim (Bool-cases (d == usb p)) [
            | inl same ↦
                none_some new_dev
                  (ap (λ x. find_dev x devices) (sym (nat_eq_sound d (usb p) same)) ∙ entry)
            | inr other ↦ in_devices d ∙ rw other entry
          ]

      device_entry :
          (d q : ℕ)
          → find_dev d (insert (◌==◌) ltb (usb p) p devices) ≡ some q
          → (usb q ≡ d) × (find_serial (name q) (insert str_eq str_lt (name p) p serials) ≡ some q)
      device_entry d q e = elim (Bool-cases (d == usb p)) [
        | inl same ↦
            let e' = rw same at (sym (in_devices d) ∙ e) in
            let q_is : p ≡ q = some_same e' in
            subst
              (λ q.
                (usb q ≡ d)
                × (find_serial (name q) (insert str_eq str_lt (name p) p serials) ≡ some q))
              q_is
              (
                sym (nat_eq_sound d (usb p) same),
                in_serials (name p) ∙ rw (str_eq_refl (name p)) refl,
              )
        | inr other ↦
            let e' = rw other at (sym (in_devices d) ∙ e) in
            let (at_usb, entry) = i.by_device d q e' in (at_usb, kept (name q) q entry)
      ]
        where
          kept :
              (s : List ℕ) (q : ℕ)
              → find_serial s serials ≡ some q
              → find_serial s (insert str_eq str_lt (name p) p serials) ≡ some q
          kept s q entry = elim (Bool-cases (str_eq s (name p))) [
            | inl same ↦
                none_some new_serial
                  (ap (λ x. find_serial x serials) (sym (str_eq_sound s (name p) same)) ∙ entry)
            | inr other ↦ in_serials s ∙ rw other entry
          ]

  -- A device that is in the index is removed from both maps.
  pub IsIndex-erase :
      (p next : ℕ) (s : List ℕ)
      → IsIndex name usb next devices serials
      → find_serial s serials ≡ some p
      → IsIndex name usb next (erase (◌==◌) (usb p) devices) (erase str_eq s serials)
  IsIndex-erase p next s i there = record { by_serial = serial_entry; by_device = device_entry }
    where
      in_devices :
          (d : ℕ)
          → find_dev d (erase (◌==◌) (usb p) devices)
            ≡ (if d == usb p then none else find_dev d devices)
      in_devices d = find-erase (◌==◌) nat_eq_sound (usb p) d devices

      in_serials :
          (t : List ℕ)
          → find_serial t (erase str_eq s serials)
            ≡ (if str_eq t s then none else find_serial t serials)
      in_serials t = find-erase str_eq str_eq_sound s t serials

      serial_entry :
          (t : List ℕ) (q : ℕ)
          → find_serial t (erase str_eq s serials) ≡ some q
          → (name q ≡ t) × (find_dev (usb q) (erase (◌==◌) (usb p) devices) ≡ some q) × (q < next)
      serial_entry t q e = elim (Bool-cases (str_eq t s)) [
        | inl same ↦ none_some refl (rw same at (sym (in_serials t) ∙ e))
        | inr other ↦
            let (named, entry, old) = i.by_serial t q (rw other at (sym (in_serials t) ∙ e)) in
            elim (Bool-cases (usb q == usb p)) [
              | inl clash ↦
                  let q_is : q ≡ p = some_same (
                    sym entry
                    ∙ ap (λ d. find_dev d devices) (nat_eq_sound (usb q) (usb p) clash)
                    ∙ (i.by_serial s p there).1) in
                  let t_is : t ≡ s = sym named ∙ ap name q_is ∙ (i.by_serial s p there).0 in
                  absurd (ground (arith, sym other ∙ ap (λ t. str_eq t s) t_is ∙ str_eq_refl s))
              | inr apart ↦ (named, in_devices (usb q) ∙ rw apart entry, old)
            ]
      ]

      device_entry :
          (d q : ℕ)
          → find_dev d (erase (◌==◌) (usb p) devices) ≡ some q
          → (usb q ≡ d) × (find_serial (name q) (erase str_eq s serials) ≡ some q)
      device_entry d q e = elim (Bool-cases (d == usb p)) [
        | inl same ↦ none_some refl (rw same at (sym (in_devices d) ∙ e))
        | inr other ↦
            let (at_usb, entry) = i.by_device d q (rw other at (sym (in_devices d) ∙ e)) in
            elim (Bool-cases (str_eq (name q) s)) [
              | inl clash ↦
                  let q_is : q ≡ p = some_same (
                    sym entry
                    ∙ ap (λ t. find_serial t serials) (str_eq_sound (name q) s clash)
                    ∙ there) in
                  let d_is : d ≡ usb p = sym at_usb ∙ ap usb q_is in
                  absurd
                    (ground (arith, sym other ∙ ap (λ d. d == usb p) d_is ∙ nat_eq_refl (usb p)))
              | inr apart ↦ (at_usb, in_serials (name q) ∙ rw apart entry)
            ]
      ]

-- The objects that the index points to may change, but for their names and USB devices.
pub IsIndex-same :
    (name name' : ℕ → List ℕ) (usb usb' : ℕ → ℕ) (next : ℕ) (devices : List (ℕ × ℕ))
    (serials : List (List ℕ × ℕ))
    → ((q : ℕ) → q < next → (name' q ≡ name q) × (usb' q ≡ usb q))
    → IsIndex name usb next devices serials
    → IsIndex name' usb' next devices serials
IsIndex-same name name' usb usb' next devices serials same i = record {
  by_serial = λ s p e. serial_entry s p e;
  by_device = λ d p e. device_entry d p e;
}
  where
    serial_entry :
        (s : List ℕ) (p : ℕ)
        → find_serial s serials ≡ some p
        → (name' p ≡ s) × (find_dev (usb' p) devices ≡ some p) × (p < next)
    serial_entry s p e =
        let (named, entry, old) = i.by_serial s p e in
        let (n, u) = same p old in (n ∙ named, ap (λ d. find_dev d devices) u ∙ entry, old)

    device_entry :
        (d p : ℕ)
        → find_dev d devices ≡ some p
        → (usb' p ≡ d) × (find_serial (name' p) serials ≡ some p)
    device_entry d p e =
        let (at_usb, entry) = i.by_device d p e in
        let (named, entry', old) = i.by_serial (name p) p entry in
        let (n, u) = same p old in (u ∙ at_usb, ap (λ s. find_serial s serials) n ∙ entry)

pub IsIndex-grow :
    (name : ℕ → List ℕ) (usb : ℕ → ℕ) (next next' : ℕ) (devices : List (ℕ × ℕ))
    (serials : List (List ℕ × ℕ))
    → next < suc next'
    → IsIndex name usb next devices serials
    → IsIndex name usb next' devices serials
IsIndex-grow name usb next next' devices serials h i = record {
  by_serial = λ s p e. let (named, entry, old) = i.by_serial s p e in (named, entry, omega arith);
  by_device = i.by_device;
}
