-- ===== src/BitFile/Ends.antt =====
-- How reading a bit file ends (BitFile::readBitfile in src/devices/xc3sprog/bitfile.cpp).
use fpga_device_server.Common.{
  ◌≡◌, refl, sym, ◌∙◌, ℕ, zero, suc, ◌+◌, ◌≤◌, ◌<◌, Bool, true, false, Option, some, get_or, ◌*◌,
  ◌%◌, ◌^◌, if_ind, replicate, List, [], ◌∷◌, ◌++◌, ◌⊎◌, inl, inr, ◌==◌, length, length-append,
  arith, if◌then◌else◌,
}
use mathlib.Core.Bool.{false≢true}
use fpga_device_server.BitFile.Reverse.{bit_rev}
use fpga_device_server.BitFile.{
  File, fread, fread_all, BitFile, append_bytes, read_field, read_data, process_data, read_keyed,
  read_keys, read_bitfile, key_a, key_b, key_c, key_d, key_e,
}

-- What is left to do with a file: the bytes, and to notice its end.
abbrev left : File → ℕ
left f = if f.eof then 0 else length f.rest + 1

fread-left : (old : ℕ) (f : File) → left (fread old f).1 ≤ left f
unfolding fread
fread-left old f = ground arith

fread_progress : (old : ℕ) (f : File) → f.eof ≡ false → left (fread old f).1 < left f
unfolding fread
fread_progress old f h = ground arith

abbrev Complete : Bool × BitFile → Type 0
Complete (throws, b) = (throws ≡ true) ⊎ (length b.buffer ≡ b.length)

-- What readBitfile can return: an object with all of its data, or the code of an exception.
abbrev pub IsRead : Option ℕ × BitFile → Type 0
IsRead (code, b) = ((code ≡ some 0) × (length b.buffer ≡ b.length)) ⊎ (code ≡ some 2)

module _ (junk : ℕ) where
  append_bytes-left :
      (n : ℕ) (field : List ℕ) (f : File) → left (append_bytes junk n field f).1 ≤ left f
  unfolding append_bytes
  append_bytes-left zero field f = omega arith
  append_bytes-left (suc n) field f =
      let (b, f') = fread junk f in
      omega (arith, fread-left junk f, append_bytes-left n (field ++ b ∷ []) f')

  read_field-left : (field : List ℕ) (f : File) → left (read_field junk field f).1 ≤ left f
  unfolding read_field fread_all
  read_field-left field f =
      let (t0, f1) = fread junk f in
      let (t1, f2) = fread junk f1 in
      let size = (t0 * 2 ^ 8 + t1) % 2 ^ 16 in
      omega (arith, fread-left junk f, fread-left junk f1, append_bytes-left size field f2)

  read_keyed-left : (key : ℕ) (b : BitFile) (f : File) → left (read_keyed junk key b f).1 ≤ left f
  unfolding read_keyed
  read_keyed-left key b f =
      let Fewer = λ (r : BitFile × File). left r.1 ≤ left f in
      if_ind Fewer (key == key_a) (λ _. read_field-left b.ncd_filename f)
        (λ _.
          if_ind Fewer (key == key_b) (λ _. read_field-left b.part_name f)
            (λ _.
              if_ind Fewer (key == key_c) (λ _. read_field-left b.date f)
                (λ _.
                  if_ind Fewer (key == key_d) (λ _. read_field-left b.dtime f)
                    (λ _. read_field-left [] f))))

  read_data-length :
      (n : ℕ) (buffer : List ℕ) (f : File)
      → (length (read_data junk n buffer f).0 ≡ length buffer + n)
        ⊎ ((read_data junk n buffer f).1.eof ≡ true)
  unfolding read_data
  read_data-length zero buffer f = inl (omega arith)
  read_data-length (suc n) buffer f =
      let Filled = λ (r : List ℕ × File). (length r.0 ≡ length buffer + suc n) ⊎ (r.1.eof ≡ true) in
      let (b, f') = fread junk f in
      if_ind Filled f.eof (λ ended. inr ended)
        (λ _. elim (read_data-length n (buffer ++ bit_rev b ∷ []) f') [
          | inl filled ↦ inl (omega (arith, filled, length-append buffer (bit_rev b ∷ [])))
          | inr ended ↦ inr ended
        ])

  process_data-Complete : (b : BitFile) (f : File) → Complete (process_data junk b f)
  unfolding process_data
  process_data-Complete b f =
      let (t, f') = fread_all (junk ∷ junk ∷ junk ∷ junk ∷ []) f in
      let size =
        (get_or t 0 0 * 2 ^ 24 + get_or t 1 0 * 2 ^ 16 + get_or t 2 0 * 2 ^ 8 + get_or t 3 0)
        % 2 ^ 32 in
      if_ind Complete (read_data junk size [] f').1.eof (λ _. inl refl)
        (λ more. elim (read_data-length size [] f') [
          | inl filled ↦ inr (omega (arith, filled))
          | inr ended ↦ absurd (false≢true (sym more ∙ ended))
        ])

  Complete-IsRead : (r : Bool × BitFile) → Complete r → IsRead (some (if r.0 then 2 else 0), r.1)
  Complete-IsRead (true, b) c = inr refl
  Complete-IsRead (false, b) (inl throws) = absurd (false≢true throws)
  Complete-IsRead (false, b) (inr filled) = inl (refl, filled)

  read_keys-IsRead :
      (fuel key : ℕ) (b : BitFile) (f : File) → left f < fuel → IsRead (read_keys junk fuel key b f)
  unfolding read_keys
  read_keys-IsRead zero key b f enough = absurd (omega arith)
  read_keys-IsRead (suc fuel) key b f enough =
      let (key', f') = fread key f in
      let (b', f'') = read_keyed junk key' b f' in
      if_ind IsRead f.eof (λ _. inr refl)
        (λ more.
          if_ind IsRead (key' == key_e)
            (λ _. Complete-IsRead (process_data junk b f') (process_data-Complete b f'))
            (λ _.
              read_keys-IsRead fuel key' b' f''
                (omega (arith, fread_progress key f more, read_keyed-left key' b f'))))

-- readBitfile ends on every file and from every object. It returns 0, and then the buffer holds just
-- as many bytes as the length says; or it returns 2, the code of every exception.
pub read_bitfile-IsRead :
    (junk : ℕ) (b : BitFile) (bytes : List ℕ) → IsRead (read_bitfile junk b bytes)
unfolding read_bitfile
read_bitfile-IsRead junk b bytes =
    let (hdr, f) = fread_all (replicate 13 junk) (record { rest = bytes; eof = false }) in
    read_keys-IsRead junk (suc (suc (length f.rest))) junk b f (ground arith)
