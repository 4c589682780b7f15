-- ===== src/Connection/Steps.antt =====
-- What can happen to a connection, and what each step does to its queue.
use fpga_device_server.Common.{
  ℕ, ◌+◌, ◌-◌, ◌≤◌, ◌<◌, ◌≡◌, refl, sym, ap, ◌∙◌, ◌⊎◌, Bool, true, false, List, [], ◌∷◌, ◌++◌,
  append_assoc, append-nil, arith, ◌==◌, ==_iff, if◌then◌else◌, length, take, drop, Bool-cases, inl,
  inr, length-append, drop-append, take-append-drop, drop-drop, drop-append_le,
}
use fpga_device_server.Connection.{
  Connection, connection_init, is_empty, front, do_read, stop, manager_stop, manager_start, send,
  do_write, run_posted, write_completed, write_failed,
}

abbrev pub concat : List (List ℕ) → List ℕ
concat [] = []
concat (p ∷ ps) = p ++ concat ps

-- What can happen: any packet may be sent at any time; a posted call and the end of a write need one
-- to be there, and a write takes no more bytes than it was given.
pub data Step : List (List ℕ) → Connection → Connection → Type 0 where
  sends : (packet : List ℕ) (c : Connection) → Step (packet ∷ []) c (send packet c)
  runs_posted : (c : Connection) → 0 < c.posted → Step [] c (run_posted c)
  completes :
      (n : ℕ) (c : Connection)
      → 0 < c.writes
      → c.msgbuffer_out_offset + n ≤ length (front c.msgbuffer_out)
      → Step [] c (write_completed n c)
  fails :
      (aborted shutdown_throws : Bool) (c : Connection)
      → 0 < c.writes
      → Step [] c (write_failed aborted shutdown_throws c)
  stops : (shutdown_throws : Bool) (c : Connection) → Step [] c (manager_stop shutdown_throws c)
  reads : (c : Connection) → Step [] c (do_read c)

-- A connection that can come about, with the packets that were sent on it.
pub data Run : List (List ℕ) → Connection → Type 0 where
  begins : Run [] (manager_start connection_init)
  goes_on :
      (sent new : List (List ℕ)) (c c' : Connection)
      → Run sent c
      → Step new c c'
      → Run (sent ++ new) c'

-- What is left to write.
abbrev pub pending : Connection → List ℕ
pending c = drop c.msgbuffer_out_offset (concat c.msgbuffer_out)

-- The calls of do_write that are due: one while packets wait, none when there is none, and none after
-- a write has failed.
abbrev pub due : Connection → ℕ
due c = if is_empty c.msgbuffer_out then 0 else (if c.write_broken then 0 else 1)

pub record IsQueue (bytes : List ℕ) (c : Connection) : Type 0 where
  pub one_writer : c.posted + c.writes ≡ due c
  pub offset_fits : c.msgbuffer_out_offset ≤ length (front c.msgbuffer_out)
  pub stream : c.delivered ++ pending c ≡ bytes
  pub broken_waits : c.write_broken ≡ true → is_empty c.msgbuffer_out ≡ false

pub concat-append : (ps qs : List (List ℕ)) → concat (ps ++ qs) ≡ concat ps ++ concat qs
concat-append [] qs = refl
concat-append (p ∷ ps) qs =
    ap (◌++◌ p) (concat-append ps qs) ∙ sym (append_assoc p (concat ps) (concat qs))

pub front_fits : (ps : List (List ℕ)) → length (front ps) ≤ length (concat ps)
front_fits [] = omega arith
front_fits (p ∷ ps) = omega (arith, length-append p (concat ps))

-- A packet more is written after all that waits.
pub pending-send :
    (packet : List ℕ) (c : Connection)
    → c.msgbuffer_out_offset ≤ length (front c.msgbuffer_out)
    → pending (send packet c) ≡ pending c ++ packet
unfolding send
pending-send packet c fits =
    ap (drop c.msgbuffer_out_offset) (
      concat-append c.msgbuffer_out (packet ∷ [])
      ∙ ap (◌++◌ (concat c.msgbuffer_out)) (append-nil packet))
    ∙ drop-append_le c.msgbuffer_out_offset (concat c.msgbuffer_out) packet
        (omega (arith, front_fits c.msgbuffer_out))

pub send-IsQueue :
    (packet bytes : List ℕ) (c : Connection)
    → IsQueue bytes c
    → IsQueue (bytes ++ packet) (send packet c)
unfolding send
send-IsQueue packet bytes c q = record {
  one_writer = counted c.msgbuffer_out c.write_broken q.one_writer q.broken_waits;
  offset_fits = fits c.msgbuffer_out q.offset_fits;
  stream =
      ap (◌++◌ c.delivered) (pending-send packet c q.offset_fits)
      ∙ sym (append_assoc c.delivered (pending c) packet)
      ∙ ap (λ w. w ++ packet) q.stream;
  broken_waits = λ h. waits c.msgbuffer_out;
}
  where
    waits : (ps : List (List ℕ)) → is_empty (ps ++ packet ∷ []) ≡ false
    waits [] = refl
    waits (p ∷ ps) = refl

    fits :
        (ps : List (List ℕ))
        → c.msgbuffer_out_offset ≤ length (front ps)
        → c.msgbuffer_out_offset ≤ length (front (ps ++ packet ∷ []))
    fits [] h = omega arith
    fits (p ∷ ps) h = h

    counted :
        (ps : List (List ℕ)) (broken : Bool)
        → c.posted + c.writes ≡ (if is_empty ps then 0 else (if broken then 0 else 1))
        → (broken ≡ true → is_empty ps ≡ false)
        → (if is_empty ps then c.posted + 1 else c.posted) + c.writes
          ≡ (if is_empty (ps ++ packet ∷ []) then 0 else (if broken then 0 else 1))
    counted [] true e b = absurd (ground (arith, b refl))
    counted [] false e b = omega arith
    counted (p ∷ ps) broken e b = e

-- While a write is under way there is a packet, and no write has failed.
pub record Writing (c : Connection) : Type 0 where
  packet : List ℕ
  packets : List (List ℕ)
  waiting : c.msgbuffer_out ≡ packet ∷ packets
  sound : c.write_broken ≡ false
  alone : (c.posted ≡ 0) × (c.writes ≡ 1)

pub due_one :
    (ps : List (List ℕ)) (broken : Bool)
    → 0 < (if is_empty ps then 0 else (if broken then 0 else 1))
    → (broken ≡ false) × ((p : List ℕ) × (ps' : List (List ℕ)) × (ps ≡ p ∷ ps'))
due_one [] broken h = absurd (omega arith)
due_one (p ∷ ps) true h = absurd (omega arith)
due_one (p ∷ ps) false h = (refl, (p, ps, refl))

pub due_le :
    (ps : List (List ℕ)) (broken : Bool)
    → (if is_empty ps then 0 else (if broken then 0 else 1)) ≤ 1
due_le [] broken = omega arith
due_le (p ∷ ps) true = omega arith
due_le (p ∷ ps) false = omega arith

pub writing : (bytes : List ℕ) (c : Connection) → IsQueue bytes c → 0 < c.writes → Writing c
writing bytes c q h =
    let positive : 0 < due c = rw (← q.one_writer) (omega arith) in
    let (sound, (p, ps, e)) = due_one c.msgbuffer_out c.write_broken positive in
    let most : c.posted + c.writes ≤ 1 = rw q.one_writer (due_le c.msgbuffer_out c.write_broken) in
    record {
      packet = p;
      packets = ps;
      waiting = e;
      sound = sound;
      alone = (omega arith, omega arith);
    }

pub run_posted-IsQueue :
    (bytes : List ℕ) (c : Connection)
    → IsQueue bytes c
    → 0 < c.posted
    → IsQueue bytes (run_posted c)
unfolding run_posted do_write
run_posted-IsQueue bytes c q h =
    let positive : 0 < due c = rw (← q.one_writer) (omega arith) in
    let (sound, (p, ps, e)) = due_one c.msgbuffer_out c.write_broken positive in
    let some_wait : is_empty c.msgbuffer_out ≡ false = ap is_empty e in
    let moved : c.posted - 1 + (c.writes + 1) ≡ due c = omega (arith, q.one_writer) in
    rw some_wait (record {
      one_writer = moved;
      offset_fits = q.offset_fits;
      stream = q.stream;
      broken_waits = q.broken_waits;
    })

-- The bytes of a write leave the queue and are in the stream.
pub taken :
    (off n : ℕ) (packet rest delivered : List ℕ)
    → off + n ≤ length packet
    → (delivered ++ take n (drop off packet)) ++ drop (off + n) (packet ++ rest)
      ≡ delivered ++ drop off (packet ++ rest)
taken off n packet rest delivered h =
    append_assoc delivered (take n (drop off packet)) (drop (off + n) (packet ++ rest))
    ∙ ap (◌++◌ delivered) (
        ap (◌++◌ (take n (drop off packet))) (drop-append_le (off + n) packet rest h)
        ∙ sym (append_assoc (take n (drop off packet)) (drop (off + n) packet) rest)
        ∙ ap (λ w. (take n (drop off packet) ++ w) ++ rest) (sym (drop-drop off n packet))
        ∙ ap (λ w. w ++ rest) (take-append-drop n (drop off packet))
        ∙ sym (drop-append_le off packet rest (omega arith)))

pub list_cases :
    (ps : List (List ℕ)) → (ps ≡ []) ⊎ ((q : List ℕ) × (qs : List (List ℕ)) × (ps ≡ q ∷ qs))
list_cases [] = inl refl
list_cases (q ∷ qs) = inr (q, qs, refl)

pub write_completed-IsQueue :
    (n : ℕ) (bytes : List ℕ) (c : Connection)
    → IsQueue bytes c
    → 0 < c.writes
    → c.msgbuffer_out_offset + n ≤ length (front c.msgbuffer_out)
    → IsQueue bytes (write_completed n c)
unfolding write_completed do_write
write_completed-IsQueue n bytes c q h fits =
    let w = writing bytes c q h in
    let fits' : c.msgbuffer_out_offset + n ≤ length w.packet = rw (← ap front w.waiting) fits in
    let flow = taken c.msgbuffer_out_offset n w.packet (concat w.packets) c.delivered fits' in
    let before : c.delivered ++ drop c.msgbuffer_out_offset (w.packet ++ concat w.packets) ≡ bytes =
      ap (λ ps. c.delivered ++ drop c.msgbuffer_out_offset (concat ps)) (sym w.waiting)
      ∙ q.stream in
    elim (Bool-cases (c.msgbuffer_out_offset + n == length w.packet)) [
      | inr more ↦
          rw (w.waiting, more)
            (record {
              one_writer = rw w.sound (omega (arith, w.alone.0, w.alone.1));
              offset_fits = fits';
              stream = flow ∙ before;
              broken_waits = λ b. refl;
            })
      | inl whole ↦
          let at_end = (==_iff _ _).0 whole in
          let rest_is : drop (c.msgbuffer_out_offset + n) (w.packet ++ concat w.packets)
              ≡ concat w.packets =
            ap (λ m. drop m (w.packet ++ concat w.packets)) at_end
            ∙ drop-append w.packet (concat w.packets) in
          let after : (c.delivered ++ take n (drop c.msgbuffer_out_offset w.packet))
                ++ concat w.packets
              ≡ bytes =
            ap (◌++◌ (c.delivered ++ take n (drop c.msgbuffer_out_offset w.packet))) (sym rest_is)
            ∙ flow
            ∙ before in
          elim (list_cases w.packets) [
            | inl e ↦
                rw (w.waiting, whole, e)
                  (record {
                    one_writer = omega (arith, w.alone.0, w.alone.1);
                    offset_fits = omega arith;
                    stream = rw e at after;
                    broken_waits = λ b. absurd (ground (arith, w.sound));
                  })
            | inr (p, ps, e) ↦
                rw (w.waiting, whole, e)
                  (record {
                    one_writer = rw w.sound (omega (arith, w.alone.0, w.alone.1));
                    offset_fits = omega arith;
                    stream = rw e at after;
                    broken_waits = λ b. refl;
                  })
          ]
    ]

pub write_failed-IsQueue :
    (aborted shutdown_throws : Bool) (bytes : List ℕ) (c : Connection)
    → IsQueue bytes c
    → 0 < c.writes
    → IsQueue bytes (write_failed aborted shutdown_throws c)
unfolding write_failed stop manager_stop
write_failed-IsQueue aborted shutdown_throws bytes c q h = ended aborted
  where
    w : Writing c
    w = writing bytes c q h

    none_due : c.posted + (c.writes - 1) ≡ (if is_empty c.msgbuffer_out then 0 else 0)
    none_due = rw w.waiting (omega (arith, w.alone.0, w.alone.1))

    ended : (aborted : Bool) → IsQueue bytes (write_failed aborted shutdown_throws c)
    ended true = record {
      one_writer = none_due;
      offset_fits = q.offset_fits;
      stream = q.stream;
      broken_waits = λ b. ap is_empty w.waiting;
    }
    ended false = record {
      one_writer = none_due;
      offset_fits = q.offset_fits;
      stream = q.stream;
      broken_waits = λ b. ap is_empty w.waiting;
    }
