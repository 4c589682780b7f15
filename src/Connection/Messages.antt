-- ===== src/Connection/Messages.antt =====
-- The messages of one read (the handler in ClientConnection::do_read) and the replies to them.
use fpga_device_server.Common.{
  ℕ, ◌+◌, ◌≡◌, refl, sym, ◌∙◌, Bool, true, false, none, some, List, [], ◌∷◌, ◌++◌, append_assoc,
  append-nil, if◌then◌else◌, ltb, Bool-cases, Option-cases, inl, inr,
}
use fpga_device_server.Connection.{
  Connection, do_read, stop, manager_stop, send, Unpacked, message, need_more, malformed, Handler,
  handle_messages, control_msg_max_bytes,
}
use fpga_device_server.Connection.Steps.{Step, Run}

module _ {S Obj : Type 0} (handle : Handler S Obj) where
  -- The replies to the messages, up to the first for which the handler throws, and the state after.
  pub replies : Unpacked Obj → S → List (List ℕ)
  replies malformed s = []
  replies (need_more size) s = []
  replies (message object rest) s = elim (handle s object).1 [
    | none ↦ []
    | some reply ↦ reply ∷ replies rest (handle s object).0
  ]

  -- Whether the connection goes on after these messages: every one was handled, no more bytes than
  -- the limit are waiting, and the rest is well formed.
  pub goes_on_after : Unpacked Obj → S → Bool
  goes_on_after malformed s = false
  goes_on_after (need_more size) s = if ltb control_msg_max_bytes size then false else true
  goes_on_after (message object rest) s = elim (handle s object).1 [
    | none ↦ false
    | some reply ↦ goes_on_after rest (handle s object).0
  ]

  -- What one read leads to.
  abbrev pub Answers : Bool → Unpacked Obj → S → Connection → Connection → Type 0
  Answers shutdown_throws unpacked s c c' =
      (c'.msgbuffer_out ≡ c.msgbuffer_out ++ replies unpacked s)
      × (c'.reads ≡ (if goes_on_after unpacked s then c.reads + 1 else c.reads))
      × (c'.is_open ≡ (
          if goes_on_after unpacked s
          then c.is_open
          else (if c.is_open then shutdown_throws else false)))
      × (c'.registered ≡ (if goes_on_after unpacked s then c.registered else false))

  -- Each message of a read is answered by one packet, and the packets are queued in the order of the
  -- messages, behind those that wait. The next read is started if all was handled and well formed
  -- and no more than the limit waits; or else the connection is stopped, and the packets of the
  -- messages before stay queued.
  pub handle_messages-Answers :
      (shutdown_throws : Bool) (unpacked : Unpacked Obj) (s : S) (c : Connection)
      → Answers shutdown_throws unpacked s c (handle_messages handle shutdown_throws unpacked s c).1
  unfolding handle_messages replies goes_on_after stop manager_stop do_read send
  handle_messages-Answers shutdown_throws malformed s c =
      (sym (append-nil c.msgbuffer_out), refl, refl, refl)
  handle_messages-Answers shutdown_throws (need_more size) s c =
      elim (Bool-cases (ltb control_msg_max_bytes size)) [
        | inl large ↦ rw large (sym (append-nil c.msgbuffer_out), refl, refl, refl)
        | inr small ↦ rw small (sym (append-nil c.msgbuffer_out), refl, refl, refl)
      ]
  handle_messages-Answers shutdown_throws (message object rest) s c =
      let s' = (handle s object).0 in
      elim (Option-cases (handle s object).1) [
        | inl throws ↦
            rw (throws, handle_messages, replies, goes_on_after)
              (sym (append-nil c.msgbuffer_out), refl, refl, refl)
        | inr (reply, e) ↦
            let later = handle_messages-Answers shutdown_throws rest s' (send reply c) in
            rw (e, handle_messages, replies, goes_on_after)
              (
                later.0 ∙ append_assoc c.msgbuffer_out (reply ∷ []) (replies rest s'),
                later.1,
                later.2,
                later.3,
              )
      ]

  -- What a read leads to is a sequence of steps that send just the replies, so all that holds of a
  -- connection in every run holds after a read too.
  pub handle_messages-Run :
      (shutdown_throws : Bool) (unpacked : Unpacked Obj) (s : S) (sent : List (List ℕ))
      (c : Connection)
      → Run sent c
      → Run (sent ++ replies unpacked s) (handle_messages handle shutdown_throws unpacked s c).1
  unfolding handle_messages replies
  handle_messages-Run shutdown_throws malformed s sent c r =
      Run.goes_on sent [] c (manager_stop shutdown_throws c) r (Step.stops shutdown_throws c)
  handle_messages-Run shutdown_throws (need_more size) s sent c r =
      elim (Bool-cases (ltb control_msg_max_bytes size)) [
        | inl large ↦ rw large (
            Run.goes_on sent [] c (manager_stop shutdown_throws c) r (Step.stops shutdown_throws c))
        | inr small ↦ rw small (Run.goes_on sent [] c (do_read c) r (Step.reads c))
      ]
  handle_messages-Run shutdown_throws (message object rest) s sent c r =
      let s' = (handle s object).0 in
      elim (Option-cases (handle s object).1) [
        | inl throws ↦
            rw (throws, handle_messages, replies)
              (Run.goes_on sent [] c (manager_stop shutdown_throws c) r
                (Step.stops shutdown_throws c))
        | inr (reply, e) ↦
            let one = Run.goes_on sent (reply ∷ []) c (send reply c) r (Step.sends reply c) in
            rw (e, handle_messages, replies, ← append_assoc sent (reply ∷ []) (replies rest s'))
              (handle_messages-Run shutdown_throws rest s' (sent ++ reply ∷ []) (send reply c) one)
      ]
