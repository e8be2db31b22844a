-- ===== src/Socket/Drain.antt =====
-- gzochi-server/src/socket.c: all that was written is sent, as long as the channel takes something
-- each time the main loop calls back.
use mathlib.Core.List.{append-nil}
use gnu_gzochi.Base.{
  ℕ, zero, suc, ◌-◌, ◌≤◌, ◌<◌, ◌≡◌, ◌≢◌, inl, inr, refl, sym, ap, ◌∙◌, Bool, true, false, List, [],
  ◌∷◌, ◌++◌, length, length-append, arith, All, ltb, drop, take, Bool-cases, ltb→lt,
}
use gnu_gzochi.Socket.{
  Status, normal, again, eof, io_error, WriteResult, no_source, attached, detached, ClientSocket,
  write_loop, dispatch_client_write,
}
use gnu_gzochi.Socket.Send.{
  IsClean, IsInOrder, Sending, flushed, nothing_left, WriteSource-cases,
  dispatch_client_write-Flushes, flush-IsInOrder,
}

-- The calls of one callback: no error, and the first takes a byte at least.
abbrev pub IsProgress : List WriteResult → Type 0
IsProgress [] = true ≡ false
IsProgress (r ∷ results) = (0 < r.written) × IsClean (r ∷ results)

length-take_pos : (n : ℕ) (bytes : List ℕ) → 0 < n → 0 < length bytes → 0 < length (take n bytes)
length-take_pos zero bytes h k = absurd (omega arith)
length-take_pos (suc n) [] h k = k
length-take_pos (suc n) (b ∷ bytes) h k = omega arith

round_sends :
    (written : ℕ) (status : Status) (has_error : Bool) (results : List WriteResult)
    (buffer : List ℕ)
    → has_error ≡ false
    → 0 < written
    → 0 < length buffer
    → let r : WriteResult = record { written = written; status = status; has_error = has_error } in
      0 < length ((write_loop (r ∷ results) buffer).1)
unfolding write_loop
round_sends n status true results buffer e h k = cc
round_sends n again false results buffer e h k = length-take_pos n buffer h k
round_sends n eof false results buffer e h k = length-take_pos n buffer h k
round_sends n io_error false results buffer e h k = length-take_pos n buffer h k
round_sends n normal false results buffer e h k =
    let some_sent = length-take_pos n buffer h k in
    let more_sent = length-append (take n buffer) ((write_loop results (drop n buffer)).1) in
    elim (Bool-cases (ltb 0 (length (drop n buffer)))) [
      | inl more ↦ rw more (omega (arith, more_sent, some_sent))
      | inr none_left ↦ rw none_left some_sent
    ]

module _ {ℓ} {S : Type ℓ} where
  -- The main loop calls back only while the channel is watched.
  abbrev pub pump : List (List WriteResult) → Sending S → Sending S
  pump [] st = st
  pump (results ∷ calls) st = elim (st.sock.write_source) [
    | no_source ↦ st
    | attached ↦ pump calls (flushed results st)
    | detached ↦ st
  ]

  pump_watched :
      (results : List WriteResult) (calls : List (List WriteResult)) (st : Sending S)
      → st.sock.write_source ≡ attached
      → pump (results ∷ calls) st ≡ pump calls (flushed results st)
  pump_watched results calls st watched =
      ap
        (λ source. elim source as (λ x. Sending S) [
          | no_source ↦ st
          | attached ↦ pump calls (flushed results st)
          | detached ↦ st
        ])
        watched

  sent_lem :
      (results : List WriteResult) (sock : ClientSocket S)
      → (dispatch_client_write false results sock).1 ≡ (write_loop results (sock.send_buffer)).1
  unfolding dispatch_client_write
  sent_lem results sock = elim (Bool-cases ((write_loop results (sock.send_buffer)).0)) [
    | inl e ↦ rw (dispatch_client_write, e) refl
    | inr e ↦ rw (dispatch_client_write, e) refl
  ]

  flushed_shrinks :
      (results : List WriteResult) (st : Sending S)
      → st.sock.write_source ≡ attached
      → IsProgress results
      → (length ((flushed results st).sock.send_buffer) ≤ length (st.sock.send_buffer) - 1)
        × ((flushed results st).sock.write_source ≢ detached)
  flushed_shrinks [] st watched progress = cc
  flushed_shrinks (r ∷ results) st watched progress =
      let (split, empty, after) = dispatch_client_write-Flushes (r ∷ results) (st.sock) watched in
      let (kept, sent, sock') = dispatch_client_write false (r ∷ results) (st.sock) in
      let parts = ap length split in
      let whole = length-append sent (sock'.send_buffer) in
      (
        elim (Bool-cases (ltb 0 (length (st.sock.send_buffer)))) [
          | inr empty_before ↦ ground (arith, parts, whole)
          | inl some_left ↦
              let taken : 0 < length sent = rw (sent_lem (r ∷ results) (st.sock)) (
                round_sends (r.written) (r.status) (r.has_error) results (st.sock.send_buffer)
                  progress.1.0 progress.0 (ltb→lt 0 _ some_left)) in
              omega (arith, parts, whole, taken)
        ],
        elim (after progress.1) [ inl on ↦ λ off. cc | inr none ↦ λ off. cc ],
      )

  -- If each callback's calls report no error and the first takes a byte at least, then as many
  -- callbacks as there are bytes in the buffer send all that was written, unless an earlier error
  -- took the watch on the channel from the main loop.
  pub pump_sends :
      (calls : List (List WriteResult)) (st : Sending S)
      → IsInOrder st
      → st.sock.write_source ≢ detached
      → All IsProgress calls
      → length (st.sock.send_buffer) ≤ length calls
      → ((pump calls st).sent ≡ st.given) × ((pump calls st).sock.send_buffer ≡ [])
  pump_sends [] st inv live progress enough =
      let empty : st.sock.send_buffer ≡ [] = nothing_left (st.sock.send_buffer) (ground arith) in
      (sym (append-nil (st.sent)) ∙ ap (λ rest. st.sent ++ rest) (sym empty) ∙ inv.0, empty)
  pump_sends (results ∷ calls) st inv live progress enough =
      elim (WriteSource-cases (st.sock.write_source)) [
        | inl none ↦ rw none (
          sym (append-nil (st.sent)) ∙ ap (λ rest. st.sent ++ rest) (sym (inv.1 none)) ∙ inv.0,
          inv.1 none,
        )
        | inr (inl watched) ↦
            let (shrinks, live') = flushed_shrinks results st watched progress.0 in
            rw (pump_watched results calls st watched) (
              pump_sends calls (flushed results st) (flush-IsInOrder st results watched inv) live'
                progress.1 (omega arith))
        | inr (inr dropped) ↦ absurd (live dropped)
      ]
