-- ===== src/Socket/Send.antt =====
-- gzochi-server/src/socket.c: what is written to a socket reaches the channel in order, nothing twice
-- and nothing left out, and all of it as long as the channel takes something.
use mathlib.Core.List.{append_assoc}
use mathlib.Core.Option.{some-injective}
use gnu_gzochi.Base.{
  ℕ, ◌≡◌, ◌≢◌, ◌⊎◌, inl, inr, refl, sym, ap, ◌∙◌, Bool, true, false, some, List, [], ◌∷◌, ◌++◌,
  length, arith, All, ltb, drop, take, take-drop, Bool-cases,
}
use gnu_gzochi.Socket.{
  Status, normal, again, eof, io_error, WriteResult, WriteSource, no_source, attached, detached,
  ClientSocket, client_socket_new, add_client, write_loop, dispatch_client_write,
  client_socket_write,
}

-- No call reports an error.
abbrev pub IsClean : List WriteResult → Type 0
IsClean = All (λ r. r.has_error ≡ false)

abbrev pub Splits : List ℕ → List WriteResult → Bool × List ℕ × List ℕ → Type 0
Splits buffer results (ended, sent, left) =
    (sent ++ left ≡ buffer) × (IsClean results → ended ≡ true)

round-Splits :
    (written : ℕ) (status : Status) (has_error : Bool) (results : List WriteResult)
    (buffer : List ℕ)
    → ((rest : List ℕ) → Splits rest results (write_loop results rest))
    → let r : WriteResult = record { written = written; status = status; has_error = has_error } in
      Splits buffer (r ∷ results) (write_loop (r ∷ results) buffer)
unfolding write_loop
round-Splits n status true results buffer ih = (take-drop n buffer, λ clean. cc)
round-Splits n again false results buffer ih = (take-drop n buffer, λ clean. refl)
round-Splits n eof false results buffer ih = (take-drop n buffer, λ clean. refl)
round-Splits n io_error false results buffer ih = (take-drop n buffer, λ clean. refl)
round-Splits n normal false results buffer ih =
    let left = drop n buffer in
    let (all_there, ends) = ih left in
    elim (Bool-cases (ltb 0 (length left))) [
      | inl more ↦ rw more (
        append_assoc (take n buffer) _ _
            ∙ ap (λ rest. take n buffer ++ rest) all_there
            ∙ take-drop n buffer,
        λ clean. ends clean.1,
      )
      | inr none_left ↦ rw none_left (take-drop n buffer, λ clean. refl)
    ]

pub write_loop-Splits :
    (results : List WriteResult) (buffer : List ℕ)
    → Splits buffer results (write_loop results buffer)
unfolding write_loop
write_loop-Splits [] buffer = (refl, λ clean. refl)
write_loop-Splits (r ∷ results) buffer =
    round-Splits (r.written) (r.status) (r.has_error) results buffer (write_loop-Splits results)

pub nothing_left : (left : List ℕ) → ltb 0 (length left) ≡ false → left ≡ []
nothing_left [] e = refl
nothing_left (b ∷ left) e = ground arith

pub WriteSource-cases : (w : WriteSource) → (w ≡ no_source) ⊎ ((w ≡ attached) ⊎ (w ≡ detached))
WriteSource-cases no_source = inl refl
WriteSource-cases attached = inr (inl refl)
WriteSource-cases detached = inr (inr refl)

-- A socket, with all the bytes that it was given to write and all that its channel took.
pub record Sending {ℓ} (S : Type ℓ) : Type ℓ where
  pub sock : ClientSocket S
  pub given : List ℕ
  pub sent : List ℕ

module _ {ℓ} {S : Type ℓ} where
  abbrev pub flushed : List WriteResult → Sending S → Sending S
  flushed results st =
      let (kept, more, sock) = dispatch_client_write false results (st.sock) in
      record st { sock = sock; sent = st.sent ++ more }

  abbrev pub connected : Sending S → Sending S
  connected st = record st { sock = add_client (st.sock) }

  -- The socket gets its server, the program writes, or the main loop calls back since the channel
  -- can be written.
  pub data Step : Sending S → Sending S → Type ℓ where
    connect : (st : Sending S) → Step st (connected st)
    write :
        (st : Sending S) (bytes : List ℕ) (sock : ClientSocket S)
        → client_socket_write bytes (st.sock) ≡ some sock
        → Step st (record st { sock = sock; given = st.given ++ bytes })
    flush :
        (st : Sending S) (results : List WriteResult)
        → st.sock.write_source ≡ attached
        → Step st (flushed results st)

  pub data Reach (st : Sending S) : Sending S → Type ℓ where
    here : Reach st st
    next : {t u : Sending S} → Reach st t → Step t u → Reach st u

  abbrev pub IsInOrder : Sending S → Type 0
  IsInOrder st =
      (st.sent ++ st.sock.send_buffer ≡ st.given)
      × (st.sock.write_source ≡ no_source → st.sock.send_buffer ≡ [])

  client_socket_write_lem :
      (bytes : List ℕ) (sock sock' : ClientSocket S)
      → client_socket_write bytes sock ≡ some sock'
      → (sock'.send_buffer ≡ sock.send_buffer ++ bytes) × (sock'.write_source ≢ no_source)
  unfolding client_socket_write
  client_socket_write_lem bytes sock sock' e = elim (Bool-cases (sock.has_server)) [
    | inr off ↦ let never = rw (client_socket_write, off) at e in absurd (cc)
    | inl on ↦ elim (WriteSource-cases (sock.write_source)) [
      | inl w ↦
          let done = some-injective _ _ (rw (client_socket_write, on, w) at e) in
          (ap (λ s. s.send_buffer) (sym done), λ p. cc (ap (λ s. s.write_source) done))
      | inr (inl w) ↦
          let done = some-injective _ _ (rw (client_socket_write, on, w) at e) in
          (ap (λ s. s.send_buffer) (sym done), λ p. cc (ap (λ s. s.write_source) done))
      | inr (inr w) ↦
          let done = some-injective _ _ (rw (client_socket_write, on, w) at e) in
          (ap (λ s. s.send_buffer) (sym done), λ p. cc (ap (λ s. s.write_source) done))
    ]
  ]

  write-IsInOrder :
      (st : Sending S) (bytes : List ℕ) (sock : ClientSocket S)
      → client_socket_write bytes (st.sock) ≡ some sock
      → IsInOrder st
      → IsInOrder (record st { sock = sock; given = st.given ++ bytes })
  write-IsInOrder st bytes sock e inv =
      let (buffer, watched) = client_socket_write_lem bytes (st.sock) sock e in
      (
        rw buffer
            (sym (append_assoc (st.sent) (st.sock.send_buffer) bytes) ∙ ap (λ g. g ++ bytes) inv.0),
        λ no_watch. absurd (watched no_watch),
      )

  -- What a call of `dispatch_client_write` that is due leaves behind.
  abbrev pub Flushes : List WriteResult → ClientSocket S → Bool × List ℕ × ClientSocket S → Type 0
  Flushes results sock (kept, sent, sock') =
      (sent ++ sock'.send_buffer ≡ sock.send_buffer)
      × (sock'.write_source ≡ no_source → sock'.send_buffer ≡ [])
      × (IsClean results → (sock'.write_source ≡ attached) ⊎ ((sock'.write_source ≡ no_source)))

  pub dispatch_client_write-Flushes :
      (results : List WriteResult) (sock : ClientSocket S)
      → sock.write_source ≡ attached
      → Flushes results sock (dispatch_client_write false results sock)
  unfolding dispatch_client_write
  dispatch_client_write-Flushes results sock watched =
      let (split, ends) = write_loop-Splits results (sock.send_buffer) in
      let (ended, sent, left) = write_loop results (sock.send_buffer) in
      elim (Bool-cases ended) [
        | inr failed ↦ rw (dispatch_client_write, failed) (split, λ p. cc, λ clean. cc (ends clean))
        | inl done ↦ elim (Bool-cases (ltb 0 (length left))) [
          | inl more ↦ rw (dispatch_client_write, done, more) (split, λ p. cc, λ clean. inl watched)
          | inr none_left ↦
              rw (dispatch_client_write, done, none_left)
                (split, λ p. nothing_left left none_left, λ clean. inr refl)
        ]
      ]

  pub flush-IsInOrder :
      (st : Sending S) (results : List WriteResult)
      → st.sock.write_source ≡ attached
      → IsInOrder st
      → IsInOrder (flushed results st)
  flush-IsInOrder st results watched inv =
      let (split, empty, _) = dispatch_client_write-Flushes results (st.sock) watched in
      (append_assoc (st.sent) _ _ ∙ ap (λ rest. st.sent ++ rest) split ∙ inv.0, empty)

  Reach-IsInOrder : {st st' : Sending S} → IsInOrder st → Reach st st' → IsInOrder st'
  unfolding add_client
  Reach-IsInOrder inv here = inv
  Reach-IsInOrder inv (next reach (connect st)) = Reach-IsInOrder inv reach
  Reach-IsInOrder inv (next reach (write st bytes sock e)) =
      write-IsInOrder st bytes sock e (Reach-IsInOrder inv reach)
  Reach-IsInOrder inv (next reach (flush st results watched)) =
      flush-IsInOrder st results watched (Reach-IsInOrder inv reach)

  abbrev pub fresh : S → Sending S
  fresh protocol_data = record { sock = client_socket_new protocol_data; given = []; sent = [] }

  -- From a new socket on, whatever is written and whatever its channel takes or reports: what the
  -- channel has taken, followed by the send buffer, is all that was written, in order; and a socket
  -- without a watch on the channel has nothing left in its buffer. A watch that the main loop has
  -- dropped after an error is still the socket's, and bytes may stay behind it.
  pub Reach-fresh-IsInOrder :
      (protocol_data : S) {st : Sending S} → Reach (fresh protocol_data) st → IsInOrder st
  unfolding client_socket_new
  Reach-fresh-IsInOrder protocol_data reach = Reach-IsInOrder (refl, λ p. refl) reach
