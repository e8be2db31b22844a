-- ===== src/Frame/Long.antt =====
-- The framing of messages: a payload of 65535 bytes, with which the length that counts the opcode
-- wraps around to 0; and the rounds that the loop takes.
use gnu_gzochi.Base.{
  ℕ, zero, suc, ◌+◌, ◌-◌, ◌%◌, ◌^◌, ◌<◌, ◌≤◌, ◌≡◌, refl, ◌∙◌, none, some, ◌≢◌, inl, inr, false,
  Option, List, [], ◌∷◌, ◌++◌, length, arith, drop, All, ltb, Bool-cases, Option-cases,
}
use gnu_gzochi.Io.{read_short}
use gnu_gzochi.Frame.{
  Run, undefined, stuck, can_dispatch, dispatch_message, dispatch_loop, client_dispatch,
}
use gnu_gzochi.Frame.Stream.{Message, IsShort, stream, handle_all, Handles, dispatch_loop-stream}

length-drop : (k : ℕ) (bytes : List ℕ) → length (drop k bytes) ≡ length bytes - k
length-drop zero bytes = omega arith
length-drop (suc k) [] = omega arith
length-drop (suc k) (b ∷ bytes) = omega (arith, length-drop k bytes)

module _ {ℓ} {S : Type ℓ} where
  dispatch_loop-ne-stuck :
      (fuel : ℕ) (dispatch : S → List ℕ → ℕ → Option S) (s : S) (bytes : List ℕ) (total : ℕ)
      → length bytes < fuel
      → dispatch_loop fuel dispatch s bytes total ≢ stuck
  unfolding dispatch_loop
  dispatch_loop-ne-stuck zero dispatch s bytes total enough = absurd (omega arith)
  dispatch_loop-ne-stuck (suc fuel) dispatch s bytes total enough =
      elim (Bool-cases (ltb (length bytes) 3)) [
        | inl few ↦ rw (dispatch_loop, few) (λ e. cc)
        | inr many ↦ elim (Option-cases (read_short bytes 0)) [
          | inl bad ↦ rw (dispatch_loop, many, bad) (λ e. cc)
          | inr (n, read) ↦
              let len = (n + 1) % 2 ^ 16 in
              elim (Bool-cases (ltb (length bytes - 2) len)) [
                | inl partial ↦ rw (dispatch_loop, many, read, partial) (λ e. cc)
                | inr whole ↦ elim (Option-cases (dispatch s (drop 2 bytes) len)) [
                  | inl bad ↦ rw (dispatch_loop, many, read, whole, bad) (λ e. cc)
                  | inr (s', ok) ↦
                      let rest = drop (len + 2) bytes in
                      let less : length rest < fuel = ground (arith, length-drop (len + 2) bytes) in
                      rw (dispatch_loop, many, read, whole, ok)
                        (dispatch_loop-ne-stuck fuel dispatch s' rest (total + (len + 2)) less)
                ]
              ]
        ]
      ]

  -- Whatever the buffer holds and whatever the messages do, `client_dispatch` ends: its loop takes
  -- two bytes at least in a round.
  pub client_dispatch-ends :
      (dispatch : S → List ℕ → ℕ → Option S) (s : S) (buffer : List ℕ)
      → client_dispatch dispatch s buffer ≢ stuck
  unfolding client_dispatch
  client_dispatch-ends dispatch s buffer =
      dispatch_loop-ne-stuck (suc (length buffer)) dispatch s buffer 0 (omega arith)

module _ {ℓ} {S : Type ℓ} (switch : S → ℕ → List ℕ → ℕ → Option S) (handle : S → ℕ → List ℕ → S)
    (handles : Handles handle switch) where
  -- What becomes of a frame of which the length and the opcode have arrived, and `rest`.
  abbrev pub overrun : ℕ → S → ℕ → List ℕ → ℕ → Run (S × ℕ)
  overrun fuel s op rest total = elim (switch s op rest (2 ^ 16 - 1)) [
    | none ↦ undefined
    | some s' ↦ dispatch_loop fuel (dispatch_message switch) s' (op ∷ rest) (total + 2)
  ]

  overrun_loop :
      (fuel : ℕ) (s : S) (op : ℕ) (rest : List ℕ) (total : ℕ)
      → dispatch_loop (suc fuel) (dispatch_message switch) s (255 ∷ 255 ∷ op ∷ rest) total
        ≡ overrun fuel s op rest total
  unfolding dispatch_loop dispatch_message read_short
  overrun_loop fuel s op rest total =
      let long : ltb (length (255 ∷ 255 ∷ op ∷ rest)) 3 ≡ false = ground arith in
      let whole : ltb (length (255 ∷ 255 ∷ op ∷ rest) - 2) 0 ≡ false = ground arith in
      rw (dispatch_loop, long, whole) refl

  -- Behind complete frames of short messages, a frame whose payload is announced with 65535 bytes
  -- and is still incomplete is dispatched, although `can_dispatch` says of it that it has to wait:
  -- the switch is told of 65535 bytes of payload, more than the buffer holds, and if it returns, the
  -- loop takes the opcode of the frame for the first byte of another one.
  pub client_dispatch-overrun :
      (s : S) (ms : List Message) (op : ℕ) (rest : List ℕ)
      → All IsShort ms
      → length rest < 2 ^ 16 - 1
      → (can_dispatch (255 ∷ 255 ∷ op ∷ rest) ≡ false)
        × ((left : ℕ) × (length rest + 3 ≤ left)
            × (client_dispatch (dispatch_message switch) s (stream ms ++ 255 ∷ 255 ∷ op ∷ rest)
                ≡ overrun left (handle_all handle s ms) op rest (length (stream ms))))
  unfolding client_dispatch can_dispatch read_short
  client_dispatch-overrun s ms op rest short few = (
    ground arith,
    let buffer = stream ms ++ 255 ∷ 255 ∷ op ∷ rest in
        let (left, enough, loop) =
          dispatch_loop-stream switch handle handles ms (suc (length buffer)) s
            (255 ∷ 255 ∷ op ∷ rest) 0 (omega arith) short in
        (
          left,
          omega arith,
          loop
              ∙ overrun_loop left (handle_all handle s ms) op rest (0 + length (stream ms))
              ∙ (let same : 0 + length (stream ms) ≡ length (stream ms) = omega arith in
                  rw same refl),
        ),
  )
