-- ===== src/Frame/Stream.antt =====
-- The framing of messages: what `client_dispatch` makes of a stream of frames, of which the last may
-- not be complete.
use mathlib.Core.List.{append_assoc}
use native.Mathlib.Numerals.{towards_suc}
use gnu_gzochi.Base.{
  ℕ, zero, suc, ◌+◌, ◌-◌, ◌%◌, ◌^◌, ◌≤◌, ◌<◌, ◌≡◌, ◌⊎◌, inl, inr, refl, ap, ◌∙◌, true, false, leb,
  Option, some, List, [], ◌∷◌, ◌++◌, length, length-append, arith, drop, drop-append, take-append,
  replicate, All, ltb, Bool-cases,
}
use gnu_gzochi.Io.{read_short}
use gnu_gzochi.Io.RoundTrip.{short_bytes, read_short_lem, write_short_lem}
use gnu_gzochi.Frame.{
  done, can_dispatch, reading, dispatch_message, dispatch_loop, client_dispatch, format_message,
}

pub record Message : Type 0 where
  pub opcode : ℕ
  pub payload : List ℕ

-- The length of the message, its opcode counted, fits an `unsigned short`.
abbrev pub IsShort : Message → Type 0
IsShort m = length (m.payload) < 2 ^ 16 - 1

abbrev pub frame : Message → List ℕ
frame m = short_bytes (length (m.payload)) ++ (m.opcode) ∷ (m.payload)

abbrev pub stream : List Message → List ℕ
stream [] = []
stream (m ∷ ms) = frame m ++ stream ms

-- The front of a frame of a short message, without its end.
abbrev pub IsIncomplete : List ℕ → Type 0
IsIncomplete bytes =
    (length bytes < 3)
    ⊎ ((n : ℕ) × (read_short bytes 0 ≡ some n) × (n < 2 ^ 16 - 1) × (length bytes < n + 3))

pub format_message_lem : (m : Message) → IsShort m → format_message (m.opcode) (m.payload) ≡ frame m
unfolding format_message
format_message_lem m short =
    let n = length (m.payload) in
    let buf : replicate {A = ℕ} (n + 3) 0 ≡ 0 ∷ 0 ∷ 0 ∷ replicate n 0 = simp towards_suc in
    let small : n % 2 ^ 16 ≡ n = omega arith in
    rw (buf, small, write_short_lem n [] 0 0 (0 ∷ replicate n 0)) refl

-- A complete frame is what `can_dispatch` waits for.
pub can_dispatch-frame :
    (m : Message) (rest : List ℕ) → IsShort m → can_dispatch (frame m ++ rest) ≡ true
unfolding can_dispatch
can_dispatch-frame m rest short =
    rw (read_short_lem (length (m.payload)) [] ((m.opcode) ∷ (m.payload ++ rest)) (omega arith))
      (ground (arith, length-append (m.payload) rest))

pub can_dispatch-incomplete : (bytes : List ℕ) → IsIncomplete bytes → can_dispatch bytes ≡ false
unfolding can_dispatch
can_dispatch-incomplete bytes (inl few) = ground arith
can_dispatch-incomplete bytes (inr (n, read, short, few)) = rw (read) (ground arith)

module _ {ℓ} {S : Type ℓ} (handle : S → ℕ → List ℕ → S) where
  -- The messages, each after the one before it.
  abbrev pub handle_all : S → List Message → S
  handle_all s [] = s
  handle_all s (m ∷ ms) = handle_all (handle s (m.opcode) (m.payload)) ms

  pub handle_all-append :
      (s : S) (ms more : List Message)
      → handle_all s (ms ++ more) ≡ handle_all (handle_all s ms) more
  handle_all-append s [] more = refl
  handle_all-append s (m ∷ ms) more = handle_all-append (handle s (m.opcode) (m.payload)) ms more

  -- What a switch does with payloads that are whole, whatever is behind them in the memory.
  abbrev pub Handles : (S → ℕ → List ℕ → ℕ → Option S) → Type ℓ
  Handles switch =
      (s : S) (opcode : ℕ) (payload rest : List ℕ)
      → switch s opcode (payload ++ rest) (length payload) ≡ some (handle s opcode payload)

  pub reading-Handles : Handles (reading handle)
  unfolding reading
  reading-Handles s opcode payload rest =
      let fits : leb (length payload) (length (payload ++ rest)) ≡ true =
        ground (arith, length-append payload rest) in
      rw (reading, fits, take-append payload rest) refl

module _ {ℓ} {S : Type ℓ} (switch : S → ℕ → List ℕ → ℕ → Option S) (handle : S → ℕ → List ℕ → S)
    (handles : Handles handle switch) where
  dispatch_message_lem :
      (s : S) (m : Message) (rest : List ℕ)
      → IsShort m
      → dispatch_message switch s ((m.opcode) ∷ (m.payload ++ rest)) (length (m.payload) + 1)
        ≡ some (handle s (m.opcode) (m.payload))
  unfolding dispatch_message
  dispatch_message_lem s m rest short =
      let len : (length (m.payload) + 1 + 2 ^ 16 - 1) % 2 ^ 16 ≡ length (m.payload) = omega arith in
      rw (dispatch_message, len) (handles s (m.opcode) (m.payload) rest)

  dispatch_loop-incomplete :
      (fuel : ℕ) (s : S) (bytes : List ℕ) (total : ℕ)
      → IsIncomplete bytes
      → dispatch_loop (suc fuel) (dispatch_message switch) s bytes total ≡ done (s, total)
  unfolding dispatch_loop
  dispatch_loop-incomplete fuel s bytes total (inl few) =
      let test : ltb (length bytes) 3 ≡ true = ground arith in rw (dispatch_loop, test) refl
  dispatch_loop-incomplete fuel s bytes total (inr (n, read, short, few)) =
      elim (Bool-cases (ltb (length bytes) 3)) [
        | inl test ↦ rw (dispatch_loop, test) refl
        | inr test ↦
            let partial : ltb (length bytes - 2) ((n + 1) % 2 ^ 16) ≡ true = ground arith in
            rw (dispatch_loop, test, read, partial) refl
      ]

  drop-frame :
      (m : Message) (rest : List ℕ) → drop (length (m.payload) + 1 + 2) (frame m ++ rest) ≡ rest
  drop-frame m rest =
      let at : length (m.payload) + 1 + 2 ≡ length (frame m) = omega arith in
      rw at (drop-append (frame m) rest)

  dispatch_loop-frame :
      (fuel : ℕ) (s : S) (m : Message) (rest : List ℕ) (total : ℕ)
      → IsShort m
      → dispatch_loop (suc fuel) (dispatch_message switch) s (frame m ++ rest) total
        ≡ dispatch_loop fuel
            (dispatch_message switch)
            (handle s (m.opcode) (m.payload))
            rest
            (total + length (frame m))
  unfolding dispatch_loop
  dispatch_loop-frame fuel s m rest total short =
      let n = length (m.payload) in
      let total_length = length-append (m.payload) rest in
      let long : ltb (length (frame m ++ rest)) 3 ≡ false = ground arith in
      let len : (n + 1) % 2 ^ 16 ≡ n + 1 = omega arith in
      let whole : ltb (length (frame m ++ rest) - 2) (n + 1) ≡ false = ground arith in
      rw
        (
          dispatch_loop,
          long,
          read_short_lem n [] ((m.opcode) ∷ (m.payload ++ rest)) (omega arith),
          len,
          whole,
          len,
          dispatch_message_lem s m rest short,
          len,
          drop-frame m rest,
        )
        (let taken : n + 1 + 2 ≡ length (frame m) = omega arith in rw taken refl)

  -- The complete frames at the front are handled, and the loop goes on with what is behind them.
  pub dispatch_loop-stream :
      (ms : List Message) (fuel : ℕ) (s : S) (more : List ℕ) (total : ℕ)
      → length (stream ms ++ more) < fuel
      → All IsShort ms
      → (left : ℕ) × (length more ≤ left)
        × (dispatch_loop fuel (dispatch_message switch) s (stream ms ++ more) total
            ≡ dispatch_loop
                (suc left)
                (dispatch_message switch)
                (handle_all handle s ms)
                more
                (total + length (stream ms)))
  dispatch_loop-stream ms zero s more total enough short = absurd (omega arith)
  dispatch_loop-stream [] (suc fuel) s more total enough short =
      let none_taken : total ≡ total + 0 = omega arith in
      (fuel, omega arith, rw (← none_taken) refl)
  dispatch_loop-stream (m ∷ ms) (suc fuel) s more total enough short =
      let taken : total + length (frame m) + length (stream ms)
          ≡ total + length (frame m ++ stream ms) =
        omega (arith, length-append (frame m) (stream ms)) in
      let less : length (stream ms ++ more) < fuel = omega (
        arith,
        length-append (m.payload) (stream ms ++ more),
        ap length (append_assoc (frame m) (stream ms) more),
      ) in
      let (left, enough', rest) =
        dispatch_loop-stream ms fuel (handle s (m.opcode) (m.payload)) more
          (total + length (frame m)) less short.1 in
      (
        left,
        enough',
        ap (λ bytes. dispatch_loop (suc fuel) (dispatch_message switch) s bytes total)
              (append_assoc (frame m) (stream ms) more)
            ∙ dispatch_loop-frame fuel s m (stream ms ++ more) total short.0
            ∙ rest
            ∙ ap
                (λ read.
                  dispatch_loop (suc left) (dispatch_message switch) (handle_all handle s (m ∷ ms))
                    more read)
                taken,
      )

  -- On a buffer of complete frames with an incomplete one behind them, the messages are handled in
  -- order, each once, and the bytes of the complete frames are reported as taken; each message's
  -- length with its opcode fits an `unsigned short`.
  pub client_dispatch-stream :
      (s : S) (ms : List Message) (tail : List ℕ)
      → All IsShort ms
      → IsIncomplete tail
      → client_dispatch (dispatch_message switch) s (stream ms ++ tail)
        ≡ done (handle_all handle s ms, length (stream ms))
  unfolding client_dispatch
  client_dispatch-stream s ms tail short incomplete =
      let (left, _, rest) =
        dispatch_loop-stream ms (suc (length (stream ms ++ tail))) s tail 0 (omega arith) short in
      let from_zero : 0 + length (stream ms) ≡ length (stream ms) = omega arith in
      rw
        (
          rest,
          dispatch_loop-incomplete left (handle_all handle s ms) tail (0 + length (stream ms))
              incomplete,
          from_zero,
        )
        refl
