-- ===== src/Frame/Prefix.antt =====
-- The framing of messages: a part of a stream of frames is complete frames and an incomplete one.
use mathlib.Core.List.{append_assoc}
use gnu_gzochi.Base.{
  ℕ, ◌<◌, ◌≡◌, ◌⊎◌, inl, inr, refl, sym, ap, ◌∙◌, some, List, [], ◌∷◌, ◌++◌, length, length-append,
  arith, All,
}
use gnu_gzochi.Io.{read_short}
use gnu_gzochi.Io.RoundTrip.{read_short_lem}
use gnu_gzochi.Frame.Stream.{Message, IsShort, IsIncomplete, frame, stream}

split_append {ℓ} :
    {A : Type ℓ} (p f q r : List A)
    → p ++ q ≡ f ++ r
    → ((p' : List A) × (p ≡ f ++ p') × (p' ++ q ≡ r))
      ⊎ ((f' : List A) × (f ≡ p ++ f') × (length p < length f))
split_append p [] q r e = inl (p, refl, e)
split_append [] (x ∷ f) q r e = inr (x ∷ f, refl, omega arith)
split_append (b ∷ p) (x ∷ f) q r e =
    let head : b ≡ x = cc in
    let tail : p ++ q ≡ f ++ r = cc in
    elim (split_append p f q r tail) [
      | inl (p', whole, rest) ↦ inl (p', cc, rest)
      | inr (f', part, fewer) ↦ inr (f', cc, omega arith)
    ]

-- Either it is too short to have a length, or its length is that of what it is the front of.
read_front : (p q : List ℕ) → (length p < 3) ⊎ (read_short (p ++ q) 0 ≡ read_short p 0)
unfolding read_short
read_front [] q = inl (omega arith)
read_front (a ∷ []) q = inl (omega arith)
read_front (a ∷ b ∷ p) q = inr refl

front-IsIncomplete : (p q : List ℕ) → IsIncomplete (p ++ q) → IsIncomplete p
front-IsIncomplete p q (inl few) = inl (omega (arith, length-append p q))
front-IsIncomplete p q (inr (n, read, short, few)) = elim (read_front p q) [
  | inl fewer ↦ inl fewer
  | inr same ↦ inr (n, sym same ∙ read, short, omega (arith, length-append p q))
]

frame_front-IsIncomplete :
    (m : Message) (p f' : List ℕ)
    → IsShort m
    → frame m ≡ p ++ f'
    → length p < length (frame m)
    → IsIncomplete p
frame_front-IsIncomplete m p f' short e fewer = elim (read_front p f') [
  | inl few ↦ inl few
  | inr same ↦
      let n = length (m.payload) in
      let read : read_short (frame m) 0 ≡ some n =
        read_short_lem n [] ((m.opcode) ∷ (m.payload)) (omega arith) in
      inr (n, sym same ∙ ap (λ bytes. read_short bytes 0) (sym e) ∙ read, short, omega arith)
]

-- What has arrived of a stream, `p`, and what is still to come, `q`.
pub stream_front :
    (ms : List Message) (tail p q : List ℕ)
    → All IsShort ms
    → IsIncomplete tail
    → p ++ q ≡ stream ms ++ tail
    → (now later : List Message) × (t : List ℕ) × (p ≡ stream now ++ t)
      × (ms ≡ now ++ later)
      × IsIncomplete t
      × (t ++ q ≡ stream later ++ tail)
stream_front [] tail p q short incomplete e =
    ([], [], p, refl, refl, front-IsIncomplete p q (rw e incomplete), e)
stream_front (m ∷ ms) tail p q short incomplete e =
    elim (split_append p (frame m) q (stream ms ++ tail)
      (e ∙ append_assoc (frame m) (stream ms) tail)) [
        | inl (p', whole, rest) ↦
            let (now, later, t, e1, e2, inc, e3) =
              stream_front ms tail p' q short.1 incomplete rest in
            (
              m ∷ now,
              later,
              t,
              whole ∙ ap (λ r. frame m ++ r) e1 ∙ sym (append_assoc (frame m) (stream now) t),
              ap (◌∷◌ m) e2,
              inc,
              e3,
            )
        | inr (f', part, fewer) ↦
            ([], m ∷ ms, p, refl, refl, frame_front-IsIncomplete m p f' short.0 part fewer, e)
      ]
