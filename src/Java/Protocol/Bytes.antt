-- ===== src/Java/Protocol/Bytes.antt =====
-- The 4 bytes of a length, and that a round of the reader takes bytes.
use abcoder.Base.{
  ℕ, zero, suc, ◌/◌, ◌%◌, ◌^◌, ◌≤◌, ◌<◌, ◌⊎◌, ◌≡◌, refl, ap, ◌∙◌, List, [], ◌∷◌, Option, some,
  arith, length, length-drop, inl, inr,
}
use abcoder.Base.Text.{Text}
use abcoder.Java.Messages.{AnalyzeResponse, Message}
use abcoder.Java.Protocol.{
  Json, Read, got, failed, ReadError, uint32, read_body, read_message, read_rounds,
  read_all_messages, or_next, iterator_error, with_response,
}

pub uint32-put_uint32 :
    (n : ℕ)
    → n < 2 ^ 32
    → uint32 (n / 16777216 % 256) (n / 65536 % 256) (n / 256 % 256) (n % 256) ≡ n
uint32-put_uint32 n h = omega arith

module _ (J : Json) where
  length-read_body : (n : ℕ) (s : Text) → length (read_body J n s).1 ≤ length s
  unfolding read_body
  length-read_body n s = ground (arith, length-drop n s)

  -- a message that was read took 4 bytes at least
  length-read_message :
      (s : Text) (m : Message)
      → (read_message J s).0 ≡ got m
      → length (read_message J s).1 < length s
  unfolding read_message
  length-read_message [] m h = absurd (cc)
  length-read_message (a ∷ []) m h = absurd (cc)
  length-read_message (a ∷ b ∷ []) m h = absurd (cc)
  length-read_message (a ∷ b ∷ c ∷ []) m h = absurd (cc)
  length-read_message (a ∷ b ∷ c ∷ d ∷ s) m h = omega (arith, length-read_body (uint32 a b c d) s)

  Read-cases :
      (r : Read Message) → ((e : ReadError) × (r ≡ failed e)) ⊎ ((m : Message) × (r ≡ got m))
  Read-cases (failed e) = inl (e, refl)
  Read-cases (got m) = inr (m, refl)

  with_response-some :
      (m : Message) (o : Option (List AnalyzeResponse × Option ReadError))
      → ((x : List AnalyzeResponse × Option ReadError) × (o ≡ some x))
      → (x : List AnalyzeResponse × Option ReadError) × (with_response J m o ≡ some x)
  with_response-some m o ((rest, e), h) = (_, ap (with_response J m) h)

  pub read_rounds-failed :
      (n : ℕ) (s : Text) (e : ReadError)
      → (read_message J s).0 ≡ failed e
      → read_rounds J (suc n) s ≡ some ([], iterator_error J e)
  unfolding read_rounds
  read_rounds-failed n s e h =
      ap (λ r. or_next J r λ m. with_response J m (read_rounds J n (read_message J s).1)) h

  pub read_rounds-got :
      (n : ℕ) (s : Text) (m : Message)
      → (read_message J s).0 ≡ got m
      → read_rounds J (suc n) s ≡ with_response J m (read_rounds J n (read_message J s).1)
  unfolding read_rounds
  read_rounds-got n s m h =
      ap (λ r. or_next J r λ m. with_response J m (read_rounds J n (read_message J s).1)) h

  read_rounds-some :
      (n : ℕ) (s : Text)
      → length s < n
      → (x : List AnalyzeResponse × Option ReadError) × (read_rounds J n s ≡ some x)
  read_rounds-some zero s h = absurd (omega arith)
  read_rounds-some (suc n) s h = elim (Read-cases (read_message J s).0) [
    | inl (e, ends) ↦ (([], iterator_error J e), read_rounds-failed n s e ends)
    | inr (m, reads) ↦
        let rest =
          read_rounds-some n (read_message J s).1 (omega (arith, length-read_message s m reads)) in
        let (x, e) = with_response-some m (read_rounds J n (read_message J s).1) rest in
        (x, read_rounds-got n s m reads ∙ e)
  ]

  -- ReadAllMessages ends on every stream, after as many rounds as the stream has bytes, and one.
  pub read_all_messages-total :
      (s : Text) → (x : List AnalyzeResponse × Option ReadError) × (read_all_messages J s ≡ some x)
  unfolding read_all_messages
  read_all_messages-total s = read_rounds-some (suc (length s)) s (omega arith)
