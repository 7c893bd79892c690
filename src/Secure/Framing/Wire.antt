-- ===== src/Secure/Framing/Wire.antt =====
-- What a SecureSession puts on the connection for a list of pieces, and what is asked of the noise
-- library's cipher states: an authentication tag of 16 bytes, and a receiver that is in the sender's
-- state and gets a message back is then in the sender's next state.
use white_noise.Prelude.{
  ℕ, zero, suc, ◌+◌, ◌≤◌, ◌<◌, ◌≡◌, Option, some, List, [], ◌∷◌, ◌++◌, refl, arith, Bytes, length,
  take, drop, concat, All, take-append-drop, length-take, length-drop,
}
use white_noise.Secure.Words.{put_uint16}
use white_noise.Secure.Framing.{max_plaintext_length}

pub record IsCipher {K : Type 0} (encrypt : K → Bytes → K × Bytes)
    (decrypt : K → Bytes → Option (K × Bytes)) : Type 0 where
  pub tag_length : (k : K) (p : Bytes) → length (encrypt k p).1 ≡ length p + 16
  pub round_trip : (k : K) (p : Bytes) → decrypt k (encrypt k p).1 ≡ some ((encrypt k p).0, p)

module _ {K : Type 0} (encrypt : K → Bytes → K × Bytes) where
  abbrev pub wire_of : K → List Bytes → Bytes
  wire_of k [] = []
  wire_of k (p ∷ ps) =
      (put_uint16 (length (encrypt k p).1) ++ (encrypt k p).1) ++ wire_of (encrypt k p).0 ps

  abbrev pub key_after : K → List Bytes → K
  key_after k [] = k
  key_after k (p ∷ ps) = key_after (encrypt k p).0 ps

-- A piece as Write makes it.
abbrev pub IsFit : Bytes → Type 0
IsFit p = (0 < length p) × (length p ≤ 65519)

-- The pieces that Write cuts the data into.
abbrev pub pieces : ℕ → Bytes → List Bytes
pieces zero rest = []
pieces (suc f) [] = []
pieces (suc f) (x ∷ xs) =
    take max_plaintext_length (x ∷ xs) ∷ pieces f (drop max_plaintext_length (x ∷ xs))

pub concat-pieces : (f : ℕ) (data' : Bytes) → length data' ≤ f → concat (pieces f data') ≡ data'
concat-pieces zero [] h = refl
concat-pieces zero (x ∷ xs) h = absurd (omega arith)
concat-pieces (suc f) [] h = refl
concat-pieces (suc f) (x ∷ xs) h =
    rw
      (concat-pieces f (drop max_plaintext_length (x ∷ xs))
        (omega (arith, length-drop max_plaintext_length (x ∷ xs))))
      (take-append-drop max_plaintext_length (x ∷ xs))

pub pieces-IsFit : (f : ℕ) (data' : Bytes) → All IsFit (pieces f data')
pieces-IsFit zero data' = tt
pieces-IsFit (suc f) [] = tt
pieces-IsFit (suc f) (x ∷ xs) = (
  (
    omega (arith, length-take max_plaintext_length (x ∷ xs)),
    omega (arith, length-take max_plaintext_length (x ∷ xs)),
  ),
  pieces-IsFit f (drop max_plaintext_length (x ∷ xs)),
)
