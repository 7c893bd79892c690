-- ===== src/Secure/Framing/Writing.antt =====
-- secure/rw.go, Write: what it leaves on the connection.
use white_noise.Prelude.{
  ℕ, zero, suc, ◌+◌, ◌≤◌, ◌≡◌, ◌∙◌, sym, Option, none, some, [], ◌∷◌, ◌++◌, arith, Bytes, length,
  take, drop, length-take, length-drop,
}
use white_noise.Errors.{Error}
use white_noise.Secure.Words.{put_uint16}
use white_noise.Secure.Framing.{max_plaintext_length, write_loop, write}
use white_noise.Secure.Framing.Wire.{wire_of, key_after, pieces}
use native.Mathlib.Nat.{zero-add}
use mathlib.Core.List.{append_assoc, append-nil}

abbrev Progress : Type 0 → Type 0
Progress K = record { key : K; sent : Bytes; written : ℕ; error : Option Error }

module _ {K : Type 0} (encrypt : K → Bytes → K × Bytes) (conn_error : Bytes → Option Error)
    (healthy : (sent : Bytes) → conn_error sent ≡ none) where
  same_progress :
      (k : K) {sent sent' : Bytes} {n n' : ℕ}
      → sent ≡ sent'
      → n ≡ n'
      → ◌≡◌ {A = Progress K}
          (record { key = k; sent = sent; written = n; error = none })
          (record { key = k; sent = sent'; written = n'; error = none })
  same_progress k e f = rw (e, f)

  write_loop_lem :
      (f : ℕ) (k : K) (sent : Bytes) (n : ℕ) (rest : Bytes)
      → length rest ≤ f
      → write_loop encrypt conn_error f k sent n rest ≡ record {
        key = key_after encrypt k (pieces f rest);
        sent = sent ++ wire_of encrypt k (pieces f rest);
        written = n + length rest;
        error = none;
      }
  unfolding write_loop
  write_loop_lem zero k sent n [] h = same_progress k (sym (append-nil sent)) (omega arith)
  write_loop_lem zero k sent n (x ∷ xs) h = absurd (omega arith)
  write_loop_lem (suc f) k sent n [] h = same_progress k (sym (append-nil sent)) (omega arith)
  write_loop_lem (suc f) k sent n (x ∷ xs) h =
      let piece : Bytes = take max_plaintext_length (x ∷ xs) in
      let c : Bytes = (encrypt k piece).1 in
      let rest : Bytes = drop max_plaintext_length (x ∷ xs) in
      rw (write_loop, healthy sent)
        (write_loop_lem f (encrypt k piece).0 (sent ++ (put_uint16 (length c) ++ c))
            (n + length piece) rest (omega (arith, length-drop max_plaintext_length (x ∷ xs)))
          ∙ same_progress (key_after encrypt (encrypt k piece).0 (pieces f rest))
              (append_assoc sent (put_uint16 (length c) ++ c)
                (wire_of encrypt (encrypt k piece).0 (pieces f rest)))
              (omega (
                arith,
                length-take max_plaintext_length (x ∷ xs),
                length-drop max_plaintext_length (x ∷ xs),
              )))

  pub write_lem :
      (k : K) (x : ℕ) (xs sent : Bytes)
      → write encrypt conn_error (x ∷ xs) (record { enc = some k; sent = sent }) ≡ (
        record {
          enc = some (key_after encrypt k (pieces (length (x ∷ xs)) (x ∷ xs)));
          sent = sent ++ wire_of encrypt k (pieces (length (x ∷ xs)) (x ∷ xs));
        },
        length (x ∷ xs),
        none,
      )
  unfolding write
  write_lem k x xs sent =
      rw (write_loop_lem (length (x ∷ xs)) k sent 0 (x ∷ xs) (omega arith), zero-add)
