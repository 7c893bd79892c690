-- ===== src/Secure/Framing/Delivery.antt =====
-- secure/rw.go: Write and Read together. What one end writes the other end gets, read to the end.
use white_noise.Prelude.{
  ℕ, zero, suc, ◌+◌, ◌*◌, ◌-◌, ◌≤◌, ◌<◌, ◌≡◌, sym, refl, ap, subst, inl, inr, Option, none, some,
  [], ◌∷◌, ◌++◌, arith, Bytes, length, length-append, Option-cases,
}
use white_noise.Errors.{Error, ok, err, panic}
use white_noise.Secure.Framing.{write, Reader, read}
use white_noise.Secure.Framing.Wire.{IsCipher, pieces, concat-pieces, pieces-IsFit}
use white_noise.Secure.Framing.Writing.{write_lem}
use white_noise.Secure.Framing.Reading.{
  Holds, nothing_queued, Progress, with_queue, credit, read_progress,
}

abbrev pub map_result : Bytes → Option Bytes → Option Bytes
map_result out o = elim o [ none ↦ none | some xs ↦ some (out ++ xs) ]

-- Reads into buffers of `n` bytes until `want` bytes came: the bytes, or `none` after an error.
abbrev pub collect :
    {K : Type 0} → (K → Bytes → Option (K × Bytes)) → ℕ → ℕ → ℕ → Reader K → Option Bytes
collect decrypt f n zero r = some []
collect decrypt zero n (suc want) r = none
collect decrypt (suc f) n (suc want) r =
    let (r', o) = read decrypt n r in
    elim o [
      | ok out ↦ map_result out (collect decrypt f n (suc want - length out) r')
      | err _ ↦ none
      | panic ↦ none
    ]

module _ {K : Type 0} {encrypt : K → Bytes → K × Bytes} {decrypt : K → Bytes → Option (K × Bytes)}
    (cipher : IsCipher encrypt decrypt) where
  credit_range :
      (left : Bytes) (r : Reader K)
      → (2 * length left ≤ credit cipher left r) × (credit cipher left r ≤ 2 * length left + 1)
  credit_range left r = elim (Option-cases r.qbuf) [
    | inl e ↦ rw e (omega arith, omega arith)
    | inr (q, e) ↦ rw e (omega arith, omega arith)
  ]

  collect-credit :
      (f n want : ℕ) (left : Bytes) (r : Reader K)
      → 0 < n
      → Holds cipher left r
      → want ≡ length left
      → credit cipher left r ≤ f
      → collect decrypt f n want r ≡ some left
  collect-credit f n zero [] r positive holds e enough = refl
  collect-credit f n zero (x ∷ left) r positive holds e enough = absurd (omega arith)
  collect-credit zero n (suc want) left r positive holds e enough =
      absurd (omega (arith, (credit_range left r).0))
  collect-credit (suc f) n (suc want) left r positive holds e enough =
      let p : Progress cipher n left r =
        read_progress cipher n left r positive (omega arith) holds in
      let further : collect decrypt f n (suc want - length p.out) p.next ≡ some p.next_left =
        collect-credit f n (suc want - length p.out) p.next_left p.next positive p.holds
          (omega (arith, length-append p.out p.next_left, ap length p.split))
          (omega (arith, p.spent)) in
      rw (collect, p.result) (rw p.result (rw further (ap some (sym p.split))))

  collect-Holds :
      (f n : ℕ) (left : Bytes) (r : Reader K)
      → 0 < n
      → Holds cipher left r
      → 2 * length left < f
      → collect decrypt f n (length left) r ≡ some left
  collect-Holds f n left r positive holds enough =
      collect-credit f n (length left) left r positive holds refl
        (omega (arith, (credit_range left r).1))

  -- While the connection takes its writes, Write of any data that is not empty counts all of it
  -- and reports no error, and a receiver in the same cipher state that has what was sent on its
  -- connection, and nothing queued, gives exactly the data back, by at most 2 * length + 1 calls
  -- of Read with buffers of any one positive size, for a cipher with a tag of 16 bytes whose two
  -- ends come in step.
  pub collect-write :
      (conn_error : Bytes → Option Error)
      → ((sent : Bytes) → conn_error sent ≡ none)
      → (n : ℕ) (k : K) (x : ℕ) (xs : Bytes) → 0 < n
      → let w = write encrypt conn_error (x ∷ xs) (record { enc = some k; sent = [] }) in
        (w.1 ≡ length (x ∷ xs))
        × (w.2 ≡ none)
        × (collect decrypt
              (2 * length (x ∷ xs) + 1)
              n
              (length (x ∷ xs))
              (record { dec = some k; qbuf = none; qseek = 0; incoming = w.0.sent })
            ≡ some (x ∷ xs))
  collect-write conn_error healthy n k x xs positive =
      rw (write_lem encrypt conn_error healthy k x xs []) (
        refl,
        refl,
        collect-Holds (2 * length (x ∷ xs) + 1) n (x ∷ xs) _ positive
            (subst
              (λ left.
                Holds cipher left (with_queue cipher k none 0 (pieces (length (x ∷ xs)) (x ∷ xs))))
              (concat-pieces (length (x ∷ xs)) (x ∷ xs) (omega arith))
              (nothing_queued k 0 (pieces (length (x ∷ xs)) (x ∷ xs))
                (pieces-IsFit (length (x ∷ xs)) (x ∷ xs))))
            (omega arith),
      )

  -- Write after other data, whose connection takes it: what a receiver of the other data is to read.
  pub write_after :
      (conn_error : Bytes → Option Error)
      → ((sent : Bytes) → conn_error sent ≡ none)
      → (n : ℕ) (k : K) (x : ℕ) (xs sent : Bytes) → 0 < n
      → let w = write encrypt conn_error (x ∷ xs) (record { enc = some k; sent = sent }) in
        (w.1 ≡ length (x ∷ xs))
        × (w.2 ≡ none)
        × (wire : Bytes) × (w.0.sent ≡ sent ++ wire)
        × (collect decrypt
              (2 * length (x ∷ xs) + 1)
              n
              (length (x ∷ xs))
              (record { dec = some k; qbuf = none; qseek = 0; incoming = wire })
            ≡ some (x ∷ xs))
  write_after conn_error healthy n k x xs sent positive =
      let wire = (write encrypt conn_error (x ∷ xs) (record { enc = some k; sent = [] })).0.sent in
      let (counted, no_error, back) = collect-write conn_error healthy n k x xs positive in
      rw (write_lem encrypt conn_error healthy k x xs sent)
        (refl, refl, wire, rw (write_lem encrypt conn_error healthy k x xs []) refl, back)
