-- ===== src/Secure/Framing/Reading.antt =====
-- secure/rw.go, Read: a receiver whose queue and connection hold the pieces of some data gives the data
-- back, whatever the size of the buffers.
use white_noise.Prelude.{
  ℕ, ◌+◌, ◌*◌, ◌≤◌, ◌<◌, ◌≡◌, ◌∙◌, sym, refl, ap, inl, inr, true, false, Option, none, some, List,
  [], ◌∷◌, ◌++◌, arith, Bytes, length, take, drop, leb, ◌==◌, if◌then◌else◌, concat, All,
  length-take, length-drop, length-append, take-append-drop, Bool-cases, take_all, drop-drop,
  drop-length-take,
}
use white_noise.Errors.{ok}
use white_noise.Secure.Words.{put_uint16, uint16-put_uint16}
use white_noise.Secure.Payload.{read_full, read_full-append}
use white_noise.Secure.Framing.{Reader, read, read_next, read_queued, read_message}
use white_noise.Secure.Framing.Wire.{IsCipher, wire_of, IsFit}
use mathlib.Core.List.{append_assoc}

module _ {K : Type 0} {encrypt : K → Bytes → K × Bytes} {decrypt : K → Bytes → Option (K × Bytes)}
    (cipher : IsCipher encrypt decrypt) where
  abbrev pub with_queue : K → Option Bytes → ℕ → List Bytes → Reader K
  with_queue k q seek ps = record {
    dec = some k;
    qbuf = q;
    qseek = seek;
    incoming = wire_of encrypt k ps;
  }

  -- A receiver that still has to give `left`: its queue, and the pieces that are on the connection.
  pub data Holds : Bytes → Reader K → Type 0 where
    nothing_queued :
        (k : K) (seek : ℕ) (ps : List Bytes)
        → All IsFit ps
        → Holds (concat ps) (with_queue k none seek ps)
    some_queued :
        (k : K) (q : Bytes) (seek : ℕ) (ps : List Bytes)
        → All IsFit ps
        → seek ≤ length q
        → Holds (drop seek q ++ concat ps) (with_queue k (some q) seek ps)

  -- The reads that are left to do, at most: Read gives nothing when it finds a queue at its end.
  abbrev pub credit : Bytes → Reader K → ℕ
  credit left r = elim r.qbuf [ none ↦ 2 * length left | some q ↦ 2 * length left + 1 ]

  pub record Progress (n : ℕ) (left : Bytes) (r : Reader K) : Type 0 where
    pub out : Bytes
    pub next_left : Bytes
    pub next : Reader K
    pub result : read decrypt n r ≡ (next, ok out)
    pub split : left ≡ out ++ next_left
    pub fits : length out ≤ n
    pub holds : Holds next_left next
    pub spent : credit next_left next < credit left r

  prefix-length :
      (c rest : Bytes)
      → read_full 2 ((put_uint16 (length c) ++ c) ++ rest) ≡ some (put_uint16 (length c), c ++ rest)
  unfolding read_full
  prefix-length c rest = ground (arith, length-append c rest)

  read_fresh :
      (n : ℕ) (k : K) (p : Bytes) (ps : List Bytes) (seek : ℕ)
      → length p ≤ 65519
      → let k' = (encrypt k p).0 in
        read decrypt n (with_queue k none seek (p ∷ ps)) ≡ (
          if leb (length (encrypt k p).1) n
          then (with_queue k' none seek ps, ok p)
          else (with_queue k' (some p) (length (take n p)) ps, ok (take n p)))
  unfolding read read_next read_message
  read_fresh n k p ps seek h =
      let c : Bytes = (encrypt k p).1 in
      let tail : Bytes = wire_of encrypt (encrypt k p).0 ps in
      rw
        (
          read,
          read_next,
          prefix-length c tail,
          read_message,
          uint16-put_uint16 (length c) (omega (arith, cipher.tag_length k p)),
          read_full-append (length c) c tail refl,
          cipher.round_trip k p,
        )
        (rw (uint16-put_uint16 (length c) (omega (arith, cipher.tag_length k p))))

  split_at : (n : ℕ) (p rest : Bytes) → p ++ rest ≡ take n p ++ (drop (length (take n p)) p ++ rest)
  split_at n p rest =
      ap (λ xs. xs ++ rest) (sym (take-append-drop n p))
      ∙ append_assoc (take n p) (drop n p) rest
      ∙ ap (λ xs. take n p ++ (xs ++ rest)) (sym (drop-length-take n p))

  read_last :
      (n : ℕ) (k : K) (q : Bytes) (seek : ℕ) (ps : List Bytes)
      → seek ≤ length q
      → (seek + length (take n (drop seek q)) == length q) ≡ true
      → read decrypt n (with_queue k (some q) seek ps)
        ≡ (with_queue k none 0 ps, ok (take n (drop seek q)))
  unfolding read read_queued
  read_last n k q seek ps h e = ground (arith, e)

  read_more :
      (n : ℕ) (k : K) (q : Bytes) (seek : ℕ) (ps : List Bytes)
      → seek ≤ length q
      → (seek + length (take n (drop seek q)) == length q) ≡ false
      → read decrypt n (with_queue k (some q) seek ps) ≡ (
        with_queue k (some q) (seek + length (take n (drop seek q))) ps,
        ok (take n (drop seek q)),
      )
  unfolding read read_queued
  read_more n k q seek ps h e = ground (arith, e)

  fresh_step :
      (n : ℕ) (k : K) (p : Bytes) (ps : List Bytes) (seek : ℕ)
      → 0 < n
      → IsFit p
      → All IsFit ps
      → Progress n (p ++ concat ps) (with_queue k none seek (p ∷ ps))
  fresh_step n k p ps seek positive fit all_fit =
      elim (Bool-cases (leb (length (encrypt k p).1) n)) [
        | inl e ↦ record {
          out = p;
          next_left = concat ps;
          next = with_queue (encrypt k p).0 none seek ps;
          result = read_fresh n k p ps seek fit.1 ∙ rw e;
          split = refl;
          fits = ground (arith, e, cipher.tag_length k p);
          holds = nothing_queued (encrypt k p).0 seek ps all_fit;
          spent = omega (arith, length-append p (concat ps), fit.0);
        }
        | inr e ↦ record {
          out = take n p;
          next_left = drop (length (take n p)) p ++ concat ps;
          next = with_queue (encrypt k p).0 (some p) (length (take n p)) ps;
          result = read_fresh n k p ps seek fit.1 ∙ rw e;
          split = split_at n p (concat ps);
          fits = omega (arith, length-take n p);
          holds =
              some_queued (encrypt k p).0 p (length (take n p)) ps all_fit
                (omega (arith, length-take n p));
          spent = omega (
            arith,
            length-append p (concat ps),
            length-append (drop (length (take n p)) p) (concat ps),
            length-drop (length (take n p)) p,
            length-take n p,
            fit.0,
          );
        }
      ]

  queued_step :
      (n : ℕ) (k : K) (q : Bytes) (seek : ℕ) (ps : List Bytes)
      → 0 < n
      → seek ≤ length q
      → All IsFit ps
      → Progress n (drop seek q ++ concat ps) (with_queue k (some q) seek ps)
  queued_step n k q seek ps positive h all_fit =
      let copied : Bytes = take n (drop seek q) in
      let next_seek : ℕ = seek + length copied in
      elim (Bool-cases (next_seek == length q)) [
        | inl e ↦ record {
          out = copied;
          next_left = concat ps;
          next = with_queue k none 0 ps;
          result = read_last n k q seek ps h e;
          split =
              ap (λ xs. xs ++ concat ps)
                (sym (
                  take_all n (drop seek q)
                    (ground (arith, e, length-take n (drop seek q), length-drop seek q))));
          fits = omega (arith, length-take n (drop seek q));
          holds = nothing_queued k 0 ps all_fit;
          spent = omega (arith, length-append (drop seek q) (concat ps));
        }
        | inr e ↦ record {
          out = copied;
          next_left = drop next_seek q ++ concat ps;
          next = with_queue k (some q) next_seek ps;
          result = read_more n k q seek ps h e;
          split =
              split_at n (drop seek q) (concat ps)
              ∙ ap (λ xs. copied ++ (xs ++ concat ps)) (sym (drop-drop seek (length copied) q));
          fits = omega (arith, length-take n (drop seek q));
          holds =
              some_queued k q next_seek ps all_fit
                (omega (arith, length-take n (drop seek q), length-drop seek q));
          spent = ground (
            arith,
            e,
            length-append (drop seek q) (concat ps),
            length-append (drop next_seek q) (concat ps),
            length-drop seek q,
            length-drop next_seek q,
            length-take n (drop seek q),
          );
        }
      ]

  pub read_progress :
      (n : ℕ) (left : Bytes) (r : Reader K)
      → 0 < n
      → 0 < length left
      → Holds left r
      → Progress n left r
  read_progress n _ _ positive some_left (nothing_queued k seek [] all_fit) = absurd (omega arith)
  read_progress n _ _ positive some_left (nothing_queued k seek (p ∷ ps) all_fit) =
      fresh_step n k p ps seek positive all_fit.0 all_fit.1
  read_progress n _ _ positive some_left (some_queued k q seek ps all_fit h) =
      queued_step n k q seek ps positive h all_fit
