-- ===== src/Noise/Exchange.antt =====
-- network/noise/noise.go: a request to another node, and the wait for its ack.
use white_noise.Prelude.{
  ◌≡◌, refl, inl, inr, true, false, Option, none, some, List, ◌∷◌, Bytes, Option-cases,
}
use white_noise.Errors.{Error, timeout, Outcome, ok, err}
use white_noise.Wire.{or_nil}
use white_noise.Services.{Effect, wrote, task_added, task_deleted, write_to, await_ack}
use white_noise.Proxy.State.{Request}
use white_noise.Noise.{NoiseEnv, exchange}

module _ (env : NoiseEnv) where
  open env use {proxy}
  open proxy use {around, codecs}

  -- The log of an exchange that was answered.
  abbrev pub exchanged : Bytes → Request → List Effect → List Effect
  exchanged peer req log =
      task_deleted req.req_id
      ∷ task_added req.req_id
      ∷ wrote peer (or_nil (codecs.request.marshal req))
      ∷ log

  -- How an exchange ends: an error, or an ack of success under the request's id.
  pub data Exchanged (peer : Bytes) (req : Request) (log : List Effect)
      : List Effect × Option (Outcome Bytes) → Type 0 where
    failed : (log' : List Effect) (e : Error) → Exchanged peer req log (log', some (err e))
    succeeded :
        (bytes : Bytes)
        → around.ack_result
            (task_added req.req_id ∷ wrote peer (or_nil (codecs.request.marshal req)) ∷ log)
            req.req_id
          ≡ some (true, bytes)
        → Exchanged peer req log (exchanged peer req log, some (ok bytes))

  pub exchange-Exchanged :
      (peer : Bytes) (req : Request) (refused : Bytes → Error) (log : List Effect)
      → Exchanged peer req log (exchange env peer req refused log)
  unfolding exchange
  exchange-Exchanged peer req refused log = elim (Option-cases (around.write_error log peer)) [
    | inr (e, f) ↦ rw (exchange, write_to, f) (failed log e)
    | inl f ↦
        let log' = wrote peer (or_nil (codecs.request.marshal req)) ∷ log in
        elim (Option-cases (around.ack_result (task_added req.req_id ∷ log') req.req_id)) [
          | inl g ↦ rw (exchange, write_to, f, await_ack, g) (failed _ timeout)
          | inr ((true, bytes), g) ↦ rw (exchange, write_to, f, await_ack, g) (succeeded bytes g)
          | inr ((false, bytes), g) ↦
              rw (exchange, write_to, f, await_ack, g) (failed _ (refused bytes))
        ]
  ]

  pub exchange_acked :
      (peer : Bytes) (req : Request) (refused : Bytes → Error) (log : List Effect) (bytes : Bytes)
      → around.write_error log peer ≡ none
      → around.ack_result
          (task_added req.req_id ∷ wrote peer (or_nil (codecs.request.marshal req)) ∷ log)
          req.req_id
        ≡ some (true, bytes)
      → exchange env peer req refused log ≡ (exchanged peer req log, some (ok bytes))
  unfolding exchange
  exchange_acked peer req refused log bytes f g = rw (exchange, write_to, f, await_ack, g) refl
