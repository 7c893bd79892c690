-- ===== src/Errors.antt =====
-- Go's results: a value, an `error`, or a panic that unwinds the goroutine.
-- Each constructor of `Error` is one `errors.New` text of the program; `external` is an error that
-- a library returned, with its text.
use white_noise.Prelude.{Bytes, Option, none, some, ◌≡◌, ◌≢◌, refl, ◌⊎◌, inl, inr}

pub data Error : Type 0 where
  session_not_ready no_such_stream : Error  -- network/session
  relay_no_session empty_pair circuit_no_session : Error  -- relay/manager.go
  unknown_stream cmd_rejected : Bytes → Error
  timeout : Error
  reject entry_failed : Error  -- relay/relay.go
  success_no_session success_not_ready : Bytes → Error
  circuit_conn_missing : Error
  unmarshal_set_session : Bytes → Error
  unmarshal_circuit bad_client no_stream_yet session_full no_joint : Error  -- proxy
  session_missing client_decrypt caller_encrypt : Error
  key_type : Error  -- crypto
  no_handshake unexpected_end bad_cipher : Error  -- secure
  no_proxy circuit_exists peers_rejected peers_malformed : Error  -- network/noise
  register_rejected circuit_rejected : Bytes → Error
  external : Bytes → Error

pub data Outcome {ℓ} (A : Type ℓ) : Type ℓ where
  ok : A → Outcome A
  err : Error → Outcome A
  panic : Outcome A

infixl 5 ◌>>=◌ ◌>>◌
abbrev pub ◌>>=◌ {ℓ κ} : {A : Type ℓ} {B : Type κ} → Outcome A → (A → Outcome B) → Outcome B
ok a >>= f = f a
err e >>= f = err e
panic >>= f = panic

abbrev pub ◌>>◌ {ℓ} : {B : Type ℓ} → Outcome (Unit {0}) → Outcome B → Outcome B
m >> k = m >>= λ _. k

-- The result of a method that returns an `error` alone.
abbrev pub returned : Option Error → Outcome (Unit {0})
returned none = ok tt
returned (some e) = err e

pub Outcome-cases {ℓ} :
    {A : Type ℓ} (o : Outcome A)
    → ((a : A) × (o ≡ ok a)) ⊎ ((e : Error) × (o ≡ err e)) ⊎ (o ≡ panic)
Outcome-cases (ok a) = inl (a, refl)
Outcome-cases (err e) = inr (inl (e, refl))
Outcome-cases panic = inr (inr refl)

pub returned-ne-panic : (e : Option Error) → returned e ≢ panic
returned-ne-panic none h = cc
returned-ne-panic (some e) h = cc
