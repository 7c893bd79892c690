-- ===== src/Sdk/Dialling.antt =====
-- sdk/sdk.go, Dial: its loop ends, and how.
use white_noise.Prelude.{
  ℕ, zero, suc, ◌+◌, ◌≤◌, ◌<◌, ◌≡◌, ◌≢◌, ap, sym, ◌∙◌, subst, inl, inr, Bool, true, false, Option,
  none, some, List, Bytes, Bool-cases, Option-cases, arith,
}
use native.Mathlib.Nat.{eq-or-lt_of_le}
use white_noise.Errors.{Error, timeout, Outcome, ok, err, panic}
use white_noise.Services.{Effect, bind_result, give}
use white_noise.Id
use white_noise.Noise.{Service, NoiseEnv, start_circuit}
use white_noise.Noise.Circuits.{IsCleared, Ended, cleared, accepted, crashed, start_circuit-Ended}
use white_noise.Sdk.{Passing, get_circuit, await_circuit, session_of, dialled, dial}

-- The polls from the `i`-th up to the `k`-th, without the last one, saw no connection and no timer.
abbrev pub Waits : Passing → Bytes → Service → ℕ → ℕ → Type 0
Waits passing sid s i k =
    (j : ℕ)
    → i ≤ j
    → j < k
    → (get_circuit sid (passing.later s j) ≡ none) × (passing.is_over j ≡ false)

-- How the loop ends: at the first poll that sees a connection, with it, or at the first one by which the timer
-- fired, with an error, whichever comes first.
pub data Awaited (passing : Passing) (sid : Bytes) (s : Service) (i n : ℕ)
    : Option (Outcome Bool) → Type 0 where
  connected :
      (k : ℕ) (conn : Bool)
      → k ≤ n
      → Waits passing sid s i k
      → get_circuit sid (passing.later s k) ≡ some conn
      → Awaited passing sid s i n (some (ok conn))
  expired :
      (k : ℕ)
      → k ≤ n
      → Waits passing sid s i k
      → get_circuit sid (passing.later s k) ≡ none
      → passing.is_over k ≡ true
      → Awaited passing sid s i n (some (err timeout))

false-ne-true : false ≢ true
false-ne-true e = cc

module _ (passing : Passing) (sid : Bytes) (s : Service) where
  Waits-longer :
      (i k : ℕ)
      → get_circuit sid (passing.later s i) ≡ none
      → passing.is_over i ≡ false
      → Waits passing sid s (suc i) k
      → Waits passing sid s i k
  Waits-longer i k e f waits j le lt = elim (eq-or-lt_of_le le) [
    | inl eq ↦
        subst (λ m. (get_circuit sid (passing.later s m) ≡ none) × (passing.is_over m ≡ false)) eq
          (e, f)
    | inr more ↦ waits j (omega arith) lt
  ]

  not_yet : (i n : ℕ) → i ≤ n → passing.is_over i ≡ false → passing.is_over n ≡ true → suc i ≤ n
  not_yet i n le f over = elim (eq-or-lt_of_le le) [
    | inl eq ↦ absurd (false-ne-true (sym f ∙ ap passing.is_over eq ∙ over))
    | inr more ↦ omega arith
  ]

  starts_earlier :
      (i n : ℕ) (o : Option (Outcome Bool))
      → get_circuit sid (passing.later s i) ≡ none
      → passing.is_over i ≡ false
      → Awaited passing sid s (suc i) n o
      → Awaited passing sid s i n o
  starts_earlier i n _ e f (connected k conn le waits there) =
      connected k conn le (Waits-longer i k e f waits) there
  starts_earlier i n _ e f (expired k le waits nowhere over) =
      expired k le (Waits-longer i k e f waits) nowhere over

  await_circuit-Awaited :
      (fuel i n : ℕ)
      → i ≤ n
      → n < i + fuel
      → passing.is_over n ≡ true
      → Awaited passing sid s i n (await_circuit passing sid s fuel i)
  unfolding await_circuit
  await_circuit-Awaited zero i n le enough over = absurd (omega arith)
  await_circuit-Awaited (suc fuel) i n le enough over =
      elim (Option-cases (get_circuit sid (passing.later s i))) [
        | inr (conn, e) ↦
            rw (await_circuit, e) (connected i conn le (λ j le' lt. absurd (omega arith)) e)
        | inl e ↦ elim (Bool-cases (passing.is_over i)) [
          | inl f ↦ rw (await_circuit, e, f) (expired i le (λ j le' lt. absurd (omega arith)) e f)
          | inr f ↦
              rw (await_circuit, e, f)
                (starts_earlier i n _ e f
                  (await_circuit-Awaited fuel (suc i) n (not_yet i n le f over) (omega arith) over))
        ]
      ]

-- How Dial ends: NewCircuit's error, with the session cleared, its panic, or the end of the loop on the
-- service that NewCircuit left.
pub data Dialled (env : NoiseEnv) (passing : Passing) (sid remote : Bytes) (n : ℕ)
    : Option (Service × Option (Outcome Bool)) → Type 0 where
  failed :
      (s : Service) (e : Error)
      → IsCleared sid s.relay
      → Dialled env passing sid remote n (some (s, some (err e)))
  crashed_there :
      (s : Service)
      → Id.white_noise_id_from_string env.proxy.hashes remote ≡ panic
      → Dialled env passing sid remote n (some (s, some panic))
  polled :
      (s : Service) (o : Option (Outcome Bool))
      → Awaited passing sid s 0 n o
      → Dialled env passing sid remote n (some (s, o))

dialled-Dialled :
    (env : NoiseEnv) (passing : Passing) (sid remote proxy_node : Bytes) (n fuel : ℕ)
    (log : List Effect) (r : List Effect × Option (Service × Outcome (Unit {0})))
    → n < fuel
    → passing.is_over n ≡ true
    → Ended env proxy_node remote sid log r
    → Dialled env passing sid remote n
        (bind_result r.0 r.1 λ o. give (dialled env passing sid fuel o)).1
dialled-Dialled env passing sid remote proxy_node n fuel log _ enough over (cleared log' s e c) =
    failed s e c
dialled-Dialled env passing sid remote proxy_node n fuel log _ enough over (crashed s e) =
    crashed_there s e
dialled-Dialled env passing sid remote proxy_node n fuel log _ enough over
      (accepted s d req b _ _ _) =
    polled s _ (await_circuit-Awaited passing sid s fuel 0 n (omega arith) (omega arith) over)

-- Dial returns, within one poll more than the timer takes to fire, whatever else happens in the
-- node and on the network: with an error of NewCircuit, and then the relay manager has no
-- session, connection or secure connection under the new session id; or with the connection that
-- the first poll to find one found, before any poll by which the timer fired; or with a timeout,
-- at the first poll by which the timer fired, when no poll until then found a connection; or it
-- panics, where the remote id's text makes WhiteNoiseIDfromString panic.
pub dial-Dialled :
    (env : NoiseEnv) (passing : Passing) (fuel n : ℕ) (remote_id : Bytes) (s : Service)
    (log : List Effect)
    → passing.is_over n ≡ true
    → n < fuel
    → Dialled env passing
        (session_of env passing remote_id)
        remote_id
        n
        (dial env passing fuel remote_id s log).1
unfolding dial
dial-Dialled env passing fuel n remote_id s log over enough =
    dialled-Dialled env passing (session_of env passing remote_id) remote_id s.proxy_node n fuel log
      (start_circuit env remote_id (session_of env passing remote_id) s log) enough over
      (start_circuit-Ended env remote_id (session_of env passing remote_id) s log)
