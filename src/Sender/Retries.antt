-- ===== src/Sender/Retries.antt =====
-- worker/sender.go: how often `HandleMessage` tries, that it stops, and what it leaves behind.
use spur_messaging.Prelude.{
  ◌-◌, ℕ, zero, suc, ◌+◌, ◌≤◌, false, ◌≡◌, refl, inl, inr, Option, none, some, List, [], ◌∷◌,
  length, Bool-cases, arith,
}
use spur_messaging.Domain.Errors.{GoError, is_error, rate_limit_exceeded}
use spur_messaging.Domain.Message.{seconds, Time, Message}
use spur_messaging.Calls.{Result, ok, err, Op, bind_cases}
use spur_messaging.Sender.Env.{
  ProviderSetup, SenderCall, SenderHistory, SenderEnv, sent_email, sent_message, slept,
}
use spur_messaging.Sender.Attempt.{send_with_cfg, hand_over, settle}
use spur_messaging.Sender.Delivery.{
  LoopEnd, out_of_fuel, is_credentials_error, give_up, wait_before, next_attempt, after_attempt,
  attempt_once, retry_loop, backoffs,
}

-- How often a provider was handed a message.
abbrev pub handed_count : SenderHistory → ℕ
handed_count [] = 0
handed_count (sent_email req r ∷ h) = suc (handed_count h)
handed_count (sent_message req r ∷ h) = suc (handed_count h)
handed_count (_ ∷ h) = handed_count h

-- How often the loop has slept after a 429.
abbrev pub slept_count : SenderHistory → ℕ
slept_count [] = 0
slept_count (slept t ∷ h) = suc (slept_count h)
slept_count (_ ∷ h) = slept_count h

module _ (env : SenderEnv) (msg : Message) (cfg : ProviderSetup) where
  send_lem :
      (h : SenderHistory)
      → (handed_count (send_with_cfg env msg cfg h).1 ≤ suc (handed_count h))
        × (slept_count (send_with_cfg env msg cfg h).1 ≡ slept_count h)
  unfolding send_with_cfg hand_over settle
  send_lem h = ground arith

  give_up_lem :
      (h : SenderHistory)
      → (handed_count (give_up env msg cfg h).1 ≡ handed_count h)
        × (slept_count (give_up env msg cfg h).1 ≡ slept_count h)
  unfolding give_up
  give_up_lem h = ground arith

  wait_lem :
      (wait : Option Time) (h : SenderHistory)
      → (handed_count (wait_before env wait h).1 ≡ handed_count h)
        × (slept_count (wait_before env wait h).1 ≡ slept_count h)
  wait_lem none h = (refl, refl)
  wait_lem (some t) h = (refl, refl)

  -- A run that starts at `h` with so many counted attempts left.
  abbrev IsBounded : ℕ → SenderHistory → Result LoopEnd × SenderHistory → Type 0
  IsBounded left h out =
      handed_count out.1 + slept_count h ≤ handed_count h + left + slept_count out.1

  module _ (rest : Option Time → List Time → Op SenderCall LoopEnd) where
    next_bound :
        (later : List Time) (e : GoError) (h h' : SenderHistory)
        → ((w : Option Time) (l : List Time) (k : SenderHistory)
            → IsBounded (suc (length l)) k (rest w l k))
        → handed_count h' ≤ suc (handed_count h)
        → slept_count h' ≡ slept_count h
        → IsBounded (suc (length later)) h (next_attempt env rest later e h')
    next_bound [] e h h' ih once same = omega arith
    next_bound (t ∷ later) e h h' ih once same = omega (arith, ih (some t) later h')

    -- The bound for the outcome of one attempt that began at `h`, where it holds of the turns left.
    after_bound :
        (wait : Option Time) (later : List Time) (r : Result (Unit {0})) (h h' : SenderHistory)
        → ((w : Option Time) (l : List Time) (k : SenderHistory)
            → IsBounded (suc (length l)) k (rest w l k))
        → handed_count h' ≤ suc (handed_count h)
        → slept_count h' ≡ slept_count h
        → IsBounded (suc (length later)) h (after_attempt env msg cfg wait later rest r h')
    after_bound wait later (ok u) h h' ih once same = omega arith
    after_bound wait later (err e) h h' ih once same =
        elim (Bool-cases (is_error e rate_limit_exceeded)) [
          | inl limited ↦ rw limited (omega (arith, ih wait later (slept (seconds 60) ∷ h')))
          | inr other ↦ rw other (elim (Bool-cases (is_credentials_error e)) [
            | inl refused ↦ rw refused (omega (arith, give_up_lem h'))
            | inr failing ↦ rw failing (next_bound later e h h' ih once same)
          ])
        ]

  loop_bound :
      (fuel : ℕ) (wait : Option Time) (later : List Time) (h : SenderHistory)
      → IsBounded (suc (length later)) h (retry_loop env fuel msg cfg wait later h)
  unfolding retry_loop
  loop_bound zero wait later h = omega arith
  loop_bound (suc fuel) wait later h =
      bind_cases (wait_before env wait)
        (λ _. attempt_once env msg cfg wait later (retry_loop env fuel msg cfg)) h
        (IsBounded (suc (length later)) h) (λ e p. omega (arith, wait_lem wait h))
        λ u p.
          let h' = (wait_before env wait h).1 in
          let sent = send_lem h' in
          let waited = wait_lem wait h in
          after_bound (retry_loop env fuel msg cfg) wait later (send_with_cfg env msg cfg h').0 h
            (send_with_cfg env msg cfg h').1 (loop_bound fuel) (omega arith) (omega arith)

  -- However long the loop is run, the message is handed to a provider at most four times more than
  -- the loop sleeps after a 429: once, and once more after each wait of 5, 30 and 120 seconds.
  pub retry_loop-handed_count :
      (fuel : ℕ) (h : SenderHistory)
      → let h' = (retry_loop env fuel msg cfg none backoffs h).1 in
        handed_count h' + slept_count h ≤ handed_count h + 4 + slept_count h'
  retry_loop-handed_count fuel h = omega (arith, loop_bound fuel none backoffs h)

  -- The provider answers with a 429 at most `limit` times.
  abbrev pub Calms : ℕ → Type 0
  Calms limit =
      (h : SenderHistory) (e : GoError)
      → limit ≤ slept_count h
      → (send_with_cfg env msg cfg h).0 ≡ err e
      → is_error e rate_limit_exceeded ≡ false

  abbrev pub Ends : Result LoopEnd → Type 0
  Ends (ok out_of_fuel) = ⊥
  Ends _ = Unit

  module _ (limit fuel : ℕ) (calm : Calms limit) where
    abbrev IsEnough : List Time → SenderHistory → ℕ → Type 0
    IsEnough later h n = suc (length later) + (limit - slept_count h) ≤ n

    next-Ends :
        (rest : Option Time → List Time → Op SenderCall LoopEnd) (later : List Time) (e : GoError)
        (h : SenderHistory)
        → ((w : Option Time) (l : List Time) (k : SenderHistory)
            → IsEnough l k fuel
            → Ends (rest w l k).0)
        → IsEnough later h (suc fuel)
        → Ends (next_attempt env rest later e h).0
    next-Ends rest [] e h ih enough = tt
    next-Ends rest (t ∷ later) e h ih enough = ih (some t) later h (omega arith)

    give_up-Ends : (h : SenderHistory) → Ends (give_up env msg cfg h).0
    unfolding give_up
    give_up-Ends h = tt

    after-Ends :
        (rest : Option Time → List Time → Op SenderCall LoopEnd) (wait : Option Time)
        (later : List Time) (r : Result (Unit {0})) (h h' : SenderHistory)
        → ((w : Option Time) (l : List Time) (k : SenderHistory)
            → IsEnough l k fuel
            → Ends (rest w l k).0)
        → (send_with_cfg env msg cfg h).0 ≡ r
        → slept_count h' ≡ slept_count h
        → IsEnough later h (suc fuel)
        → Ends (after_attempt env msg cfg wait later rest r h').0
    after-Ends rest wait later (ok u) h h' ih sent same enough = tt
    after-Ends rest wait later (err e) h h' ih sent same enough =
        elim (Bool-cases (is_error e rate_limit_exceeded)) [
          | inl limited ↦
              let early : ¬ (limit ≤ slept_count h) =
                λ late. absurd (cc (limited, calm h e late sent)) in
              rw limited (ih wait later (slept (seconds 60) ∷ h') (omega arith))
          | inr other ↦ rw other (elim (Bool-cases (is_credentials_error e)) [
            | inl refused ↦ rw refused (give_up-Ends h')
            | inr failing ↦ rw failing (next-Ends rest later e h' ih (omega arith))
          ])
        ]

  loop-Ends :
      (limit : ℕ)
      → Calms limit
      → (fuel : ℕ) (wait : Option Time) (later : List Time) (h : SenderHistory)
      → suc (length later) + (limit - slept_count h) ≤ fuel
      → Ends (retry_loop env fuel msg cfg wait later h).0
  unfolding retry_loop
  loop-Ends limit calm zero wait later h enough = absurd (omega arith)
  loop-Ends limit calm (suc fuel) wait later h enough =
      bind_cases (wait_before env wait)
        (λ _. attempt_once env msg cfg wait later (retry_loop env fuel msg cfg)) h
        (λ out. Ends out.0) (λ e p. tt)
        λ u p.
          let h' = (wait_before env wait h).1 in
          let sent = send_lem h' in
          let waited = wait_lem wait h in
          after-Ends limit fuel calm (retry_loop env fuel msg cfg) wait later
            (send_with_cfg env msg cfg h').0 h' (send_with_cfg env msg cfg h').1
            (loop-Ends limit calm fuel) refl (omega arith) (omega arith)

  -- Where the provider answers with a 429 at most `limit` times, the loop comes to an end of the
  -- source within 4 + `limit` turns.
  pub retry_loop-Ends :
      (limit fuel : ℕ) (h : SenderHistory)
      → Calms limit
      → 4 + limit ≤ fuel
      → Ends (retry_loop env fuel msg cfg none backoffs h).0
  retry_loop-Ends limit fuel h calm enough = loop-Ends limit calm fuel none backoffs h (omega arith)
