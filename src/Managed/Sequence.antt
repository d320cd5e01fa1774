-- ===== src/Managed/Sequence.antt =====
-- crates/tiv-stripe-pi/src/lib.rs: the command sequence of `ManagedFixture`.
use tx_proof.Common.{
  ℕ, ◌+◌, ◌≡◌, refl, subst, arith, Option, none, some, List, [], ◌∷◌, String, Result, ok, err,
  ◌>>=◌, is_ok, ℕ_discrete, Bool-cases, inl, inr, if◌then◌else◌, lookup,
}
use tx_proof.Fixture.Types.{FaultOutcome, PaymentIntentStatus, ProviderEvent, FixtureError}
use tx_proof.Fixture.Wire.{Libraries}
use tx_proof.Fixture.Provider.{PaymentIntentFixture}
use tx_proof.Fixture.Confirm.{event_snapshot}
use tx_proof.Managed.State.{
  ManagedFixture, FixtureServiceError, HeldWebhookRequestState, HeldWebhookResponseState,
  require_next_sequence,
}
use tx_proof.Managed.Commands.{
  sequenced, reset, reset_checked, release_gate, release_found, discard_webhook_request,
  discard_request_found, discard_webhook_response, discard_response_found, generate_event_snapshot,
  generated,
}

pub data Command : Type 0 where
  reset_fixture : ℕ → List FaultOutcome → Command
  release discard_request discard_response : ℕ → Command
  generate : String → PaymentIntentStatus → Command

-- A command that is answered had the next number, which is then the last one; a command that is
-- refused leaves the number.
abbrev pub IsSequenced :
    {A : Type 0} → ManagedFixture → ℕ → Result FixtureServiceError A × ManagedFixture → Type 0
IsSequenced before number (ok answer, after) =
    (number ≡ before.command_sequence + 1) × (after.command_sequence ≡ number)
IsSequenced before number (err e, after) = after.command_sequence ≡ before.command_sequence

-- The same without the test of the number
abbrev IsRecorded :
    {A : Type 0} → ManagedFixture → ℕ → Result FixtureServiceError A × ManagedFixture → Type 0
IsRecorded before number (ok answer, after) = after.command_sequence ≡ number
IsRecorded before number (err e, after) = after.command_sequence ≡ before.command_sequence

require_next_sequence-ok :
    (managed : ManagedFixture) (number : ℕ)
    → require_next_sequence managed number ≡ ok tt
    → number ≡ managed.command_sequence + 1
unfolding require_next_sequence
require_next_sequence-ok managed number h = ground arith

sequenced-IsSequenced :
    {A : Type 0} (managed : ManagedFixture) (number : ℕ)
    (required : Result FixtureServiceError Unit)
    (rest : Result FixtureServiceError A × ManagedFixture)
    → require_next_sequence managed number ≡ required
    → IsRecorded managed number rest
    → IsSequenced managed number (sequenced managed required rest)
sequenced-IsSequenced managed number (err e) rest h r = refl
sequenced-IsSequenced managed number (ok tt) (err e, after) h r = r
sequenced-IsSequenced managed number (ok tt) (ok answer, after) h r =
    (require_next_sequence-ok managed number h, r)

release_found-IsRecorded :
    (managed : ManagedFixture) (number gate_id : ℕ) (found : Option (Unit {0}))
    → IsRecorded managed number (release_found managed number gate_id found)
release_found-IsRecorded managed number gate_id none = refl
release_found-IsRecorded managed number gate_id (some held) = refl

reset_checked-IsRecorded :
    (managed : ManagedFixture) (number seed : ℕ) (outcomes : List FaultOutcome)
    → IsRecorded managed number (reset_checked managed number seed outcomes)
reset_checked-IsRecorded managed number seed [] = refl
reset_checked-IsRecorded managed number seed (outcome ∷ outcomes) = refl

discard_request_found-IsRecorded :
    (managed : ManagedFixture) (number gate_id : ℕ) (found : Option HeldWebhookRequestState)
    → IsRecorded managed number (discard_request_found managed number gate_id found)
discard_request_found-IsRecorded managed number gate_id none = refl
discard_request_found-IsRecorded managed number gate_id (some state) =
    elim (Bool-cases state.forwarded) [
      | inl forwarded ↦ rw forwarded refl
      | inr waiting ↦ rw waiting refl
    ]

discard_response_found-IsRecorded :
    (managed : ManagedFixture) (number gate_id : ℕ) (found : Option HeldWebhookResponseState)
    → IsRecorded managed number (discard_response_found managed number gate_id found)
discard_response_found-IsRecorded managed number gate_id none = refl
discard_response_found-IsRecorded managed number gate_id (some state) = refl

generated-IsRecorded :
    (managed : ManagedFixture) (number : ℕ) (id : String) (status : PaymentIntentStatus)
    (found : Result FixtureError ProviderEvent × PaymentIntentFixture)
    → IsRecorded managed number (generated managed number id status found)
generated-IsRecorded managed number id status (err e, fixture) = refl
generated-IsRecorded managed number id status (ok event, fixture) = refl

-- The answer of a command, without what it says
abbrev answered :
    {A : Type 0}
    → Result FixtureServiceError A × ManagedFixture
    → Result FixtureServiceError Unit × ManagedFixture
answered (result, after) = (result >>= λ answer. ok tt, after)

answered-IsSequenced :
    {A : Type 0} (before : ManagedFixture) (number : ℕ)
    (result : Result FixtureServiceError A × ManagedFixture)
    → IsSequenced before number result
    → IsSequenced before number (answered result)
answered-IsSequenced before number (ok answer, after) h = h
answered-IsSequenced before number (err e, after) h = h

-- The numbers rise by one, from the one after the first argument.
abbrev pub IsConsecutive : ℕ → List ℕ → Type 0
IsConsecutive last [] = Unit
IsConsecutive last (number ∷ numbers) = (number ≡ last + 1) × IsConsecutive number numbers

module _ (libraries : Libraries) where
  unfoldable pub execute :
      Command → ℕ → ManagedFixture → Result FixtureServiceError Unit × ManagedFixture
  execute (reset_fixture seed outcomes) number managed =
      answered (reset managed number seed outcomes)
  execute (release gate_id) number managed = answered (release_gate managed number gate_id)
  execute (discard_request gate_id) number managed =
      answered (discard_webhook_request managed number gate_id)
  execute (discard_response gate_id) number managed =
      answered (discard_webhook_response managed number gate_id)
  execute (generate id status) number managed =
      answered (generate_event_snapshot libraries managed number id status)

  -- The numbers of the commands that are answered, in a run of commands with any numbers
  unfoldable pub accepted_numbers : List (Command × ℕ) → ManagedFixture → List ℕ
  accepted_numbers [] managed = []
  accepted_numbers ((command, number) ∷ commands) managed =
      let (result, next) = execute command number managed in
      let rest = accepted_numbers commands next in if is_ok result then number ∷ rest else rest

  execute-IsSequenced :
      (command : Command) (number : ℕ) (managed : ManagedFixture)
      → IsSequenced managed number (execute command number managed)
  unfolding execute reset release_gate discard_webhook_request discard_webhook_response
      generate_event_snapshot
  execute-IsSequenced (reset_fixture seed outcomes) number managed =
      answered-IsSequenced managed number _ (
        sequenced-IsSequenced managed number (require_next_sequence managed number) _ refl
          (reset_checked-IsRecorded managed number seed outcomes))
  execute-IsSequenced (release gate_id) number managed = answered-IsSequenced managed number _ (
      sequenced-IsSequenced managed number (require_next_sequence managed number) _ refl (
        release_found-IsRecorded managed number gate_id
          (lookup ℕ_discrete managed.held_gates gate_id)))
  execute-IsSequenced (discard_request gate_id) number managed =
      answered-IsSequenced managed number _ (
        sequenced-IsSequenced managed number (require_next_sequence managed number) _ refl (
          discard_request_found-IsRecorded managed number gate_id
            (lookup ℕ_discrete managed.held_webhook_requests gate_id)))
  execute-IsSequenced (discard_response gate_id) number managed =
      answered-IsSequenced managed number _ (
        sequenced-IsSequenced managed number (require_next_sequence managed number) _ refl (
          discard_response_found-IsRecorded managed number gate_id
            (lookup ℕ_discrete managed.held_webhook_responses gate_id)))
  execute-IsSequenced (generate id status) number managed = answered-IsSequenced managed number _ (
      sequenced-IsSequenced managed number (require_next_sequence managed number) _ refl (
        generated-IsRecorded managed number id status
          (event_snapshot libraries managed.fixture id status)))

  step-IsConsecutive :
      (managed : ManagedFixture) (number : ℕ) (numbers : List ℕ)
      (done : Result FixtureServiceError Unit × ManagedFixture)
      → IsSequenced managed number done
      → IsConsecutive done.1.command_sequence numbers
      → IsConsecutive managed.command_sequence (if is_ok done.0 then number ∷ numbers else numbers)
  step-IsConsecutive managed number numbers (ok u, after) h rest =
      (h.0, subst (λ last. IsConsecutive last numbers) h.1 rest)
  step-IsConsecutive managed number numbers (err e, after) h rest =
      subst (λ last. IsConsecutive last numbers) h rest

  -- In a run of commands that come with any numbers, the numbers of those that are answered are
  -- consecutive, from the one after the last command before the run.
  pub accepted_numbers-IsConsecutive :
      (commands : List (Command × ℕ)) (managed : ManagedFixture)
      → IsConsecutive managed.command_sequence (accepted_numbers commands managed)
  unfolding accepted_numbers
  accepted_numbers-IsConsecutive [] managed = tt
  accepted_numbers-IsConsecutive ((command, number) ∷ commands) managed =
      let done = execute command number managed in
      step-IsConsecutive managed number (accepted_numbers commands done.1) done
        (execute-IsSequenced command number managed)
        (accepted_numbers-IsConsecutive commands done.1)
