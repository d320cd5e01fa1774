-- ===== src/Examples/Fixtures.antt =====
-- The provider's fixture at concrete inputs.
use tx_proof.Common.{◌≤◌, ◌≡◌, refl, none, some, List, [], ◌∷◌, length, ok, string_discrete}
use tx_proof.Fixture.Types.{
  IdempotencyKey, CreatePaymentIntent, normal, pre_execute_429, post_execute_500, commit_then_close,
  pos, succeeded, requires_confirmation, response, json, key_discrete, request_discrete,
  kind_discrete,
}
use tx_proof.Fixture.Provider.{
  PaymentIntentFixture, CreateExecution, new_fixture, created_intent, execute_create,
}
use tx_proof.Fixture.Confirm.{confirm_data_plane, event_snapshot, confirm, ensure_event}
use tx_proof.Fixture.Extends.{Extends}
use tx_proof.Fixture.Runs.{
  operate, Operation, creation, confirmation, event_request, run, run-Extends,
}
use tx_proof.Fixture.Replays.{IsReplayedFrom, create-replays}
use tx_proof.Fixture.Retries.{retries, retries-AtMostOnce}
use tx_proof.Fixture.Consistent.{IsConsistent}
use tx_proof.Fixture.Kept.{run-IsConsistent}
use tx_proof.Fixture.Snapshots.{event_snapshot-stays}
use tx_proof.Fixture.Types.{ProviderEvent, payment_intent_requires_confirmation}
use tx_proof.Examples.{libraries}

abbrev pub key : IdempotencyKey
key = record { value = "order-1" }

abbrev pub request : CreatePaymentIntent
request = record { amount_minor = pos 500; currency = "eur"; operation_id = none }

abbrev execution : CreateExecution
execution = record {
  disposition = response (json 200 (1 ∷ []));
  payment_intent = some (created_intent libraries (new_fixture 9) request);
}

abbrev created : PaymentIntentFixture
created = record (new_fixture 9) {
  payment_intents = created_intent libraries (new_fixture 9) request ∷ [];
  idempotency =
      (
        key,
        record {
          request = request;
          payment_intent = created_intent libraries (new_fixture 9) request;
          cached = json 200 (1 ∷ []);
        },
      )
      ∷ [];
}

executed : execute_create libraries (new_fixture 9) key request normal ≡ (ok execution, created)
unfolding execute_create
executed = refl

create-replays_example : IsReplayedFrom libraries created key request execution
create-replays_example =
    create-replays libraries (new_fixture 9) key request normal execution created refl executed

retries-AtMostOnce_example :
    length
      (run libraries
        (retries libraries key request (commit_then_close ∷ pre_execute_429 ∷ normal ∷ []))
        (new_fixture 9)).payment_intents
    ≤ 1
retries-AtMostOnce_example =
    retries-AtMostOnce libraries key request (commit_then_close ∷ pre_execute_429 ∷ normal ∷ [])
      (new_fixture 9) (λ wire. (1 ∷ [], refl))

abbrev checkout : List Operation
checkout =
    creation key request commit_then_close
    ∷ creation key request normal
    ∷ event_request "pi_tiv_0123456789abcdef01234567" requires_confirmation
    ∷ confirmation "pi_tiv_0123456789abcdef01234567" post_execute_500
    ∷ event_request "pi_tiv_0123456789abcdef01234567" succeeded
    ∷ []

run-Extends_example : Extends (new_fixture 9) (run libraries checkout (new_fixture 9))
run-Extends_example = run-Extends libraries checkout (new_fixture 9)

run-IsConsistent_example : IsConsistent (run libraries checkout (new_fixture 9))
run-IsConsistent_example = run-IsConsistent libraries 9 checkout

-- The checkout leaves one object and two events.
checkout_counts :
    (length (run libraries checkout (new_fixture 9)).payment_intents ≡ 1)
    × (length (run libraries checkout (new_fixture 9)).events ≡ 2)
unfolding run operate execute_create confirm_data_plane event_snapshot confirm ensure_event
    string_discrete key_discrete request_discrete kind_discrete
checkout_counts = (refl, refl)

abbrev event : ProviderEvent
event = record {
  id = "evt_tiv_0123456789abcdef01234567";
  kind = payment_intent_requires_confirmation;
  created = pos 0;
  payment_intent_id = "pi_tiv_0123456789abcdef01234567";
  raw_body = 2 ∷ [];
}

abbrev answered : PaymentIntentFixture
answered = record created { events = event ∷ [] }

first_snapshot :
    event_snapshot libraries created "pi_tiv_0123456789abcdef01234567" requires_confirmation
    ≡ (ok event, answered)
unfolding event_snapshot confirm ensure_event string_discrete kind_discrete
first_snapshot = refl

event_snapshot-stays_example :
    event_snapshot libraries
      (run libraries checkout answered)
      "pi_tiv_0123456789abcdef01234567"
      requires_confirmation
    ≡ (ok event, run libraries checkout answered)
event_snapshot-stays_example =
    event_snapshot-stays libraries created "pi_tiv_0123456789abcdef01234567" requires_confirmation
      event answered checkout first_snapshot
