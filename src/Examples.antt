-- ===== src/Examples.antt =====
-- Tests and concrete inputs: a small specification, a generator that counts, and stand-ins for the
-- libraries.
mod Cases
mod Campaigns
mod Fixtures
mod Managers
mod Shrinks
mod Journals
mod Traces
mod Searches
use tx_proof.Common.{
  ℕ, suc, ◌+◌, ◌%◌, ◌<◌, ◌≡◌, refl, arith, false, Option, some, List, [], ◌∷◌, String, ok,
}
use tx_proof.Decision.{RandomSource}
use tx_proof.Plan.Types.{ProviderOutcome, payment_intent_v1}
use tx_proof.Plan.Limits.{CaseCount, payment_intent_v1_api_version}
use tx_proof.Plan.Spec.{PlanSpec, validate_spec, validate_webhook_faults, validate_process_faults}
use tx_proof.Plan.Campaign.{CampaignSpec, from_case_spec}
use tx_proof.Plan.Feasible.{IsValid}
use tx_proof.Fixture.Wire.{Libraries}

-- A generator whose state is the next number it draws from
pub counting : RandomSource ℕ
counting = record {
  seed_from_u64 = λ seed. seed;
  random_range = λ rng n. (rng % n, suc rng);
  random_range_lt = λ rng n h. omega arith;
}

abbrev small : PlanSpec
small = record {
  seed = 7;
  max_actions = record { value = 10 };
  provider_adapter = payment_intent_v1;
  provider_api_version = payment_intent_v1_api_version;
  provider_outcomes = ProviderOutcome.normal ∷ [];
  webhook_faults = record {
    duplicate_max = 0;
    delays_millis = [];
    allow_reorder = false;
    allow_drop = false;
    allow_stale_event = false;
  };
  process_faults = record { cut_points = []; max_kills = 0 };
}

small_accepted : validate_spec small ≡ ok tt
unfolding validate_spec validate_webhook_faults validate_process_faults
small_accepted = refl

small-IsValid : IsValid small
small-IsValid = record { accepted = small_accepted; budget = omega arith }

abbrev small_campaign : CampaignSpec
small_campaign = from_case_spec 11 (record { value = 2 }) small

-- A stand-in for the hash that derives seeds
abbrev derive_key : String → List ℕ → List ℕ
derive_key context material = material

abbrev libraries : Libraries
libraries = record {
  payment_intent_to_vec = λ wire. some (1 ∷ []);
  event_to_vec = λ wire. some (2 ∷ []);
  text_bytes = λ text. [];
  blake3_hex = λ text bytes. "0123456789abcdef01234567";
}
