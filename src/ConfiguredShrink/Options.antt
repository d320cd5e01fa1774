-- ===== src/ConfiguredShrink/Options.antt =====
-- crates/tiv-runtime/src/configured_shrink.rs: the budgets of a search, its deadline and its completions.
-- A `Duration` and an `Instant` are natural numbers of nanoseconds.
use tx_proof.Common.{
  ℕ, ◌-◌, ◌*◌, min, ◌||◌, Option, none, some, Result, ok, ◌>>=◌, ◌>>◌, reject_if, map_err, ltb, leb,
  if◌then◌else◌,
}
use tx_proof.Shrink.Generator.{InvalidCandidateLimit, CandidateLimit, new_limit, default_limit}

abbrev pub min_shrink_time : ℕ
min_shrink_time = 1000000

abbrev pub max_shrink_time : ℕ
max_shrink_time = 600 * 1000000000

pub data ConfiguredShrinkOptionsError : Type 0 where
  candidate_limit : InvalidCandidateLimit → ConfiguredShrinkOptionsError
  max_time : ConfiguredShrinkOptionsError

pub record ConfiguredShrinkOptions : Type 0 where
  pub limit : CandidateLimit
  pub max_time : ℕ

-- `ConfiguredShrinkOptions::new`
unfoldable pub new_options : ℕ → ℕ → Result ConfiguredShrinkOptionsError ConfiguredShrinkOptions
new_options max_candidates time = do
  limit ← map_err candidate_limit (new_limit max_candidates)
  reject_if (ltb time min_shrink_time || ltb max_shrink_time time) max_time
  ok (record { limit = limit; max_time = time })

abbrev pub default_options : ConfiguredShrinkOptions
default_options = record { limit = default_limit; max_time = max_shrink_time }

pub data ConfiguredShrinkCompletion : Type 0 where
  complete budget_exhausted source_inconclusive : ConfiguredShrinkCompletion

-- `ConfiguredShrinkCompletion::exit_code`
abbrev pub completion_exit_code : ConfiguredShrinkCompletion → ℕ
completion_exit_code complete = 10
completion_exit_code budget_exhausted = 11
completion_exit_code source_inconclusive = 4

-- `checked_sub`, then the test for nothing left.
unfoldable pub capped_attempt_timeout : ℕ → ℕ → ℕ → Option ℕ
capped_attempt_timeout time elapsed configured_case_timeout =
    if leb time elapsed then none else some (min (time - elapsed) configured_case_timeout)

pub record ShrinkDeadline : Type 0 where
  pub started : ℕ
  pub max_time : ℕ
