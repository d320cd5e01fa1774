-- ===== src/Examples/Managers.antt =====
-- The managed fixture at concrete inputs.
use tx_proof.Common.{ℕ, ◌≡◌, refl, List, [], ◌∷◌, String}
use tx_proof.Fixture.Types.{normal, commit_then_delay}
use tx_proof.Managed.State.{new_managed, require_next_sequence}
use tx_proof.Managed.Commands.{reset}
use tx_proof.Managed.Sequence.{
  Command, reset_fixture, release, IsConsecutive, execute, accepted_numbers,
  accepted_numbers-IsConsecutive,
}
use tx_proof.Managed.Waiters.{HasNoLostWaiter}
use tx_proof.Managed.Waiting.{
  ManagedOperation, control, data_plane_create, perform_all, perform_all-HasNoLostWaiter,
}
use tx_proof.Examples.{libraries}
use tx_proof.Examples.Fixtures.{key, request}

abbrev derive_key_hex : String → List ℕ → String
derive_key_hex context bytes = context

abbrev operations : List ManagedOperation
operations =
    control (reset_fixture 9 (commit_then_delay ∷ normal ∷ [])) 1
    ∷ data_plane_create key request
    ∷ control (release 1) 2
    ∷ control (reset_fixture 9 (normal ∷ [])) 3
    ∷ []

perform_all-HasNoLostWaiter_example :
    HasNoLostWaiter (perform_all libraries derive_key_hex operations (new_managed 9))
perform_all-HasNoLostWaiter_example =
    perform_all-HasNoLostWaiter libraries derive_key_hex 9 operations

-- A repeated reset, one with a number left out, and the next one
abbrev commands : List (Command × ℕ)
commands =
    (reset_fixture 9 (normal ∷ []), 1)
    ∷ (reset_fixture 9 (normal ∷ []), 1)
    ∷ (reset_fixture 9 (normal ∷ []), 3)
    ∷ (reset_fixture 9 (normal ∷ []), 2)
    ∷ []

accepted_numbers-IsConsecutive_example :
    IsConsecutive 0 (accepted_numbers libraries commands (new_managed 9))
accepted_numbers-IsConsecutive_example =
    accepted_numbers-IsConsecutive libraries commands (new_managed 9)

accepted_commands : accepted_numbers libraries commands (new_managed 9) ≡ 1 ∷ 2 ∷ []
unfolding accepted_numbers execute reset require_next_sequence
accepted_commands = refl
