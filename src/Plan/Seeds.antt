-- ===== src/Plan/Seeds.antt =====
-- crates/tiv-core/src/plan.rs: the little-endian material from which the seed of a case is derived.
use tx_proof.Common.{
  ℕ, zero, suc, ◌/◌, ◌^◌, ◌<◌, ◌≡◌, refl, sym, ap, ◌∙◌, arith, List, [], ◌∷◌, ◌++◌, length,
  to_le_bytes, from_le_bytes, from_le-to_le,
}
use tx_proof.Plan.Limits.{CaseId}
use tx_proof.Plan.Campaign.{seed_material}

length-to_le : (width n : ℕ) → length (to_le_bytes width n) ≡ width
unfolding to_le_bytes
length-to_le zero n = refl
length-to_le (suc width) n = ap suc (length-to_le width (n / 256))

append-injective :
    (xs ys us vs : List ℕ) → length xs ≡ length ys → xs ++ us ≡ ys ++ vs → (xs ≡ ys) × (us ≡ vs)
append-injective [] [] us vs l e = (refl, e)
append-injective [] (y ∷ ys) us vs l e = absurd (omega arith)
append-injective (x ∷ xs) [] us vs l e = absurd (omega arith)
append-injective (x ∷ xs) (y ∷ ys) us vs l e =
    let (rest, tails) = append-injective xs ys us vs (omega arith) (cc) in (cc, tails)

-- Two cases, of whatever campaigns, share their seed material only if the campaigns share their
-- seed and the cases their identifier.
pub seed_material-injective :
    (seed seed' : ℕ) (case_id case_id' : CaseId)
    → seed < 2 ^ 64
    → seed' < 2 ^ 64
    → case_id.value < 2 ^ 32
    → case_id'.value < 2 ^ 32
    → seed_material seed case_id ≡ seed_material seed' case_id'
    → (seed ≡ seed') × (case_id.value ≡ case_id'.value)
unfolding seed_material
seed_material-injective seed seed' case_id case_id' s s' c c' e =
    let (seeds, ids) =
      append-injective (to_le_bytes 8 seed) (to_le_bytes 8 seed') (to_le_bytes 4 case_id.value)
        (to_le_bytes 4 case_id'.value) (length-to_le 8 seed ∙ sym (length-to_le 8 seed')) e in
    (
      sym (from_le-to_le 8 seed s) ∙ ap from_le_bytes seeds ∙ from_le-to_le 8 seed' s',
      sym (from_le-to_le 4 case_id.value c)
          ∙ ap from_le_bytes ids
          ∙ from_le-to_le 4 case_id'.value c',
    )
