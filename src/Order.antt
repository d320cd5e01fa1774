-- ===== src/Order.antt =====
-- The bound `T: Ord`, with the laws that the trait asks of `cmp`; `==` is read as `≡`.
use Prim.Native.Nat.{compare, Ordering}
use Prim.Native.Nat.Ordering.{lt, eq, gt}
use tx_proof.Common.{ℕ, ◌≡◌, arith}

pub record IsOrder {A : Type 0} (cmp : A → A → Ordering) : Type 0 where
  pub cmp_refl : (a : A) → cmp a a ≡ eq
  pub eq_of_cmp : (a b : A) → cmp a b ≡ eq → a ≡ b
  pub lt_of_gt : (a b : A) → cmp a b ≡ gt → cmp b a ≡ lt
  pub gt_of_lt : (a b : A) → cmp a b ≡ lt → cmp b a ≡ gt
  pub lt_trans : (a b c : A) → cmp a b ≡ lt → cmp b c ≡ lt → cmp a c ≡ lt

pub record Ord (A : Type 0) : Type 0 where
  pub cmp : A → A → Ordering
  pub laws : IsOrder cmp
  pub open laws use *

abbrev pub and_then : Ordering → Ordering → Ordering
and_then eq second = second
and_then first _ = first

-- A derived `Ord` compares field by field: three numbers, the first that differs decides.
abbrev pub Key : Type 0
Key = ℕ × ℕ × ℕ

abbrev pub compare_keys : Key → Key → Ordering
compare_keys a b = and_then (compare a.0 b.0) (and_then (compare a.1 b.1) (compare a.2 b.2))

pub compare_keys-IsOrder : IsOrder compare_keys
compare_keys-IsOrder = record {
  cmp_refl = λ a. ground arith;
  eq_of_cmp = λ a b. ground arith;
  lt_of_gt = λ a b. ground arith;
  gt_of_lt = λ a b. ground arith;
  lt_trans = λ a b c. ground arith;
}

-- The order of the keys, for a type that its keys tell apart.
module _ {A : Type 0} (key : A → Key) (distinct : (a b : A) → key a ≡ key b → a ≡ b) where
  pub by_key-IsOrder : IsOrder (λ (a b : A). compare_keys (key a) (key b))
  by_key-IsOrder = record {
    cmp_refl = λ a. compare_keys-IsOrder.cmp_refl (key a);
    eq_of_cmp = λ a b h. distinct a b (compare_keys-IsOrder.eq_of_cmp (key a) (key b) h);
    lt_of_gt = λ a b. compare_keys-IsOrder.lt_of_gt (key a) (key b);
    gt_of_lt = λ a b. compare_keys-IsOrder.gt_of_lt (key a) (key b);
    lt_trans = λ a b c. compare_keys-IsOrder.lt_trans (key a) (key b) (key c);
  }

  abbrev pub by_key : Ord A
  by_key = record { cmp = λ a b. compare_keys (key a) (key b); laws = by_key-IsOrder }
