-- ===== src/Parallel/Prefix.antt =====
-- Prefixes of addresses.
use blockchain_node.Prelude.{
  ℕ, ◌≤◌, ◌≡◌, refl, true, false, not, ◌||◌, [], ◌∷◌, arith, length, eqb, Bool-cases, inl, inr,
}
use blockchain_node.Parallel.Tree.{Address, starts_with, less, same_next, agreement, common_prefix}

eqb-eq : (x y : ℕ) → eqb x y ≡ true → x ≡ y
eqb-eq x y h = ground arith

eqb_refl : (x : ℕ) → eqb x x ≡ true
eqb_refl x = ground arith

pub starts_with_refl : (a : Address) → starts_with a a ≡ true
unfolding starts_with
starts_with_refl [] = refl
starts_with_refl (x ∷ a) = ground (arith, eqb_refl x, starts_with_refl a)

pub starts_with_trans :
    (a b c : Address) → starts_with a b ≡ true → starts_with b c ≡ true → starts_with a c ≡ true
unfolding starts_with
starts_with_trans a b [] p q = refl
starts_with_trans a [] (z ∷ c) p q = ground (arith, q)
starts_with_trans [] (y ∷ b) (z ∷ c) p q = ground (arith, p)
starts_with_trans (x ∷ a) (y ∷ b) (z ∷ c) p q =
    ground (arith, p, q, eqb-eq x y, eqb-eq y z, starts_with_trans a b c)

-- two prefixes of an address
pub starts_with_comparable :
    (a p q : Address)
    → starts_with a p ≡ true
    → starts_with a q ≡ true
    → (starts_with p q || starts_with q p) ≡ true
unfolding starts_with
starts_with_comparable a [] q h k = ground arith
starts_with_comparable a (y ∷ p) [] h k = refl
starts_with_comparable [] (y ∷ p) (z ∷ q) h k = ground (arith, h)
starts_with_comparable (x ∷ a) (y ∷ p) (z ∷ q) h k =
    ground (arith, h, k, eqb-eq x y, eqb-eq x z, eqb_refl x, starts_with_comparable a p q)

pub starts_with-length : (a p : Address) → starts_with a p ≡ true → length p ≤ length a
unfolding starts_with
starts_with-length a [] h = omega arith
starts_with-length [] (y ∷ p) h = ground (arith, h)
starts_with-length (x ∷ a) (y ∷ p) h = ground (arith, h, starts_with-length a p)

pub starts_with_antisym : (a b : Address) → starts_with a b ≡ true → starts_with b a ≡ true → a ≡ b
unfolding starts_with
starts_with_antisym [] [] h k = refl
starts_with_antisym [] (y ∷ b) h k = ground (arith, h)
starts_with_antisym (x ∷ a) [] h k = ground (arith, k)
starts_with_antisym (x ∷ a) (y ∷ b) h k = ground (arith, h, k, eqb-eq x y, starts_with_antisym a b)

-- below a prefix, the order of texts is the order of prefixes
pub less-prefix : (a p : Address) → starts_with a p ≡ true → less p a ≡ not (starts_with p a)
unfolding starts_with less
less-prefix [] [] h = refl
less-prefix (x ∷ a) [] h = refl
less-prefix [] (y ∷ p) h = ground (arith, h)
less-prefix (x ∷ a) (y ∷ p) h = ground (arith, h, eqb-eq x y, eqb_refl x, less-prefix a p)

-- a prefix that is not shorter is the address
pub starts_with-longer :
    (a p : Address) → starts_with a p ≡ true → length a ≤ length p → starts_with p a ≡ true
unfolding starts_with
starts_with-longer [] p h k = refl
starts_with-longer (x ∷ a) [] h k = absurd (omega (arith, k))
starts_with-longer (x ∷ a) (y ∷ p) h k =
    ground (arith, h, k, eqb-eq x y, eqb_refl x, starts_with-longer a p)

-- Two addresses that part after `q` have no longer prefix in common.
pub same_next-apart :
    (q a c x : Address)
    → starts_with a q ≡ true
    → starts_with c q ≡ true
    → same_next (length q) a c ≡ false
    → starts_with a x ≡ true
    → starts_with c x ≡ true
    → starts_with q x ≡ true
unfolding starts_with same_next
same_next-apart [] a c [] h k n i j = refl
same_next-apart [] [] c (z ∷ x) h k n i j = ground (arith, i)
same_next-apart [] (y ∷ a) [] (z ∷ x) h k n i j = ground (arith, j)
same_next-apart [] (y ∷ a) (w ∷ c) (z ∷ x) h k n i j =
    ground (arith, n, i, j, eqb-eq y z, eqb-eq w z, eqb_refl z)
same_next-apart (b ∷ q) a c [] h k n i j = refl
same_next-apart (b ∷ q) [] c (z ∷ x) h k n i j = ground (arith, h)
same_next-apart (b ∷ q) (y ∷ a) [] (z ∷ x) h k n i j = ground (arith, k)
same_next-apart (b ∷ q) (y ∷ a) (w ∷ c) (z ∷ x) h k n i j =
    ground (arith, h, k, n, i, j, eqb-eq y b, eqb-eq y z, eqb_refl b, same_next-apart q a c x)

agreement-prefixes :
    (a b : Address)
    → (starts_with a (agreement a b) ≡ true) × (starts_with b (agreement a b) ≡ true)
unfolding starts_with agreement
agreement-prefixes [] b = (ground arith, ground arith)
agreement-prefixes (x ∷ a) [] = (refl, refl)
agreement-prefixes (x ∷ a) (y ∷ b) =
    let (p, q) = agreement-prefixes a b in
    elim (Bool-cases (eqb x y)) [
      | inl e ↦ (ground (arith, e, p, eqb_refl x), ground (arith, e, q, eqb_refl x, eqb-eq x y))
      | inr e ↦ (ground (arith, e), ground (arith, e))
    ]

agreement-longest :
    (a b x : Address)
    → starts_with a x ≡ true
    → starts_with b x ≡ true
    → starts_with (agreement a b) x ≡ true
unfolding starts_with agreement
agreement-longest a b [] h k = ground arith
agreement-longest [] b (z ∷ x) h k = ground (arith, h)
agreement-longest (y ∷ a) [] (z ∷ x) h k = ground (arith, k)
agreement-longest (y ∷ a) (w ∷ b) (z ∷ x) h k =
    ground (arith, h, k, eqb-eq y z, eqb-eq w z, eqb_refl z, agreement-longest a b x)

agreement-longer :
    (q a b : Address)
    → starts_with a q ≡ true
    → starts_with b q ≡ true
    → same_next (length q) a b ≡ true
    → starts_with q (agreement a b) ≡ false
unfolding starts_with agreement same_next
agreement-longer [] [] b h k n = ground (arith, n)
agreement-longer [] (x ∷ a) [] h k n = ground (arith, n)
agreement-longer [] (x ∷ a) (y ∷ b) h k n = ground (arith, n)
agreement-longer (z ∷ q) [] b h k n = ground (arith, h)
agreement-longer (z ∷ q) (x ∷ a) [] h k n = ground (arith, k)
agreement-longer (z ∷ q) (x ∷ a) (y ∷ b) h k n =
    ground (arith, h, k, n, eqb-eq x z, eqb-eq y z, eqb_refl z, agreement-longer q a b)

common_prefix-agreement :
    (q a b : Address)
    → starts_with a q ≡ true
    → starts_with b q ≡ true
    → same_next (length q) a b ≡ true
    → common_prefix a b ≡ agreement a b
unfolding starts_with agreement same_next common_prefix
common_prefix-agreement q [] b h k n = refl
common_prefix-agreement q (x ∷ a) [] h k n = refl
common_prefix-agreement [] (x ∷ a) (y ∷ b) h k n = ground (arith, n)
common_prefix-agreement (z ∷ q) (x ∷ a) (y ∷ b) h k n =
    ground (arith, h, k, eqb-eq x z, eqb-eq y z, eqb_refl z)

-- The common prefix of two addresses that go on alike after `q` is longer than `q`, a prefix of
-- both, and the longest.
pub common_prefix_lem :
    (q a b : Address)
    → starts_with a q ≡ true
    → starts_with b q ≡ true
    → same_next (length q) a b ≡ true
    → let p = common_prefix a b in
      (starts_with a p ≡ true)
      × (starts_with b p ≡ true)
      × (starts_with p q ≡ true)
      × (starts_with q p ≡ false)
      × ((x : Address) → starts_with a x ≡ true → starts_with b x ≡ true → starts_with p x ≡ true)
common_prefix_lem q a b h k n =
    let (p1, p2) = agreement-prefixes a b in
    rw (common_prefix-agreement q a b h k n) (
      p1,
      p2,
      agreement-longest a b q h k,
      agreement-longer q a b h k n,
      λ x i j. agreement-longest a b x i j,
    )
