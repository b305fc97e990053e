-- ===== src/Serial/Subsequence.antt =====
-- Subsequences: one list is another with some of its elements left out, in the same order.
use blockchain_node.Prelude.{List, [], ◌∷◌, ◌++◌}
use blockchain_node.Serial.Data.{Transaction, same_txn}
use blockchain_node.Serial.Unschedule.{remove_txn}
use blockchain_node.Prelude.{Bool-cases, inl, inr}

pub data Subsequence : List Transaction → List Transaction → Type 0 where
  nothing : Subsequence [] []
  drop : {xs ys : List Transaction} (y : Transaction) → Subsequence xs ys → Subsequence xs (y ∷ ys)
  keep :
      {xs ys : List Transaction} (y : Transaction)
      → Subsequence xs ys
      → Subsequence (y ∷ xs) (y ∷ ys)

pub Subsequence-refl : (xs : List Transaction) → Subsequence xs xs
Subsequence-refl [] = nothing
Subsequence-refl (x ∷ xs) = keep x (Subsequence-refl xs)

pub Subsequence-trans :
    {xs ys zs : List Transaction} → Subsequence xs ys → Subsequence ys zs → Subsequence xs zs
Subsequence-trans p nothing = p
Subsequence-trans p (drop y q) = drop y (Subsequence-trans p q)
Subsequence-trans (drop z p) (keep y q) = drop y (Subsequence-trans p q)
Subsequence-trans (keep z p) (keep y q) = keep y (Subsequence-trans p q)

-- the same list in front of both
pub Subsequence-after :
    (ws : List Transaction) {xs ys : List Transaction}
    → Subsequence xs ys
    → Subsequence (ws ++ xs) (ws ++ ys)
Subsequence-after [] p = p
Subsequence-after (w ∷ ws) p = keep w (Subsequence-after ws p)

-- the same list behind both
pub Subsequence-before :
    (zs : List Transaction) {xs ys : List Transaction}
    → Subsequence xs ys
    → Subsequence (xs ++ zs) (ys ++ zs)
Subsequence-before zs nothing = Subsequence-refl zs
Subsequence-before zs (drop y p) = drop y (Subsequence-before zs p)
Subsequence-before zs (keep y p) = keep y (Subsequence-before zs p)

pub Subsequence-remove :
    (queue : List Transaction) (txn : Transaction) → Subsequence (remove_txn queue txn) queue
Subsequence-remove [] txn = nothing
Subsequence-remove (t ∷ queue) txn = elim (Bool-cases (same_txn t txn)) [
  | inl e ↦ rw (e, remove_txn) (drop t (Subsequence-refl queue))
  | inr e ↦ rw (e, remove_txn) (keep t (Subsequence-remove queue txn))
]
