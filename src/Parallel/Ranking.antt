-- ===== src/Parallel/Ranking.antt =====
-- The predecessors of the transactions that were added have no cycle: every transaction can be given
-- a weight of at least the rounds that its predecessors take.
use blockchain_node.Prelude.{
  ℕ, String, ◌≡◌, refl, true, false, ◌||◌, ◌==◌, some, List, [], ◌∷◌, arith, inl, inr, contains,
  eq_iff, eq_refl, Bool-cases, if◌then◌else◌,
}
use blockchain_node.Dict
use blockchain_node.Dict.{Dict, get-insert}
use blockchain_node.Parallel.Predecessors.{PredecessorChain}
use blockchain_node.Parallel.Ends.{rounds, IsWeight}

pub record Ranked (chain : PredecessorChain) (predecessors : Dict (List String)) : Type 0 where
  pub weight : String → ℕ
  pub is_weight : IsWeight weight predecessors
  pub members :
      (p : String) (before : List String) (r : String)
      → Dict.get p predecessors ≡ some before
      → contains before r ≡ true
      → Dict.has r chain ≡ true

-- the weights with that of a new transaction
abbrev new_weight : (String → ℕ) → String → List String → String → ℕ
new_weight weight txn_id preds x = if txn_id == x then rounds weight preds else weight x

rounds-new_weight :
    (weight : String → ℕ) (txn_id : String) (preds ids : List String)
    → contains ids txn_id ≡ false
    → rounds (new_weight weight txn_id preds) ids ≡ rounds weight ids
rounds-new_weight weight txn_id preds [] h = refl
rounds-new_weight weight txn_id preds (x ∷ ids) h =
    let other : (txn_id == x) ≡ false = elim (Bool-cases (txn_id == x)) [
      | inl e ↦ absurd (ground (arith, h, e, eq_iff txn_id x, eq_refl x))
      | inr e ↦ e
    ] in
    let rest = rounds-new_weight weight txn_id preds ids (ground (arith, h)) in
    rw (other, rest) refl

pub Ranked-insert :
    (chain chain' : PredecessorChain) (predecessors : Dict (List String)) (txn_id : String)
    (preds : List String)
    → Ranked chain predecessors
    → Dict.has txn_id chain ≡ false
    → ((r : String) → contains preds r ≡ true → Dict.has r chain ≡ true)
    → ((x : String) → Dict.has x chain' ≡ (txn_id == x || Dict.has x chain))
    → Ranked chain' (Dict.insert txn_id preds predecessors)
Ranked-insert chain chain' predecessors txn_id preds ranked fresh known entry =
    let no_self : (ids : List String)
        → ((r : String) → contains ids r ≡ true → Dict.has r chain ≡ true)
        → contains ids txn_id ≡ false =
      λ ids all_known. elim (Bool-cases (contains ids txn_id)) [
        | inl e ↦ absurd (ground (arith, fresh, all_known txn_id e))
        | inr e ↦ e
      ] in
    let weight' = new_weight ranked.weight txn_id preds in
    record {
      weight = weight';
      is_weight = λ p before h. elim (Bool-cases (txn_id == p)) [
        | inl e ↦
            let same : before ≡ preds =
              ground (arith, h, e, get-insert txn_id p preds predecessors) in
            let unchanged =
              rounds-new_weight ranked.weight txn_id preds preds (no_self preds known) in
            rw (same, e, unchanged) (omega arith)
        | inr e ↦
            let old : Dict.get p predecessors ≡ some before =
              ground (arith, h, e, get-insert txn_id p preds predecessors) in
            let unchanged =
              rounds-new_weight ranked.weight txn_id preds before
                (no_self before (λ r. ranked.members p before r old)) in
            rw (e, unchanged) (ranked.is_weight p before old)
      ];
      members = λ p before r h i. elim (Bool-cases (txn_id == p)) [
        | inl e ↦
            let same : before ≡ preds =
              ground (arith, h, e, get-insert txn_id p preds predecessors) in
            ground (arith, entry r, known r (ground (arith, i, same)))
        | inr e ↦
            let old : Dict.get p predecessors ≡ some before =
              ground (arith, h, e, get-insert txn_id p preds predecessors) in
            ground (arith, entry r, ranked.members p before r old i)
      ];
    }
