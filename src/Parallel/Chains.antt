-- ===== src/Parallel/Chains.antt =====
-- `PredecessorChain`: what comes before a transaction, over one and more steps.
use blockchain_node.Prelude.{
  String, ◌≡◌, Bool, true, false, ◌||◌, none, some, List, [], ◌∷◌, arith, inl, inr, ◌⊎◌, Bool-cases,
  Option-cases, contains, ◌==◌, eq_iff, eq_refl, if◌then◌else◌,
}
use blockchain_node.Python.{ok, Result-cases}
use blockchain_node.Dict
use blockchain_node.Dict.{Dict, get-insert}
use blockchain_node.Parallel.Predecessors.{add_all, PredecessorChain, close, add_relationship}
use blockchain_node.Parallel.Finding.{contains-add_all}

-- `x` is among what the chain has for `y`
abbrev pub is_before : PredecessorChain → String → String → Bool
is_before chain x y = elim (Dict.get y chain) [ none ↦ false | some l ↦ contains l x ]

abbrev pub at_or_before : PredecessorChain → String → String → Bool
at_or_before chain x y = x == y || is_before chain x y

-- the chain is transitive, and has an entry for everything in it
pub record IsClosed (chain : PredecessorChain) : Type 0 where
  pub transitive :
      (x y z : String)
      → is_before chain x y ≡ true
      → is_before chain y z ≡ true
      → is_before chain x z ≡ true
  pub known : (x y : String) → is_before chain x y ≡ true → Dict.has x chain ≡ true

pub at_or_before_trans :
    (chain : PredecessorChain) (x y z : String)
    → IsClosed chain
    → at_or_before chain x y ≡ true
    → is_before chain y z ≡ true
    → is_before chain x z ≡ true
at_or_before_trans chain x y z c h k = elim (Bool-cases (x == y)) [
  | inl e ↦ let same : x ≡ y = ground (arith, eq_iff x y, e) in rw same k
  | inr e ↦ c.transitive x y z (ground (arith, h, e)) k
]

pub at_or_before-at_or_before :
    (chain : PredecessorChain) (x y z : String)
    → IsClosed chain
    → at_or_before chain x y ≡ true
    → at_or_before chain y z ≡ true
    → at_or_before chain x z ≡ true
at_or_before-at_or_before chain x y z c h k = elim (Bool-cases (y == z)) [
  | inl e ↦ let same : y ≡ z = ground (arith, eq_iff y z, e) in rw⁻¹ same h
  | inr e ↦ ground (arith, at_or_before_trans chain x y z c h (ground (arith, k, e)))
]

close-keeps :
    (all_pred : List String) (chain : PredecessorChain) (preds out : List String) (r : String)
    → close all_pred chain preds ≡ ok out
    → contains all_pred r ≡ true
    → contains out r ≡ true
unfolding close
close-keeps all_pred chain [] out r h k = ground (arith, h, k)
close-keeps all_pred chain (p ∷ preds) out r h k = elim (Option-cases (Dict.get p chain)) [
  | inl e ↦ absurd (ground (arith, e, h))
  | inr (before, e) ↦
      close-keeps (add_all all_pred before) chain preds out r (ground (arith, e, h))
        (ground (arith, k, contains-add_all all_pred before r))
]

close-adds :
    (all_pred : List String) (chain : PredecessorChain) (preds out : List String) (p r : String)
    → close all_pred chain preds ≡ ok out
    → contains preds p ≡ true
    → is_before chain r p ≡ true
    → contains out r ≡ true
unfolding close
close-adds all_pred chain [] out p r h k b = absurd (ground (arith, k))
close-adds all_pred chain (q ∷ preds) out p r h k b = elim (Option-cases (Dict.get q chain)) [
  | inl e ↦ absurd (ground (arith, e, h))
  | inr (before, e) ↦ elim (Bool-cases (q == p)) [
    | inl n ↦
        close-keeps (add_all all_pred before) chain preds out r (ground (arith, e, h))
          (ground (arith, b, e, n, eq_iff q p, contains-add_all all_pred before r))
    | inr n ↦
        close-adds (add_all all_pred before) chain preds out p r (ground (arith, e, h))
          (ground (arith, k, n)) b
  ]
]

close-origin :
    (all_pred : List String) (chain : PredecessorChain) (preds out : List String) (r : String)
    → close all_pred chain preds ≡ ok out
    → contains out r ≡ true
    → (contains all_pred r ≡ true)
      ⊎ ((p : String) × (contains preds p ≡ true) × (is_before chain r p ≡ true))
unfolding close
close-origin all_pred chain [] out r h k = inl (ground (arith, h, k))
close-origin all_pred chain (q ∷ preds) out r h k = elim (Option-cases (Dict.get q chain)) [
  | inl e ↦ absurd (ground (arith, e, h))
  | inr (before, e) ↦
      elim (close-origin (add_all all_pred before) chain preds out r (ground (arith, e, h)) k) [
        | inl i ↦ elim (Bool-cases (contains before r)) [
          | inl n ↦ inr (q, ground (arith, eq_refl q), ground (arith, e, n))
          | inr n ↦ inl (ground (arith, i, n, contains-add_all all_pred before r))
        ]
        | inr (p, i, j) ↦ inr (p, ground (arith, i), j)
      ]
]

close-known :
    (all_pred : List String) (chain : PredecessorChain) (preds out : List String) (p : String)
    → close all_pred chain preds ≡ ok out
    → contains preds p ≡ true
    → Dict.has p chain ≡ true
unfolding close
close-known all_pred chain [] out p h k = absurd (ground (arith, k))
close-known all_pred chain (q ∷ preds) out p h k = elim (Option-cases (Dict.get q chain)) [
  | inl e ↦ absurd (ground (arith, e, h))
  | inr (before, e) ↦ elim (Bool-cases (q == p)) [
    | inl n ↦ ground (arith, e, n, eq_iff q p)
    | inr n ↦
        close-known (add_all all_pred before) chain preds out p (ground (arith, e, h))
          (ground (arith, k, n))
  ]
]

-- what a new relationship makes of the chain
pub record Related (txn_id : String) (preds : List String) (chain chain' : PredecessorChain)
    : Type 0 where
  pub direct : (p : String) → contains preds p ≡ true → is_before chain' p txn_id ≡ true
  pub keeps : (x y : String) → is_before chain x y ≡ true → is_before chain' x y ≡ true
  pub closed : IsClosed chain'
  pub entry : (x : String) → Dict.has x chain' ≡ (txn_id == x || Dict.has x chain)

-- For a transitive chain that has an entry for everything in it, and a transaction without an
-- entry, add_relationship, where it returns, puts the given predecessors before the
-- transaction, keeps what was known, keeps the chain transitive, and adds no other entry.
pub add_relationship-Related :
    (txn_id : String) (preds : List String) (chain chain' : PredecessorChain)
    → IsClosed chain
    → Dict.has txn_id chain ≡ false
    → add_relationship txn_id preds chain ≡ ok chain'
    → Related txn_id preds chain chain'
unfolding add_relationship
add_relationship-Related txn_id preds chain chain' c fresh h =
    elim (Result-cases (close (add_all [] preds) chain preds)) [
      | inr (inl (x, e)) ↦ absurd (ground (arith, e, h))
      | inr (inr e) ↦ absurd (ground (arith, e, h))
      | inl (out, e) ↦
          let same : chain' ≡ Dict.insert txn_id out chain = ground (arith, e, h) in
          let at : (x y : String)
              → is_before chain' x y
                ≡ (if txn_id == y then contains out x else is_before chain x y) =
            λ x y. rw same (ground (arith, get-insert txn_id y out chain)) in
          let direct : (p : String) → contains preds p ≡ true → is_before chain' p txn_id ≡ true =
            λ p i. ground (
              arith,
              at p txn_id,
              eq_refl txn_id,
              close-keeps (add_all [] preds) chain preds out p e,
              contains-add_all [] preds p,
              i,
            ) in
          let has : (x y : String) → is_before chain x y ≡ true → (txn_id == y) ≡ false = λ x y i.
            elim (Bool-cases (txn_id == y)) [
              | inl n ↦ absurd (ground (arith, fresh, n, i, eq_iff txn_id y))
              | inr n ↦ n
            ] in
          let keeps : (x y : String) → is_before chain x y ≡ true → is_before chain' x y ≡ true =
            λ x y i. ground (arith, at x y, has x y i, i) in
          let entry : (x : String) → Dict.has x chain' ≡ (txn_id == x || Dict.has x chain) =
            λ x. rw same (ground (arith, get-insert txn_id x out chain)) in
          let source : (x : String)
              → contains out x ≡ true
              → (contains preds x ≡ true)
                ⊎ ((p : String) × (contains preds p ≡ true) × (is_before chain x p ≡ true)) =
            λ x i. elim (close-origin (add_all [] preds) chain preds out x e i) [
              | inl j ↦ inl (ground (arith, j, contains-add_all [] preds x))
              | inr j ↦ inr j
            ] in
          let out_known : (x : String) → contains out x ≡ true → Dict.has x chain ≡ true = λ x i.
            elim (source x i) [
              | inl j ↦ close-known (add_all [] preds) chain preds out x e j
              | inr (p, j, k) ↦ c.known x p k
            ] in
          let below : (x y : String)
              → is_before chain x y ≡ true
              → contains out y ≡ true
              → contains out x ≡ true =
            λ x y i j. elim (source y j) [
              | inl k ↦ close-adds (add_all [] preds) chain preds out y x e k i
              | inr (p, k, l) ↦
                  close-adds (add_all [] preds) chain preds out p x e k (c.transitive x y p i l)
            ] in
          let chain_known : (x y : String) → is_before chain' x y ≡ true → Dict.has x chain ≡ true =
            λ x y i. elim (Bool-cases (txn_id == y)) [
              | inl n ↦ out_known x (ground (arith, i, at x y, n))
              | inr n ↦ c.known x y (ground (arith, i, at x y, n))
            ] in
          let transitive : (x y z : String)
              → is_before chain' x y ≡ true
              → is_before chain' y z ≡ true
              → is_before chain' x z ≡ true =
            λ x y z i j.
              let y_other : (txn_id == y) ≡ false = elim (Bool-cases (txn_id == y)) [
                | inl n ↦ absurd (ground (arith, fresh, n, chain_known y z j, eq_iff txn_id y))
                | inr n ↦ n
              ] in
              elim (Bool-cases (txn_id == z)) [
                | inl n ↦ ground (
                  arith,
                  at x z,
                  n,
                  below x y (ground (arith, i, at x y, y_other)) (ground (arith, j, at y z, n)),
                )
                | inr n ↦ ground (
                  arith,
                  at x z,
                  n,
                  c.transitive x y z (ground (arith, i, at x y, y_other))
                      (ground (arith, j, at y z, n)),
                )
              ] in
          record {
            direct = direct;
            keeps = keeps;
            closed = record {
              transitive = transitive;
              known = λ x y i. ground (arith, entry x, chain_known x y i);
            };
            entry = entry;
          }
    ]
