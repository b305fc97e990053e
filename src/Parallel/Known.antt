-- ===== src/Parallel/Known.antt =====
-- The searches of the predecessor tree find only readers and writers of its nodes.
use blockchain_node.Prelude.{
  ℕ, zero, suc, String, ◌≡◌, refl, Bool, true, ◌||◌, Option, none, some, List, [], ◌∷◌, ◌++◌, arith,
  inl, inr, Bool-cases, Option-cases, length, leb, contains, contains-append, eq_iff,
}
use blockchain_node.Python.{Result, ok}
use blockchain_node.Dict
use blockchain_node.Parallel.Tree.{Address, walk}
use blockchain_node.Parallel.Nodes.{Yields}
use blockchain_node.Parallel.Coverage.{walk-Covers}
use blockchain_node.Parallel.Predecessors.{
  Predecessors, PredecessorTree, PredecessorChain, close, add_relationship, Enclosing, nearer,
  add_all, add_option, enclosing_write, enclosing_read, below_write, below_read, after_enclosing,
  find_write_predecessors, find_read_predecessors,
}
use blockchain_node.Parallel.Finding.{writes, contains-add_all, contains-add_option}
use blockchain_node.Parallel.Queries.{HasNode, IsPrefixTree, starts_with-root}
use blockchain_node.Parallel.State.{
  find_input_dependencies, find_output_dependencies, recursion_limit,
}
use blockchain_node.Parallel.Totality.{find_write_total, find_read_total}

module _ (K : String → Bool) where
  abbrev pub AllKnown : List String → Type 0
  AllKnown preds = (r : String) → contains preds r ≡ true → K r ≡ true

  abbrev pub DataKnown : Predecessors → Type 0
  DataKnown d = (r : String) → (writes d.writer r || contains d.readers r) ≡ true → K r ≡ true

  abbrev pub StreamKnown : List (Address × Option Predecessors) → Type 0
  StreamKnown stream = (x : Address) (d : Predecessors) → Yields x d stream → DataKnown d

  abbrev OptionKnown : Option String → Type 0
  OptionKnown o = (r : String) → writes o r ≡ true → K r ≡ true

  abbrev EnclosingKnown : Enclosing → Type 0
  EnclosingKnown e =
      AllKnown e.predecessors
      × OptionKnown e.enclosing_writer
      × ((s : List (Address × Option Predecessors)) → e.left ≡ some s → StreamKnown s)

  nearer-Known :
      (o before : Option String)
      → OptionKnown o
      → OptionKnown before
      → OptionKnown (nearer o before)
  nearer-Known none before h k = k
  nearer-Known (some w) before h k = h

  enclosing_write-Known :
      (n : ℕ) (stream : List (Address × Option Predecessors)) (preds : List String)
      (enc : Option String)
      → AllKnown preds
      → OptionKnown enc
      → StreamKnown stream
      → EnclosingKnown (enclosing_write n stream preds enc)
  unfolding enclosing_write
  enclosing_write-Known n [] preds enc h k s = (h, k, λ t i. absurd (ground (arith, i)))
  enclosing_write-Known n ((p, none) ∷ stream) preds enc h k s =
      enclosing_write-Known n stream preds enc h k (λ x d i. s x d (inr i))
  enclosing_write-Known n ((p, some e) ∷ stream) preds enc h k s =
      let is_known : DataKnown e = s p e (inl (refl, refl)) in
      let all : AllKnown (add_all preds e.readers) = λ r i. elim (Bool-cases (contains preds r)) [
        | inl j ↦ h r j
        | inr j ↦ is_known r (ground (arith, i, j, contains-add_all preds e.readers r))
      ] in
      let near : OptionKnown (nearer e.writer enc) =
        nearer-Known e.writer enc (λ r i. is_known r (ground (arith, i))) k in
      elim (Bool-cases (leb n (length p))) [
        | inl b ↦ rw b (
          all,
          near,
          λ t i. let same : t ≡ stream = ground (arith, i) in λ x d j. s x d (inr (rw⁻¹ same j)),
        )
        | inr b ↦ rw b (
            enclosing_write-Known n stream (add_all preds e.readers) (nearer e.writer enc) all near
              (λ x d i. s x d (inr i)))
      ]

  enclosing_read-Known :
      (n : ℕ) (stream : List (Address × Option Predecessors)) (enc : Option String)
      → OptionKnown enc
      → StreamKnown stream
      → EnclosingKnown (enclosing_read n stream enc)
  unfolding enclosing_read
  enclosing_read-Known n [] enc k s =
      (λ r i. absurd (ground (arith, i)), k, λ t i. absurd (ground (arith, i)))
  enclosing_read-Known n ((p, none) ∷ stream) enc k s =
      enclosing_read-Known n stream enc k (λ x d i. s x d (inr i))
  enclosing_read-Known n ((p, some e) ∷ stream) enc k s =
      let is_known : DataKnown e = s p e (inl (refl, refl)) in
      let near : OptionKnown (nearer e.writer enc) =
        nearer-Known e.writer enc (λ r i. is_known r (ground (arith, i))) k in
      elim (Bool-cases (leb n (length p))) [
        | inl b ↦ rw b (
          λ r i. absurd (ground (arith, i)),
          near,
          λ t i. let same : t ≡ stream = ground (arith, i) in λ x d j. s x d (inr (rw⁻¹ same j)),
        )
        | inr b ↦
            rw b (enclosing_read-Known n stream (nearer e.writer enc) near (λ x d i. s x d (inr i)))
      ]

  add_option-Known :
      (preds : List String) (o : Option String)
      → AllKnown preds
      → OptionKnown o
      → AllKnown (add_option preds o)
  add_option-Known preds o h k r i = elim (Bool-cases (contains preds r)) [
    | inl j ↦ h r j
    | inr j ↦ k r (ground (arith, i, j, contains-add_option preds o r))
  ]

  below_write-Known :
      (stream : List (Address × Option Predecessors)) (preds : List String)
      → AllKnown preds
      → StreamKnown stream
      → AllKnown (below_write stream preds)
  unfolding below_write
  below_write-Known [] preds h s = h
  below_write-Known ((p, none) ∷ stream) preds h s =
      below_write-Known stream preds h (λ x d i. s x d (inr i))
  below_write-Known ((p, some e) ∷ stream) preds h s =
      let is_known : DataKnown e = s p e (inl (refl, refl)) in
      let more = add_option-Known preds e.writer h (λ r i. is_known r (ground (arith, i))) in
      let all : AllKnown (add_all (add_option preds e.writer) e.readers) = λ r i.
        elim (Bool-cases (contains (add_option preds e.writer) r)) [
          | inl j ↦ more r j
          | inr j ↦
              is_known r
                (ground (arith, i, j, contains-add_all (add_option preds e.writer) e.readers r))
        ] in
      below_write-Known stream (add_all (add_option preds e.writer) e.readers) all
        (λ x d i. s x d (inr i))

  below_read-Known :
      (stream : List (Address × Option Predecessors)) (preds : List String)
      → AllKnown preds
      → StreamKnown stream
      → AllKnown (below_read stream preds)
  unfolding below_read
  below_read-Known [] preds h s = h
  below_read-Known ((p, none) ∷ stream) preds h s =
      below_read-Known stream preds h (λ x d i. s x d (inr i))
  below_read-Known ((p, some e) ∷ stream) preds h s =
      let is_known : DataKnown e = s p e (inl (refl, refl)) in
      below_read-Known stream (add_option preds e.writer)
        (add_option-Known preds e.writer h (λ r i. is_known r (ground (arith, i))))
        (λ x d i. s x d (inr i))

  after_enclosing-Known :
      (second : List (Address × Option Predecessors) → List String → List String) (e : Enclosing)
      (raised : Option (Option Address)) (again : Address → Result (List String))
      (found : List String)
      → ((s : List (Address × Option Predecessors)) (preds : List String)
          → AllKnown preds
          → StreamKnown s
          → AllKnown (second s preds))
      → EnclosingKnown e
      → ((m : Address) → raised ≡ some (some m) → (f : List String) → again m ≡ ok f → AllKnown f)
      → after_enclosing second e raised again ≡ ok found
      → AllKnown found
  unfolding after_enclosing
  after_enclosing-Known second e raised again found sec (h, k, l) ih f =
      let start = add_option-Known e.predecessors e.enclosing_writer h k in
      elim (Option-cases raised) [
        | inl r ↦ elim (Option-cases e.left) [
          | inl n ↦
              let same : found ≡ add_option e.predecessors e.enclosing_writer =
                ground (arith, f, r, n) in
              rw same start
          | inr (s, n) ↦
              let same : found ≡ second s (add_option e.predecessors e.enclosing_writer) =
                ground (arith, f, r, n) in
              rw same (sec s (add_option e.predecessors e.enclosing_writer) start (l s n))
        ]
        | inr (match, r) ↦ elim (Option-cases e.left) [
          | inr (s, n) ↦ absurd (ground (arith, f, r, n))
          | inl n ↦ elim (Option-cases match) [
            | inl o ↦
                let same : found ≡ add_option e.predecessors e.enclosing_writer =
                  ground (arith, f, r, n, o) in
                rw same start
            | inr (m, o) ↦ ih m (ground (arith, r, o)) found (ground (arith, f, r, n, o))
          ]
        ]
      ]

  abbrev pub TreeKnown : PredecessorTree → Type 0
  TreeKnown tree = (x : Address) (d : Predecessors) → HasNode tree x d → DataKnown d

  walk-StreamKnown :
      (tree : PredecessorTree) (a : Address)
      → IsPrefixTree tree
      → TreeKnown tree
      → StreamKnown (walk a tree).yielded
  walk-StreamKnown tree a (root, t) known x d y =
      known x d ((walk-Covers a tree (starts_with-root a tree root) t).sound x d y)

  find_write-Known :
      (n : ℕ) (tree : PredecessorTree) (a : Address) (found : List String)
      → IsPrefixTree tree
      → TreeKnown tree
      → find_write_predecessors n tree a ≡ ok found
      → AllKnown found
  unfolding find_write_predecessors
  find_write-Known zero tree a found t known f = absurd (ground (arith, f))
  find_write-Known (suc n) tree a found t known f =
      after_enclosing-Known below_write _ _ _ found below_write-Known
        (enclosing_write-Known (length a) (walk a tree).yielded [] none
          (λ r i. absurd (ground (arith, i))) (λ r i. absurd (ground (arith, i)))
          (walk-StreamKnown tree a t known))
        (λ m _ g i. find_write-Known n tree m g t known i) f

  find_read-Known :
      (n : ℕ) (tree : PredecessorTree) (a : Address) (found : List String)
      → IsPrefixTree tree
      → TreeKnown tree
      → find_read_predecessors n tree a ≡ ok found
      → AllKnown found
  unfolding find_read_predecessors
  find_read-Known zero tree a found t known f = absurd (ground (arith, f))
  find_read-Known (suc n) tree a found t known f =
      after_enclosing-Known below_read _ _ _ found below_read-Known
        (enclosing_read-Known (length a) (walk a tree).yielded none
          (λ r i. absurd (ground (arith, i))) (walk-StreamKnown tree a t known))
        (λ m _ g i. find_read-Known n tree m g t known i) f

  pub append-Known : (xs ys : List String) → AllKnown xs → AllKnown ys → AllKnown (xs ++ ys)
  append-Known xs ys h k r i = elim (Bool-cases (contains xs r)) [
    | inl j ↦ h r j
    | inr j ↦ k r (ground (arith, i, j, contains-append xs ys r))
  ]

  -- The dependencies of a transaction are found, and are known.
  pub find_input_total :
      (inputs : List Address) (tree : PredecessorTree)
      → IsPrefixTree tree
      → TreeKnown tree
      → (found : List String) × (find_input_dependencies inputs tree ≡ ok found) × AllKnown found
  unfolding find_input_dependencies
  find_input_total [] tree t known = ([], refl, λ r i. absurd (ground (arith, i)))
  find_input_total (a ∷ inputs) tree t known =
      let (here, h) = find_read_total 998 tree a t in
      let (rest, k, l) = find_input_total inputs tree t known in
      (
        here ++ rest,
        ground (arith, h, k),
        append-Known here rest (find_read-Known recursion_limit tree a here t known h) l,
      )

  pub find_output_total :
      (outputs : List Address) (tree : PredecessorTree)
      → IsPrefixTree tree
      → TreeKnown tree
      → (found : List String) × (find_output_dependencies outputs tree ≡ ok found) × AllKnown found
  unfolding find_output_dependencies
  find_output_total [] tree t known = ([], refl, λ r i. absurd (ground (arith, i)))
  find_output_total (a ∷ outputs) tree t known =
      let (here, h) = find_write_total 998 tree a t in
      let (rest, k, l) = find_output_total outputs tree t known in
      (
        here ++ rest,
        ground (arith, h, k),
        append-Known here rest (find_write-Known recursion_limit tree a here t known h) l,
      )

close_total :
    (all_pred : List String) (chain : PredecessorChain) (preds : List String)
    → AllKnown (λ r. Dict.has r chain) preds
    → (out : List String) × (close all_pred chain preds ≡ ok out)
unfolding close
close_total all_pred chain [] h = (all_pred, refl)
close_total all_pred chain (p ∷ preds) h = elim (Option-cases (Dict.get p chain)) [
  | inl e ↦ absurd (ground (arith, h p, e, eq_iff p p))
  | inr (before, e) ↦
      let (out, k) =
        close_total (add_all all_pred before) chain preds (λ r i. h r (ground (arith, i))) in
      (out, ground (arith, e, k))
]

pub add_relationship_total :
    (txn_id : String) (preds : List String) (chain : PredecessorChain)
    → AllKnown (λ r. Dict.has r chain) preds
    → (chain' : PredecessorChain) × (add_relationship txn_id preds chain ≡ ok chain')
unfolding add_relationship
add_relationship_total txn_id preds chain h =
    let (out, k) = close_total (add_all [] preds) chain preds h in
    (Dict.insert txn_id out chain, ground (arith, k))
