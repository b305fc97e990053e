-- ===== src/Parallel/Finding.antt =====
-- What the two loops of `find_write_predecessors` and of `find_read_predecessors` collect from a
-- stream of nodes.
use blockchain_node.Prelude.{
  String, ◌≡◌, Bool, true, false, ◌||◌, Option, none, some, List, [], ◌∷◌, arith, inl, inr, ◌⊎◌,
  Bool-cases, contains, contains-append, eq_iff, ◌==◌, eq_refl,
}
use blockchain_node.Parallel.Tree.{Address}
use blockchain_node.Parallel.Nodes.{Yields}
use blockchain_node.Parallel.Predecessors.{
  add, add_all, add_option, Predecessors, Enclosing, nearer, below_write, below_read,
}

pub contains-add :
    (s : List String) (x r : String) → contains (add s x) r ≡ (contains s r || x == r)
contains-add s x r = elim (Bool-cases (contains s x)) [
  | inl e ↦ rw (e, add) (ground (arith, e, eq_iff x r))
  | inr e ↦ rw (e, add) (ground (arith, contains-append s (x ∷ []) r))
]

pub contains-add_all :
    (s xs : List String) (r : String) → contains (add_all s xs) r ≡ (contains s r || contains xs r)
contains-add_all s [] r = ground arith
contains-add_all s (x ∷ xs) r = ground (arith, contains-add_all (add s x) xs r, contains-add s x r)

-- the writer is `r`
abbrev pub writes : Option String → String → Bool
writes none r = false
writes (some w) r = w == r

pub contains-add_option :
    (s : List String) (o : Option String) (r : String)
    → contains (add_option s o) r ≡ (contains s r || writes o r)
contains-add_option s none r = ground arith
contains-add_option s (some x) r = contains-add s x r

-- what the loops have collected in the end
unfoldable pub collected :
    (List (Address × Option Predecessors) → List String → List String) → Enclosing → List String
collected second e =
    let predecessors = add_option e.predecessors e.enclosing_writer in
    elim e.left [ none ↦ predecessors | some stream ↦ second stream predecessors ]

-- the writer of a node of the stream
abbrev pub WriterIn :
    List (Address × Option Predecessors) → List String → Address → Predecessors → String → Type 0
WriterIn stream found x d w =
    Yields x d stream × (writes d.writer w ≡ true) × (contains found w ≡ true)

-- the second loop of a write forgets nothing, and finds what the stream yields
pub below_write-keeps :
    (stream : List (Address × Option Predecessors)) (preds : List String) (r : String)
    → contains preds r ≡ true
    → contains (below_write stream preds) r ≡ true
unfolding below_write
below_write-keeps [] preds r h = h
below_write-keeps ((p, none) ∷ stream) preds r h = below_write-keeps stream preds r h
below_write-keeps ((p, some d) ∷ stream) preds r h =
    below_write-keeps stream (add_all (add_option preds d.writer) d.readers) r (
      ground (
        arith,
        h,
        contains-add_option preds d.writer r,
        contains-add_all (add_option preds d.writer) d.readers r,
      ))

pub below_write-finds :
    (stream : List (Address × Option Predecessors)) (preds : List String) (x : Address)
    (d : Predecessors) (r : String)
    → Yields x d stream
    → (contains d.readers r || writes d.writer r) ≡ true
    → contains (below_write stream preds) r ≡ true
unfolding below_write
below_write-finds [] preds x d r h k = absurd h
below_write-finds ((p, none) ∷ stream) preds x d r (inl (h, i)) k = absurd (ground (arith, i))
below_write-finds ((p, none) ∷ stream) preds x d r (inr h) k =
    below_write-finds stream preds x d r h k
below_write-finds ((p, some e) ∷ stream) preds x d r (inl (h, i)) k =
    let same : d ≡ e = ground (arith, i) in
    below_write-keeps stream (add_all (add_option preds e.writer) e.readers) r (
      rw⁻¹ same (
        ground (
          arith,
          k,
          contains-add_option preds d.writer r,
          contains-add_all (add_option preds d.writer) d.readers r,
        )))
below_write-finds ((p, some e) ∷ stream) preds x d r (inr h) k =
    below_write-finds stream (add_all (add_option preds e.writer) e.readers) x d r h k

-- the second loop of a read forgets nothing, and finds what the stream yields
pub below_read-keeps :
    (stream : List (Address × Option Predecessors)) (preds : List String) (r : String)
    → contains preds r ≡ true
    → contains (below_read stream preds) r ≡ true
unfolding below_read
below_read-keeps [] preds r h = h
below_read-keeps ((p, none) ∷ stream) preds r h = below_read-keeps stream preds r h
below_read-keeps ((p, some d) ∷ stream) preds r h =
    below_read-keeps stream (add_option preds d.writer) r
      (ground (arith, h, contains-add_option preds d.writer r))

pub below_read-finds :
    (stream : List (Address × Option Predecessors)) (preds : List String) (x : Address)
    (d : Predecessors) (r : String)
    → Yields x d stream
    → writes d.writer r ≡ true
    → contains (below_read stream preds) r ≡ true
unfolding below_read
below_read-finds [] preds x d r h k = absurd h
below_read-finds ((p, none) ∷ stream) preds x d r (inl (h, i)) k = absurd (ground (arith, i))
below_read-finds ((p, none) ∷ stream) preds x d r (inr h) k =
    below_read-finds stream preds x d r h k
below_read-finds ((p, some e) ∷ stream) preds x d r (inl (h, i)) k =
    let same : d ≡ e = ground (arith, i) in
    below_read-keeps stream (add_option preds e.writer) r
      (rw⁻¹ same (ground (arith, k, contains-add_option preds d.writer r)))
below_read-finds ((p, some e) ∷ stream) preds x d r (inr h) k =
    below_read-finds stream (add_option preds e.writer) x d r h k

pub nearer-writes :
    (o before : Option String) (w : String) → writes o w ≡ true → writes (nearer o before) w ≡ true
nearer-writes none before w h = absurd (ground (arith, h))
nearer-writes (some v) before w h = h

pub nearer-keeps :
    (o before : Option String) (w : String)
    → writes before w ≡ true
    → (writes (nearer o before) w ≡ true) ⊎ ((v : String) × (writes o v ≡ true))
nearer-keeps none before w h = inl h
nearer-keeps (some v) before w h = inr (v, eq_refl v)
