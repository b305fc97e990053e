-- ===== src/Parallel/ReadLoops.antt =====
-- What the loops of `find_read_predecessors` collect from a stream of nodes.
use blockchain_node.Prelude.{
  ℕ, String, ◌≡◌, refl, true, false, Option, none, some, List, [], ◌∷◌, arith, inl, inr, ◌⊎◌,
  Bool-cases, length, leb, contains,
}
use blockchain_node.Parallel.Tree.{Address}
use blockchain_node.Parallel.Nodes.{Extends, Yields}
use blockchain_node.Parallel.Walks.{Ordered}
use blockchain_node.Parallel.Predecessors.{Predecessors, nearer, enclosing_read, below_read}
use blockchain_node.Parallel.Finding.{
  writes, collected, WriterIn, contains-add_option, below_read-keeps, below_read-finds,
  nearer-writes, nearer-keeps,
}

-- the enclosing writer, or a writer that took its place
enclosing_read-fate :
    (n : ℕ) (stream : List (Address × Option Predecessors)) (enc : Option String) (w : String)
    → writes enc w ≡ true
    → let found = collected below_read (enclosing_read n stream enc) in
      (contains found w ≡ true)
      ⊎ ((x : Address) × (d : Predecessors) × (v : String) × WriterIn stream found x d v)
unfolding enclosing_read collected
enclosing_read-fate n [] enc w h = inl (ground (arith, h, contains-add_option [] enc w))
enclosing_read-fate n ((p, none) ∷ stream) enc w h = elim (enclosing_read-fate n stream enc w h) [
  | inl k ↦ inl k
  | inr (x, d, v, (i, j, k)) ↦ inr (x, d, v, (inr i, j, k))
]
enclosing_read-fate n ((p, some e) ∷ stream) enc w h = elim (nearer-keeps e.writer enc w h) [
  | inl m ↦ elim (Bool-cases (leb n (length p))) [
    | inl b ↦
        rw (b, enclosing_read)
          (inl (
            below_read-keeps stream _ w
              (ground (arith, m, contains-add_option [] (nearer e.writer enc) w))))
    | inr b ↦
        rw (b, enclosing_read)
          (elim (enclosing_read-fate n stream (nearer e.writer enc) w m) [
            | inl k ↦ inl k
            | inr (x, d, v, (i, j, k)) ↦ inr (x, d, v, (inr i, j, k))
          ])
  ]
  | inr (v, m) ↦ elim (Bool-cases (leb n (length p))) [
    | inl b ↦
        rw (b, enclosing_read)
          (inr (
            p,
            e,
            v,
            (
              inl (refl, refl),
              m,
              below_read-keeps stream _ v (
                  ground (
                    arith,
                    nearer-writes e.writer enc v m,
                    contains-add_option [] (nearer e.writer enc) v,
                  )),
            ),
          ))
    | inr b ↦
        rw (b, enclosing_read)
          (elim (enclosing_read-fate n stream (nearer e.writer enc) v
            (nearer-writes e.writer enc v m)) [
              | inl k ↦ inr (p, e, v, (inl (refl, refl), m, k))
              | inr (x, d, u, (i, j, k)) ↦ inr (x, d, u, (inr i, j, k))
            ])
  ]
]

-- a writer of the stream, or one that stands further below
pub enclosing_read-writer :
    (a : Address) (stream : List (Address × Option Predecessors)) (enc : Option String)
    (x : Address) (d : Predecessors) (w : String)
    → Ordered a stream
    → Yields x d stream
    → writes d.writer w ≡ true
    → let found = collected below_read (enclosing_read (length a) stream enc) in
      (contains found w ≡ true)
      ⊎ ((leb (length a) (length x) ≡ false)
          × ((y : Address) × (c : Predecessors) × (v : String) × Extends x y
              × WriterIn stream found y c v))
unfolding enclosing_read collected
enclosing_read-writer a [] enc x d w o h k = absurd h
enclosing_read-writer a ((p, none) ∷ stream) enc x d w o (inl (h, i)) k = absurd (ground (arith, i))
enclosing_read-writer a ((p, none) ∷ stream) enc x d w o (inr h) k =
    elim (enclosing_read-writer a stream enc x d w o h k) [
      | inl l ↦ inl l
      | inr (b, (y, c, v, e, (i, j, l))) ↦ inr (b, (y, c, v, e, (inr i, j, l)))
    ]
enclosing_read-writer a ((p, some e) ∷ stream) enc x d w (o, os) (inl (h, i)) k =
    let same : d ≡ e = ground (arith, i) in
    let k' : writes e.writer w ≡ true = rw⁻¹ same k in
    let m = nearer-writes e.writer enc w k' in
    elim (Bool-cases (leb (length a) (length p))) [
      | inl b ↦
          rw (b, enclosing_read)
            (inl (
              below_read-keeps stream _ w
                (ground (arith, m, contains-add_option [] (nearer e.writer enc) w))))
      | inr b ↦
          rw (b, enclosing_read)
            (elim (enclosing_read-fate (length a) stream (nearer e.writer enc) w m) [
              | inl l ↦ inl l
              | inr (y, c, v, (i', j, l)) ↦
                  inr (rw h b, (y, c, v, rw h (o b y c i'), (inr i', j, l)))
            ])
    ]
enclosing_read-writer a ((p, some e) ∷ stream) enc x d w (o, os) (inr h) k =
    elim (Bool-cases (leb (length a) (length p))) [
      | inl b ↦ rw (b, enclosing_read) (inl (below_read-finds stream _ x d w h k))
      | inr b ↦
          rw (b, enclosing_read)
            (elim (enclosing_read-writer a stream (nearer e.writer enc) x d w os h k) [
              | inl l ↦ inl l
              | inr (b', (y, c, v, e', (i, j, l))) ↦ inr (b', (y, c, v, e', (inr i, j, l)))
            ])
    ]

-- a first loop that does not break has seen nodes above the address only
pub enclosing_read-left :
    (n : ℕ) (stream : List (Address × Option Predecessors)) (enc : Option String) (x : Address)
    (d : Predecessors)
    → (enclosing_read n stream enc).left ≡ none
    → Yields x d stream
    → leb n (length x) ≡ false
unfolding enclosing_read
enclosing_read-left n [] enc x d l h = absurd h
enclosing_read-left n ((p, none) ∷ stream) enc x d l (inl (h, i)) = absurd (ground (arith, i))
enclosing_read-left n ((p, none) ∷ stream) enc x d l (inr h) =
    enclosing_read-left n stream enc x d l h
enclosing_read-left n ((p, some e) ∷ stream) enc x d l (inl (h, i)) =
    elim (Bool-cases (leb n (length p))) [ inl b ↦ absurd (ground (arith, b, l)) | inr b ↦ rw h b ]
enclosing_read-left n ((p, some e) ∷ stream) enc x d l (inr h) =
    elim (Bool-cases (leb n (length p))) [
      | inl b ↦ absurd (ground (arith, b, l))
      | inr b ↦ enclosing_read-left n stream (nearer e.writer enc) x d (ground (arith, b, l)) h
    ]
