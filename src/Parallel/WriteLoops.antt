-- ===== src/Parallel/WriteLoops.antt =====
-- What the loops of `find_write_predecessors` collect from a stream of nodes.
use blockchain_node.Prelude.{
  ℕ, String, ◌≡◌, refl, true, false, Option, none, some, List, [], ◌∷◌, arith, inl, inr, ◌⊎◌,
  Bool-cases, length, leb, contains,
}
use blockchain_node.Parallel.Tree.{Address}
use blockchain_node.Parallel.Nodes.{Extends, Yields}
use blockchain_node.Parallel.Walks.{Ordered}
use blockchain_node.Parallel.Predecessors.{
  add_all, Predecessors, nearer, enclosing_write, below_write,
}
use blockchain_node.Parallel.Finding.{
  writes, collected, WriterIn, contains-add_all, contains-add_option, below_write-keeps,
  below_write-finds, nearer-writes, nearer-keeps,
}

-- the first loop of a write forgets nothing
enclosing_write-keeps :
    (n : ℕ) (stream : List (Address × Option Predecessors)) (preds : List String)
    (enc : Option String) (r : String)
    → contains preds r ≡ true
    → contains (collected below_write (enclosing_write n stream preds enc)) r ≡ true
unfolding enclosing_write collected
enclosing_write-keeps n [] preds enc r h = ground (arith, h, contains-add_option preds enc r)
enclosing_write-keeps n ((p, none) ∷ stream) preds enc r h =
    enclosing_write-keeps n stream preds enc r h
enclosing_write-keeps n ((p, some e) ∷ stream) preds enc r h =
    elim (Bool-cases (leb n (length p))) [
      | inl b ↦
          rw (b, enclosing_write)
            (below_write-keeps stream _ r (
              ground (
                arith,
                h,
                contains-add_all preds e.readers r,
                contains-add_option (add_all preds e.readers) (nearer e.writer enc) r,
              )))
      | inr b ↦
          rw (b, enclosing_write)
            (enclosing_write-keeps n stream (add_all preds e.readers) (nearer e.writer enc) r
              (ground (arith, h, contains-add_all preds e.readers r)))
    ]

pub enclosing_write-readers :
    (n : ℕ) (stream : List (Address × Option Predecessors)) (preds : List String)
    (enc : Option String) (x : Address) (d : Predecessors) (r : String)
    → Yields x d stream
    → contains d.readers r ≡ true
    → contains (collected below_write (enclosing_write n stream preds enc)) r ≡ true
unfolding enclosing_write collected
enclosing_write-readers n [] preds enc x d r h k = absurd h
enclosing_write-readers n ((p, none) ∷ stream) preds enc x d r (inl (h, i)) k =
    absurd (ground (arith, i))
enclosing_write-readers n ((p, none) ∷ stream) preds enc x d r (inr h) k =
    enclosing_write-readers n stream preds enc x d r h k
enclosing_write-readers n ((p, some e) ∷ stream) preds enc x d r (inl (h, i)) k =
    let same : d ≡ e = ground (arith, i) in
    let now : contains (add_all preds e.readers) r ≡ true =
      rw⁻¹ same (ground (arith, k, contains-add_all preds d.readers r)) in
    elim (Bool-cases (leb n (length p))) [
      | inl b ↦
          rw (b, enclosing_write)
            (below_write-keeps stream _ r (
              ground (
                arith,
                now,
                contains-add_option (add_all preds e.readers) (nearer e.writer enc) r,
              )))
      | inr b ↦
          rw (b, enclosing_write)
            (enclosing_write-keeps n stream (add_all preds e.readers) (nearer e.writer enc) r now)
    ]
enclosing_write-readers n ((p, some e) ∷ stream) preds enc x d r (inr h) k =
    elim (Bool-cases (leb n (length p))) [
      | inl b ↦ rw (b, enclosing_write) (below_write-finds stream _ x d r h (ground (arith, k)))
      | inr b ↦
          rw (b, enclosing_write)
            (enclosing_write-readers n stream (add_all preds e.readers) (nearer e.writer enc) x d r
              h k)
    ]

-- the enclosing writer, or a writer that took its place
enclosing_write-fate :
    (n : ℕ) (stream : List (Address × Option Predecessors)) (preds : List String)
    (enc : Option String) (w : String)
    → writes enc w ≡ true
    → let found = collected below_write (enclosing_write n stream preds enc) in
      (contains found w ≡ true)
      ⊎ ((x : Address) × (d : Predecessors) × (v : String) × WriterIn stream found x d v)
unfolding enclosing_write collected
enclosing_write-fate n [] preds enc w h = inl (ground (arith, h, contains-add_option preds enc w))
enclosing_write-fate n ((p, none) ∷ stream) preds enc w h =
    elim (enclosing_write-fate n stream preds enc w h) [
      | inl k ↦ inl k
      | inr (x, d, v, (i, j, k)) ↦ inr (x, d, v, (inr i, j, k))
    ]
enclosing_write-fate n ((p, some e) ∷ stream) preds enc w h = elim (nearer-keeps e.writer enc w h) [
  | inl m ↦ elim (Bool-cases (leb n (length p))) [
    | inl b ↦
        rw (b, enclosing_write)
          (inl (
            below_write-keeps stream _ w (
              ground
                (arith, m, contains-add_option (add_all preds e.readers) (nearer e.writer enc) w))))
    | inr b ↦
        rw (b, enclosing_write)
          (elim (enclosing_write-fate n stream (add_all preds e.readers) (nearer e.writer enc) w
            m) [ inl k ↦ inl k | inr (x, d, v, (i, j, k)) ↦ inr (x, d, v, (inr i, j, k)) ])
  ]
  | inr (v, m) ↦ elim (Bool-cases (leb n (length p))) [
    | inl b ↦
        rw (b, enclosing_write)
          (inr (
            p,
            e,
            v,
            (
              inl (refl, refl),
              m,
              below_write-keeps stream _ v (
                  ground (
                    arith,
                    nearer-writes e.writer enc v m,
                    contains-add_option (add_all preds e.readers) (nearer e.writer enc) v,
                  )),
            ),
          ))
    | inr b ↦
        rw (b, enclosing_write)
          (elim (enclosing_write-fate n stream (add_all preds e.readers) (nearer e.writer enc) v
            (nearer-writes e.writer enc v m)) [
              | inl k ↦ inr (p, e, v, (inl (refl, refl), m, k))
              | inr (x, d, u, (i, j, k)) ↦ inr (x, d, u, (inr i, j, k))
            ])
  ]
]

-- a writer of the stream, or one that stands further below
pub enclosing_write-writer :
    (a : Address) (stream : List (Address × Option Predecessors)) (preds : List String)
    (enc : Option String) (x : Address) (d : Predecessors) (w : String)
    → Ordered a stream
    → Yields x d stream
    → writes d.writer w ≡ true
    → let found = collected below_write (enclosing_write (length a) stream preds enc) in
      (contains found w ≡ true)
      ⊎ ((leb (length a) (length x) ≡ false)
          × ((y : Address) × (c : Predecessors) × (v : String) × Extends x y
              × WriterIn stream found y c v))
unfolding enclosing_write collected
enclosing_write-writer a [] preds enc x d w o h k = absurd h
enclosing_write-writer a ((p, none) ∷ stream) preds enc x d w o (inl (h, i)) k =
    absurd (ground (arith, i))
enclosing_write-writer a ((p, none) ∷ stream) preds enc x d w o (inr h) k =
    elim (enclosing_write-writer a stream preds enc x d w o h k) [
      | inl l ↦ inl l
      | inr (b, (y, c, v, e, (i, j, l))) ↦ inr (b, (y, c, v, e, (inr i, j, l)))
    ]
enclosing_write-writer a ((p, some e) ∷ stream) preds enc x d w (o, os) (inl (h, i)) k =
    let same : d ≡ e = ground (arith, i) in
    let k' : writes e.writer w ≡ true = rw⁻¹ same k in
    let m = nearer-writes e.writer enc w k' in
    elim (Bool-cases (leb (length a) (length p))) [
      | inl b ↦
          rw (b, enclosing_write)
            (inl (
              below_write-keeps stream _ w (
                ground (
                  arith,
                  m,
                  contains-add_option (add_all preds e.readers) (nearer e.writer enc) w,
                ))))
      | inr b ↦
          rw (b, enclosing_write)
            (elim (enclosing_write-fate (length a) stream (add_all preds e.readers)
              (nearer e.writer enc) w m) [
                | inl l ↦ inl l
                | inr (y, c, v, (i', j, l)) ↦
                    inr (rw h b, (y, c, v, rw h (o b y c i'), (inr i', j, l)))
              ])
    ]
enclosing_write-writer a ((p, some e) ∷ stream) preds enc x d w (o, os) (inr h) k =
    elim (Bool-cases (leb (length a) (length p))) [
      | inl b ↦
          rw (b, enclosing_write) (inl (below_write-finds stream _ x d w h (ground (arith, k))))
      | inr b ↦
          rw (b, enclosing_write)
            (elim (enclosing_write-writer a stream (add_all preds e.readers) (nearer e.writer enc) x
              d w os h k) [
                | inl l ↦ inl l
                | inr (b', (y, c, v, e', (i, j, l))) ↦ inr (b', (y, c, v, e', (inr i, j, l)))
              ])
    ]

-- a first loop that does not break has seen nodes above the address only
pub enclosing_write-left :
    (n : ℕ) (stream : List (Address × Option Predecessors)) (preds : List String)
    (enc : Option String) (x : Address) (d : Predecessors)
    → (enclosing_write n stream preds enc).left ≡ none
    → Yields x d stream
    → leb n (length x) ≡ false
unfolding enclosing_write
enclosing_write-left n [] preds enc x d l h = absurd h
enclosing_write-left n ((p, none) ∷ stream) preds enc x d l (inl (h, i)) =
    absurd (ground (arith, i))
enclosing_write-left n ((p, none) ∷ stream) preds enc x d l (inr h) =
    enclosing_write-left n stream preds enc x d l h
enclosing_write-left n ((p, some e) ∷ stream) preds enc x d l (inl (h, i)) =
    elim (Bool-cases (leb n (length p))) [ inl b ↦ absurd (ground (arith, b, l)) | inr b ↦ rw h b ]
enclosing_write-left n ((p, some e) ∷ stream) preds enc x d l (inr h) =
    elim (Bool-cases (leb n (length p))) [
      | inl b ↦ absurd (ground (arith, b, l))
      | inr b ↦
          enclosing_write-left n stream (add_all preds e.readers) (nearer e.writer enc) x d
            (ground (arith, b, l)) h
    ]
