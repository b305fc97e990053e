-- ===== src/Manager/SquashValues.antt =====
-- The squash keeps, of each address, the write of the first context of the chain that has one.
use blockchain_node.Prelude.{
  ℕ, zero, suc, String, ◌≡◌, refl, ◌∙◌, false, ◌&&◌, some, List, [], ◌∷◌, ◌++◌, append_assoc,
  append-nil, arith, eq_iff, List-cases, Bool-cases, Option-cases, inl, inr, contains,
}
use blockchain_node.Python.{ok, bind-eq-ok, Result-cases}
use blockchain_node.Dict
use blockchain_node.Dict.{Dict, get-insert, contains-keys, get-erase}
use blockchain_node.Context.State.{ExecutionContext, get_all_if_set, get_all_if_deleted}
use blockchain_node.Manager.Search.{push_bases}
use blockchain_node.Manager.Squash.{
  Squash, merge_context, frozen, squash_context, squash_next, squash_loop, start_squash,
}
use blockchain_node.Context.Writes.{written}
use blockchain_node.Manager.Fuel.{squash_context-pushed}
use blockchain_node.Manager.SquashMerge.{
  or_else, first_write, change, written-frozen, merge_change, merge_separate,
}

-- the searched ids are those that have been visited, then those in the queue
pub push_bases-searched :
    (bases done queue searched : List String)
    → searched ≡ done ++ queue
    → (push_bases bases queue searched).1 ≡ done ++ (push_bases bases queue searched).0
unfolding push_bases
push_bases-searched [] done queue searched h = h
push_bases-searched (b ∷ bases) done queue searched h = elim (Bool-cases (contains searched b)) [
  | inl p ↦ rw (p, push_bases) (push_bases-searched bases done queue searched h)
  | inr p ↦
      rw (p, push_bases)
        (push_bases-searched bases done (queue ++ b ∷ []) (searched ++ b ∷ [])
          (rw h (append_assoc done queue (b ∷ []))))
]

first_write-append :
    (contexts : Dict ExecutionContext) (xs ys : List String) (k : String)
    → first_write contexts (xs ++ ys) k
      ≡ or_else (first_write contexts xs k) (first_write contexts ys k)
first_write-append contexts [] ys k = refl
first_write-append contexts (x ∷ xs) ys k = ground (arith, first_write-append contexts xs ys k)

first_write-insert :
    (contexts : Dict ExecutionContext) (c_id : String) (c c' : ExecutionContext) (ids : List String)
    (k : String)
    → Dict.get c_id contexts ≡ some c
    → written k c' ≡ written k c
    → first_write (Dict.insert c_id c' contexts) ids k ≡ first_write contexts ids k
first_write-insert contexts c_id c c' [] k e h = refl
first_write-insert contexts c_id c c' (i ∷ ids) k e h = ground (
  arith,
  first_write-insert contexts c_id c c' ids k e h,
  get-insert c_id i c' contexts,
  eq_iff c_id i,
)

-- What holds of the local variables at each round, for the contexts `cs` that the squash began
-- with; `done` are the ids that have been visited.
record IsSquashing (cs : Dict ExecutionContext) (k : String) (done : List String) (s : Squash)
    : Type 0 where
  order : s.searched ≡ done ++ s.contexts_in_chain
  kept : (ids : List String) → first_write s.contexts ids k ≡ first_write cs ids k
  first : change k s.updates s.deletes ≡ first_write cs done k
  separate : (Dict.has k s.updates && contains s.deletes k) ≡ false

merge_context-values :
    (c : ExecutionContext) (s s' : Squash) (k : String)
    → merge_context c s ≡ ok s'
    → (Dict.has k s.updates && contains s.deletes k) ≡ false
    → (change k s'.updates s'.deletes ≡ or_else (change k s.updates s.deletes) (written k c))
      × ((Dict.has k s'.updates && contains s'.deletes k) ≡ false)
unfolding merge_context
merge_context-values c s s' k h sep =
    let (sets, hs, h1) = bind-eq-ok (get_all_if_set c) _ h in
    let (dels, hd, h2) = bind-eq-ok (get_all_if_deleted c) _ h1 in
    ground (
      arith,
      merge_change k c sets dels s.updates s.deletes hs hd,
      merge_separate k sets dels s.updates s.deletes sep,
      h2,
    )

merge_of_squash_context :
    (c_id : String) (c : ExecutionContext) (s : Squash)
    → (squash_context c_id c s).0 ≡ ok tt
    → merge_context (frozen c).1 (record s { contexts = Dict.insert c_id (frozen c).1 s.contexts })
      ≡ ok (squash_context c_id c s).1
unfolding squash_context
merge_of_squash_context c_id c s h = ground arith

module _ (cs : Dict ExecutionContext) (k : String) where
  squash_next-IsSquashing :
      (done queue : List String) (c_id : String) (s : Squash)
      → s.contexts_in_chain ≡ c_id ∷ queue
      → (squash_next c_id (record s { contexts_in_chain = queue })).0 ≡ ok tt
      → IsSquashing cs k done s
      → IsSquashing cs k
          (done ++ c_id ∷ [])
          (squash_next c_id (record s { contexts_in_chain = queue })).1
  unfolding squash_next
  squash_next-IsSquashing done queue c_id s q h inv =
      elim (Option-cases (Dict.get c_id s.contexts)) [
        | inl e ↦ ground (arith, e)
        | inr (c, e) ↦
            let s1 = record s { contexts_in_chain = queue } in
            let ok1 : (squash_context c_id c s1).0 ≡ ok tt = ground (arith, e) in
            let (p1, p2, p3) = squash_context-pushed c_id c s1 ok1 in
            let (v1, v2) =
              merge_context-values (frozen c).1
                (record s1 { contexts = Dict.insert c_id (frozen c).1 s1.contexts })
                (squash_context c_id c s1).1 k (merge_of_squash_context c_id c s1 ok1)
                inv.separate in
            rw (e, squash_next)
              (record {
                order =
                    rw (p1, p2)
                      (push_bases-searched (frozen c).1.base_contexts (done ++ c_id ∷ []) queue
                        s.searched (rw append_assoc (cc (inv.order, q))));
                kept = λ ids. rw p3 (
                    first_write-insert s.contexts c_id c (frozen c).1 ids k e (written-frozen k c)
                    ∙ inv.kept ids);
                first = ground (
                  arith,
                  v1,
                  written-frozen k c,
                  first_write-append cs done (c_id ∷ []) k,
                  inv.kept (c_id ∷ []),
                  inv.first,
                  e,
                );
                separate = v2;
              })
      ]

  squash_loop-IsSquashing :
      (fuel : ℕ) (done : List String) (s s' : Squash)
      → squash_loop fuel s ≡ some (ok tt, s')
      → IsSquashing cs k done s
      → IsSquashing cs k s'.searched s'
  unfolding squash_loop
  squash_loop-IsSquashing zero done s s' h inv = cc
  squash_loop-IsSquashing (suc fuel) done s s' h inv = elim (List-cases s.contexts_in_chain) [
    | inl q ↦
        let same : s' ≡ s = ground (arith, q, h) in
        let all_done : s.searched ≡ done = inv.order ∙ (rw (q, append-nil) refl) in
        rw same (record {
          order = rw (q, append-nil) refl;
          kept = inv.kept;
          first = rw all_done inv.first;
          separate = inv.separate;
        })
    | inr (c_id, queue, q) ↦
        let out = squash_next c_id (record s { contexts_in_chain = queue }) in
        elim (Result-cases out.0) [
          | inl (x, p) ↦
              squash_loop-IsSquashing fuel (done ++ c_id ∷ []) out.1 s' (ground (arith, q, p, h))
                (squash_next-IsSquashing done queue c_id s q p inv)
          | inr (inl (x, p)) ↦ ground (arith, q, p)
          | inr (inr p) ↦ ground (arith, q, p)
        ]
  ]

-- When the loop of a squash has ended, the updates and deletions at every address are the write
-- of the first searched context that has one, and no address is both updated and deleted.
pub squash_first_write :
    (fuel : ℕ) (contexts : Dict ExecutionContext) (ids : List String) (s : Squash) (k : String)
    → squash_loop fuel (start_squash contexts ids) ≡ some (ok tt, s)
    → (change k s.updates s.deletes ≡ first_write contexts s.searched k)
      × ((Dict.has k s.updates && contains s.deletes k) ≡ false)
squash_first_write fuel contexts ids s k h =
    let inv =
      squash_loop-IsSquashing contexts k fuel [] (start_squash contexts ids) s h
        (record { order = refl; kept = λ i. refl; first = refl; separate = refl }) in
    (inv.first, inv.separate)
