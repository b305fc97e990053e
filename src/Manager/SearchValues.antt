-- ===== src/Manager/SearchValues.antt =====
-- The search finds, of each address, the value in the first context of the chain that knows it.
use blockchain_node.Prelude.{
  ℕ, zero, suc, String, ◌≡◌, refl, true, ◌&&◌, none, some, List, [], ◌∷◌, ◌++◌, append_assoc, arith,
  if◌then◌else◌, List-cases, Option-cases, inl, inr, contains, is_none,
}
use blockchain_node.Python.{ok, Result-cases}
use blockchain_node.Dict
use blockchain_node.Dict.{Dict, get-insert, contains-keys, get-erase}
use blockchain_node.Context.State.{ExecutionContext, contains_address}
use blockchain_node.Manager.Search.{
  Search, search_context, search_next, search_loop, chain_fuel, start_search,
  find_address_values_in_chain,
}
use blockchain_node.Manager.Fuel.{search_context-pushed}
use blockchain_node.Manager.SquashValues.{push_bases-searched}
use blockchain_node.Manager.SearchRound.{first_seen, first_seen-append, search_context-round}

-- What holds of the local variables at each round, for the addresses `wanted` that the search
-- began with; `done` are the ids that have been visited.
record IsSearching (cs : Dict ExecutionContext) (wanted : List String) (k : String)
    (done : List String) (s : Search) : Type 0 where
  order : s.searched ≡ done ++ s.contexts_in_chain
  open_reads : contains s.reads k ≡ (contains wanted k && is_none (first_seen cs done k))
  values : Dict.get k s.address_values ≡ (if contains wanted k then first_seen cs done k else none)

module _ (cs : Dict ExecutionContext) (wanted : List String) (k : String) where
  search_next-IsSearching :
      (done queue : List String) (c_id : String) (s s' : Search)
      → s.contexts_in_chain ≡ c_id ∷ queue
      → search_next cs c_id (record s { contexts_in_chain = queue }) ≡ ok s'
      → IsSearching cs wanted k done s
      → IsSearching cs wanted k (done ++ c_id ∷ []) s'
  unfolding search_next
  search_next-IsSearching done queue c_id s s' q h inv = elim (Option-cases (Dict.get c_id cs)) [
    | inl e ↦ ground (arith, e)
    | inr (c, e) ↦
        let s1 = record s { contexts_in_chain = queue } in
        let h1 : search_context c s1 ≡ ok s' = ground (arith, e) in
        let (p1, p2) = search_context-pushed c s1 s' h1 in
        let (v1, v2) = search_context-round c s1 s' k h1 in
        record {
          order =
              rw (p1, p2)
                (push_bases-searched c.base_contexts (done ++ c_id ∷ []) queue s.searched
                  (rw append_assoc (cc (inv.order, q))));
          open_reads =
              unfold contains_address in
              ground (arith, v1, inv.open_reads, first_seen-append cs done (c_id ∷ []) k, e);
          values =
              ground
                (arith, v2, inv.open_reads, inv.values, first_seen-append cs done (c_id ∷ []) k, e);
        }
  ]

  search_loop-IsSearching :
      (fuel : ℕ) (done : List String) (s s' : Search)
      → search_loop fuel cs s ≡ some (ok s')
      → IsSearching cs wanted k done s
      → contains wanted k ≡ true
      → (contains s'.reads k ≡ is_none (first_seen cs s'.searched k))
        × (Dict.get k s'.address_values ≡ first_seen cs s'.searched k)
  unfolding search_loop
  search_loop-IsSearching zero done s s' h inv w = cc
  search_loop-IsSearching (suc fuel) done s s' h inv w = elim (List-cases s.reads) [
    | inl e ↦
        let same : s' ≡ s = ground (arith, e, h) in
        rw same (
          rw inv.order (
            ground (
              arith,
              inv.open_reads,
              inv.values,
              first_seen-append cs done s.contexts_in_chain k,
              e,
              w,
            )))
    | inr (a, more, e) ↦ elim (List-cases s.contexts_in_chain) [
      | inl q ↦
          let same : s' ≡ s = ground (arith, e, q, h) in
          rw same (
            rw inv.order (
              ground (
                arith,
                inv.open_reads,
                inv.values,
                first_seen-append cs done s.contexts_in_chain k,
                q,
                w,
              )))
      | inr (c_id, queue, q) ↦
          elim (Result-cases (search_next cs c_id (record s { contexts_in_chain = queue }))) [
            | inl (s1, p) ↦
                search_loop-IsSearching fuel (done ++ c_id ∷ []) s1 s' (ground (arith, e, q, p, h))
                  (search_next-IsSearching done queue c_id s s1 q p inv) w
            | inr (inl (x, p)) ↦ ground (arith, e, q, p)
            | inr (inr p) ↦ ground (arith, e, q, p)
          ]
    ]
  ]

-- When the search through the chain returns, an address that it was asked about has the value
-- that the first searched context with an entry for it knows (no value where that context has
-- deleted it), and is left over exactly when no searched context has an entry for it.
pub find_first_seen :
    (contexts : Dict ExecutionContext) (base_contexts addresses : List String) (s : Search)
    (k : String)
    → find_address_values_in_chain contexts base_contexts addresses ≡ some (ok s)
    → contains addresses k ≡ true
    → (contains s.reads k ≡ is_none (first_seen contexts s.searched k))
      × (Dict.get k s.address_values ≡ first_seen contexts s.searched k)
unfolding find_address_values_in_chain
find_first_seen contexts base_contexts addresses s k h w =
    search_loop-IsSearching contexts addresses k (chain_fuel base_contexts contexts) []
      (start_search base_contexts addresses) s h
      (record { order = refl; open_reads = ground (arith, w); values = ground (arith, w) }) w
