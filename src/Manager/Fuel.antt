-- ===== src/Manager/Fuel.antt =====
-- The searches end: every context id goes into the queue once, so the fuel of `chain_fuel` is enough.
use blockchain_node.Prelude.{
  ℕ, zero, suc, ◌+◌, ◌≤◌, ◌<◌, String, ◌≡◌, refl, ap, Bool, true, false, some, List, [], ◌∷◌, ◌++◌,
  arith, eq_iff, eq_refl, if◌then◌else◌, List-cases, Bool-cases, Option-cases, inl, inr, contains,
  is_some, length, length-append, contains-append,
}
use blockchain_node.Python.{ok, is_ok, Result-cases}
use blockchain_node.Dict
use blockchain_node.Dict.{Dict, get-insert, contains-keys, get-erase}
use blockchain_node.Context.State.{ExecutionContext, is_read_only, make_read_only}
use blockchain_node.Manager.Store.{MerkleDatabase, ContextManager}
use blockchain_node.Manager.Search.{
  push_bases, Search, search_context, search_next, search_loop, all_bases, chain_fuel, start_search,
  find_address_values_in_chain,
}
use blockchain_node.Manager.Squash.{
  Squash, merge_context, frozen, squash_context, squash_next, squash_loop, start_squash, squash,
}

-- how many of `universe` have not been searched
unsearched : List String → List String → ℕ
unsearched [] searched = 0
unsearched (u ∷ universe) searched =
    (if contains searched u then 0 else 1) + unsearched universe searched

unsearched-append-le :
    (universe s : List String) (b : String)
    → unsearched universe (s ++ b ∷ []) ≤ unsearched universe s
unfolding unsearched
unsearched-append-le [] s b = omega arith
unsearched-append-le (u ∷ universe) s b =
    ground (arith, unsearched-append-le universe s b, contains-append s (b ∷ []) u)

unsearched-append-lt :
    (universe s : List String) (b : String)
    → contains universe b ≡ true
    → contains s b ≡ false
    → unsearched universe (s ++ b ∷ []) < unsearched universe s
unfolding unsearched
unsearched-append-lt [] s b h n = cc
unsearched-append-lt (u ∷ universe) s b h n = ground (
  arith,
  unsearched-append-le universe s b,
  unsearched-append-lt universe s b,
  contains-append s (b ∷ []) u,
  eq_iff u b,
  eq_refl b,
)

unsearched-le-length : (universe s : List String) → unsearched universe s ≤ length universe
unfolding unsearched
unsearched-le-length [] s = omega arith
unsearched-le-length (u ∷ universe) s = ground (arith, unsearched-le-length universe s)

push_bases_measure :
    (universe bases queue searched : List String)
    → ((b : String) → contains bases b ≡ true → contains universe b ≡ true)
    → length (push_bases bases queue searched).0
        + unsearched universe (push_bases bases queue searched).1
      ≤ length queue + unsearched universe searched
unfolding push_bases
push_bases_measure universe [] queue searched h = omega arith
push_bases_measure universe (b ∷ bases) queue searched h = elim (Bool-cases (contains searched b)) [
  | inl p ↦
      rw (p, push_bases)
        (push_bases_measure universe bases queue searched (λ x q. h x (ground (arith, q))))
  | inr p ↦
      rw (p, push_bases)
        (omega (
          arith,
          push_bases_measure universe bases (queue ++ b ∷ []) (searched ++ b ∷ [])
              (λ x q. h x (ground (arith, q))),
          unsearched-append-lt universe searched b (h b (ground (arith, eq_refl b))) p,
          length-append queue (b ∷ []),
        ))
]

contains-all_bases :
    (contexts : Dict ExecutionContext) (c_id : String) (c : ExecutionContext) (b : String)
    → Dict.get c_id contexts ≡ some c
    → contains c.base_contexts b ≡ true
    → contains (all_bases contexts) b ≡ true
unfolding all_bases
contains-all_bases [] c_id c b e h = cc
contains-all_bases ((j, x) ∷ contexts) c_id c b e h = ground (
  arith,
  contains-append x.base_contexts (all_bases contexts) b,
  contains-all_bases contexts c_id c b,
)

pub search_context-pushed :
    (c : ExecutionContext) (s s' : Search)
    → search_context c s ≡ ok s'
    → (s'.contexts_in_chain ≡ (push_bases c.base_contexts s.contexts_in_chain s.searched).0)
      × (s'.searched ≡ (push_bases c.base_contexts s.contexts_in_chain s.searched).1)
unfolding search_context
search_context-pushed c s s' h = ground arith

abbrev search_measure : Dict ExecutionContext → Search → ℕ
search_measure contexts s = length s.contexts_in_chain + unsearched (all_bases contexts) s.searched

search_next_measure :
    (contexts : Dict ExecutionContext) (c_id : String) (s s' : Search)
    → search_next contexts c_id s ≡ ok s'
    → search_measure contexts s' ≤ search_measure contexts s
unfolding search_next
search_next_measure contexts c_id s s' h = elim (Option-cases (Dict.get c_id contexts)) [
  | inl e ↦ ground (arith, e)
  | inr (c, e) ↦
      let (p, q) = search_context-pushed c s s' (ground (arith, e)) in
      rw (p, q)
        (push_bases_measure (all_bases contexts) c.base_contexts s.contexts_in_chain s.searched
          (λ b. contains-all_bases contexts c_id c b e))
]

search_loop_total :
    (fuel : ℕ) (contexts : Dict ExecutionContext) (s : Search)
    → search_measure contexts s < fuel
    → is_some (search_loop fuel contexts s) ≡ true
unfolding search_loop
search_loop_total zero contexts s h = elim h [ ]
search_loop_total (suc fuel) contexts s h = elim (List-cases s.reads) [
  | inl e ↦ rw (e, search_loop) refl
  | inr (a, more, e) ↦ elim (List-cases s.contexts_in_chain) [
    | inl q ↦ rw (e, search_loop) (rw (q, search_loop) refl)
    | inr (c_id, queue, q) ↦
        elim (Result-cases (search_next contexts c_id (record s { contexts_in_chain = queue }))) [
          | inl (s', p) ↦ ground (
            arith,
            e,
            q,
            p,
            search_loop_total fuel contexts s',
            search_next_measure contexts c_id (record s { contexts_in_chain = queue }) s' p,
            ap (λ (l : List String). length l) q,
          )
          | inr (inl (x, p)) ↦ ground (arith, e, q, p)
          | inr (inr p) ↦ ground (arith, e, q, p)
        ]
  ]
]

-- The search through the chain ends, whatever the contexts name as their bases.
pub find_terminates :
    (contexts : Dict ExecutionContext) (base_contexts addresses : List String)
    → is_some (find_address_values_in_chain contexts base_contexts addresses) ≡ true
unfolding find_address_values_in_chain
find_terminates contexts base_contexts addresses =
    search_loop_total (chain_fuel base_contexts contexts) contexts
      (start_search base_contexts addresses)
      (omega (arith, unsearched-le-length (all_bases contexts) base_contexts))

get_frozen : (c : ExecutionContext) → (frozen c).1.base_contexts ≡ c.base_contexts
unfolding make_read_only is_read_only
get_frozen c = ground arith

all_bases-insert :
    (contexts : Dict ExecutionContext) (c_id : String) (c c' : ExecutionContext)
    → Dict.get c_id contexts ≡ some c
    → c'.base_contexts ≡ c.base_contexts
    → all_bases (Dict.insert c_id c' contexts) ≡ all_bases contexts
unfolding all_bases
all_bases-insert [] c_id c c' e h = cc
all_bases-insert ((j, x) ∷ contexts) c_id c c' e h =
    ground (arith, all_bases-insert contexts c_id c c')

abbrev squash_measure : Squash → ℕ
squash_measure s = length s.contexts_in_chain + unsearched (all_bases s.contexts) s.searched

pub squash_context-pushed :
    (c_id : String) (c : ExecutionContext) (s : Squash)
    → (squash_context c_id c s).0 ≡ ok tt
    → ((squash_context c_id c s).1.contexts_in_chain
        ≡ (push_bases (frozen c).1.base_contexts s.contexts_in_chain s.searched).0)
      × ((squash_context c_id c s).1.searched
          ≡ (push_bases (frozen c).1.base_contexts s.contexts_in_chain s.searched).1)
      × ((squash_context c_id c s).1.contexts ≡ Dict.insert c_id (frozen c).1 s.contexts)
unfolding squash_context merge_context
squash_context-pushed c_id c s h = ground arith

squash_next_measure :
    (c_id : String) (s : Squash)
    → is_ok (squash_next c_id s).0 ≡ true
    → squash_measure (squash_next c_id s).1 ≤ squash_measure s
unfolding squash_next
squash_next_measure c_id s h = elim (Option-cases (Dict.get c_id s.contexts)) [
  | inl e ↦ ground (arith, e)
  | inr (c, e) ↦
      let (p, q, r) = squash_context-pushed c_id c s (ground (arith, e)) in
      rw (e, squash_next)
        (rw
          (p, q, r, all_bases-insert s.contexts c_id c (frozen c).1 e (get_frozen c), get_frozen c)
          (push_bases_measure (all_bases s.contexts) c.base_contexts s.contexts_in_chain s.searched
            (λ b. contains-all_bases s.contexts c_id c b e)))
]

squash_loop_total :
    (fuel : ℕ) (s : Squash) → squash_measure s < fuel → is_some (squash_loop fuel s) ≡ true
unfolding squash_loop
squash_loop_total zero s h = elim h [ ]
squash_loop_total (suc fuel) s h = elim (List-cases s.contexts_in_chain) [
  | inl q ↦ rw (q, squash_loop) refl
  | inr (c_id, queue, q) ↦
      let out = squash_next c_id (record s { contexts_in_chain = queue }) in
      elim (Result-cases out.0) [
        | inl (x, p) ↦ ground (
          arith,
          q,
          p,
          squash_loop_total fuel out.1,
          squash_next_measure c_id (record s { contexts_in_chain = queue }),
          ap (λ (l : List String). length l) q,
        )
        | inr (inl (x, p)) ↦ ground (arith, q, p)
        | inr (inr p) ↦ ground (arith, q, p)
      ]
]

-- A squash ends, whatever the contexts name as their bases.
pub squash_terminates :
    (tree : MerkleDatabase) (state_root : String) (ids : List String) (persist clean_up : Bool)
    (m : ContextManager)
    → is_some (squash tree state_root ids persist clean_up m) ≡ true
unfolding squash
squash_terminates tree state_root ids persist clean_up m = ground (
  arith,
  squash_loop_total (chain_fuel ids m.contexts) (start_squash m.contexts ids)
      (omega (arith, unsearched-le-length (all_bases m.contexts) ids)),
)
