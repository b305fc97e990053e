-- ===== src/Manager/SearchRound.antt =====
-- One round of the search: which addresses it takes off `reads`, and with which values.
use blockchain_node.Prelude.{
  String, ◌≡◌, refl, not, ◌&&◌, Option, none, some, List, [], ◌∷◌, ◌++◌, map, arith, eq_iff,
  if◌then◌else◌, Bool-cases, inl, inr, contains, filter, contains-filter,
}
use blockchain_node.Python.{ok, ◌>>=◌, bind-eq-ok}
use blockchain_node.Dict
use blockchain_node.Dict.{Dict, get-insert, contains-keys, get-erase}
use blockchain_node.Context.Future.{Bytes}
use blockchain_node.Context.State.{
  ExecutionContext, contains_address, contains_and_set, contains_and_deleted, contains_and_not_set,
  get_if_deleted, get_if_set, get_if_not_set, get_one_if_deleted, get_one_if_set,
  get_one_if_not_set,
}
use blockchain_node.Manager.Sets.{
  contains_some, without_deleted, deleted_values, found_values, not_found, zip_values, remove_all,
}
use blockchain_node.Manager.Search.{Search, search_context}
use blockchain_node.Manager.Sets.{
  contains-without_deleted, get-append, get-deleted_values, get-found_values, contains-not_found,
  get-zip_values, contains-remove_all, IsDistinct-without_deleted, IsDistinct-not_found,
}
use blockchain_node.Context.Results.{value_of, get_one-ok}
use blockchain_node.Manager.SquashMerge.{or_else}

-- what a context knows at `k`: its value there, and no value where it has deleted it
abbrev pub seen : String → ExecutionContext → Option (Option Bytes)
seen k c = elim (Dict.get k c.state) [
  | none ↦ none
  | some f ↦ some (if f.deleted then none else f.value)
]

abbrev pub seen_in : Dict ExecutionContext → String → String → Option (Option Bytes)
seen_in contexts c_id k = elim (Dict.get c_id contexts) [ none ↦ none | some c ↦ seen k c ]

-- what the first of the contexts `ids` knows that knows anything at `k`
abbrev pub first_seen : Dict ExecutionContext → List String → String → Option (Option Bytes)
first_seen contexts [] k = none
first_seen contexts (c_id ∷ ids) k = or_else (seen_in contexts c_id k) (first_seen contexts ids k)

pub first_seen-append :
    (contexts : Dict ExecutionContext) (xs ys : List String) (k : String)
    → first_seen contexts (xs ++ ys) k
      ≡ or_else (first_seen contexts xs k) (first_seen contexts ys k)
first_seen-append contexts [] ys k = refl
first_seen-append contexts (x ∷ xs) ys k = ground (arith, first_seen-append contexts xs ys k)

abbrev set_value : ExecutionContext → String → Option Bytes
set_value c a = if contains_and_set a c then value_of a c else none

abbrev input_value : ExecutionContext → String → Option Bytes
input_value c a = if contains_and_not_set a c then value_of a c else none

get_if_set-ok :
    (adds : List String) (c : ExecutionContext) (vs : List (Option Bytes))
    → get_if_set adds c ≡ ok vs
    → vs ≡ map (set_value c) adds
unfolding get_if_set get_one_if_set
get_if_set-ok [] c vs h = cc
get_if_set-ok (a ∷ adds) c vs h =
    let (v, h1, h2) =
      bind-eq-ok (get_one_if_set a c)
        (λ value. get_if_set adds c >>= λ results. ok (value ∷ results)) h in
    let (ws, h3, h4) = bind-eq-ok (get_if_set adds c) (λ results. ok (v ∷ results)) h2 in
    ground (arith, get_if_set-ok adds c ws h3, get_one-ok a c v, h1, h4)

get_if_not_set-ok :
    (adds : List String) (c : ExecutionContext) (vs : List (Option Bytes))
    → get_if_not_set adds c ≡ ok vs
    → vs ≡ map (input_value c) adds
unfolding get_if_not_set get_one_if_not_set
get_if_not_set-ok [] c vs h = cc
get_if_not_set-ok (a ∷ adds) c vs h =
    let (v, h1, h2) =
      bind-eq-ok (get_one_if_not_set a c)
        (λ value. get_if_not_set adds c >>= λ results. ok (value ∷ results)) h in
    let (ws, h3, h4) = bind-eq-ok (get_if_not_set adds c) (λ results. ok (v ∷ results)) h2 in
    ground (arith, get_if_not_set-ok adds c ws h3, get_one-ok a c v, h1, h4)

contains-get_if_deleted :
    (adds : List String) (c : ExecutionContext) (k : String)
    → contains_some (get_if_deleted adds c) k ≡ (contains adds k && contains_and_deleted k c)
unfolding get_if_deleted get_one_if_deleted
contains-get_if_deleted [] c k = refl
contains-get_if_deleted (a ∷ adds) c k = elim (Bool-cases (contains_and_deleted a c)) [
  | inl p ↦ ground (arith, contains-get_if_deleted adds c k, eq_iff a k, p)
  | inr p ↦ ground (arith, contains-get_if_deleted adds c k, eq_iff a k, p)
]

-- what one round does to `reads` and `address_values` at `k`
module _ (c : ExecutionContext) (reads : List String) (values : Dict (Option Bytes))
    (k : String) where
  abbrev reads1 : List String
  reads1 = without_deleted reads (get_if_deleted reads c)

  abbrev reads2 : List String
  reads2 = not_found reads1 (map (set_value c) reads1)

  abbrev inputs : List String
  inputs = filter (λ a. contains_address a c) reads2

  contains-round :
      contains (remove_all reads2 inputs) k ≡ (contains reads k && not (contains_address k c))
  unfolding contains_address contains_and_deleted contains_and_set
  contains-round = ground (
    arith,
    contains-remove_all reads2 inputs k (
        IsDistinct-not_found (set_value c) reads1
          (IsDistinct-without_deleted reads (get_if_deleted reads c))),
    contains-filter (λ a. contains_address a c) reads2 k,
    contains-not_found (set_value c) reads1 k,
    contains-without_deleted reads (get_if_deleted reads c) k,
    contains-get_if_deleted reads c k,
  )

  get-round :
      Dict.get k (
        values
        ++ (deleted_values (get_if_deleted reads c)
            ++ (found_values reads1 (map (set_value c) reads1)
                ++ zip_values inputs (map (input_value c) inputs))))
      ≡ (if Dict.has k values
          then Dict.get k values
          else if contains reads k
          then seen k c
          else none)
  unfolding contains_address contains_and_deleted contains_and_set contains_and_not_set
  get-round =
      let found = found_values reads1 (map (set_value c) reads1) in
      let rest = zip_values inputs (map (input_value c) inputs) in
      ground (
        arith,
        get-append values (deleted_values (get_if_deleted reads c) ++ (found ++ rest)) k,
        get-append (deleted_values (get_if_deleted reads c)) (found ++ rest) k,
        get-append found rest k,
        get-deleted_values (get_if_deleted reads c) k,
        get-found_values (set_value c) reads1 k,
        get-zip_values (input_value c) inputs k,
        contains-filter (λ a. contains_address a c) reads2 k,
        contains-not_found (set_value c) reads1 k,
        contains-without_deleted reads (get_if_deleted reads c) k,
        contains-get_if_deleted reads c k,
      )

-- the same, for the lists of values that the calls have returned
round_lem :
    (c : ExecutionContext) (s : Search) (k : String) (vs ws : List (Option Bytes))
    (reads' : List String) (values' : Dict (Option Bytes))
    → vs ≡ map (set_value c) (without_deleted s.reads (get_if_deleted s.reads c))
    → ws
      ≡ map (input_value c) (
          filter
            (λ a. contains_address a c)
            (not_found (without_deleted s.reads (get_if_deleted s.reads c)) vs))
    → reads'
      ≡ remove_all (not_found (without_deleted s.reads (get_if_deleted s.reads c)) vs) (
          filter
            (λ a. contains_address a c)
            (not_found (without_deleted s.reads (get_if_deleted s.reads c)) vs))
    → values'
      ≡ s.address_values
        ++ (deleted_values (get_if_deleted s.reads c)
            ++ (found_values (without_deleted s.reads (get_if_deleted s.reads c)) vs
                ++ zip_values
                    (filter
                      (λ a. contains_address a c)
                      (not_found (without_deleted s.reads (get_if_deleted s.reads c)) vs))
                    ws))
    → (contains reads' k ≡ (contains s.reads k && not (contains_address k c)))
      × (Dict.get k values' ≡ (
          if Dict.has k s.address_values
          then Dict.get k s.address_values
          else if contains s.reads k
          then seen k c
          else none))
round_lem c s k vs ws reads' values' ev ew er ed = (
  rw er (rw ev (contains-round c s.reads s.address_values k)),
  rw ed (rw ew (rw ev (get-round c s.reads s.address_values k))),
)

pub search_context-round :
    (c : ExecutionContext) (s s' : Search) (k : String)
    → search_context c s ≡ ok s'
    → (contains s'.reads k ≡ (contains s.reads k && not (contains_address k c)))
      × (Dict.get k s'.address_values ≡ (
          if Dict.has k s.address_values
          then Dict.get k s.address_values
          else if contains s.reads k
          then seen k c
          else none))
unfolding search_context
search_context-round c s s' k h =
    let r1 = without_deleted s.reads (get_if_deleted s.reads c) in
    let (vs, hv, h1) = bind-eq-ok (get_if_set r1 c) _ h in
    let ins = filter (λ (a : String). contains_address a c) (not_found r1 vs) in
    let (ws, hw, h2) = bind-eq-ok (get_if_not_set ins c) _ h1 in
    round_lem c s k vs ws s'.reads s'.address_values (get_if_set-ok r1 c vs hv)
      (get_if_not_set-ok ins c ws hw) (ground (arith, h2)) (ground (arith, h2))
