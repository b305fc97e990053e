-- ===== src/Manager/Requests.antt =====
-- Which requests the context manager answers: every address is well formed and the transaction is
-- authorized for it.
use blockchain_node.Prelude.{
  String, ◌≡◌, refl, sym, ◌∙◌, Bool, true, false, not, ◌&&◌, ◌||◌, Option, some, List, [], ◌∷◌,
  arith, eq_iff, is_empty, Bool-cases, inl, inr, contains, filter, contains-filter,
}
use blockchain_node.Python.{Error, authorization, Result, ok, err, blocked, is_ok, Result-cases}
use blockchain_node.Dict
use blockchain_node.Dict.{Dict, get-insert, contains-keys, get-erase}
use blockchain_node.Context.Future.{Bytes}
use blockchain_node.Context
use blockchain_node.Context.State.{
  ExecutionContext, Event, writable, readable, validate_write, validate_read, new_context,
  set_direct, delete_direct, create_prefetch, create_initial, set_from_tree, is_read_only,
  make_read_only, get_one, contains_address, contains_and_set, contains_and_deleted,
  contains_and_not_set, get_all_if_set, get_all_if_deleted, get_if_deleted, get_if_set,
  get_if_not_set, get_one_if_deleted, get_one_if_set, get_one_if_not_set,
}
use blockchain_node.Manager.Address.{address_is_valid}
use blockchain_node.Manager.Store.{MerkleDatabase, ContextManager}
use blockchain_node.Manager.Sets.{to_set, set_minus}
use blockchain_node.Context.Access.{all_writable, is_ok-set_direct, is_ok-delete_direct}
use blockchain_node.Manager.Sets.{contains-to_set}
use blockchain_node.Manager.Calls.{
  check_all, check_addresses, stored, manager_delete, add_items, add_value_dict, manager_set,
  validate_reads, get_in_context, manager_get,
}

-- The lemmas say of a test that the loop makes that it cannot fail for a member where the loop
-- returns.
check_all-ok :
    (test : String → Bool) (error : String → Error) (adds : List String) (a : String)
    → (is_ok (check_all test error adds) && contains adds a && not (test a)) ≡ false
unfolding check_all
check_all-ok test error [] a = refl
check_all-ok test error (add ∷ adds) a =
    ground (arith, eq_iff add a, check_all-ok test error adds a)

all_writable-contains :
    (c : ExecutionContext) (adds : List String) (a : String)
    → (all_writable c adds && contains adds a && not (writable c a)) ≡ false
all_writable-contains c [] a = refl
all_writable-contains c (add ∷ adds) a =
    ground (arith, eq_iff add a, all_writable-contains c adds a)

get-readable :
    (adds : List String) (c : ExecutionContext) (a : String)
    → (is_ok (Context.State.get adds c) && contains adds a && not (readable c a)) ≡ false
unfolding Context.State.get validate_read
get-readable [] c a = refl
get-readable (add ∷ adds) c a = ground (arith, eq_iff add a, get-readable adds c a)

validate_reads-readable :
    (c : ExecutionContext) (adds : List String) (a : String)
    → (is_ok (validate_reads c adds) && contains adds a && not (readable c a)) ≡ false
unfolding validate_reads validate_read
validate_reads-readable c [] a = refl
validate_reads-readable c (add ∷ adds) a =
    ground (arith, eq_iff add a, validate_reads-readable c adds a)

contains-set_minus :
    (xs ys : List String) (a : String)
    → contains (set_minus xs ys) a ≡ (contains xs a && not (contains ys a))
unfolding set_minus
contains-set_minus xs ys a =
    ground (arith, contains-filter (λ x. not (contains ys x)) (to_set xs) a, contains-to_set xs a)

-- what is in the dictionary that the loop of `set` starts with, or in a request
add_items-has :
    (d values out : Dict Bytes) (a : String)
    → add_items d values ≡ ok out
    → ((Dict.has a d || Dict.has a values) && not (Dict.has a out)) ≡ false
      × (Dict.has a d && not (address_is_valid a)) ≡ false
unfolding add_items
add_items-has [] values out a h = (ground (arith, h), refl)
add_items-has ((add, v) ∷ d) values out a h = elim (Bool-cases (address_is_valid add)) [
  | inl e ↦
      let (p, q) = add_items-has d (Dict.insert add v values) out a (ground (arith, h, e)) in
      (
        ground (arith, p, get-insert add a v values, eq_iff add a),
        ground (arith, q, e, eq_iff add a),
      )
  | inr e ↦ absurd (ground (arith, h, e))
]

-- one of the dictionaries has the address
abbrev pub any_has : List (Dict Bytes) → String → Bool
any_has [] a = false
any_has (d ∷ ds) a = Dict.has a d || any_has ds a

add_value_dict-has :
    (ds : List (Dict Bytes)) (values out : Dict Bytes) (a : String)
    → add_value_dict ds values ≡ ok out
    → ((any_has ds a || Dict.has a values) && not (Dict.has a out)) ≡ false
      × (any_has ds a && not (address_is_valid a)) ≡ false
unfolding add_value_dict
add_value_dict-has [] values out a h = (ground (arith, h), refl)
add_value_dict-has (d ∷ ds) values out a h = elim (Result-cases (add_items d values)) [
  | inl (mid, e) ↦
      let (p, q) = add_items-has d values mid a e in
      let (p', q') = add_value_dict-has ds mid out a (ground (arith, h, e)) in
      (ground (arith, p, p'), ground (arith, q, q'))
  | inr (inl (x, e)) ↦ absurd (ground (arith, h, e))
  | inr (inr e) ↦ absurd (ground (arith, h, e))
]

is_ok-stored :
    (context_id : String) (m : ContextManager) (x : Result (Unit {0}) × ExecutionContext)
    → is_ok (stored context_id m x).0 ≡ is_ok x.0
is_ok-stored context_id m (ok u, c) = refl
is_ok-stored context_id m (err x, c) = refl
is_ok-stored context_id m (blocked, c) = refl

empty-contains : (xs : List String) (a : String) → (is_empty xs && contains xs a) ≡ false
empty-contains [] a = refl
empty-contains (x ∷ xs) a = refl

get_in_context-readable :
    (tree : MerkleDatabase) (context_id : String) (c : ExecutionContext) (adds : List String)
    (m : ContextManager) (values : Dict (Option Bytes)) (a : String)
    → get_in_context tree context_id c adds m ≡ some (ok values)
    → contains adds a ≡ true
    → readable c a ≡ true
unfolding get_in_context
get_in_context-readable tree context_id c adds m values a h k =
    let inner = filter (λ add. contains_address add c) adds in
    let outer = set_minus adds inner in
    let o = contains-set_minus adds inner a in
    elim (Result-cases (Context.State.get inner c)) [
      | inl (vs, r) ↦ elim (Bool-cases (contains inner a)) [
        | inl p ↦ ground (arith, get-readable inner c a, r, p)
        | inr p ↦ elim (Result-cases (validate_reads c outer)) [
          | inl (u, w) ↦ ground (arith, validate_reads-readable c outer a, w, o, p, k)
          | inr (inl (x, w)) ↦ absurd (ground (arith, h, r, w, o, p, k, empty-contains outer a))
          | inr (inr w) ↦ absurd (ground (arith, h, r, w, o, p, k, empty-contains outer a))
        ]
      ]
      | inr (inl (x, r)) ↦ absurd (ground (arith, h, r))
      | inr (inr r) ↦ absurd (ground (arith, h, r))
    ]

module _ (context_id : String) (c : ExecutionContext) (m : ContextManager) where
  -- Where `set` returns for a known context, every address of the request is well formed and is
  -- covered by the outputs of the transaction.
  pub set_authorized :
      (ds : List (Dict Bytes)) (a : String)
      → Dict.get context_id m.contexts ≡ some c
      → is_ok (manager_set context_id ds m).0 ≡ true
      → any_has ds a ≡ true
      → (address_is_valid a ≡ true) × (writable c a ≡ true)
  unfolding manager_set
  set_authorized ds a e h k = elim (Result-cases (add_value_dict ds [])) [
    | inl (values, r) ↦
        let (p, q) = add_value_dict-has ds [] values a r in
        let done : is_ok (set_direct values c).0 ≡ true =
          sym (is_ok-stored context_id m (set_direct values c))
          ∙ (let g : (is_ok (manager_set context_id ds m).0)
                  ≡ is_ok (stored context_id m (set_direct values c)).0 =
                ground (arith, e, r) in
              sym g ∙ h) in
        (
          ground (arith, q, k),
          ground (
            arith,
            p,
            k,
            done,
            is_ok-set_direct values c,
            contains-keys a values,
            all_writable-contains c (Dict.keys values) a,
          ),
        )
    | inr (inl (x, r)) ↦ absurd (ground (arith, e, r, h))
    | inr (inr r) ↦ absurd (ground (arith, e, r, h))
  ]

  -- Where `delete` returns for a known context, every address of the request is well formed and is
  -- covered by the outputs of the transaction.
  pub delete_authorized :
      (adds : List String) (a : String)
      → Dict.get context_id m.contexts ≡ some c
      → is_ok (manager_delete context_id adds m).0 ≡ true
      → contains adds a ≡ true
      → (address_is_valid a ≡ true) × (writable c a ≡ true)
  unfolding manager_delete
  delete_authorized adds a e h k = elim (Result-cases (check_addresses adds)) [
    | inl (u, r) ↦
        let done : is_ok (delete_direct adds c).0 ≡ true =
          sym (is_ok-stored context_id m (delete_direct adds c))
          ∙ (let g : (is_ok (manager_delete context_id adds m).0)
                  ≡ is_ok (stored context_id m (delete_direct adds c)).0 =
                ground (arith, e, r) in
              sym g ∙ h) in
        (
          ground (arith, check_all-ok address_is_valid authorization adds a, r, k),
          ground (arith, k, done, is_ok-delete_direct adds c, all_writable-contains c adds a),
        )
    | inr (inl (x, r)) ↦ absurd (ground (arith, e, r, h))
    | inr (inr r) ↦ absurd (ground (arith, e, r, h))
  ]

  -- Where `get` returns for a known context, every address of the request is well formed and is
  -- covered by the inputs of the transaction.
  pub get_authorized :
      (tree : MerkleDatabase) (adds : List String) (a : String) (values : Dict (Option Bytes))
      → Dict.get context_id m.contexts ≡ some c
      → manager_get tree context_id adds m ≡ some (ok values)
      → contains adds a ≡ true
      → (address_is_valid a ≡ true) × (readable c a ≡ true)
  unfolding manager_get
  get_authorized tree adds a values e h k = elim (Result-cases (check_addresses adds)) [
    | inl (u, r) ↦ (
      ground (arith, check_all-ok address_is_valid authorization adds a, r, k),
      get_in_context-readable tree context_id c adds m values a (ground (arith, e, r, h)) k,
    )
    | inr (inl (x, r)) ↦ absurd (ground (arith, e, r, h))
    | inr (inr r) ↦ absurd (ground (arith, e, r, h))
  ]
