-- ===== src/Context/Results.antt =====
-- What `get_all_if_set` and `get_all_if_deleted` report of an execution context.
use blockchain_node.Prelude.{
  String, ◌≡◌, refl, Bool, true, false, not, ◌&&◌, ◌||◌, Option, none, some, List, [], ◌∷◌, arith,
  eq_iff, if◌then◌else◌, Bool-cases, Option-cases, inl, inr, contains,
}
use blockchain_node.Python.{ok, is_ok, ◌>>=◌, bind-eq-ok}
use blockchain_node.Dict
use blockchain_node.Dict.{Dict, get-insert, contains-keys}
use blockchain_node.Context.Future.{Bytes, set_in_context, deleted_in_context}
use blockchain_node.Context.State.{
  ExecutionContext, writable, new_context, get_one, collect, contains_and_set, contains_and_deleted,
  get_all_if_set, get_all_if_deleted,
}
use blockchain_node.Context.Steps.{Reach, IsLawful, Reach-IsLawful, IsLawful-new_context}

-- the value that the future of an address holds
abbrev pub value_of : String → ExecutionContext → Option Bytes
value_of k c = elim (Dict.get k c.state) [ none ↦ none | some f ↦ f.value ]

pub get_one-ok :
    (k : String) (c : ExecutionContext) (v : Option Bytes) → get_one k c ≡ ok v → v ≡ value_of k c
unfolding get_one
get_one-ok k c v h = ground arith

pub get-collect :
    (test : String → ExecutionContext → Bool) (c : ExecutionContext) (adds : List String)
    (m : Dict (Option Bytes)) (k : String)
    → collect test c adds ≡ ok m
    → Dict.get k m ≡ (if contains adds k && test k c then some (value_of k c) else none)
unfolding collect
get-collect test c [] m k h = ground arith
get-collect test c (add ∷ adds) m k h = elim (Bool-cases (test add c)) [
  | inl p ↦
      let (v, e1, h1) =
        bind-eq-ok (get_one add c)
          (λ value. collect test c adds >>= λ results. ok ((add, value) ∷ results))
          (rw (p, collect) at h) in
      let (m', e2, h2) = bind-eq-ok (collect test c adds) (λ results. ok ((add, v) ∷ results)) h1 in
      ground (arith, get-collect test c adds m' k e2, get_one-ok add c v e1, eq_iff add k, p, h2)
  | inr p ↦ ground (arith, get-collect test c adds m k, eq_iff add k, p, h)
]

pub has-all_if_set :
    (c : ExecutionContext) (m : Dict (Option Bytes)) (k : String)
    → get_all_if_set c ≡ ok m
    → Dict.get k m ≡ (if contains_and_set k c then some (value_of k c) else none)
unfolding get_all_if_set
has-all_if_set c m k h =
    unfold contains_and_set set_in_context in
    ground
      (arith, get-collect contains_and_set c (Dict.keys c.state) m k h, contains-keys k c.state)

pub has-all_if_deleted :
    (c : ExecutionContext) (m : Dict (Option Bytes)) (k : String)
    → get_all_if_deleted c ≡ ok m
    → Dict.get k m ≡ (if contains_and_deleted k c then some (value_of k c) else none)
unfolding get_all_if_deleted
has-all_if_deleted c m k h =
    unfold contains_and_deleted deleted_in_context in
    ground
      (arith, get-collect contains_and_deleted c (Dict.keys c.state) m k h, contains-keys k c.state)

-- `get_all_if_set` never waits and never raises.
is_ok-collect_set :
    (c : ExecutionContext) (adds : List String) → is_ok (collect contains_and_set c adds) ≡ true
unfolding collect contains_and_set get_one
is_ok-collect_set c [] = refl
is_ok-collect_set c (add ∷ adds) = ground (arith, is_ok-collect_set c adds)

entry_confined :
    (w : String → Bool) (c : ExecutionContext) (ms md : Dict (Option Bytes)) (k : String)
    → IsLawful w c
    → get_all_if_set c ≡ ok ms
    → get_all_if_deleted c ≡ ok md
    → ((Dict.has k ms && Dict.has k md) ≡ false)
      × (((Dict.has k ms || Dict.has k md) && not (w k)) ≡ false)
unfolding contains_and_set contains_and_deleted
entry_confined w c ms md k h hs hd = elim (Option-cases (Dict.get k c.state)) [
  | inl e ↦ ground (arith, has-all_if_set c ms k hs, has-all_if_deleted c md k hd, e)
  | inr (f, e) ↦
      ground (arith, has-all_if_set c ms k hs, has-all_if_deleted c md k hd, e, h.entries k f e)
]

-- Of a context that began empty, whatever calls it has had since, what it reports as set and
-- as deleted is covered by the outputs of its transaction, and no address is reported as both.
pub reported_confined :
    (id root : String) (reads writes bases : List String) {c : ExecutionContext}
    (ms md : Dict (Option Bytes)) (k : String)
    → Reach (new_context id root reads writes bases) c
    → get_all_if_set c ≡ ok ms
    → get_all_if_deleted c ≡ ok md
    → ((Dict.has k ms && Dict.has k md) ≡ false)
      × (((Dict.has k ms || Dict.has k md)
            && not (writable (new_context id root reads writes bases) k))
          ≡ false)
reported_confined id root reads writes bases {c} ms md k r hs hd =
    entry_confined (writable (new_context id root reads writes bases)) c ms md k
      (Reach-IsLawful (writable (new_context id root reads writes bases))
        (IsLawful-new_context id root reads writes bases) r)
      hs hd
