-- ===== src/Context/Steps.antt =====
-- The calls that change an execution context, as a step relation, and the invariant of its
-- entries: what is set or deleted may be written, and no address is both set and deleted.
use blockchain_node.Prelude.{
  String, ◌≡◌, refl, sym, ◌∙◌, Bool, true, false, ◌&&◌, ◌||◌, Option, none, some, List, [], ◌∷◌,
  arith, ◌==◌, eq_iff, Bool-cases, Option-cases, inl, inr,
}
use blockchain_node.Dict
use blockchain_node.Dict.{Dict, get-insert}
use blockchain_node.Context.Future.{
  Bytes, ContextFuture, new_future, freeze, set_result, set_deleted,
}
use blockchain_node.Context.State.{
  ExecutionContext, Event, writable, new_context, put_future, future_at, set_one, set_direct,
  delete_one, delete_direct, create_prefetch, create_initial, set_one_from_tree, set_from_tree,
  freeze_all, make_read_only, add_execution_data, add_execution_event,
}
use blockchain_node.Context.Access.{set_direct_keeps, delete_direct_keeps}

-- One call on the context, by its owner or by a thread of the context manager. A call that
-- raises or waits has made the changes that come before.
pub data Step : ExecutionContext → ExecutionContext → Type 0 where
  initial :
      (vals : List (String × Option Bytes)) (c : ExecutionContext) → Step c (create_initial vals c)
  prefetch : (adds : List String) (c : ExecutionContext) → Step c (create_prefetch adds c)
  from_tree : (d : Dict (Option Bytes)) (c : ExecutionContext) → Step c (set_from_tree d c)
  set_values : (d : Dict Bytes) (c : ExecutionContext) → Step c (set_direct d c).1
  delete_values : (adds : List String) (c : ExecutionContext) → Step c (delete_direct adds c).1
  read_only : (c : ExecutionContext) → Step c (make_read_only c).1
  add_data : (item : Bytes) (c : ExecutionContext) → Step c (add_execution_data item c)
  add_event : (event : Event) (c : ExecutionContext) → Step c (add_execution_event event c)

pub data Reach (s : ExecutionContext) : ExecutionContext → Type 0 where
  start : Reach s s
  next : {c c' : ExecutionContext} → Reach s c → Step c c' → Reach s c'

abbrev pub EntryFits : Bool → ContextFuture → Type 0
EntryFits w f =
    ((f.result_set_in_context && f.deleted) ≡ false)
    × ((f.result_set_in_context || f.deleted) ≡ true → w ≡ true)

-- the outputs `w` are those of the context, and every entry fits them
pub record IsLawful (w : String → Bool) (c : ExecutionContext) : Type 0 where
  pub outputs : (k : String) → writable c k ≡ w k
  pub entries : (k : String) (f : ContextFuture) → Dict.get k c.state ≡ some f → EntryFits (w k) f

module _ (w : String → Bool) where
  put_future-IsLawful :
      (add : String) (fut : ContextFuture) (c : ExecutionContext)
      → EntryFits (w add) fut
      → IsLawful w c
      → IsLawful w (put_future add fut c)
  unfolding writable
  put_future-IsLawful add fut c e h = record {
    outputs = h.outputs;
    entries = λ k f. rw get-insert (ground (arith, h.entries k f, eq_iff add k));
  }

  future_at-Fits :
      (add : String) (c : ExecutionContext) → IsLawful w c → EntryFits (w add) (future_at add c)
  future_at-Fits add c h = elim (Option-cases (Dict.get add c.state)) [
    | inl e ↦ rw (e, future_at) (refl, λ p. cc)
    | inr (f, e) ↦ rw (e, future_at) (h.entries add f e)
  ]

  set_one-IsLawful :
      (add : String) (v : Option Bytes) (c : ExecutionContext)
      → writable c add ≡ true
      → IsLawful w c
      → IsLawful w (set_one add v c)
  unfolding set_one
  set_one-IsLawful add v c p h =
      put_future-IsLawful add (set_result v false (future_at add c)) c
        (unfold set_result in ground (arith, future_at-Fits add c h, h.outputs add)) h

  delete_one-IsLawful :
      (add : String) (c : ExecutionContext)
      → writable c add ≡ true
      → IsLawful w c
      → IsLawful w (delete_one add c)
  unfolding delete_one
  delete_one-IsLawful add c p h =
      put_future-IsLawful add (set_deleted (future_at add c)) c
        (unfold set_deleted in (refl, λ _. sym (h.outputs add) ∙ p)) h

  create_initial-IsLawful :
      (vals : List (String × Option Bytes)) (c : ExecutionContext)
      → IsLawful w c
      → IsLawful w (create_initial vals c)
  unfolding create_initial
  create_initial-IsLawful [] c h = h
  create_initial-IsLawful ((add, v) ∷ vals) c h =
      create_initial-IsLawful vals (put_future add (new_future add v false) c)
        (put_future-IsLawful add (new_future add v false) c (refl, λ p. cc) h)

  create_prefetch-IsLawful :
      (adds : List String) (c : ExecutionContext)
      → IsLawful w c
      → IsLawful w (create_prefetch adds c)
  unfolding create_prefetch
  create_prefetch-IsLawful [] c h = h
  create_prefetch-IsLawful (add ∷ adds) c h =
      create_prefetch-IsLawful adds (put_future add (new_future add none true) c)
        (put_future-IsLawful add (new_future add none true) c (refl, λ p. cc) h)

  set_one_from_tree-IsLawful :
      (add : String) (v : Option Bytes) (c : ExecutionContext)
      → IsLawful w c
      → IsLawful w (set_one_from_tree add v c)
  unfolding set_one_from_tree
  set_one_from_tree-IsLawful add v c h = elim (Option-cases (Dict.get add c.state)) [
    | inl e ↦ rw (e, set_one_from_tree) h
    | inr (f, e) ↦
        rw (e, set_one_from_tree)
          (put_future-IsLawful add (set_result v true f) c
            (unfold set_result in ground (arith, h.entries add f e)) h)
  ]

  set_from_tree-IsLawful :
      (d : Dict (Option Bytes)) (c : ExecutionContext)
      → IsLawful w c
      → IsLawful w (set_from_tree d c)
  unfolding set_from_tree
  set_from_tree-IsLawful [] c h = h
  set_from_tree-IsLawful ((add, v) ∷ d) c h =
      set_from_tree-IsLawful d (set_one_from_tree add v c) (set_one_from_tree-IsLawful add v c h)

-- Freezing changes only the mark `read_only` of an entry.
freeze_all-Fits :
    (w : Bool) (k : String) (d : Dict ContextFuture)
    → ((f : ContextFuture) → Dict.get k d ≡ some f → EntryFits w f)
    → (f : ContextFuture) → Dict.get k (freeze_all d).1 ≡ some f
    → EntryFits w f
unfolding freeze_all
freeze_all-Fits w k [] h f e = h f e
freeze_all-Fits w k ((add, fut) ∷ d) h f e = elim (Bool-cases (add == k)) [
  | inl p ↦ unfold freeze in ground (arith, h fut, p)
  | inr p ↦ unfold freeze in ground (arith, freeze_all-Fits w k d (λ g q. h g (rw p q)) f, h f, p)
]

make_read_only-IsLawful :
    (w : String → Bool) (c : ExecutionContext) → IsLawful w c → IsLawful w (make_read_only c).1
unfolding make_read_only
make_read_only-IsLawful w c h = record {
  outputs = λ k. unfold writable in ground (arith, h.outputs k);
  entries = λ k f. ground (arith, h.entries k f, freeze_all-Fits (w k) k c.state (h.entries k) f);
}

module _ (w : String → Bool) where
  -- Every call keeps the invariant.
  pub Step-IsLawful : {c c' : ExecutionContext} → Step c c' → IsLawful w c → IsLawful w c'
  Step-IsLawful (initial vals c) h = create_initial-IsLawful w vals c h
  Step-IsLawful (prefetch adds c) h = create_prefetch-IsLawful w adds c h
  Step-IsLawful (from_tree d c) h = set_from_tree-IsLawful w d c h
  Step-IsLawful (set_values d c) h =
      set_direct_keeps (IsLawful w) (set_one-IsLawful w) (delete_one-IsLawful w) d c h
  Step-IsLawful (delete_values adds c) h =
      delete_direct_keeps (IsLawful w) (set_one-IsLawful w) (delete_one-IsLawful w) adds c h
  Step-IsLawful (read_only c) h = make_read_only-IsLawful w c h
  Step-IsLawful (add_data item c) h =
      unfold add_execution_data writable in record { outputs = h.outputs; entries = h.entries }
  Step-IsLawful (add_event event c) h =
      unfold add_execution_event writable in record { outputs = h.outputs; entries = h.entries }

  pub Reach-IsLawful : {s c : ExecutionContext} → IsLawful w s → Reach s c → IsLawful w c
  Reach-IsLawful h start = h
  Reach-IsLawful h (next r st) = Step-IsLawful st (Reach-IsLawful h r)

pub IsLawful-new_context :
    (id root : String) (reads writes bases : List String)
    → IsLawful
        (writable (new_context id root reads writes bases))
        (new_context id root reads writes bases)
unfolding new_context
IsLawful-new_context id root reads writes bases = record {
  outputs = λ k. refl;
  entries = λ k f e. cc;
}
