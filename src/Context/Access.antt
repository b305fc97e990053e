-- ===== src/Context/Access.antt =====
-- What a transaction may write: `set_direct` and `delete_direct` stay inside the write list.
use blockchain_node.Prelude.{
  String, ◌≡◌, refl, Bool, true, false, ◌&&◌, Option, some, List, [], ◌∷◌, arith, eq_iff,
  Bool-cases, inl, inr,
}
use blockchain_node.Python.{is_ok}
use blockchain_node.Dict
use blockchain_node.Dict.{Dict, get-insert}
use blockchain_node.Context.Future.{Bytes, ContextFuture}
use blockchain_node.Context.State.{
  ExecutionContext, writable, validate_write, set_one, set_direct, delete_one, delete_direct,
}

-- every address of the list passes the test of `_validate_write`
abbrev pub all_writable : ExecutionContext → List String → Bool
all_writable c [] = true
all_writable c (add ∷ adds) = writable c add && all_writable c adds

-- An induction over the loops of `set_direct` and `delete_direct`, which go on only past
-- addresses that may be written.
module _ (P : ExecutionContext → Type 0)
    (keep_set : (add : String) (v : Option Bytes) (c : ExecutionContext)
      → writable c add ≡ true
      → P c
      → P (set_one add v c))
    (keep_delete : (add : String) (c : ExecutionContext)
      → writable c add ≡ true
      → P c
      → P (delete_one add c)) where
  pub set_direct_keeps : (d : Dict Bytes) (c : ExecutionContext) → P c → P (set_direct d c).1
  unfolding set_direct validate_write
  set_direct_keeps [] c h = h
  set_direct_keeps ((add, value) ∷ d) c h = elim (Bool-cases (writable c add)) [
    | inl w ↦
        rw (w, set_direct)
          (set_direct_keeps d (set_one add (some value) c) (keep_set add (some value) c w h))
    | inr w ↦ rw (w, set_direct) h
  ]

  pub delete_direct_keeps :
      (adds : List String) (c : ExecutionContext) → P c → P (delete_direct adds c).1
  unfolding delete_direct validate_write
  delete_direct_keeps [] c h = h
  delete_direct_keeps (add ∷ adds) c h = elim (Bool-cases (writable c add)) [
    | inl w ↦
        rw (w, delete_direct) (delete_direct_keeps adds (delete_one add c) (keep_delete add c w h))
    | inr w ↦ rw (w, delete_direct) h
  ]

pub writable-set_one :
    (add : String) (v : Option Bytes) (c : ExecutionContext) (a : String)
    → writable (set_one add v c) a ≡ writable c a
unfolding set_one writable
writable-set_one add v c a = refl

pub writable-delete_one :
    (add : String) (c : ExecutionContext) (a : String)
    → writable (delete_one add c) a ≡ writable c a
unfolding delete_one writable
writable-delete_one add c a = refl

abbrev Untouched : String → Option ContextFuture → ExecutionContext → Type 0
Untouched a entry c = (writable c a ≡ false) × (Dict.get a c.state ≡ entry)

module _ (a : String) (e : Option ContextFuture) (add : String) where
  set_one-Untouched :
      (v : Option Bytes) (c : ExecutionContext)
      → writable c add ≡ true
      → Untouched a e c
      → Untouched a e (set_one add v c)
  set_one-Untouched v c w h =
      (rw writable-set_one h.0, unfold set_one in rw get-insert (ground (arith, eq_iff add a)))

  delete_one-Untouched :
      (c : ExecutionContext)
      → writable c add ≡ true
      → Untouched a e c
      → Untouched a e (delete_one add c)
  delete_one-Untouched c w h = (
    rw writable-delete_one h.0,
    unfold delete_one in rw get-insert (ground (arith, eq_iff add a)),
  )

-- Whatever a transaction sets or deletes, and also when the call raises, the entry of an address
-- that no output of the transaction covers stays as it was.
pub write_confined :
    (c : ExecutionContext) (a : String) (d : Dict Bytes) (adds : List String)
    → writable c a ≡ false
    → (Dict.get a (set_direct d c).1.state ≡ Dict.get a c.state)
      × (Dict.get a (delete_direct adds c).1.state ≡ Dict.get a c.state)
write_confined c a d adds h =
    let e = Dict.get a c.state in
    (
      (set_direct_keeps (Untouched a e) (set_one-Untouched a e) (delete_one-Untouched a e) d c
          (h, refl)).1,
      (delete_direct_keeps (Untouched a e) (set_one-Untouched a e) (delete_one-Untouched a e) adds c
          (h, refl)).1,
    )

pub all_writable-set_one :
    (add : String) (v : Option Bytes) (c : ExecutionContext) (adds : List String)
    → all_writable (set_one add v c) adds ≡ all_writable c adds
all_writable-set_one add v c [] = refl
all_writable-set_one add v c (x ∷ adds) =
    rw (writable-set_one add v c x, all_writable-set_one add v c adds)

pub all_writable-delete_one :
    (add : String) (c : ExecutionContext) (adds : List String)
    → all_writable (delete_one add c) adds ≡ all_writable c adds
all_writable-delete_one add c [] = refl
all_writable-delete_one add c (x ∷ adds) =
    rw (writable-delete_one add c x, all_writable-delete_one add c adds)

-- `set_direct` returns exactly when every address may be written.
pub is_ok-set_direct :
    (d : Dict Bytes) (c : ExecutionContext)
    → is_ok (set_direct d c).0 ≡ all_writable c (Dict.keys d)
unfolding set_direct validate_write
is_ok-set_direct [] c = refl
is_ok-set_direct ((add, value) ∷ d) c = ground (
  arith,
  is_ok-set_direct d (set_one add (some value) c),
  all_writable-set_one add (some value) c (Dict.keys d),
)

-- `delete_direct` returns exactly when every address may be written.
pub is_ok-delete_direct :
    (adds : List String) (c : ExecutionContext)
    → is_ok (delete_direct adds c).0 ≡ all_writable c adds
unfolding delete_direct validate_write
is_ok-delete_direct [] c = refl
is_ok-delete_direct (add ∷ adds) c =
    ground (arith, is_ok-delete_direct adds (delete_one add c), all_writable-delete_one add c adds)
