-- ===== src/Python.antt =====
-- What a Python call can do: return, raise, or wait on a condition that nobody has signalled.
use blockchain_node.Prelude.{
  String, ◌≡◌, ◌⊎◌, inl, inr, refl, Bool, true, false, Option, none, some,
}

-- The exceptions of the modelled modules, with the text that they are about.
pub data Error : Type 0 where
  authorization : String → Error
  create_context_error : String → Error
  key_error : Error
  index_error : Error
  value_error : Error
  attribute_error : Error
  scheduler_error : Error
  stop_iteration : Error
  recursion_error : Error
  type_error : Error
  address_not_in_tree : Error
  unscheduled_transaction : Error

pub data Result {ℓ} (A : Type ℓ) : Type ℓ where
  ok : A → Result A
  err : Error → Result A
  blocked : Result A

infixl 5 ◌>>=◌ ◌>>◌
abbrev pub ◌>>=◌ {ℓ κ} : {A : Type ℓ} {B : Type κ} → Result A → (A → Result B) → Result B
call >>= then_call = elim call [ ok mid ↦ then_call mid | err x ↦ err x | blocked ↦ blocked ]

abbrev pub ◌>>◌ {ℓ κ} : {A : Type ℓ} {B : Type κ} → Result A → Result B → Result B
call >> after = call >>= λ _. after

abbrev pub or_raise {ℓ} : {A : Type ℓ} → Option A → Error → Result A
or_raise none e = err e
or_raise (some a) e = ok a

abbrev pub unless : Bool → Error → Result (Unit {0})
unless true e = ok tt
unless false e = err e

abbrev pub is_ok {ℓ} : {A : Type ℓ} → Result A → Bool
is_ok (ok _) = true
is_ok (err _) = false
is_ok blocked = false

-- What has been returned before, where a sequence of two calls returns.
pub bind-eq-ok {ℓ κ} :
    {A : Type ℓ} {B : Type κ} {out : B} (call : Result A) (then_call : A → Result B)
    → call >>= then_call ≡ ok out
    → (mid : A) × (call ≡ ok mid) × (then_call mid ≡ ok out)
bind-eq-ok blocked then_call q = cc
bind-eq-ok (err x) then_call q = cc
bind-eq-ok (ok mid) then_call q = (mid, refl, q)

pub Result-cases {ℓ} :
    {A : Type ℓ} (r : Result A)
    → ((a : A) × (r ≡ ok a)) ⊎ (((e : Error) × (r ≡ err e)) ⊎ (r ≡ blocked))
Result-cases (ok a) = inl (a, refl)
Result-cases (err e) = inr (inl (e, refl))
Result-cases blocked = inr (inr refl)
