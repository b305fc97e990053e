-- ===== src/Manager/Sets.antt =====
-- Lists of addresses as the search uses them. A Python set has no order; its elements are kept in
-- the order of the list that it is built from, and no theorem depends on that.
use blockchain_node.Prelude.{
  String, ◌≡◌, refl, Bool, false, not, ◌&&◌, ◌||◌, Option, none, some, List, [], ◌∷◌, ◌++◌, map,
  arith, ◌==◌, eq_iff, if◌then◌else◌, contains, remove, filter, contains-filter, is_none, is_some,
  Bool-cases, Option-cases, inl, inr,
}
use blockchain_node.Dict
use blockchain_node.Dict.{Dict}
use blockchain_node.Context.Future.{Bytes}

-- `list(set(xs))`
abbrev pub to_set : List String → List String
to_set [] = []
to_set (x ∷ xs) = let rest = to_set xs in if contains xs x then rest else x ∷ rest

-- `x in ds`, where the entries may be `None`
abbrev pub contains_some : List (Option String) → String → Bool
contains_some [] x = false
contains_some (none ∷ ds) x = contains_some ds x
contains_some (some d ∷ ds) x = d == x || contains_some ds x

-- `list(set(reads) - set(deleted_addresses))`
unfoldable pub without_deleted : List String → List (Option String) → List String
without_deleted reads deleted = filter (λ a. not (contains_some deleted a)) (to_set reads)

-- `list(set(xs) - set(ys))`
unfoldable pub set_minus : List String → List String → List String
set_minus xs ys = filter (λ a. not (contains ys a)) (to_set xs)

-- the values that the deletions add to `address_values`
unfoldable pub deleted_values : List (Option String) → Dict (Option Bytes)
deleted_values [] = []
deleted_values (none ∷ ds) = deleted_values ds
deleted_values (some d ∷ ds) = (d, none) ∷ deleted_values ds

-- the loop over `zip(reads, values)`: what it adds to `address_values`, and `addresses_not_found`
unfoldable pub found_values : List String → List (Option Bytes) → Dict (Option Bytes)
found_values (a ∷ reads) (none ∷ values) = found_values reads values
found_values (a ∷ reads) (some v ∷ values) = (a, some v) ∷ found_values reads values
found_values _ _ = []

unfoldable pub not_found : List String → List (Option Bytes) → List String
not_found (a ∷ reads) (none ∷ values) = a ∷ not_found reads values
not_found (a ∷ reads) (some v ∷ values) = not_found reads values
not_found _ _ = []

-- `list(zip(addresses, values))`
unfoldable pub zip_values : List String → List (Option Bytes) → Dict (Option Bytes)
zip_values (a ∷ adds) (v ∷ values) = (a, v) ∷ zip_values adds values
zip_values _ _ = []

-- `for add in adds: reads.remove(add)`
unfoldable pub remove_all : List String → List String → List String
remove_all reads [] = reads
remove_all reads (a ∷ adds) = remove_all (remove reads a) adds

pub contains-to_set : (xs : List String) (k : String) → contains (to_set xs) k ≡ contains xs k
contains-to_set [] k = refl
contains-to_set (x ∷ xs) k = ground (arith, contains-to_set xs k, eq_iff x k)

pub contains-without_deleted :
    (reads : List String) (ds : List (Option String)) (k : String)
    → contains (without_deleted reads ds) k ≡ (contains reads k && not (contains_some ds k))
unfolding without_deleted
contains-without_deleted reads ds k = ground (
  arith,
  contains-filter (λ a. not (contains_some ds a)) (to_set reads) k,
  contains-to_set reads k,
)

pub contains-set_minus :
    (xs ys : List String) (k : String)
    → contains (set_minus xs ys) k ≡ (contains xs k && not (contains ys k))
unfolding set_minus
contains-set_minus xs ys k =
    ground (arith, contains-filter (λ a. not (contains ys a)) (to_set xs) k, contains-to_set xs k)

pub get-append :
    (xs ys : Dict (Option Bytes)) (k : String)
    → Dict.get k (xs ++ ys) ≡ (if Dict.has k xs then Dict.get k xs else Dict.get k ys)
get-append [] ys k = refl
get-append ((a, v) ∷ xs) ys k = ground (arith, get-append xs ys k)

pub get-deleted_values :
    (ds : List (Option String)) (k : String)
    → Dict.get k (deleted_values ds) ≡ (if contains_some ds k then some none else none)
unfolding deleted_values
get-deleted_values [] k = refl
get-deleted_values (none ∷ ds) k = get-deleted_values ds k
get-deleted_values (some d ∷ ds) k = ground (arith, get-deleted_values ds k)

module _ (g : String → Option Bytes) where
  pub get-found_values :
      (reads : List String) (k : String)
      → Dict.get k (found_values reads (map g reads))
        ≡ (if contains reads k && is_some (g k) then some (g k) else none)
  unfolding found_values
  get-found_values [] k = refl
  get-found_values (a ∷ reads) k = ground (arith, get-found_values reads k, eq_iff a k)

  pub contains-not_found :
      (reads : List String) (k : String)
      → contains (not_found reads (map g reads)) k ≡ (contains reads k && is_none (g k))
  unfolding not_found
  contains-not_found [] k = refl
  contains-not_found (a ∷ reads) k = ground (arith, contains-not_found reads k, eq_iff a k)

  pub get-zip_values :
      (adds : List String) (k : String)
      → Dict.get k (zip_values adds (map g adds)) ≡ (if contains adds k then some (g k) else none)
  unfolding zip_values
  get-zip_values [] k = refl
  get-zip_values (a ∷ adds) k = ground (arith, get-zip_values adds k, eq_iff a k)

-- `remove` takes out one occurrence, which is all where there is no other
abbrev pub IsDistinct : List String → Type 0
IsDistinct [] = Unit
IsDistinct (x ∷ xs) = (contains xs x ≡ false) × IsDistinct xs

contains-remove_other :
    (xs : List String) (a k : String) → contains xs k ≡ false → contains (remove xs a) k ≡ false
contains-remove_other [] a k h = refl
contains-remove_other (x ∷ xs) a k h = ground (arith, contains-remove_other xs a k)

IsDistinct-remove : (xs : List String) (a : String) → IsDistinct xs → IsDistinct (remove xs a)
IsDistinct-remove [] a h = h
IsDistinct-remove (x ∷ xs) a h = elim (Bool-cases (x == a)) [
  | inl p ↦ rw (p, remove) h.1
  | inr p ↦ rw (p, remove) (contains-remove_other xs a x h.0, IsDistinct-remove xs a h.1)
]

contains-remove :
    (xs : List String) (a k : String)
    → IsDistinct xs
    → contains (remove xs a) k ≡ (contains xs k && not (a == k))
contains-remove [] a k h = refl
contains-remove (x ∷ xs) a k h =
    ground (arith, contains-remove xs a k h.1, h.0, eq_iff x k, eq_iff x a, eq_iff a k)

pub contains-remove_all :
    (reads adds : List String) (k : String)
    → IsDistinct reads
    → contains (remove_all reads adds) k ≡ (contains reads k && not (contains adds k))
unfolding remove_all
contains-remove_all reads [] k h = ground arith
contains-remove_all reads (a ∷ adds) k h = ground (
  arith,
  contains-remove_all (remove reads a) adds k (IsDistinct-remove reads a h),
  contains-remove reads a k h,
)

IsDistinct-to_set : (xs : List String) → IsDistinct (to_set xs)
IsDistinct-to_set [] = tt
IsDistinct-to_set (x ∷ xs) = elim (Bool-cases (contains xs x)) [
  | inl p ↦ rw (p, to_set) (IsDistinct-to_set xs)
  | inr p ↦ rw (p, to_set) (rw contains-to_set p, IsDistinct-to_set xs)
]

IsDistinct-filter :
    (test : String → Bool) (xs : List String) → IsDistinct xs → IsDistinct (filter test xs)
IsDistinct-filter test [] h = h
IsDistinct-filter test (x ∷ xs) h = elim (Bool-cases (test x)) [
  | inl p ↦
      rw (p, filter) (ground (arith, contains-filter test xs x, h.0), IsDistinct-filter test xs h.1)
  | inr p ↦ rw (p, filter) (IsDistinct-filter test xs h.1)
]

pub IsDistinct-without_deleted :
    (reads : List String) (ds : List (Option String)) → IsDistinct (without_deleted reads ds)
unfolding without_deleted
IsDistinct-without_deleted reads ds =
    IsDistinct-filter (λ a. not (contains_some ds a)) (to_set reads) (IsDistinct-to_set reads)

pub IsDistinct-not_found :
    (g : String → Option Bytes) (reads : List String)
    → IsDistinct reads
    → IsDistinct (not_found reads (map g reads))
unfolding not_found
IsDistinct-not_found g [] h = tt
IsDistinct-not_found g (a ∷ reads) h = elim (Option-cases (g a)) [
  | inl p ↦
      rw (p, not_found)
        (rw (contains-not_found g reads a, h.0) refl, IsDistinct-not_found g reads h.1)
  | inr (v, p) ↦ rw (p, not_found) (IsDistinct-not_found g reads h.1)
]
