-- ===== src/HashMap.antt =====
-- `std::collections::HashMap`, as the program uses it: an association list without repeated keys.
-- The order of the list stands for the unspecified order in which a HashMap is iterated, so what is
-- proved of every list holds of every order.
pub mod Entries
use jobworkerp_conductor.Prelude.{
  ℕ, ◌≡◌, refl, Bool, Option, none, some, List, [], ◌∷◌, arith, HasEq, ◌==◌, if◌then◌else◌, is_some,
  map, length, ==_refl, ==_false, ◌≢◌,
}

abbrev pub HashMap {ℓ κ} : Type ℓ → Type κ → Type (ℓ ⊔ κ)
HashMap K V = List (K × V)

module _ {ℓ κ} {K : Type ℓ} ⦃e : HasEq K⦄ {V : Type κ} where
  unfoldable pub get : K → HashMap K V → Option V
  get k [] = none
  get k ((j, v) ∷ m) = if j == k then some v else get k m

  unfoldable pub insert : K → V → HashMap K V → HashMap K V
  insert k v [] = (k, v) ∷ []
  insert k v ((j, w) ∷ m) = let rest = insert k v m in if j == k then (k, v) ∷ m else (j, w) ∷ rest

  unfoldable pub remove : K → HashMap K V → HashMap K V
  remove k [] = []
  remove k ((j, w) ∷ m) = let rest = remove k m in if j == k then rest else (j, w) ∷ rest

  abbrev pub contains_key : HashMap K V → K → Bool
  contains_key m k = is_some (get k m)

  pub get-insert :
      (k j : K) (v : V) (m : HashMap K V)
      → get j (insert k v m) ≡ (if k == j then some v else get j m)
  unfolding get insert
  get-insert k j v [] = refl
  get-insert k j v ((i, w) ∷ m) =
      ground (arith, e.test_iff k j, e.test_iff i k, e.test_iff i j, get-insert k j v m)

  pub get-remove :
      (k j : K) (m : HashMap K V) → get j (remove k m) ≡ (if k == j then none else get j m)
  unfolding get remove
  get-remove k j [] = ground arith
  get-remove k j ((i, w) ∷ m) =
      ground (arith, e.test_iff k j, e.test_iff i k, e.test_iff i j, get-remove k j m)

  pub get-insert_same : (k : K) (v : V) (m : HashMap K V) → get k (insert k v m) ≡ some v
  get-insert_same k v m = rw (get-insert, ==_refl k) refl

  pub get-remove_same : (k : K) (m : HashMap K V) → get k (remove k m) ≡ none
  get-remove_same k m = rw (get-remove, ==_refl k) refl

  pub get-insert_other :
      (k j : K) (v : V) (m : HashMap K V) → j ≢ k → get j (insert k v m) ≡ get j m
  get-insert_other k j v m ne = rw (get-insert, ==_false k j ne) refl

  pub get-remove_other : (k j : K) (m : HashMap K V) → j ≢ k → get j (remove k m) ≡ get j m
  get-remove_other k j m ne = rw (get-remove, ==_false k j ne) refl

pub ruleset map_laws = (get-insert, get-remove)
