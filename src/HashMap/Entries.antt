-- ===== src/HashMap/Entries.antt =====
-- Iteration over a map: its keys are distinct, and a loop over its entries sees what `get` sees.
use jobworkerp_conductor.Prelude.{
  ◌≡◌, refl, Bool, true, ◌&&◌, none, some, [], ◌∷◌, arith, HasEq, ==_refl,
}
use jobworkerp_conductor.HashMap.{HashMap, get, insert, remove, get-insert, get-remove}

module _ {ℓ κ} {K : Type ℓ} ⦃e : HasEq K⦄ {V : Type κ} where
  -- No key stands twice.
  abbrev pub HasUniqueKeys : HashMap K V → Type κ
  HasUniqueKeys [] = Unit
  HasUniqueKeys ((k, v) ∷ m) = (get k m ≡ none) × HasUniqueKeys m

  pub insert-HasUniqueKeys :
      (k : K) (v : V) (m : HashMap K V) → HasUniqueKeys m → HasUniqueKeys (insert k v m)
  unfolding insert get
  insert-HasUniqueKeys k v [] u = (refl, tt)
  insert-HasUniqueKeys k v ((j, w) ∷ m) u =
      ground
        (arith, e.test_iff j k, e.test_iff k j, get-insert k j v m, insert-HasUniqueKeys k v m u.1)

  pub remove-HasUniqueKeys :
      (k : K) (m : HashMap K V) → HasUniqueKeys m → HasUniqueKeys (remove k m)
  unfolding remove get
  remove-HasUniqueKeys k [] u = tt
  remove-HasUniqueKeys k ((j, w) ∷ m) u =
      ground (arith, get-remove k j m, remove-HasUniqueKeys k m u.1)

  -- The loop `for (k, v) in map { if !p { return Err } }`.
  abbrev pub all_entries : (K → V → Bool) → HashMap K V → Bool
  all_entries p [] = true
  all_entries p ((k, v) ∷ m) = p k v && all_entries p m

  pub all_entries_sound :
      (p : K → V → Bool) (m : HashMap K V)
      → all_entries p m ≡ true
      → (k : K) (v : V) → get k m ≡ some v
      → p k v ≡ true
  unfolding get
  all_entries_sound p [] h k v g = cc
  all_entries_sound p ((j, w) ∷ m) h k v g =
      ground (arith, e.test_iff j k, all_entries_sound p m (ground arith) k v)

  pub all_entries_complete :
      (p : K → V → Bool) (m : HashMap K V)
      → HasUniqueKeys m
      → ((k : K) (v : V) → get k m ≡ some v → p k v ≡ true)
      → all_entries p m ≡ true
  unfolding get
  all_entries_complete p [] u h = refl
  all_entries_complete p ((j, w) ∷ m) u h = ground (
    arith,
    h j w,
    ==_refl j,
    all_entries_complete p m u.1 (λ k v g. h k v (ground (arith, e.test_iff j k, u.0))),
  )
