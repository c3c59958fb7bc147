-- ===== src/Registry/Rebuild.antt =====
-- The reverse index that `rebuild_reverse_indices` makes from the entities alone.
use jobworkerp_conductor.Prelude.{
  ℕ, String, ◌≡◌, refl, ap, ◌∙◌, ◌≢◌, ◌⊎◌, inl, inr, false, Option, none, some, [], ◌∷◌, ◌==◌,
  ==_refl, ℕ-HasEq, String-HasEq, nat_eq_iff, Bool-cases,
}
use text.Mathlib.TextEquality.{eq_iff}
use jobworkerp_conductor.HashMap.{HashMap, get, get-insert}
use jobworkerp_conductor.HashMap.Entries.{HasUniqueKeys, insert-HasUniqueKeys}
use jobworkerp_conductor.Proto.{Entity}
use jobworkerp_conductor.Registry.{Registry, index_entity, index_all, rebuild}
use jobworkerp_conductor.Registry.Consistency.{IsComplete, IsConsistent}

pub get-tail :
    {V : Type 0} (id j : ℕ) (v w : V) (m : HashMap ℕ V)
    → HasUniqueKeys ((id, v) ∷ m)
    → get j m ≡ some w
    → get j ((id, v) ∷ m) ≡ some w
unfolding get
get-tail id j v w m u g = elim (Bool-cases (id == j)) [
  | inl same ↦ cc (g, u.0, ap (λ k. get k m) ((nat_eq_iff id j).0 same))
  | inr other ↦ rw other g
]

pub get-head : {V : Type 0} (id : ℕ) (v : V) (m : HashMap ℕ V) → get id ((id, v) ∷ m) ≡ some v
unfolding get
get-head id v m = rw (==_refl id)

pub get-cons_other :
    {V : Type 0} (id j : ℕ) (v : V) (m : HashMap ℕ V)
    → (id == j) ≡ false
    → get j ((id, v) ∷ m) ≡ get j m
unfolding get
get-cons_other id j v m h = rw h

module _ {D : Type 0} (name : D → String) where
  -- No two entities share a name.
  abbrev pub HasDistinctNames : HashMap ℕ (Entity D) → Type 0
  HasDistinctNames m =
      (i j : ℕ) (e e' : Entity D) (p p' : D)
      → get i m ≡ some e
      → get j m ≡ some e'
      → e.payload ≡ some p
      → e'.payload ≡ some p'
      → name p ≡ name p'
      → i ≡ j

  abbrev IsHolder : HashMap ℕ (Entity D) → String → ℕ → Type 0
  IsHolder m n j =
      (entity : Entity D) × (payload : D) × (get j m ≡ some entity)
      × (entity.payload ≡ some payload)
      × (name payload ≡ n)

  index_entity_sound :
      (id : ℕ) (o : Option D) (index : HashMap String ℕ) (n : String) (j : ℕ)
      → get n (index_entity name id o index) ≡ some j
      → (get n index ≡ some j)
        ⊎ ((payload : D) × (o ≡ some payload) × (name payload ≡ n) × (id ≡ j))
  unfolding index_entity
  index_entity_sound id none index n j g = inl g
  index_entity_sound id (some p) index n j g = elim (Bool-cases (name p == n)) [
    | inl same ↦
        let e : some id ≡ some j = rw (get-insert, same) at g in
        inr (p, refl, (eq_iff _ _).0 same, cc (e))
    | inr other ↦ inl (rw (get-insert, other) at g)
  ]

  index_all_sound :
      (m : HashMap ℕ (Entity D)) (index : HashMap String ℕ) (n : String) (j : ℕ)
      → HasUniqueKeys m
      → get n (index_all name m index) ≡ some j
      → (get n index ≡ some j) ⊎ IsHolder m n j
  unfolding index_all
  index_all_sound [] index n j u g = inl g
  index_all_sound ((id, e) ∷ m) index n j u g =
      elim (index_all_sound m (index_entity name id e.payload index) n j u.1 g) [
        | inl here ↦ elim (index_entity_sound id e.payload index n j here) [
          | inl old ↦ inl old
          | inr (p, has, named, same) ↦ inr (e, p, rw (← same) (get-head id e m), has, named)
        ]
        | inr (e', p', found, has, named) ↦ inr (e', p', get-tail id j e e' m u found, has, named)
      ]

  index_entity_keeps :
      (id : ℕ) (o : Option D) (index : HashMap String ℕ) (n : String)
      → ((p : D) → o ≡ some p → name p ≢ n)
      → get n (index_entity name id o index) ≡ get n index
  unfolding index_entity
  index_entity_keeps id none index n h = refl
  index_entity_keeps id (some p) index n h = elim (Bool-cases (name p == n)) [
    | inl same ↦ absurd (h p refl ((eq_iff _ _).0 same))
    | inr other ↦ rw (get-insert, other)
  ]

  -- The loop does not touch a name that no entity of the map has.
  index_all_keeps :
      (m : HashMap ℕ (Entity D)) (index : HashMap String ℕ) (n : String)
      → HasUniqueKeys m
      → ((j : ℕ) (e : Entity D) (p : D) → get j m ≡ some e → e.payload ≡ some p → name p ≢ n)
      → get n (index_all name m index) ≡ get n index
  unfolding index_all
  index_all_keeps [] index n u h = refl
  index_all_keeps ((id, e) ∷ m) index n u h =
      index_all_keeps m (index_entity name id e.payload index) n u.1
        (λ j e' p g. h j e' p (get-tail id j e e' m u g))
      ∙ index_entity_keeps id e.payload index n (λ p q. h id e p (get-head id e m) q)

  distinct-tail :
      (id : ℕ) (e : Entity D) (m : HashMap ℕ (Entity D))
      → HasUniqueKeys ((id, e) ∷ m)
      → HasDistinctNames ((id, e) ∷ m)
      → HasDistinctNames m
  distinct-tail id e m u d i j e' e'' p p' g g' =
      d i j e' e'' p p' (get-tail id i e e' m u g) (get-tail id j e e'' m u g')

  index_all_complete :
      (m : HashMap ℕ (Entity D)) (index : HashMap String ℕ)
      → HasUniqueKeys m
      → HasDistinctNames m
      → (j : ℕ) (e : Entity D) (p : D) → get j m ≡ some e
      → e.payload ≡ some p
      → get (name p) (index_all name m index) ≡ some j
  unfolding index_all get
  index_all_complete [] index u d j e p g q = cc
  index_all_complete ((id, e') ∷ m) index u d j e p g q = elim (Bool-cases (id == j)) [
    | inl same ↦
        let ids : id ≡ j = (nat_eq_iff id j).0 same in
        let e-eq : some e' ≡ some e = rw same at g in
        let q' : e'.payload ≡ some p = cc (e-eq, q) in
        index_all_keeps m (index_entity name id e'.payload index) (name p) u.1
          (λ k e'' p' g' r clash.
            let k-id : k ≡ id =
              d k id e'' e' p' p (get-tail id k e' e'' m u g') (get-head id e' m) r q' clash in
            cc (u.0, g', k-id))
        ∙ rw q' (unfold index_entity in rw get-insert (rw (==_refl (name p)) (ap some ids)))
    | inr other ↦
        index_all_complete m (index_entity name id e'.payload index) u.1 (distinct-tail id e' m u d)
          j e p (rw other at g) q
  ]

  index_entity_unique :
      (id : ℕ) (o : Option D) (index : HashMap String ℕ)
      → HasUniqueKeys index
      → HasUniqueKeys (index_entity name id o index)
  unfolding index_entity
  index_entity_unique id none index u = u
  index_entity_unique id (some p) index u = insert-HasUniqueKeys (name p) id index u

  index_all_unique :
      (m : HashMap ℕ (Entity D)) (index : HashMap String ℕ)
      → HasUniqueKeys index
      → HasUniqueKeys (index_all name m index)
  unfolding index_all
  index_all_unique [] index u = u
  index_all_unique ((id, e) ∷ m) index u =
      index_all_unique m (index_entity name id e.payload index)
        (index_entity_unique id e.payload index u)

  rebuild_pointed :
      (m : HashMap ℕ (Entity D)) (n : String) (j : ℕ)
      → HasUniqueKeys m
      → get n (index_all name m []) ≡ some j
      → IsHolder m n j
  unfolding get
  rebuild_pointed m n j u g = elim (index_all_sound m [] n j u g) [ inl old ↦ cc | inr w ↦ w ]

  -- Whatever the order of iteration, the rebuilt registry is consistent.
  pub rebuild-IsConsistent :
      (m : HashMap ℕ (Entity D))
      → HasUniqueKeys m
      → ((id : ℕ) (e : Entity D) → get id m ≡ some e → IsComplete name id e)
      → HasDistinctNames m
      → IsConsistent name (rebuild name m)
  unfolding rebuild
  rebuild-IsConsistent m u complete d = record {
    unique_ids = u;
    unique_names = index_all_unique m [] tt;
    complete = complete;
    indexed = index_all_complete m [] u d;
    pointed = λ n j g.
        let (e, p, found, has, named) = rebuild_pointed m n j u g in
        record { entity = e; found = found; payload = p; has_payload = has; has_name = named };
  }

  pub distinct_of_IsConsistent :
      (r : Registry D) → IsConsistent name r → HasDistinctNames r.entities
  distinct_of_IsConsistent r c i j e e' p p' g g' q q' h =
      let a = c.indexed i e p g q in
      let b = c.indexed j e' p' g' q' in cc (a, b, ap (λ n. get n r.name_index) h)
