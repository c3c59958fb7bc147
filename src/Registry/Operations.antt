-- ===== src/Registry/Operations.antt =====
-- `upsert` and `remove` keep a registry consistent, and what a lookup returns after them.
use jobworkerp_conductor.Prelude.{
  ℕ, String, ◌≡◌, sym, ap, ◌∙◌, ◌≢◌, inl, inr, Option, none, some, arith, if◌then◌else◌, ◌==◌,
  ==_refl, ℕ-HasEq, String-HasEq, nat_eq_iff, Bool-cases, Option-cases,
}
use text.Mathlib.TextEquality.{eq_iff}
use mathlib.Core.Path.{subst}
use jobworkerp_conductor.HashMap.{HashMap, get, get-insert, get-remove}
use jobworkerp_conductor.HashMap.Entries.{HasUniqueKeys, insert-HasUniqueKeys, remove-HasUniqueKeys}
use jobworkerp_conductor.Proto.{Entity}
use jobworkerp_conductor.Registry.{Registry, drop_old_name, store_entity, drop_name, remove_entity}
use jobworkerp_conductor.Registry.Consistency.{
  IsComplete, IsNamed, IsConsistent, without_id, without_id-ne, get-drop_name, get-drop_old_name,
}

without_id-some : (id j : ℕ) (o : Option ℕ) → without_id id o ≡ some j → (o ≡ some j) × (j ≢ id)
without_id-some id j none h = cc
without_id-some id j (some i) h = ground (arith, nat_eq_iff i id)

module _ {D : Type 0} (name : D → String) where
  -- No other entity has the name.
  abbrev pub IsFree : String → ℕ → Registry D → Type 0
  IsFree n id r = (j : ℕ) → get n r.name_index ≡ some j → j ≡ id

  unique-drop_old_name :
      (o : Option (Entity D)) (n : String) (index : HashMap String ℕ)
      → HasUniqueKeys index
      → HasUniqueKeys (drop_old_name name o n index)
  unfolding drop_old_name
  unique-drop_old_name none n index u = u
  unique-drop_old_name (some old) n index u = elim (Option-cases old.payload) [
    | inl gone ↦ rw gone u
    | inr (d, g) ↦ rw g (elim (Bool-cases (name d == n)) [
      | inl same ↦ rw same u
      | inr other ↦ rw other (remove-HasUniqueKeys (name d) index u)
    ])
  ]

  unique-drop_name :
      (o : Option (Entity D)) (index : HashMap String ℕ)
      → HasUniqueKeys index
      → HasUniqueKeys (drop_name name o index)
  unfolding drop_name
  unique-drop_name none index u = u
  unique-drop_name (some old) index u = elim (Option-cases old.payload) [
    | inl gone ↦ rw gone u
    | inr (d, g) ↦ rw g (remove-HasUniqueKeys (name d) index u)
  ]

  module _ (r : Registry D) (id : ℕ) (c : IsConsistent name r) where
    module _ (payload : D) (entity : Entity D) where
      -- The reverse index after a write: the entity's name, and the other entities' names.
      pub get-name_index :
          (n : String)
          → get n (store_entity name id payload entity r).name_index
            ≡ (if name payload == n then some id else without_id id (get n r.name_index))
      unfolding store_entity
      get-name_index n = rw get-insert (elim (Bool-cases (name payload == n)) [
        | inl same ↦ rw same
        | inr other ↦
            rw other
              (get-drop_old_name name r id c (name payload) n (λ h. cc (other, ==_refl n, h)))
      ])

      pub get-entities :
          (j : ℕ)
          → get j (store_entity name id payload entity r).entities
            ≡ (if id == j then some entity else get j r.entities)
      unfolding store_entity
      get-entities j = get-insert id j entity r.entities

      store-IsPointed :
          entity.payload ≡ some payload
          → (n : String) (j : ℕ) → get n (store_entity name id payload entity r).name_index ≡ some j
          → IsNamed name (store_entity name id payload entity r) n j
      store-IsPointed p n j g = elim (Bool-cases (name payload == n)) [
        | inl same ↦
            let e : some id ≡ some j = rw (get-name_index, same) at g in
            record {
              entity = entity;
              found = rw get-entities (ground (arith, nat_eq_iff id j));
              payload = payload;
              has_payload = p;
              has_name = (eq_iff _ _).0 same;
            }
        | inr other ↦
            let (old, ne) =
              without_id-some id j (get n r.name_index) (rw (get-name_index, other) at g) in
            let w = c.pointed n j old in
            record {
              entity = w.entity;
              found = rw get-entities (ground (arith, nat_eq_iff id j, w.found));
              payload = w.payload;
              has_payload = w.has_payload;
              has_name = w.has_name;
            }
      ]

      store-IsIndexed :
          entity.payload ≡ some payload
          → IsFree (name payload) id r
          → (j : ℕ) (entity' : Entity D) (payload' : D)
          → get j (store_entity name id payload entity r).entities ≡ some entity'
          → entity'.payload ≡ some payload'
          → get (name payload') (store_entity name id payload entity r).name_index ≡ some j
      store-IsIndexed p free j entity' payload' g p' = elim (Bool-cases (id == j)) [
        | inl same ↦
            let e : some entity ≡ some entity' = rw (get-entities, same) at g in
            let q : payload ≡ payload' = cc (e, p, p') in
            let h : name payload ≡ name payload' = ap name q in
            rw get-name_index
              (ground (arith, eq_iff (name payload) (name payload'), nat_eq_iff id j))
        | inr other ↦
            let old : get j r.entities ≡ some entity' = rw (get-entities, other) at g in
            let ix = c.indexed j entity' payload' old p' in
            let ne : j ≢ id = λ e. ground (arith, nat_eq_iff id j) in
            rw get-name_index (elim (Bool-cases (name payload == name payload')) [
              | inl clash ↦ absurd (
                  ne (
                    free j
                      (subst (λ m. get m r.name_index ≡ some j) (sym ((eq_iff _ _).0 clash)) ix)))
              | inr apart ↦
                  rw apart (
                    without_id-ne id (get (name payload') r.name_index) (λ h. ne (cc (h, ix))) ∙ ix)
            ])
      ]

      store-IsComplete :
          entity.id ≡ some id
          → entity.payload ≡ some payload
          → (j : ℕ) (entity' : Entity D)
          → get j (store_entity name id payload entity r).entities ≡ some entity'
          → IsComplete name j entity'
      store-IsComplete i p j entity' g = elim (Bool-cases (id == j)) [
        | inl same ↦
            let e : some entity ≡ some entity' = rw (get-entities, same) at g in
            record {
              same_id = cc (e, i, (nat_eq_iff id j).0 same);
              payload = payload;
              has_payload = cc (e, p);
            }
        | inr other ↦ c.complete j entity' (rw (get-entities, other) at g)
      ]

      store_unique_ids : HasUniqueKeys (store_entity name id payload entity r).entities
      unfolding store_entity
      store_unique_ids = insert-HasUniqueKeys id entity r.entities c.unique_ids

      store_unique_names : HasUniqueKeys (store_entity name id payload entity r).name_index
      unfolding store_entity
      store_unique_names =
          insert-HasUniqueKeys (name payload) id _
            (unique-drop_old_name (get id r.entities) (name payload) r.name_index c.unique_names)

      pub store_entity-IsConsistent :
          entity.id ≡ some id
          → entity.payload ≡ some payload
          → IsFree (name payload) id r
          → IsConsistent name (store_entity name id payload entity r)
      store_entity-IsConsistent i p free = record {
        unique_ids = store_unique_ids;
        unique_names = store_unique_names;
        complete = store-IsComplete i p;
        indexed = store-IsIndexed p free;
        pointed = store-IsPointed p;
      }

    abbrev after_remove : Registry D
    after_remove = (remove_entity name id r).1

    pub get-name_index-remove :
        (n : String) → get n after_remove.name_index ≡ without_id id (get n r.name_index)
    unfolding remove_entity
    get-name_index-remove n = get-drop_name name r id c n

    pub get-entities-remove :
        (j : ℕ) → get j after_remove.entities ≡ (if id == j then none else get j r.entities)
    unfolding remove_entity
    get-entities-remove j = get-remove id j r.entities

    -- What is left after the removal of `id` was there before, under another id.
    left-entity :
        (j : ℕ) (entity : Entity D)
        → get j after_remove.entities ≡ some entity
        → (get j r.entities ≡ some entity) × (j ≢ id)
    left-entity j entity g =
        let h : (if id == j then none else get j r.entities) ≡ some entity =
          rw get-entities-remove at g in
        ground (arith, nat_eq_iff id j)

    remove_pointed :
        (n : String) (j : ℕ)
        → get n after_remove.name_index ≡ some j
        → IsNamed name after_remove n j
    remove_pointed n j g =
        let (old, ne) = without_id-some id j (get n r.name_index) (rw get-name_index-remove at g) in
        let w = c.pointed n j old in
        record {
          entity = w.entity;
          found = rw get-entities-remove (ground (arith, nat_eq_iff id j, w.found));
          payload = w.payload;
          has_payload = w.has_payload;
          has_name = w.has_name;
        }

    remove_indexed :
        (j : ℕ) (entity : Entity D) (payload : D)
        → get j after_remove.entities ≡ some entity
        → entity.payload ≡ some payload
        → get (name payload) after_remove.name_index ≡ some j
    remove_indexed j entity payload g p =
        let (old, ne) = left-entity j entity g in
        let ix = c.indexed j entity payload old p in
        rw get-name_index-remove (without_id-ne id _ (λ h. ne (cc (h, ix))) ∙ ix)

    remove_unique_ids : HasUniqueKeys after_remove.entities
    unfolding remove_entity
    remove_unique_ids = remove-HasUniqueKeys id r.entities c.unique_ids

    remove_unique_names : HasUniqueKeys after_remove.name_index
    unfolding remove_entity
    remove_unique_names = unique-drop_name (get id r.entities) r.name_index c.unique_names

    pub remove_entity-IsConsistent : IsConsistent name after_remove
    remove_entity-IsConsistent = record {
      unique_ids = remove_unique_ids;
      unique_names = remove_unique_names;
      complete = λ j entity g. c.complete j entity (left-entity j entity g).0;
      indexed = remove_indexed;
      pointed = remove_pointed;
    }
