-- ===== src/Registry/Consistency.antt =====
-- The two maps of a registry agree, and every operation keeps them so.
use jobworkerp_conductor.Prelude.{
  ℕ, String, ◌≡◌, refl, sym, ap, ◌∙◌, ◌≢◌, inl, inr, Option, none, some, arith, if◌then◌else◌, ◌==◌,
  ==_refl, ℕ-HasEq, String-HasEq, nat_eq_iff, option_eq, Bool-cases, Option-cases,
}
use mathlib.Core.Path.{subst}
use text.Mathlib.TextEquality.{eq_iff}
use jobworkerp_conductor.HashMap.{get, remove, get-remove}
use jobworkerp_conductor.HashMap.Entries.{HasUniqueKeys}
use jobworkerp_conductor.Proto.{Entity}
use jobworkerp_conductor.Registry.{Registry, new, drop_old_name, drop_name}

-- Names of an entity that is not there any more, or has another name: `id` leaves the index.
abbrev pub without_id : ℕ → Option ℕ → Option ℕ
without_id id o = if option_eq o (some id) then none else o

pub without_id-ne : (id : ℕ) (o : Option ℕ) → o ≢ some id → without_id id o ≡ o
without_id-ne id none h = refl
without_id-ne id (some j) h = elim (Bool-cases (j == id)) [
  | inl same ↦ absurd (h (ground (arith, nat_eq_iff j id)))
  | inr other ↦ rw other
]

without_id_self : (id : ℕ) (o : Option ℕ) → o ≡ some id → without_id id o ≡ none
without_id_self id o h = rw (h, ==_refl id)

module _ {D : Type 0} (name : D → String) where
  -- The entity that is kept under an id carries that id and a payload.
  pub record IsComplete (id : ℕ) (entity : Entity D) : Type 0 where
    pub same_id : entity.id ≡ some id
    pub payload : D
    pub has_payload : entity.payload ≡ some payload

  -- What an index entry points at.
  pub record IsNamed (r : Registry D) (n : String) (id : ℕ) : Type 0 where
    pub entity : Entity D
    pub found : get id r.entities ≡ some entity
    pub payload : D
    pub has_payload : entity.payload ≡ some payload
    pub has_name : name payload ≡ n

  pub record IsConsistent (r : Registry D) : Type 0 where
    pub unique_ids : HasUniqueKeys r.entities
    pub unique_names : HasUniqueKeys r.name_index
    pub complete :
        (id : ℕ) (entity : Entity D) → get id r.entities ≡ some entity → IsComplete id entity
    pub indexed :
        (id : ℕ) (entity : Entity D) (payload : D)
        → get id r.entities ≡ some entity
        → entity.payload ≡ some payload
        → get (name payload) r.name_index ≡ some id
    pub pointed : (n : String) (id : ℕ) → get n r.name_index ≡ some id → IsNamed r n id

  pub new-IsConsistent : IsConsistent new
  unfolding new get
  new-IsConsistent = record {
    unique_ids = tt;
    unique_names = tt;
    complete = λ id entity g. cc;
    indexed = λ id entity payload g p. cc;
    pointed = λ n id g. cc;
  }

  module _ (r : Registry D) (id : ℕ) (c : IsConsistent r) where
    -- An id with no entity is not in the index.
    absent-not-indexed : (n : String) → get id r.entities ≡ none → get n r.name_index ≢ some id
    absent-not-indexed n e h = cc (e, (c.pointed n id h).found)

    -- An entity is in the index under its own name only.
    named_once :
        (entity : Entity D) (payload : D) (n : String)
        → get id r.entities ≡ some entity
        → entity.payload ≡ some payload
        → get n r.name_index ≡ some id
        → name payload ≡ n
    named_once entity payload n g p h =
        let w = c.pointed n id h in
        let same : entity.payload ≡ w.entity.payload = cc (g, w.found) in
        let q : payload ≡ w.payload = cc (p, same, w.has_payload) in ap name q ∙ w.has_name

    get-remove_name :
        (entity : Entity D) (payload : D) (n : String)
        → get id r.entities ≡ some entity
        → entity.payload ≡ some payload
        → get n (remove (name payload) r.name_index) ≡ without_id id (get n r.name_index)
    get-remove_name entity payload n g p = elim (Bool-cases (name payload == n)) [
      | inl same ↦
          rw (get-remove, same)
            (sym (
              without_id_self id _ (
                subst (λ m. get m r.name_index ≡ some id) ((eq_iff _ _).0 same)
                  (c.indexed id entity payload g p))))
      | inr other ↦
          rw (get-remove, other)
            (sym
              (without_id-ne id _ (λ h. cc (other, ==_refl n, named_once entity payload n g p h))))
    ]

    pub get-drop_name :
        (n : String)
        → get n (drop_name name (get id r.entities) r.name_index)
          ≡ without_id id (get n r.name_index)
    unfolding drop_name
    get-drop_name n = elim (Option-cases (get id r.entities)) [
      | inl gone ↦ rw (gone, drop_name) (sym (without_id-ne id _ (absent-not-indexed n gone)))
      | inr (entity, g) ↦
          let k = c.complete id entity g in
          rw (g, drop_name, k.has_payload) (get-remove_name entity k.payload n g k.has_payload)
    ]

    pub get-drop_old_name :
        (new_name n : String)
        → new_name ≢ n
        → get n (drop_old_name name (get id r.entities) new_name r.name_index)
          ≡ without_id id (get n r.name_index)
    unfolding drop_old_name
    get-drop_old_name new_name n ne = elim (Option-cases (get id r.entities)) [
      | inl gone ↦ rw (gone, drop_old_name) (sym (without_id-ne id _ (absent-not-indexed n gone)))
      | inr (entity, g) ↦
          let k = c.complete id entity g in
          rw (g, drop_old_name, k.has_payload)
            (elim (Bool-cases (name k.payload == new_name)) [
              | inl same ↦ rw same (
                  sym (
                    without_id-ne id _ (λ h. ne (
                      sym ((eq_iff _ _).0 same)
                      ∙ named_once entity k.payload n g k.has_payload h))))
              | inr other ↦ rw other (get-remove_name entity k.payload n g k.has_payload)
            ])
    ]
