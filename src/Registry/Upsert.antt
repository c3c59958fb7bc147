-- ===== src/Registry/Upsert.antt =====
-- `upsert` as its callers see it: when it succeeds, what it keeps, and what lookups then return.
use jobworkerp_conductor.Prelude.{
  ℕ, String, ◌≡◌, refl, ap, ◌&&◌, Option, none, some, ok, ==_refl, ℕ-HasEq, String-HasEq, is_some,
  is_ok,
}
use jobworkerp_conductor.HashMap.{get}
use jobworkerp_conductor.Proto.{Entity}
use jobworkerp_conductor.Registry.{Registry, store_entity, upsert_parts, upsert, find_by_name}
use jobworkerp_conductor.Registry.Consistency.{IsConsistent}
use jobworkerp_conductor.Registry.Operations.{
  IsFree, store_entity-IsConsistent, get-name_index, get-entities,
}

module _ {D : Type 0} (name : D → String) where
  -- No other entity has the name of this one.
  abbrev pub NameIsFree : Entity D → Registry D → Type 0
  NameIsFree entity r =
      (id : ℕ) (payload : D)
      → entity.id ≡ some id
      → entity.payload ≡ some payload
      → IsFree name (name payload) id r

  -- A successful write had an id and a payload, and is `store_entity`.
  pub record Upserted (entity : Entity D) (r r' : Registry D) : Type 0 where
    pub id : ℕ
    pub payload : D
    pub has_id : entity.id ≡ some id
    pub has_payload : entity.payload ≡ some payload
    pub result : r' ≡ store_entity name id payload entity r

  parts_ok :
      (i : Option ℕ) (p : Option D) (entity : Entity D) (r r' : Registry D)
      → entity.id ≡ i
      → entity.payload ≡ p
      → upsert_parts name i p entity r ≡ ok r'
      → Upserted entity r r'
  unfolding upsert_parts
  parts_ok (some id) (some payload) entity r r' i p h = record {
    id = id;
    payload = payload;
    has_id = i;
    has_payload = p;
    result = cc;
  }
  parts_ok (some id) none entity r r' i p h = cc
  parts_ok none p' entity r r' i p h = cc

  pub upsert_ok :
      (entity : Entity D) (r r' : Registry D) → upsert name entity r ≡ ok r' → Upserted entity r r'
  unfolding upsert
  upsert_ok entity r r' h = parts_ok entity.id entity.payload entity r r' refl refl h

  is_ok-parts :
      (i : Option ℕ) (p : Option D) (entity : Entity D) (r : Registry D)
      → is_ok (upsert_parts name i p entity r) ≡ (is_some i && is_some p)
  unfolding upsert_parts
  is_ok-parts (some id) (some payload) entity r = refl
  is_ok-parts (some id) none entity r = refl
  is_ok-parts none p entity r = refl

  -- The write succeeds exactly when both the id and the payload are there.
  pub is_ok-upsert :
      (entity : Entity D) (r : Registry D)
      → is_ok (upsert name entity r) ≡ (is_some entity.id && is_some entity.payload)
  unfolding upsert
  is_ok-upsert entity r = is_ok-parts entity.id entity.payload entity r

  pub upsert-IsConsistent :
      (entity : Entity D) (r r' : Registry D)
      → IsConsistent name r
      → NameIsFree entity r
      → upsert name entity r ≡ ok r'
      → IsConsistent name r'
  upsert-IsConsistent entity r r' c free h =
      let u = upsert_ok entity r r' h in
      rw u.result (
        store_entity-IsConsistent name r u.id c u.payload entity u.has_id u.has_payload
          (free u.id u.payload u.has_id u.has_payload))

  -- After a successful write to a consistent registry, the entity is found by its id, and by the
  -- name of its payload.
  pub find-upsert :
      (entity : Entity D) (r r' : Registry D)
      → IsConsistent name r
      → upsert name entity r ≡ ok r'
      → (id : ℕ) (payload : D) → entity.id ≡ some id
      → entity.payload ≡ some payload
      → (get id r'.entities ≡ some entity) × (find_by_name (name payload) r' ≡ some entity)
  unfolding find_by_name
  find-upsert entity r r' c h id payload i p =
      let u = upsert_ok entity r r' h in
      let ids : u.id ≡ id = cc (i, u.has_id) in
      let payloads : u.payload ≡ payload = cc (p, u.has_payload) in
      let stored : get id r'.entities ≡ some entity =
        rw (u.result, get-entities name r u.id c u.payload entity, ids, ==_refl id) in
      let index : get (name payload) r'.name_index ≡ some id =
        rw
          (
            u.result,
            get-name_index name r u.id c u.payload entity,
            payloads,
            ==_refl (name payload),
          )
          (ap some ids) in
      (stored, rw index stored)
