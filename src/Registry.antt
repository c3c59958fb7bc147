-- ===== src/Registry.antt =====
-- One kind of entity in `LocalConfigStore` (shared/src/local_config_store.rs): the map from ids and
-- the reverse index from names. The source writes this code four times, once for each entity kind;
-- here it is written once over the name that a payload has.
pub mod Consistency
pub mod Operations
pub mod Upsert
pub mod Rebuild
use jobworkerp_conductor.Prelude.{
  ℕ, String, ◌≡◌, refl, Bool, true, false, ◌&&◌, Option, none, some, List, [], ◌∷◌, Result, ok, err,
  if◌then◌else◌, ◌==◌, ℕ-HasEq, String-HasEq, and_then, option_eq,
}
use jobworkerp_conductor.HashMap.{HashMap, get, insert, remove, contains_key}
use jobworkerp_conductor.HashMap.Entries.{all_entries}
use jobworkerp_conductor.Proto.{Entity}

pub record Registry (D : Type 0) : Type 0 where
  pub entities : HashMap ℕ (Entity D)
  pub name_index : HashMap String ℕ

pub data RegistryError : Type 0 where
  missing_id_or_data : RegistryError

module _ {D : Type 0} where
  unfoldable pub new : Registry D
  new = record { entities = []; name_index = [] }

  -- The part of `upsert` that drops the name under which the entity was known before.
  unfoldable pub drop_old_name :
      (D → String) → Option (Entity D) → String → HashMap String ℕ → HashMap String ℕ
  drop_old_name name none new_name index = index
  drop_old_name name (some old) new_name index = elim old.payload [
    | none ↦ index
    | some old_data ↦ if name old_data == new_name then index else remove (name old_data) index
  ]

  -- The body of `upsert` once the id and the payload are known to be there.
  unfoldable pub store_entity : (D → String) → ℕ → D → Entity D → Registry D → Registry D
  unfolding drop_old_name
  store_entity name id payload entity r = record {
    entities = insert id entity r.entities;
    name_index =
        insert (name payload) id
          (drop_old_name name (get id r.entities) (name payload) r.name_index);
  }

  unfoldable pub upsert_parts :
      (D → String) → Option ℕ → Option D → Entity D → Registry D → Result RegistryError (Registry D)
  unfolding store_entity
  upsert_parts name (some id) (some payload) entity r = ok (store_entity name id payload entity r)
  upsert_parts name (some id) none entity r = err missing_id_or_data
  upsert_parts name none payload entity r = err missing_id_or_data

  unfoldable pub upsert : (D → String) → Entity D → Registry D → Result RegistryError (Registry D)
  unfolding upsert_parts
  upsert name entity r = upsert_parts name entity.id entity.payload entity r

  -- The name under which a removed entity is taken out of the index.
  unfoldable pub drop_name : (D → String) → Option (Entity D) → HashMap String ℕ → HashMap String ℕ
  drop_name name none index = index
  drop_name name (some entity) index = elim entity.payload [
    | none ↦ index
    | some payload ↦ remove (name payload) index
  ]

  -- `remove`: the removed entity comes back beside the new registry.
  unfoldable pub remove_entity : (D → String) → ℕ → Registry D → Option (Entity D) × Registry D
  unfolding drop_name
  remove_entity name id r =
      let removed = get id r.entities in
      (
        removed,
        record {
          entities = remove id r.entities;
          name_index = drop_name name removed r.name_index;
        },
      )

  unfoldable pub find_by_name : String → Registry D → Option (Entity D)
  find_by_name name r = and_then (get name r.name_index) (λ id. get id r.entities)

  unfoldable pub get_all : HashMap ℕ (Entity D) → List (Entity D)
  get_all [] = []
  get_all ((id, entity) ∷ m) = entity ∷ get_all m

  -- One step of the loops of `rebuild_reverse_indices`.
  unfoldable pub index_entity : (D → String) → ℕ → Option D → HashMap String ℕ → HashMap String ℕ
  index_entity name id none index = index
  index_entity name id (some payload) index = insert (name payload) id index

  unfoldable pub index_all :
      (D → String) → HashMap ℕ (Entity D) → HashMap String ℕ → HashMap String ℕ
  unfolding index_entity
  index_all name [] index = index
  index_all name ((id, entity) ∷ m) index =
      index_all name m (index_entity name id entity.payload index)

  unfoldable pub rebuild : (D → String) → HashMap ℕ (Entity D) → Registry D
  unfolding index_all
  rebuild name entities = record { entities = entities; name_index = index_all name entities [] }
