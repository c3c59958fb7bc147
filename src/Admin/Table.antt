-- ===== src/Admin/Table.antt =====
-- The repositories of the four kinds of entity (api/infra/src/infra/*/rdb.rs). The source writes each
-- statement four times; here they are written once over a `Kind`. A table is a map from the primary
-- key to the row, and the database is taken to do what the schema says: a unique index on the name,
-- NOT NULL columns, and a statement that fails changes nothing. The generated id is an argument.
pub mod Kinds
pub mod Laws
pub mod Effects
use mathlib.Core.Option
use jobworkerp_conductor.Prelude.{
  ℕ, zero, suc, String, Bool, true, false, Option, none, some, List, [], ◌∷◌, Result, ok, err,
  if◌then◌else◌, ◌==◌, ◌&&◌, ◌||◌, not, ltb, ℕ-HasEq, String-HasEq, map,
}
use jobworkerp_conductor.HashMap.{HashMap, get, insert, remove, contains_key}
use jobworkerp_conductor.Proto.{Entity}

pub record Kind (D R : Type 0) : Type 0 where
  -- The columns bound by an INSERT; none, if NULL is bound to a NOT NULL column.
  pub row_of : ℕ → D → Option R
  pub to_proto : R → Entity D
  pub row_name : R → String
  -- The row after an UPDATE, from the one before and the bound columns.
  pub overwrite : R → R → R

pub data DbError : Type 0 where
  already_exists : String → DbError
  constraint_failed : DbError

module _ {D R : Type 0} (kind : Kind D R) where
  open kind use {row_of, to_proto, row_name, overwrite}

  abbrev pub Table : Type 0
  Table = HashMap ℕ R

  -- Whether a row with another id has the name.
  unfoldable pub taken : ℕ → String → Table → Bool
  taken id name [] = false
  taken id name ((j, row) ∷ t) = (not (j == id) && row_name row == name) || taken id name t

  unfoldable pub insert_row : ℕ → Table → Option R → Result DbError ℕ × Table
  unfolding taken
  insert_row id t none = (err constraint_failed, t)
  insert_row id t (some row) =
      if contains_key t id
      then (err constraint_failed, t)
      else if taken id (row_name row) t
      then (err (already_exists (row_name row)), t)
      else (ok id, insert id row t)

  unfoldable pub create : ℕ → D → Table → Result DbError ℕ × Table
  unfolding insert_row
  create id d t = insert_row id t (row_of id d)

  unfoldable pub update_row : ℕ → Table → R → Option R → Result DbError Bool × Table
  unfolding taken
  update_row id t old none = (err constraint_failed, t)
  update_row id t old (some row) =
      if taken id (row_name row) t
      then (err constraint_failed, t)
      else (ok true, insert id (overwrite old row) t)

  -- No row is touched, and no constraint either, when no row has the id.
  unfoldable pub update_found : ℕ → D → Table → Option R → Result DbError Bool × Table
  unfolding update_row
  update_found id d t none = (ok false, t)
  update_found id d t (some old) = update_row id t old (row_of id d)

  unfoldable pub update : ℕ → D → Table → Result DbError Bool × Table
  unfolding update_found
  update id d t = update_found id d t (get id t)

  -- Whether a row was deleted, and the table left.
  unfoldable pub delete : ℕ → Table → Bool × Table
  delete id t = (contains_key t id, remove id t)

  unfoldable pub find : ℕ → Table → Option (Entity D)
  find id t = Option.map to_proto (get id t)

  unfoldable pub find_row_by_name : String → Table → Option R
  find_row_by_name name [] = none
  find_row_by_name name ((j, row) ∷ t) =
      if row_name row == name then some row else find_row_by_name name t

  unfoldable pub find_by_name : String → Table → Option (Entity D)
  unfolding find_row_by_name
  find_by_name name t = Option.map to_proto (find_row_by_name name t)

  -- `ORDER BY id DESC`
  unfoldable pub place : ℕ → R → Table → Table
  place id row [] = (id, row) ∷ []
  place id row ((j, other) ∷ t) =
      let rest = place id row t in
      if ltb id j then (j, other) ∷ rest else (id, row) ∷ (j, other) ∷ t

  unfoldable pub by_id_desc : Table → Table
  unfolding place
  by_id_desc [] = []
  by_id_desc ((id, row) ∷ t) = place id row (by_id_desc t)

  -- `LIMIT n`, `OFFSET n`
  abbrev pub limited {ℓ} : {A : Type ℓ} → ℕ → List A → List A
  limited n [] = []
  limited zero (x ∷ xs) = []
  limited (suc n) (x ∷ xs) = x ∷ limited n xs

  abbrev pub skipped {ℓ} : {A : Type ℓ} → ℕ → List A → List A
  skipped n [] = []
  skipped zero (x ∷ xs) = x ∷ xs
  skipped (suc n) (x ∷ xs) = skipped n xs

  abbrev pub page : Option ℕ → Option ℕ → Table → Table
  page none offset t = t
  page (some limit) none t = limited limit t
  page (some limit) (some offset) t = limited limit (skipped offset t)

  -- The offset counts only beside a limit.
  unfoldable pub find_list : Option ℕ → Option ℕ → Table → List (Entity D)
  unfolding by_id_desc
  find_list limit offset t = map (λ e. to_proto e.1) (page limit offset (by_id_desc t))
