-- ===== src/Admin/Table/Effects.antt =====
-- What a successful INSERT or UPDATE has done to the table.
use jobworkerp_conductor.Prelude.{
  ℕ, ◌≡◌, refl, ap, ◌∙◌, Bool, true, Option, none, some, ok, ℕ-HasEq, inl, inr, Bool-cases,
}
use jobworkerp_conductor.HashMap.{get, insert, contains_key}
use jobworkerp_conductor.Admin.Table.{
  Kind, Table, taken, insert_row, create, update_row, update_found, update,
}

module _ {D R : Type 0} (kind : Kind D R) where
  open kind use {row_of, row_name, overwrite}

  pub inserted-table :
      (id i : ℕ) (t t' : Table kind) (o : Option R)
      → insert_row kind id t o ≡ (ok i, t')
      → (row : R) × (o ≡ some row) × (i ≡ id) × (insert id row t ≡ t')
  unfolding insert_row
  inserted-table id i t t' none h = cc h
  inserted-table id i t t' (some row) h = elim (Bool-cases (contains_key t id)) [
    | inl there ↦ cc (rw there at h)
    | inr fresh ↦ elim (Bool-cases (taken kind id (row_name row) t)) [
      | inl clash ↦ cc (rw (fresh, clash) at h)
      | inr free ↦
          let e : (ok id, insert id row t) ≡ (ok i, t') = rw (fresh, free) at h in
          (row, refl, cc (ap (λ r. r.0) e), ap (λ r. r.1) e)
    ]
  ]

  pub created-table :
      (id i : ℕ) (d : D) (t t' : Table kind)
      → create kind id d t ≡ (ok i, t')
      → (row : R) × (row_of id d ≡ some row) × (i ≡ id) × (insert id row t ≡ t')
  unfolding create
  created-table id i d t t' h = inserted-table id i t t' (row_of id d) h

  overwritten-table :
      (id : ℕ) (touched : Bool) (t t' : Table kind) (old : R) (o : Option R)
      → update_row kind id t old o ≡ (ok touched, t')
      → (row : R) × (o ≡ some row) × (insert id (overwrite old row) t ≡ t')
  unfolding update_row
  overwritten-table id touched t t' old none h = cc h
  overwritten-table id touched t t' old (some row) h =
      elim (Bool-cases (taken kind id (row_name row) t)) [
        | inl clash ↦ cc (rw clash at h)
        | inr free ↦
            let e : (ok true, insert id (overwrite old row) t) ≡ (ok touched, t') = rw free at h in
            (row, refl, ap (λ r. r.1) e)
      ]

  found-table :
      (id : ℕ) (d : D) (touched : Bool) (t t' : Table kind) (old : R) (o : Option R)
      → o ≡ some old
      → update_found kind id d t o ≡ (ok touched, t')
      → (row : R) × (row_of id d ≡ some row) × (insert id (overwrite old row) t ≡ t')
  unfolding update_found
  found-table id d touched t t' old none e h = cc e
  found-table id d touched t t' old (some r) e h =
      overwritten-table id touched t t' old (row_of id d)
        (let same : old ≡ r = cc e in ap (λ o. update_row kind id t o (row_of id d)) same ∙ h)

  -- An UPDATE of a row that is there has overwritten it.
  pub updated-table :
      (id : ℕ) (d : D) (touched : Bool) (t t' : Table kind) (old : R)
      → get id t ≡ some old
      → update kind id d t ≡ (ok touched, t')
      → (row : R) × (row_of id d ≡ some row) × (insert id (overwrite old row) t ≡ t')
  unfolding update
  updated-table id d touched t t' old e h = found-table id d touched t t' old (get id t) e h
