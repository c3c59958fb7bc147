-- ===== src/Admin/Table/Laws.antt =====
-- A created row is found.
use mathlib.Core.Option
use jobworkerp_conductor.Prelude.{
  ℕ, ◌≡◌, refl, sym, ap, ◌∙◌, arith, false, Option, none, some, [], ◌∷◌, ok, ℕ-HasEq, String-HasEq,
  inl, inr, Bool-cases, ==_refl,
}
use jobworkerp_conductor.HashMap.{get, insert, contains_key, get-insert_same}
use jobworkerp_conductor.Admin.Table.{
  Kind, Table, taken, insert_row, create, find, find_row_by_name, find_by_name,
}

module _ {D R : Type 0} (kind : Kind D R) where
  open kind use {row_of, to_proto, row_name, overwrite}

  -- The row that was put under a new id and a free name is the one found by the name.
  named-insert :
      (id : ℕ) (row : R) (t : Table kind)
      → contains_key t id ≡ false
      → taken kind id (row_name row) t ≡ false
      → find_row_by_name kind (row_name row) (insert id row t) ≡ some row
  unfolding find_row_by_name taken insert get
  named-insert id row [] fresh free = ground (arith, ==_refl (row_name row))
  named-insert id row ((j, other) ∷ t) fresh free = ground (arith, named-insert id row t)

  inserted-found :
      (id i : ℕ) (t t' : Table kind) (o : Option R)
      → insert_row kind id t o ≡ (ok i, t')
      → (row : R) × (o ≡ some row)
        × (i ≡ id)
        × (find kind id t' ≡ some (to_proto row))
        × (find_by_name kind (row_name row) t' ≡ some (to_proto row))
  unfolding insert_row find find_by_name
  inserted-found id i t t' none h = cc h
  inserted-found id i t t' (some row) h = elim (Bool-cases (contains_key t id)) [
    | inl there ↦ cc (rw there at h)
    | inr fresh ↦ elim (Bool-cases (taken kind id (row_name row) t)) [
      | inl clash ↦ cc (rw (fresh, clash) at h)
      | inr free ↦
          let e : (ok id, insert id row t) ≡ (ok i, t') = rw (fresh, free) at h in
          let same : insert id row t ≡ t' = ap (λ r. r.1) e in
          (
            row,
            refl,
            cc (ap (λ r. r.0) e),
            ap (λ u. Option.map to_proto (get id u)) (sym same)
                ∙ ap (Option.map to_proto) (get-insert_same id row t),
            ap (λ u. Option.map to_proto (find_row_by_name kind (row_name row) u)) (sym same)
                ∙ ap (Option.map to_proto) (named-insert id row t fresh free),
          )
    ]
  ]

  pub create-find :
      (id i : ℕ) (d : D) (t t' : Table kind)
      → create kind id d t ≡ (ok i, t')
      → (row : R) × (row_of id d ≡ some row)
        × (i ≡ id)
        × (find kind id t' ≡ some (to_proto row))
        × (find_by_name kind (row_name row) t' ≡ some (to_proto row))
  unfolding create
  create-find id i d t t' h = inserted-found id i t t' (row_of id d) h
