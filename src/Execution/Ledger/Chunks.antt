-- ===== src/Execution/Ledger/Chunks.antt =====
-- Deleting in chunks deletes what one statement would.
use jobworkerp_conductor.Prelude.{
  ℕ, ◌≡◌, refl, sym, ap, ◌∙◌, ◌≤◌, arith, Bool, false, none, List, [], ◌∷◌, if◌then◌else◌, ◌==◌,
  ◌||◌, ◌+◌, zero, suc, length, ℕ-HasEq,
}
use jobworkerp_conductor.HashMap.{get, remove, get-remove}
use jobworkerp_conductor.Execution.Ledger.{
  ExecutionRefId, Ledger, delete_in, take_chunk, drop_chunk, delete_chunks, delete_by_ids,
}

delete_in-chunk :
    (n : ℕ) (ids : List ExecutionRefId) (t : Ledger)
    → delete_in ids t ≡ (
      (delete_in (take_chunk n ids) t).0
          + (delete_in (drop_chunk n ids) (delete_in (take_chunk n ids) t).1).0,
      (delete_in (drop_chunk n ids) (delete_in (take_chunk n ids) t).1).1,
    )
unfolding delete_in
delete_in-chunk zero ids t = ground arith
delete_in-chunk (suc n) [] t = refl
delete_in-chunk (suc n) (id ∷ ids) t = ground (arith, delete_in-chunk n ids (remove id t))

length-drop_chunk : (n : ℕ) (ids : List ExecutionRefId) → length (drop_chunk n ids) ≤ length ids
length-drop_chunk zero ids = omega arith
length-drop_chunk (suc n) [] = omega arith
length-drop_chunk (suc n) (id ∷ ids) = omega (arith, length-drop_chunk n ids)

delete_chunks-delete_in :
    (fuel n : ℕ) (ids : List ExecutionRefId) (t : Ledger)
    → length ids ≤ fuel
    → delete_chunks fuel (suc n) ids t ≡ delete_in ids t
unfolding delete_chunks delete_in
delete_chunks-delete_in zero n [] t h = refl
delete_chunks-delete_in zero n (id ∷ ids) t h = ground arith
delete_chunks-delete_in (suc fuel) n [] t h = refl
delete_chunks-delete_in (suc fuel) n (id ∷ ids) t h =
    let smaller : length (drop_chunk n ids) ≤ fuel = omega (arith, h, length-drop_chunk n ids) in
    rw
      (delete_chunks-delete_in fuel n (drop_chunk n ids)
        (delete_in (take_chunk (suc n) (id ∷ ids)) t).1 smaller)
      (sym (delete_in-chunk (suc n) (id ∷ ids) t))

-- Whether an id is in the list.
abbrev pub elem : ExecutionRefId → List ExecutionRefId → Bool
elem j [] = false
elem j (id ∷ ids) = id == j || elem j ids

get-delete_in :
    (j : ExecutionRefId) (ids : List ExecutionRefId) (t : Ledger)
    → get j (delete_in ids t).1 ≡ (if elem j ids then none else get j t)
unfolding delete_in
get-delete_in j [] t = refl
get-delete_in j (id ∷ ids) t = rw (get-delete_in j ids (remove id t), get-remove) (ground arith)

-- `delete_by_ids` does what one statement over all the ids would, and counts the same rows: its
-- fuel, one unit for each id, is enough for every chunk. Afterwards the rows of the ids are gone and
-- all others are as they were.
pub delete_by_ids-delete_in :
    (ids : List ExecutionRefId) (t : Ledger)
    → (delete_by_ids ids t ≡ delete_in ids t)
      × ((j : ExecutionRefId)
          → get j (delete_by_ids ids t).1 ≡ (if elem j ids then none else get j t))
unfolding delete_by_ids
delete_by_ids-delete_in ids t =
    let same : delete_chunks (length ids) 900 ids t ≡ delete_in ids t =
      delete_chunks-delete_in (length ids) 899 ids t (omega arith) in
    (same, λ j. ap (λ r. get j r.1) same ∙ get-delete_in j ids t)
