-- ===== src/Backfill/Rows/Laws.antt =====
-- `fetchItems` on a database that answers its query.
use quickbite_analytics_serv.Base.{
  ℕ, some, ◌≡◌, refl, sym, ap, ◌∙◌, Bool, true, false, ◌⊎◌, inl, inr, Bool-cases, List, [], ◌∷◌,
  ◌++◌, map, arith, if◌then◌else◌, ◌||◌, append-nil, append_assoc, bool_conflict,
}
use quickbite_analytics_serv.Base.Int.{ℤ, eqb_ℤ, eqb_ℤ_iff}
use quickbite_analytics_serv.Errors.{ok}
use quickbite_analytics_serv.Backfill.Literal.{int64_array, read_array}
use quickbite_analytics_serv.Backfill.Literal.RoundTrip.{read_array-int64_array}
use quickbite_analytics_serv.Backfill.Rows.{
  ItemRow, Cursor, Postgres, ItemsByOrder, items_of, add_item, scan_items, fetch_items,
}

-- `order_id = id`
abbrev pub items_for : ℤ → List ItemRow → List ItemRow
items_for id [] = []
items_for id (it ∷ items) =
    let rest = items_for id items in if eqb_ℤ it.order_id id then it ∷ rest else rest

abbrev pub listed : ℤ → List ℤ → Bool
listed id [] = false
listed id (k ∷ ids) = eqb_ℤ k id || listed id ids

-- `order_id = ANY(ids)`
abbrev pub items_any : List ℤ → List ItemRow → List ItemRow
items_any ids [] = []
items_any ids (it ∷ items) =
    let rest = items_any ids items in if listed it.order_id ids then it ∷ rest else rest

-- A query whose rows are all read.
abbrev pub cursor_of : {A : Type 0} → List A → Cursor A
cursor_of xs = record { rows = map ok xs; end_err = ok tt }

eqb_ℤ-trans : (a b c : ℤ) → eqb_ℤ a b ≡ true → eqb_ℤ a c ≡ eqb_ℤ b c
eqb_ℤ-trans a b c h = rw ((eqb_ℤ_iff a b).0 h) refl

-- An added item goes to the end of its order's items, and to no other order's.
items_of-add_item :
    (it : ItemRow) (out : ItemsByOrder) (id : ℤ)
    → items_of (add_item it out) id ≡ items_of out id ++ items_for id (it ∷ [])
unfolding items_of add_item
items_of-add_item it [] id = refl
items_of-add_item it ((k, items) ∷ rest) id =
    by_tests (items_of-add_item it rest id) (Bool-cases (eqb_ℤ k it.order_id))
      (Bool-cases (eqb_ℤ k id))
  where
    by_tests :
        items_of (add_item it rest) id ≡ items_of rest id ++ items_for id (it ∷ [])
        → (eqb_ℤ k it.order_id ≡ true) ⊎ (eqb_ℤ k it.order_id ≡ false)
        → (eqb_ℤ k id ≡ true) ⊎ (eqb_ℤ k id ≡ false)
        → items_of (add_item it ((k, items) ∷ rest)) id
          ≡ items_of ((k, items) ∷ rest) id ++ items_for id (it ∷ [])
    by_tests h (inl a) (inl b) =
        let same : eqb_ℤ it.order_id id ≡ true = sym (eqb_ℤ-trans k it.order_id id a) ∙ b in
        rw (a, b, same) refl
    by_tests h (inl a) (inr b) =
        let other : eqb_ℤ it.order_id id ≡ false = sym (eqb_ℤ-trans k it.order_id id a) ∙ b in
        rw (a, b, other) (sym (append-nil (items_of rest id)))
    by_tests h (inr a) (inl b) =
        let other : eqb_ℤ it.order_id id ≡ false = ground (arith, a, b) in
        rw (a, b, other) (sym (append-nil items))
    by_tests h (inr a) (inr b) = rw (a, b) h

scan_items-items_of :
    (items : List ItemRow) (out : ItemsByOrder)
    → (out' : ItemsByOrder) × (scan_items (map ok items) out ≡ ok out')
      × ((id : ℤ) → items_of out' id ≡ items_of out id ++ items_for id items)
unfolding scan_items
scan_items-items_of [] out = (out, refl, λ id. sym (append-nil (items_of out id)))
scan_items-items_of (it ∷ items) out =
    let (out', scanned, found) = scan_items-items_of items (add_item it out) in
    (out', scanned, λ id. found id ∙ rw (items_of-add_item it out id, append_assoc) (together id))
  where
    together :
        (id : ℤ)
        → items_of out id ++ (items_for id (it ∷ []) ++ items_for id items)
          ≡ items_of out id ++ items_for id (it ∷ items)
    together id = elim (Bool-cases (eqb_ℤ it.order_id id)) [
      | inl own ↦ rw own refl
      | inr other ↦ rw other refl
    ]

items_for-items_any :
    (id : ℤ) (ids : List ℤ) (items : List ItemRow)
    → listed id ids ≡ true
    → items_for id (items_any ids items) ≡ items_for id items
items_for-items_any id ids [] h = refl
items_for-items_any id ids (it ∷ items) h =
    by_tests (items_for-items_any id ids items h) (Bool-cases (eqb_ℤ it.order_id id))
      (Bool-cases (listed it.order_id ids))
  where
    by_tests :
        items_for id (items_any ids items) ≡ items_for id items
        → (eqb_ℤ it.order_id id ≡ true) ⊎ (eqb_ℤ it.order_id id ≡ false)
        → (listed it.order_id ids ≡ true) ⊎ (listed it.order_id ids ≡ false)
        → items_for id (items_any ids (it ∷ items)) ≡ items_for id (it ∷ items)
    by_tests again (inl own) (inl in_batch) = rw (in_batch, own) (ap (λ rest. it ∷ rest) again)
    by_tests again (inl own) (inr out_of_batch) =
        let same = (eqb_ℤ_iff it.order_id id).0 own in
        let conflict : listed id ids ≡ false = sym (ap (λ k. listed k ids) same) ∙ out_of_batch in
        bool_conflict (listed id ids) h conflict
    by_tests again (inr other) (inl in_batch) = rw (in_batch, other) again
    by_tests again (inr other) (inr out_of_batch) = rw (out_of_batch, other) again

-- The database answers a literal with the items of the orders that it reads there.
abbrev pub AnswersItems : Postgres → List ItemRow → Type 0
AnswersItems pg table =
    (literal : List ℕ) (ids : List ℤ)
    → read_array literal ≡ some ids
    → pg.query_items literal ≡ ok (cursor_of (items_any ids table))

-- If the database answers the query with the items of the orders asked for, each of these orders
-- has its own items in the map, in the order of the table.
pub fetch_items-items_of :
    (pg : Postgres) (ids : List ℤ) (table : List ItemRow)
    → AnswersItems pg table
    → (out : ItemsByOrder) × (fetch_items pg ids ≡ ok out)
      × ((id : ℤ) → listed id ids ≡ true → items_of out id ≡ items_for id table)
unfolding fetch_items items_of
fetch_items-items_of pg [] table answers = ([], refl, λ id h. bool_conflict false h refl)
fetch_items-items_of pg (k ∷ ks) table answers =
    let (out, scanned, found) = scan_items-items_of (items_any (k ∷ ks) table) [] in
    (
      out,
      rw (answers (int64_array (k ∷ ks)) (k ∷ ks) (read_array-int64_array (k ∷ ks)), scanned) refl,
      λ id h. found id ∙ nothing id ∙ items_for-items_any id (k ∷ ks) table h,
    )
  where
    nothing :
        (id : ℤ)
        → items_of [] id ++ items_for id (items_any (k ∷ ks) table)
          ≡ items_for id (items_any (k ∷ ks) table)
    nothing id = refl
