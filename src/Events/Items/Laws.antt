-- ===== src/Events/Items/Laws.antt =====
-- The lines of `toItemInputs` of app/analytics/eventhandlers/handlers.go, product by product.
use quickbite_analytics_serv.Base.{
  ℕ, zero, suc, ◌≡◌, refl, sym, ◌∙◌, true, false, Option, none, some, List, [], ◌∷◌, ◌++◌, length,
  if◌then◌else◌, arith, Option-cases, inl, inr,
}
use quickbite_analytics_serv.Base.Int.{ℤ, eqb_ℤ}
use quickbite_analytics_serv.Base.Int64.{add64}
use quickbite_analytics_serv.Types.{OrderItemInput}
use quickbite_analytics_serv.Repository.Interfaces.{distinct_products, product_apart}
use quickbite_analytics_serv.Events.Items.{
  OrderItemPayload, Positions, position_of, add_at, new_line, merge_item, merge_items,
  to_item_inputs,
}

-- The sums of the lines of one product, in their order: the independent reading of the loop.
abbrev pub Sums : Type 0
Sums = Option (ℤ × ℤ)

abbrev pub add_sums : Sums → ℤ × ℤ → Sums
add_sums none x = some x
add_sums (some (q, t)) (q', t') = some (add64 q q', add64 t t')

unfoldable pub sums_from : ℤ → Sums → List OrderItemPayload → Sums
sums_from p acc [] = acc
sums_from p acc (it ∷ items) =
    sums_from p (if eqb_ℤ it.product_id p then add_sums acc (it.quantity, it.line_total) else acc)
      items

-- What the merged lines hold of a product.
abbrev pub held : ℤ → List OrderItemInput → Sums
held p [] = none
held p (line ∷ out) =
    if eqb_ℤ line.product_id p then some (line.quantity, line.line_total) else held p out

abbrev index_of : ℤ → List OrderItemInput → Option ℕ
index_of p [] = none
index_of p (line ∷ out) =
    let rest = index_of p out in
    if eqb_ℤ line.product_id p then some 0 else elim rest [ none ↦ none | some n ↦ some (suc n) ]

-- The map gives each product its index, and no product stands twice.
record Inv (out : List OrderItemInput) (positions : Positions) : Type 0 where
  indexed : (p : ℤ) → position_of p positions ≡ index_of p out
  distinct : distinct_products out ≡ true

module _ (it : OrderItemPayload) where
  product_apart-add_at :
      (n : ℕ) (p : ℤ) (out : List OrderItemInput)
      → product_apart p (add_at n it out) ≡ product_apart p out
  product_apart-add_at n p [] = refl
  product_apart-add_at zero p (line ∷ out) = refl
  product_apart-add_at (suc n) p (line ∷ out) = rw (product_apart-add_at n p out)

  distinct-add_at :
      (n : ℕ) (out : List OrderItemInput)
      → distinct_products (add_at n it out) ≡ distinct_products out
  distinct-add_at n [] = refl
  distinct-add_at zero (line ∷ out) = refl
  distinct-add_at (suc n) (line ∷ out) =
      rw (product_apart-add_at n line.product_id out, distinct-add_at n out)

  index_of-add_at :
      (n : ℕ) (p : ℤ) (out : List OrderItemInput) → index_of p (add_at n it out) ≡ index_of p out
  index_of-add_at n p [] = refl
  index_of-add_at zero p (line ∷ out) = refl
  index_of-add_at (suc n) p (line ∷ out) = rw (index_of-add_at n p out)

  held-add_at :
      (n : ℕ) (p : ℤ) (out : List OrderItemInput)
      → index_of it.product_id out ≡ some n
      → held p (add_at n it out) ≡ (
          if eqb_ℤ it.product_id p
          then add_sums (held p out) (it.quantity, it.line_total)
          else held p out)
  held-add_at n p [] h = cc
  held-add_at zero p (line ∷ out) h = ground arith
  held-add_at (suc n) p (line ∷ out) h = ground (arith, held-add_at n p out)

  index_of-append :
      (p : ℤ) (out : List OrderItemInput)
      → index_of it.product_id out ≡ none
      → index_of p (out ++ new_line it ∷ [])
        ≡ (if eqb_ℤ it.product_id p then some (length out) else index_of p out)
  index_of-append p [] h = refl
  index_of-append p (line ∷ out) h = ground (arith, index_of-append p out)

  held-append :
      (p : ℤ) (out : List OrderItemInput)
      → index_of it.product_id out ≡ none
      → held p (out ++ new_line it ∷ []) ≡ (
          if eqb_ℤ it.product_id p
          then add_sums (held p out) (it.quantity, it.line_total)
          else held p out)
  held-append p [] h = ground arith
  held-append p (line ∷ out) h = ground (arith, held-append p out)

  product_apart-append :
      (p : ℤ) (out : List OrderItemInput)
      → product_apart p out ≡ true
      → eqb_ℤ p it.product_id ≡ false
      → product_apart p (out ++ new_line it ∷ []) ≡ true
  product_apart-append p [] h ne = ground arith
  product_apart-append p (line ∷ out) h ne = ground (arith, product_apart-append p out)

  distinct-append :
      (out : List OrderItemInput)
      → index_of it.product_id out ≡ none
      → distinct_products out ≡ true
      → distinct_products (out ++ new_line it ∷ []) ≡ true
  distinct-append [] h d = refl
  distinct-append (line ∷ out) h d =
      ground (arith, product_apart-append line.product_id out, distinct-append out)

  merge_item_new :
      (out : List OrderItemInput) (positions : Positions)
      → position_of it.product_id positions ≡ none
      → merge_item it (out, positions)
        ≡ (out ++ new_line it ∷ [], (it.product_id, length out) ∷ positions)
  unfolding merge_item
  merge_item_new out positions new = rw (new, merge_item)

  merge_item_found :
      (n : ℕ) (out : List OrderItemInput) (positions : Positions)
      → position_of it.product_id positions ≡ some n
      → merge_item it (out, positions) ≡ (add_at n it out, positions)
  unfolding merge_item
  merge_item_found n out positions found = rw (found, merge_item)

  merge_item-Inv :
      (out : List OrderItemInput) (positions : Positions)
      → Inv out positions
      → Inv (merge_item it (out, positions)).0 (merge_item it (out, positions)).1
  merge_item-Inv out positions v = elim (Option-cases (position_of it.product_id positions)) [
    | inl new ↦
        let absent : index_of it.product_id out ≡ none = sym (v.indexed it.product_id) ∙ new in
        rw (merge_item_new out positions new) (record {
          indexed = λ p. rw (v.indexed p, index_of-append p out absent);
          distinct = distinct-append out absent v.distinct;
        })
    | inr (n, found) ↦ rw (merge_item_found n out positions found) (record {
      indexed = λ p. rw (index_of-add_at n p out) (v.indexed p);
      distinct = distinct-add_at n out ∙ v.distinct;
    })
  ]

  -- One round adds the line to the sums of its product.
  held-merge_item :
      (p : ℤ) (out : List OrderItemInput) (positions : Positions)
      → Inv out positions
      → held p (merge_item it (out, positions)).0 ≡ (
          if eqb_ℤ it.product_id p
          then add_sums (held p out) (it.quantity, it.line_total)
          else held p out)
  held-merge_item p out positions v = elim (Option-cases (position_of it.product_id positions)) [
    | inl new ↦
        rw (merge_item_new out positions new)
          (held-append p out (sym (v.indexed it.product_id) ∙ new))
    | inr (n, found) ↦
        rw (merge_item_found n out positions found)
          (held-add_at n p out (sym (v.indexed it.product_id) ∙ found))
  ]

merge_items-distinct :
    (items : List OrderItemPayload) (out : List OrderItemInput) (positions : Positions)
    → Inv out positions
    → distinct_products (merge_items items (out, positions)).0 ≡ true
unfolding merge_items
merge_items-distinct [] out positions v = v.distinct
merge_items-distinct (it ∷ items) out positions v =
    merge_items-distinct items (merge_item it (out, positions)).0 (merge_item it (out, positions)).1
      (merge_item-Inv it out positions v)

held-merge_items :
    (p : ℤ) (items : List OrderItemPayload) (out : List OrderItemInput) (positions : Positions)
    → Inv out positions
    → held p (merge_items items (out, positions)).0 ≡ sums_from p (held p out) items
unfolding merge_items sums_from
held-merge_items p [] out positions v = refl
held-merge_items p (it ∷ items) out positions v =
    rw
      (held-merge_items p items (merge_item it (out, positions)).0
        (merge_item it (out, positions)).1 (merge_item-Inv it out positions v))
      (rw (held-merge_item it p out positions v))

empty-Inv : Inv [] []
empty-Inv = record { indexed = λ p. refl; distinct = refl }

-- Whatever the lines of an order, `toItemInputs` lists no product twice.
pub to_item_inputs-distinct :
    (items : List OrderItemPayload) → distinct_products (to_item_inputs items) ≡ true
unfolding to_item_inputs
to_item_inputs-distinct items = merge_items-distinct items [] [] empty-Inv

-- For every product, `toItemInputs` holds the int64 sums of the quantities and of the line totals
-- of its lines, taken in their order, and it holds nothing for a product with no line.
pub held-to_item_inputs :
    (p : ℤ) (items : List OrderItemPayload) → held p (to_item_inputs items) ≡ sums_from p none items
unfolding to_item_inputs
held-to_item_inputs p items = held-merge_items p items [] [] empty-Inv
