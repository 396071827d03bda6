-- ===== src/Boot/Consumers/Lookup.antt =====
-- Look-ups in a list of distinct keys, such as the map of handlers of lib/coreevents/consumer.go, do not
-- depend on its order.
use mathlib.Core.List.{Permᴰ}
use quickbite_analytics_serv.Base.{
  String, ◌≡◌, refl, sym, ap, ◌∙◌, ◌⊎◌, inl, inr, true, false, Bool-cases, bool_conflict, none,
  some, List, [], ◌∷◌, str_eq, eq_iff,
}
use quickbite_analytics_serv.Mongo.Rows.{assoc}

str_eq-swap : (s t : String) → str_eq s t ≡ false → str_eq t s ≡ false
str_eq-swap s t apart = elim (Bool-cases (str_eq t s)) [
  | inl same ↦ bool_conflict (str_eq s t) ((eq_iff s t).1 (sym ((eq_iff t s).0 same))) apart
  | inr other ↦ other
]

module _ {V : Type 0} where
  -- No key is listed twice.
  abbrev pub DistinctKeys : List (String × V) → Type 0
  DistinctKeys [] = Unit {0}
  DistinctKeys ((k, v) ∷ rest) = (assoc k rest ≡ none) × DistinctKeys rest

  assoc-same :
      (t : String) (a b : String × V) (l l' : List (String × V))
      → a ≡ b
      → assoc t l ≡ assoc t l'
      → assoc t (a ∷ l) ≡ assoc t (b ∷ l')
  assoc-same t a b l l' same h = rw (same, h) refl

  absent :
      (k : String) (b : String × V) (l : List (String × V))
      → assoc k (b ∷ l) ≡ none
      → (str_eq b.0 k ≡ false) × (assoc k l ≡ none)
  absent k b l h = elim (Bool-cases (str_eq b.0 k)) [
    | inl found ↦ let impossible : some b.1 ≡ none = rw found at h in cc
    | inr other ↦ (other, rw other at h)
  ]

  present :
      (k : String) (b : String × V) (l : List (String × V))
      → str_eq b.0 k ≡ false
      → assoc k l ≡ none
      → assoc k (b ∷ l) ≡ none
  present k b l other h = rw (other, h) refl

  -- Two entries with different keys are found in either order.
  assoc-swap :
      (t : String) (a b : String × V) (l : List (String × V))
      → str_eq b.0 a.0 ≡ false
      → assoc t (a ∷ b ∷ l) ≡ assoc t (b ∷ a ∷ l)
  assoc-swap t a b l apart = by_tests (Bool-cases (str_eq a.0 t)) (Bool-cases (str_eq b.0 t))
    where
      by_tests :
          (str_eq a.0 t ≡ true) ⊎ (str_eq a.0 t ≡ false)
          → (str_eq b.0 t ≡ true) ⊎ (str_eq b.0 t ≡ false)
          → assoc t (a ∷ b ∷ l) ≡ assoc t (b ∷ a ∷ l)
      by_tests (inl x) (inl y) =
          bool_conflict (str_eq b.0 a.0)
            ((eq_iff b.0 a.0).1 ((eq_iff b.0 t).0 y ∙ sym ((eq_iff a.0 t).0 x))) apart
      by_tests (inl x) (inr y) = rw (x, y) refl
      by_tests (inr x) (inl y) = rw (x, y) refl
      by_tests (inr x) (inr y) = rw (x, y) refl

  -- The order of a list of distinct keys does not matter to a look-up.
  pub assoc-perm :
      {l l' : List (String × V)}
      → Permᴰ l l'
      → DistinctKeys l
      → DistinctKeys l' × ((t : String) → assoc t l ≡ assoc t l')
  assoc-perm Permᴰ.nil d = (tt, λ t. refl)
  assoc-perm (Permᴰ.cons {a = a} {b = b} {l₁ = l} {l₂ = l'} same p) (unlisted, d) =
      let (d', found) = assoc-perm p d in
      (
        (sym (found b.0) ∙ ap (λ (e : String × V). assoc e.0 l) (sym same) ∙ unlisted, d'),
        λ t. assoc-same t a b l l' same (found t),
      )
  assoc-perm (Permᴰ.swap {a = a} {b = b} {a' = a'} {b' = b'} {l = l} same same') d =
      let (other, unlisted) = absent a.0 b l d.0 in
      (
        (
          assoc-same a'.0 b' a l l (sym same) refl
              ∙ ap (λ (e : String × V). assoc e.0 (a ∷ l)) (sym same')
              ∙ present b.0 a l (str_eq-swap b.0 a.0 other) d.1.0,
          (rw (sym same) unlisted, d.1.1),
        ),
        λ t.
            assoc-swap t a b l other
            ∙ assoc-same t b a' (a ∷ l) (b' ∷ l) same' (assoc-same t a b' l l same refl),
      )
  assoc-perm (Permᴰ.trans p q) d =
      let (d', found) = assoc-perm p d in
      let (d'', found') = assoc-perm q d' in (d'', λ t. found t ∙ found' t)
