-- ===== src/Mongo/Laws.antt =====
-- What the development relies on of MongoDB, as documented: an upsert by the equalities of a unique
-- key changes that one row, a bulk write is its upserts, and a unique `event_id` is inserted once.
-- Nothing is said of an aggregate after an error: the write may or may not have reached the server.
use quickbite_analytics_serv.Base.{
  ℕ, String, ◌≡◌, Bool, true, false, ◌&&◌, ◌||◌, not, Option, none, some, List, [], ◌∷◌, str_eq,
  if◌then◌else◌, ◌++◌,
}
use quickbite_analytics_serv.Errors.{Err, ok, err}
use quickbite_analytics_serv.Mongo.{
  Mongo, Bson, str, Document, Condition, is, Filter, Update, IndexModel,
}
use quickbite_analytics_serv.Mongo.Rows.{filter_eq, assoc, upsert_at, bulk_at}

abbrev texts_eq : List String → List String → Bool
texts_eq [] [] = true
texts_eq (s ∷ ss) (t ∷ ts) = str_eq s t && texts_eq ss ts
texts_eq _ _ = false

abbrev is_equality : Condition → Bool
is_equality (is b) = true
is_equality _ = false

abbrev all_equalities : Filter → Bool
all_equalities [] = true
all_equalities ((k, c) ∷ f) = is_equality c && all_equalities f

abbrev fields : Filter → List String
fields [] = []
fields ((k, c) ∷ f) = k ∷ fields f

abbrev has_unique : List IndexModel → List String → Bool
has_unique [] ks = false
has_unique (i ∷ rest) ks = (i.unique && texts_eq i.keys ks) || has_unique rest ks

-- The filter fixes all fields of a unique index of the collection, and no others.
abbrev pub is_key : List (String × List IndexModel) → String → Filter → Bool
is_key indexes c f = elim (assoc c indexes) [
  | none ↦ false
  | some models ↦ all_equalities f && has_unique models (fields f)
]

abbrev pub all_keys : List (String × List IndexModel) → String → List (Filter × Update) → Bool
all_keys indexes c [] = true
all_keys indexes c ((f, u) ∷ ms) = is_key indexes c f && all_keys indexes c ms

abbrev pub apart : Filter → List (Filter × Update) → Bool
apart f [] = true
apart f ((g, u) ∷ ms) = not (filter_eq f g) && apart f ms

-- No two models of a bulk write address one row, so their order is of no matter.
abbrev pub all_apart : List (Filter × Update) → Bool
all_apart [] = true
all_apart ((f, u) ∷ ms) = apart f ms && all_apart ms

pub record UpsertLaws {W : Type 0} (m : Mongo W) (indexes : List (String × List IndexModel))
    : Type 0 where
  -- the document that a unique key selects
  pub row : W → String → Filter → Option Document
  pub update_one_row :
      (c : String) (f : Filter) (u : Update) (w : W)
      → is_key indexes c f ≡ true
      → (m.update_one c f u w).0 ≡ ok tt
      → (d : String) (g : Filter)
      → row (m.update_one c f u w).1 d g
        ≡ (if str_eq c d then upsert_at f u g (row w d g) else row w d g)
  pub bulk_write_row :
      (c : String) (ms : List (Filter × Update)) (w : W)
      → all_keys indexes c ms ≡ true
      → all_apart ms ≡ true
      → (m.bulk_write c ms w).0 ≡ ok tt
      → (d : String) (g : Filter)
      → row (m.bulk_write c ms w).1 d g
        ≡ (if str_eq c d then bulk_at ms g (row w d g) else row w d g)

-- The unique field `key` of the collection `c`, by which documents are inserted and deleted.
pub record MarkerLaws {W : Type 0} (m : Mongo W) (c key : String) : Type 0 where
  pub marked : W → String → Bool
  pub insert_fresh :
      (i : String) (doc : List (String × Bson)) (w : W)
      → assoc key doc ≡ some (str i)
      → (m.insert_one c doc w).0 ≡ ok tt
      → (marked w i ≡ false)
        × ((j : String) → marked (m.insert_one c doc w).1 j ≡ (str_eq i j || marked w j))
  -- a document with that key is there: the insert is refused with code 11000 and changes nothing
  pub insert_again :
      (i : String) (doc : List (String × Bson)) (w : W)
      → assoc key doc ≡ some (str i)
      → marked w i ≡ true
      → (m.insert_one c doc w).1 ≡ w
        × ((e : Err) × ((m.insert_one c doc w).0 ≡ err e) × (m.write_errors e ≡ 11000 ∷ []))
  -- only a document with that key makes the insert fail with code 11000
  pub insert_refused :
      (i : String) (doc : List (String × Bson)) (w : W) (e : Err) (before after : List ℕ)
      → assoc key doc ≡ some (str i)
      → (m.insert_one c doc w).0 ≡ err e
      → m.write_errors e ≡ before ++ 11000 ∷ after
      → marked w i ≡ true
  pub delete_marked :
      (i : String) (w : W)
      → (m.delete_one c ((key, is (str i)) ∷ []) w).0 ≡ ok tt
      → (j : String)
      → marked (m.delete_one c ((key, is (str i)) ∷ []) w).1 j ≡ (not (str_eq i j) && marked w j)
