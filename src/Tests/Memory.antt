-- ===== src/Tests/Memory.antt =====
-- A database in memory that keeps the laws which the development asks of MongoDB.
use quickbite_analytics_serv.Base.{
  String, ◌≡◌, refl, Bool, true, false, ◌||◌, ◌&&◌, not, inl, inr, Bool-cases, Option, none, some,
  List, [], ◌∷◌, str_eq, if◌then◌else◌,
}
use quickbite_analytics_serv.Base.Int.{ℤ, pos}
use quickbite_analytics_serv.Errors.{Err, plain, Result, ok, err}
use quickbite_analytics_serv.Exec.{Exec}
use quickbite_analytics_serv.Mongo.{Mongo}
use quickbite_analytics_serv.Mongo.Values.{Bson, str, int, time, Document, is, Filter}
use quickbite_analytics_serv.Mongo.Rows.{assoc, upsert_at, bulk_at}
use quickbite_analytics_serv.Mongo.Laws.{UpsertLaws, MarkerLaws}
use quickbite_analytics_serv.Repository.Indexes.{all_indexes, collection_event_ids}

pub record World : Type 0 where
  pub rows : String → Filter → Option Document
  pub marks : String → Bool

abbrev pub empty : World
empty = record { rows = λ c f. none; marks = λ i. false }

abbrev duplicate : Err
duplicate = plain "E11000 duplicate key error"

abbrev insert : Option Bson → Exec World (Unit {0})
insert (some (str i)) w =
    if w.marks i
    then (err duplicate, w)
    else (ok tt, record w { marks = λ j. str_eq i j || w.marks j })
insert _ w = (ok tt, w)

abbrev delete : Filter → Exec World (Unit {0})
delete ((k, is (str i)) ∷ []) w = (ok tt, record w { marks = λ j. not (str_eq i j) && w.marks j })
delete _ w = (ok tt, w)

abbrev read_int : Option Bson → Result ℤ
read_int (some (int n)) = ok n
read_int _ = ok (pos 0)

abbrev read_str : Option Bson → Result String
read_str (some (str s)) = ok s
read_str _ = ok ""

abbrev read_time : Option Bson → Result ℤ
read_time (some (time t)) = ok t
read_time _ = ok (pos 0)

abbrev pub memory : Mongo World
memory = record {
  now = λ w. pos 0;
  update_one = λ c f u w. (
    ok tt,
    record w { rows = λ d g. if str_eq c d then upsert_at f u g (w.rows d g) else w.rows d g },
  );
  bulk_write = λ c ms w. (
    ok tt,
    record w { rows = λ d g. if str_eq c d then bulk_at ms g (w.rows d g) else w.rows d g },
  );
  find = λ c f order w. (ok [], w);
  find_one = λ c f w. (ok none, w);
  aggregate = λ c stages w. (ok [], w);
  insert_one = λ c doc. insert (assoc "event_id" doc);
  delete_one = λ c f. delete f;
  decode_int = read_int;
  decode_str = read_str;
  decode_time = read_time;
  write_errors = λ e. 11000 ∷ [];
  create_many = λ c models w. (ok tt, w);
}

abbrev pub memory_upserts : UpsertLaws memory all_indexes
memory_upserts = record {
  row = λ w c f. w.rows c f;
  update_one_row = λ c f u w key done d g. refl;
  bulk_write_row = λ c ms w keys apart done d g. refl;
}

pub insert_fresh :
    (i : String) (doc : List (String × Bson)) (w : World)
    → assoc "event_id" doc ≡ some (str i)
    → (memory.insert_one collection_event_ids doc w).0 ≡ ok tt
    → (w.marks i ≡ false)
      × ((j : String)
          → (memory.insert_one collection_event_ids doc w).1.marks j ≡ (str_eq i j || w.marks j))
insert_fresh i doc w keyed done = elim (Bool-cases (w.marks i)) [
  | inl marked ↦ let impossible : err duplicate ≡ ok tt = rw (keyed, marked) at done in cc
  | inr unmarked ↦ (unmarked, λ j. rw keyed (rw unmarked refl))
]

pub insert_refused :
    (i : String) (doc : List (String × Bson)) (w : World) (e : Err)
    → assoc "event_id" doc ≡ some (str i)
    → (memory.insert_one collection_event_ids doc w).0 ≡ err e
    → w.marks i ≡ true
insert_refused i doc w e keyed failed = elim (Bool-cases (w.marks i)) [
  | inl marked ↦ marked
  | inr unmarked ↦ let impossible : ok tt ≡ err e = rw (keyed, unmarked) at failed in cc
]

abbrev pub memory_markers : MarkerLaws memory collection_event_ids "event_id"
memory_markers = record {
  marked = λ w i. w.marks i;
  insert_fresh = insert_fresh;
  insert_again = λ i doc w keyed marked.
      (rw keyed (rw marked refl), (duplicate, rw keyed (rw marked refl), refl));
  insert_refused =
      λ i doc w e before after keyed failed same. insert_refused i doc w e keyed failed;
  delete_marked = λ i w done j. refl;
}
