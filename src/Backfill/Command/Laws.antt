-- ===== src/Backfill/Command/Laws.antt =====
-- How a run of cmd/backfill-aggs/main.go can end.
use quickbite_analytics_serv.Base.{String, ◌≡◌, refl, ◌⊎◌, inl, inr, none, some, List}
use quickbite_analytics_serv.Errors.{Err, Result, ok, err, Result-cases}
use quickbite_analytics_serv.Mongo.{Mongo}
use quickbite_analytics_serv.Mongo.Values.{Time}
use quickbite_analytics_serv.Mongo.Client.{MongoDriver}
use quickbite_analytics_serv.Repository.Indexes.{ensure_indexes}
use quickbite_analytics_serv.Events.Deduper.{event_ids_repo}
use quickbite_analytics_serv.Backfill.Rows.{Config, Stats}
use quickbite_analytics_serv.Backfill.Run.{run}
use quickbite_analytics_serv.Backfill.Flags.{Strconv, parse_flags}
use quickbite_analytics_serv.Backfill.Flags.Laws.{Runnable, parse_flags_iff}
use quickbite_analytics_serv.Backfill.Command.{
  SqlDriver, failed, no_stats, open_pg, aggregate_writer, main,
}

module _ {W C D : Type 0} (conv : Strconv) (sql : SqlDriver W D) (driver : MongoDriver W C)
    (utc_date : Time → String) where
  -- The worlds behind the first three calls, and what the run answers there.
  module _ (f : Config) (w : W) where
    abbrev pub with_postgres : W
    with_postgres = (open_pg conv sql driver utc_date f w).1

    abbrev pub with_mongo : W
    with_mongo = (driver.dial f.mongo_uri none with_postgres).1

    abbrev pub with_indexes : Mongo W → W
    with_indexes m = (ensure_indexes m with_mongo).1

    abbrev pub ran : D → Mongo W → Result (Unit {0}) × (Stats × W)
    ran db m =
        run f (sql.queries db (with_indexes m)) (event_ids_repo m)
          (aggregate_writer conv sql driver utc_date m) (no_stats, with_indexes m)

  -- Every call of the program succeeded, on a configuration that can run.
  pub record Completed (args : List String) (w : W) : Type 0 where
    pub f : Config
    pub db : D
    pub client : C
    pub parsed : parse_flags conv args ≡ ok f
    pub runnable : Runnable f
    pub opened : (open_pg conv sql driver utc_date f w).0 ≡ ok db
    pub dialled : (driver.dial f.mongo_uri none (with_postgres f w)).0 ≡ ok client
    pub indexed : (ensure_indexes (driver.database client f.mongo_db) (with_mongo f w)).0 ≡ ok tt
    pub ended : (ran f w db (driver.database client f.mongo_db)).0 ≡ ok tt
    -- the exit code is 0, and the statistics of the run are logged
    pub exits :
        (main conv sql driver utc_date args w).0
        ≡ record { code = 0; stats = some (ran f w db (driver.database client f.mongo_db)).1.0 }

  -- The ways of a main with the parsed configuration `f`.
  abbrev pub Failed : List String → W → Type 0
  Failed args w =
      (f : Config) × (parse_flags conv args ≡ ok f)
      × ((main conv sql driver utc_date args w).0 ≡ failed 1)

  abbrev pub Refused : List String → W → Type 0
  Refused args w =
      (e : Err) × (parse_flags conv args ≡ err e)
      × (main conv sql driver utc_date args w ≡ (failed 2, w))

  -- One call after the other, from the parsed flags on.
  module _ (args : List String) (w : W) (f : Config) (accepted : parse_flags conv args ≡ ok f) where
    abbrev Ways : Type 0
    Ways = Completed args w ⊎ Failed args w

    fails : (main conv sql driver utc_date args w).0 ≡ failed 1 → Ways
    fails h = inr (f, accepted, h)

    from_indexes :
        (db : D) (client : C)
        → (open_pg conv sql driver utc_date f w).0 ≡ ok db
        → (driver.dial f.mongo_uri none (with_postgres f w)).0 ≡ ok client
        → (ensure_indexes (driver.database client f.mongo_db) (with_mongo f w)).0 ≡ ok tt
        → Ways
    unfolding main
    from_indexes db client opened dialled indexed =
        elim (Result-cases (ran f w db (driver.database client f.mongo_db)).0) [
          | inl (tt, ended) ↦ inl (record {
            f = f;
            db = db;
            client = client;
            parsed = accepted;
            runnable = ((parse_flags_iff conv args f).0 accepted).1;
            opened = opened;
            dialled = dialled;
            indexed = indexed;
            ended = ended;
            exits = rw (accepted, opened) (rw dialled (rw indexed (rw ended refl)));
          })
          | inr (e, failure) ↦
              fails (rw (accepted, opened) (rw dialled (rw indexed (rw failure refl))))
        ]

    from_mongo :
        (db : D) (client : C)
        → (open_pg conv sql driver utc_date f w).0 ≡ ok db
        → (driver.dial f.mongo_uri none (with_postgres f w)).0 ≡ ok client
        → Ways
    unfolding main
    from_mongo db client opened dialled =
        elim (Result-cases
          (ensure_indexes (driver.database client f.mongo_db) (with_mongo f w)).0) [
            | inl (tt, indexed) ↦ from_indexes db client opened dialled indexed
            | inr (e, failure) ↦ fails (rw (accepted, opened) (rw dialled (rw failure refl)))
          ]

    from_postgres : (db : D) → (open_pg conv sql driver utc_date f w).0 ≡ ok db → Ways
    unfolding main
    from_postgres db opened =
        elim (Result-cases (driver.dial f.mongo_uri none (with_postgres f w)).0) [
          | inl (client, dialled) ↦ from_mongo db client opened dialled
          | inr (e, failure) ↦ fails (rw (accepted, opened) (rw failure refl))
        ]

    from_flags : Ways
    unfolding main
    from_flags = elim (Result-cases (open_pg conv sql driver utc_date f w).0) [
      | inl (db, opened) ↦ from_postgres db opened
      | inr (e, failure) ↦ fails (rw accepted (rw failure refl))
    ]

  -- A backfill ends in one of three ways. It exits with 2 if its flags are refused, and nothing was
  -- called. It exits with 1 after its flags were accepted. Or it exits with 0 and logs the statistics
  -- of its run: then its flags are runnable, both databases were opened, the indexes of the
  -- aggregates were ensured before the first write, and the run succeeded.
  pub main_outcomes :
      (args : List String) (w : W) → Completed args w ⊎ Failed args w ⊎ Refused args w
  unfolding main
  main_outcomes args w = elim (Result-cases (parse_flags conv args)) [
    | inl (f, accepted) ↦ elim (from_flags args w f accepted) [
      | inl done ↦ inl done
      | inr failure ↦ inr (inl failure)
    ]
    | inr (e, refused) ↦ inr (inr (e, refused, rw refused refl))
  ]
