-- ===== src/Boot/Providers.antt =====
-- lib/boot/boot.go: the providers that build one component from the configuration and others, and the
-- hooks of the indexes, MongoDB and the broker. The container of fx, which calls them, is not part of
-- the model.
use quickbite_analytics_serv.Base.{some}
use quickbite_analytics_serv.Base.Int.{ℤ, pos}
use quickbite_analytics_serv.Errors.{Result, ok, err}
use quickbite_analytics_serv.Exec.{Exec}
use quickbite_analytics_serv.Mongo.{Mongo}
use quickbite_analytics_serv.Mongo.Values.{Time}
use quickbite_analytics_serv.Mongo.Client.{MongoDriver, connect, disconnect}
use quickbite_analytics_serv.Messaging.{Amqp}
use quickbite_analytics_serv.Messaging.Connection.{AmqpBroker, State, new_amqp_broker}
use quickbite_analytics_serv.Messaging.Connection
use quickbite_analytics_serv.Messaging.Topology.{wrapped}
use quickbite_analytics_serv.Clients.Http.{Transport, max_retries_of}
use quickbite_analytics_serv.Clients.Core.{
  CoreConfig, RolePermissionsResponse, get_role_permissions,
}
use quickbite_analytics_serv.Rbac.Cache.{Settings, CacheWorld}
use quickbite_analytics_serv.Repository.Indexes.{ensure_indexes}
use quickbite_analytics_serv.Boot.Env.{Env}

-- The `OnStop` of a hook, where a provider appends one.
abbrev pub OnStop : Type 0 → Type 0
OnStop W = Exec W (Unit {0})

module _ {W C : Type 0} (driver : MongoDriver W C) where
  abbrev stop_mongo : Result (C × Mongo W) → Result (Mongo W × OnStop W)
  stop_mongo (err e) = err e
  stop_mongo (ok (client, db)) = ok (db, disconnect driver (some client))

  -- `provideMongo`
  unfoldable pub provide_mongo : Env → Exec W (Mongo W × OnStop W)
  provide_mongo cfg w =
      let (r, w') =
        connect driver
          (record { uri = cfg.mongo.uri; database = cfg.mongo.database; connect_to = 0 }) w in
      (stop_mongo r, w')

module _ {W C H Q B : Type 0} (amqp : Amqp W C H Q B) where
  -- `provideMessagingBroker`: a broker that cannot be reached is logged, and provided all the same.
  unfoldable pub provide_messaging_broker : Env → W → State amqp
  provide_messaging_broker cfg w =
      (Connection.connect amqp
        (new_amqp_broker (record { url = cfg.rabbit.url; reconnect_min = 0 }), w)).1

  -- its hook's `OnStop`
  unfoldable pub stop_messaging_broker : Exec (State amqp) (Unit {0})
  stop_messaging_broker = Connection.close amqp

-- `provideHTTPClient`, as far as its retries
abbrev pub provided_retries : ℤ
provided_retries = max_retries_of (pos 2)

-- `provideCoreClient`
unfoldable pub provide_core_client : Env → CoreConfig
provide_core_client cfg = record {
  base_url = cfg.core.base_url;
  internal_api_key = cfg.core.internal_api_key;
}

-- a call to core, and what others do to the cache until it is answered
abbrev pub unlocked :
    {W A : Type 0} → (CacheWorld W → CacheWorld W) → Exec W A → Exec (CacheWorld W) A
unlocked others m c = let (answer, w') = m c.world in (answer, others (record c { world = w' }))

-- `provideRBACCache`, with the clock that the cache reads
unfoldable pub provide_rbac_cache :
    {W Q B : Type 0}
    → Transport W Q B
    → (B → Result RolePermissionsResponse)
    → (W → Time)
    → (CacheWorld W → CacheWorld W)
    → Env
    → Settings W
provide_rbac_cache t decode now others cfg = record {
  get_role_permissions = λ role.
      unlocked others
        (get_role_permissions t decode provided_retries (provide_core_client cfg) role);
  ttl = cfg.core.rbac_cache_ttl;
  now = now;
}

-- `ensureMongoIndexes`: the hook's `OnStart`
unfoldable pub ensure_mongo_indexes : {W : Type 0} → Mongo W → Exec W (Unit {0})
ensure_mongo_indexes db = wrapped "ensure indexes" (ensure_indexes db)
