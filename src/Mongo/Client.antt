-- ===== src/Mongo/Client.antt =====
-- pkg/mongo/client.go: the connection to MongoDB. The driver is a parameter: `C` is a client.
use quickbite_analytics_serv.Base.{ℕ, ◌==◌, String, Option, none, some, if◌then◌else◌}
use quickbite_analytics_serv.Errors.{wrap, Result, ok, err}
use quickbite_analytics_serv.Exec.{Exec}
use quickbite_analytics_serv.Mongo.{Mongo}

-- `mongo.Connect` and the methods of its client; a time-out is in milliseconds.
pub record MongoDriver (W C : Type 0) : Type 0 where
  pub dial : String → Option ℕ → Exec W C
  pub ping : C → ℕ → Exec W (Unit {0})
  pub hang_up : C → Exec W (Unit {0})
  pub database : C → String → Mongo W

-- `Config` with its default; the time-out is `ConnectTO`.
pub record MongoConfig : Type 0 where
  pub uri : String
  pub database : String
  pub connect_to : ℕ

abbrev pub timeout_of : MongoConfig → ℕ
timeout_of cfg = if cfg.connect_to == 0 then 5000 else cfg.connect_to

module _ {W C : Type 0} (driver : MongoDriver W C) where
  -- A client that does not answer is disconnected, and the error of that is dropped.
  abbrev pub pinged : MongoConfig → C → Result (Unit {0}) → Exec W (C × Mongo W)
  pinged cfg c (err e) w = (err (wrap "mongo ping" e), (driver.hang_up c w).1)
  pinged cfg c (ok _) w = (ok (c, driver.database c cfg.database), w)

  abbrev pub dialled : MongoConfig → Result C → Exec W (C × Mongo W)
  dialled cfg (err e) w = (err (wrap "mongo connect" e), w)
  dialled cfg (ok c) w =
      let (answer, w') = driver.ping c (timeout_of cfg) w in pinged cfg c answer w'

  -- `Connect`
  unfoldable pub connect : MongoConfig → Exec W (C × Mongo W)
  connect cfg w =
      let (client, w') = driver.dial cfg.uri (some (timeout_of cfg)) w in dialled cfg client w'

  -- `Disconnect`; `none` is the nil client.
  unfoldable pub disconnect : Option C → Exec W (Unit {0})
  disconnect none w = (ok tt, w)
  disconnect (some c) w = driver.hang_up c w
