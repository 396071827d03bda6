-- ===== src/Boot/Env.antt =====
-- lib/config/env.go, and the level of lib/logger/logger.go. The package env, which fills the struct
-- from the process's environment, is a parameter.
pub mod Laws
use Prim.Native.Char.{code}
use quickbite_analytics_serv.Base.{
  ℕ, ◌+◌, String, Bool, true, false, ◌&&◌, ◌||◌, List, [], ◌∷◌, map, leb, ◌==◌, str_eq,
  if◌then◌else◌,
}
use quickbite_analytics_serv.Base.Int.{ℤ}
use quickbite_analytics_serv.Base.Text.{codes}
use quickbite_analytics_serv.Errors.{wrap, Result, ok, err}
use quickbite_analytics_serv.Exec.{Exec}

pub record MongoEnv : Type 0 where
  pub uri : String
  pub database : String

pub record RabbitEnv : Type 0 where
  pub url : String
  pub order_events_exchange : String
  pub order_events_queue : String
  pub order_events_bindings : List String
  pub order_events_dlx : String
  pub order_events_dlq : String
  pub core_events_exchange : String
  pub core_events_queue : String
  pub core_events_bindings : List String
  pub core_events_dlx : String
  pub core_events_dlq : String
  pub prefetch : ℤ

pub record CoreEnv : Type 0 where
  pub base_url : String
  pub internal_api_key : String
  -- in nanoseconds
  pub rbac_cache_ttl : ℤ

pub record Env : Type 0 where
  pub port : ℤ
  pub environment : String
  pub log_level : String
  pub mongo : MongoEnv
  pub rabbit : RabbitEnv
  pub access_secret : String
  pub core : CoreEnv

-- `unicode.IsSpace`
abbrev pub is_space : ℕ → Bool
is_space c =
    (leb 9 c && leb c 13)
    || c == 32
    || c == 133
    || c == 160
    || c == 5760
    || (leb 8192 c && leb c 8202)
    || c == 8232
    || c == 8233
    || c == 8239
    || c == 8287
    || c == 12288

unfoldable pub trim_left : String → String
trim_left String.[] = String.[]
trim_left (String.◌∷◌ c s) =
    let rest = trim_left s in if is_space (code c) then rest else String.◌∷◌ c s

unfoldable pub trim_right : String → String
trim_right String.[] = String.[]
trim_right (String.◌∷◌ c s) =
    let rest = trim_right s in
    if is_space (code c) && str_eq rest "" then String.[] else String.◌∷◌ c rest

-- `strings.TrimSpace`
unfoldable pub trim_space : String → String
unfolding trim_left trim_right
trim_space s = trim_right (trim_left s)

unfoldable pub trim_non_empty : List String → List String
unfolding trim_space
trim_non_empty [] = []
trim_non_empty (s ∷ rest) =
    let out = trim_non_empty rest in if str_eq (trim_space s) "" then out else trim_space s ∷ out

-- `godotenv.Load` and `env.Parse`
pub record Environment (W : Type 0) : Type 0 where
  pub load_dotenv : Exec W (Unit {0})
  pub parse : Exec W Env

abbrev pub trim_bindings : Env → Env
trim_bindings cfg = record cfg {
  rabbit = record cfg.rabbit {
    order_events_bindings = trim_non_empty cfg.rabbit.order_events_bindings;
    core_events_bindings = trim_non_empty cfg.rabbit.core_events_bindings;
  };
}

abbrev pub after_parse : Result Env → Result Env
after_parse (err e) = err (wrap "config" e)
after_parse (ok cfg) = ok (trim_bindings cfg)

-- `Load`: an error of the .env file is dropped.
unfoldable pub load : {W : Type 0} → Environment W → Exec W Env
load e w = let (r, w') = e.parse (e.load_dotenv w).1 in (after_parse r, w')

pub data Level : Type 0 where
  level_debug : Level
  level_info : Level
  level_warn : Level
  level_error : Level

-- `strings.ToLower`, as far as a level's name is concerned: the capitals, and the dotted I, whose
-- lower case is the plain i in Go.
abbrev lower : ℕ → ℕ
lower c = if leb b'A' c && leb c b'Z' then c + 32 else if c == 304 then b'i' else c

abbrev codes_eq : List ℕ → List ℕ → Bool
codes_eq [] [] = true
codes_eq (c ∷ s) (d ∷ t) = (c == d) && codes_eq s t
codes_eq _ _ = false

abbrev is_level : String → String → Bool
is_level name s = codes_eq (map lower (codes s)) (codes name)

unfoldable pub parse_level : String → Level
parse_level s =
    if is_level "debug" s
    then Level.level_debug
    else if is_level "warn" s || is_level "warning" s
    then Level.level_warn
    else if is_level "error" s
    then Level.level_error
    else Level.level_info
