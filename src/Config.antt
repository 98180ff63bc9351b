-- ===== src/Config.antt =====
-- internal/config/config.go: the configuration, read from the environment. The parsers of package net,
-- strconv and time are parameters, as is `strings.ToLower`.
pub mod Variables
pub mod Loading
mod Tests
use cqu_netprobe_gateway.Prelude.{
  ℕ, ◌*◌, String, Bool, true, false, not, ◌&&◌, ◌||◌, Option, none, some, List, [], ◌∷◌, ◌≡◌, refl,
  ◌==◌, eqb, if◌then◌else◌,
}
use Prim.Native.String
use cqu_netprobe_gateway.Prelude.Int.{ℤ, pos, leb_ℤ, ltb_ℤ}
use cqu_netprobe_gateway.Prelude.Text.Split.{split_comma, trim_space}
use cqu_netprobe_gateway.Prelude.Time.{second, minute}

-- An error of a parser is `none`.
pub record ConfigLibrary : Type 1 where
  pub Network : Type 0
  -- `time.ParseDuration`, in nanoseconds.
  pub parse_duration : String → Option ℤ
  pub atoi : String → Option ℤ
  -- `net.ParseCIDR`, its network.
  pub parse_cidr : String → Option Network
  -- `n.Mask.Size()`: the ones, and the bits.
  pub mask_size : Network → ℕ × ℕ
  pub to_lower : String → String

pub data Level : Type 0 where
  level_debug level_info level_warn level_error : Level

-- Why the gateway does not start.
pub data ConfigError (Network : Type 0) : Type 0 where
  invalid_duration : (key raw : String) → ConfigError Network
  not_positive : (key : String) → ℤ → ConfigError Network
  not_an_integer : (key raw : String) → ConfigError Network
  below_one : (key : String) → ℤ → ConfigError Network
  invalid_cidr : (entry : String) → ConfigError Network
  catch_all : Network → ConfigError Network
  invalid_level : (raw : String) → ConfigError Network

pub data Loaded {ℓ} (Network : Type 0) (T : Type ℓ) : Type ℓ where
  refused : ConfigError Network → Loaded Network T
  loaded : T → Loaded Network T

infixl 5 ◌>>=◌
abbrev pub ◌>>=◌ {ℓ κ} :
    {N : Type 0} {T : Type ℓ} {U : Type κ} → Loaded N T → (T → Loaded N U) → Loaded N U
refused e >>= next = refused e
loaded t >>= next = next t

pub record Config (Network : Type 0) : Type 0 where
  pub listen_addr : String
  pub metrics_addr : String
  pub data_dir : String
  pub public_base_url : String
  pub admin_username : String
  pub admin_password : String
  pub online_threshold : ℤ
  pub rate_limit : ℤ
  pub rate_limit_burst : ℤ
  pub register_limit : ℤ
  pub register_limit_burst : ℤ
  pub max_probes : ℤ
  pub metrics_allowed : List Network
  pub trusted_proxies : List Network
  pub log_level : Level

-- `os.Getenv`; a variable that is not set reads as the empty text.
abbrev pub Environment : Type 0
Environment = String → String

unfoldable pub env_or : Environment → String → String → String
env_or env key default = let v = trim_space (env key) in if not (v == "") then v else default

abbrev pub parsed_or {ℓ} : {N : Type 0} {T : Type ℓ} → ConfigError N → Option T → Loaded N T
parsed_or e none = refused e
parsed_or e (some t) = loaded t

-- `DBPath`.
unfoldable pub db_path : {N : Type 0} → Config N → String
db_path c = String.◌++◌ c.data_dir "/netprobe.db"

module _ (L : ConfigLibrary) where
  abbrev pub LoadedOf {ℓ} : Type ℓ → Type ℓ
  LoadedOf T = Loaded L.Network T

  unfoldable pub duration_env : Environment → String → ℤ → LoadedOf ℤ
  duration_env env key default =
      let raw = trim_space (env key) in
      if raw == ""
      then loaded default
      else parsed_or (invalid_duration key raw) (L.parse_duration raw)

  -- A duration, and the test behind it.
  unfoldable pub positive_env : Environment → String → ℤ → LoadedOf ℤ
  positive_env env key default = do
    d ← duration_env env key default
    if leb_ℤ d (pos 0) then refused (not_positive key d) else loaded d

  -- A number of at least one; the default goes through the parser as well.
  unfoldable pub count_env : Environment → String → String → LoadedOf ℤ
  count_env env key default = do
    n ← parsed_or (not_an_integer key (env_or env key default)) (L.atoi (env_or env key default))
    if ltb_ℤ n (pos 1) then refused (below_one key n) else loaded n

  -- The loop of `parseCIDRs`.
  unfoldable pub parse_parts : List String → LoadedOf (List L.Network)
  parse_parts [] = loaded []
  parse_parts (part ∷ parts) =
      let rest = parse_parts parts in
      if trim_space part == "" then rest else elim (L.parse_cidr (trim_space part)) [
        | none ↦ refused (invalid_cidr (trim_space part))
        | some n ↦ rest >>= (λ out. loaded (n ∷ out))
      ]

  unfoldable pub parse_cidrs : String → LoadedOf (List L.Network)
  parse_cidrs raw = if raw == "" then loaded [] else parse_parts (split_comma raw)

  unfoldable pub is_catch_all : L.Network → Bool
  is_catch_all n = eqb (L.mask_size n).0 0 && not (eqb (L.mask_size n).1 0)

  unfoldable pub refuse_catch_all : List L.Network → LoadedOf (Unit {0})
  refuse_catch_all [] = loaded tt
  refuse_catch_all (n ∷ nets) =
      let rest = refuse_catch_all nets in if is_catch_all n then refused (catch_all n) else rest

  unfoldable pub parse_level : String → LoadedOf Level
  parse_level raw =
      let s = L.to_lower raw in
      if s == "debug"
      then loaded level_debug
      else if s == "info"
      then loaded level_info
      else if s == "warn" || s == "warning"
      then loaded level_warn
      else if s == "error"
      then loaded level_error
      else refused (invalid_level raw)

  unfoldable pub load : Environment → LoadedOf (Config L.Network)
  load env = do
    online ← positive_env env "ONLINE_THRESHOLD" (pos (30 * second))
    rate ← positive_env env "RATE_LIMIT" (pos (5 * second))
    burst ← count_env env "RATE_LIMIT_BURST" "3"
    register ← positive_env env "REGISTER_LIMIT" (pos (60 * minute))
    register_burst ← count_env env "REGISTER_LIMIT_BURST" "3"
    max ← count_env env "MAX_PROBES" "500"
    allowed ← parse_cidrs (env_or env "METRICS_ALLOWED_CIDRS" "")
    proxies ← parse_cidrs (env_or env "TRUSTED_PROXY_CIDRS" "")
    _ ← refuse_catch_all proxies
    level ← parse_level (env_or env "LOG_LEVEL" "info")
    loaded (record {
      listen_addr = env_or env "LISTEN_ADDR" "0.0.0.0:8080";
      metrics_addr = env_or env "METRICS_ADDR" "127.0.0.1:9090";
      data_dir = env_or env "DATA_DIR" "/data";
      public_base_url = env_or env "PUBLIC_BASE_URL" "";
      admin_username = env_or env "ADMIN_USERNAME" "admin";
      admin_password = env_or env "ADMIN_PASSWORD" "";
      online_threshold = online;
      rate_limit = rate;
      rate_limit_burst = burst;
      register_limit = register;
      register_limit_burst = register_burst;
      max_probes = max;
      metrics_allowed = allowed;
      trusted_proxies = proxies;
      log_level = level;
    })
