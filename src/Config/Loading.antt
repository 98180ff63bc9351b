-- ===== src/Config/Loading.antt =====
-- Which environments `Load` accepts, and with which configuration.
use cqu_netprobe_gateway.Prelude.{
  ◌*◌, String, not, ◌==◌, if◌then◌else◌, arith, subst, List, ◌≡◌, ◌↔◌, refl, sym, ap, ◌∙◌,
}
use mathlib.Core.Path.{fun_ext}
use cqu_netprobe_gateway.Prelude.Int.{ℤ, pos}
use cqu_netprobe_gateway.Prelude.Text.Split.{split_comma, trim_space}
use cqu_netprobe_gateway.Prelude.Time.{second, minute}
use cqu_netprobe_gateway.Config.{ConfigLibrary, Level, loaded, Config, Environment, env_or, load}
use cqu_netprobe_gateway.Config.Variables.{
  loaded_inj, >>=-eq-loaded, DurationOf, CountOf, NetworksOf, NoCatchAll, positive_env_sound,
  positive_env_complete, count_env_sound, count_env_complete, parse_cidrs_sound,
  parse_cidrs_complete, refuse_catch_all_sound, refuse_catch_all_complete, LevelOf,
  parse_level_sound, parse_level_complete,
}

module _ (L : ConfigLibrary) where
  -- The settings that are parsed.
  pub record Values : Type 0 where
    pub online : ℤ
    pub rate : ℤ
    pub burst : ℤ
    pub register : ℤ
    pub register_burst : ℤ
    pub max : ℤ
    pub allowed : List L.Network
    pub proxies : List L.Network
    pub level : Level

  -- What a variable says: its text without the space around it, or the default where it is blank.
  abbrev pub said : Environment → String → String → String
  said env key default = let text = trim_space (env key) in if text == "" then default else text

  -- Each value is what its variable says, and within its bounds; a text is read by `read`.
  pub record IsWritten (env : Environment) (read : String → String → String) (v : Values)
      : Type 0 where
    pub online_written : DurationOf L env "ONLINE_THRESHOLD" (pos (30 * second)) v.online
    pub rate_written : DurationOf L env "RATE_LIMIT" (pos (5 * second)) v.rate
    pub burst_written : CountOf L (read "RATE_LIMIT_BURST" "3") v.burst
    pub register_written : DurationOf L env "REGISTER_LIMIT" (pos (60 * minute)) v.register
    pub register_burst_written : CountOf L (read "REGISTER_LIMIT_BURST" "3") v.register_burst
    pub max_written : CountOf L (read "MAX_PROBES" "500") v.max
    pub allowed_written : NetworksOf L (split_comma (read "METRICS_ALLOWED_CIDRS" "")) v.allowed
    pub proxies_written : NetworksOf L (split_comma (read "TRUSTED_PROXY_CIDRS" "")) v.proxies
    pub no_catch_all : NoCatchAll L v.proxies
    pub level_written : LevelOf L (L.to_lower (read "LOG_LEVEL" "info")) v.level

  pub config_of : (String → String → String) → Values → Config L.Network
  config_of read v = record {
    listen_addr = read "LISTEN_ADDR" "0.0.0.0:8080";
    metrics_addr = read "METRICS_ADDR" "127.0.0.1:9090";
    data_dir = read "DATA_DIR" "/data";
    public_base_url = read "PUBLIC_BASE_URL" "";
    admin_username = read "ADMIN_USERNAME" "admin";
    admin_password = read "ADMIN_PASSWORD" "";
    online_threshold = v.online;
    rate_limit = v.rate;
    rate_limit_burst = v.burst;
    register_limit = v.register;
    register_limit_burst = v.register_burst;
    max_probes = v.max;
    metrics_allowed = v.allowed;
    trusted_proxies = v.proxies;
    log_level = v.level;
  }

  load_sound :
      (env : Environment) (cfg : Config L.Network)
      → load L env ≡ loaded cfg
      → (v : Values) × IsWritten env (env_or env) v × (cfg ≡ config_of (env_or env) v)
  unfolding load config_of
  load_sound env cfg h =
      let (online, a, h₁) = >>=-eq-loaded _ _ cfg h in
      let (rate, b, h₂) = >>=-eq-loaded _ _ cfg h₁ in
      let (burst, c, h₃) = >>=-eq-loaded _ _ cfg h₂ in
      let (register, d, h₄) = >>=-eq-loaded _ _ cfg h₃ in
      let (register_burst, e, h₅) = >>=-eq-loaded _ _ cfg h₄ in
      let (max, f, h₆) = >>=-eq-loaded _ _ cfg h₅ in
      let (allowed, g, h₇) = >>=-eq-loaded _ _ cfg h₆ in
      let (proxies, i, h₈) = >>=-eq-loaded _ _ cfg h₇ in
      let (u, j, h₉) = >>=-eq-loaded _ _ cfg h₈ in
      let (level, k, at) = >>=-eq-loaded _ _ cfg h₉ in
      (
        record {
          online = online;
          rate = rate;
          burst = burst;
          register = register;
          register_burst = register_burst;
          max = max;
          allowed = allowed;
          proxies = proxies;
          level = level;
        },
        record {
          online_written = positive_env_sound L env _ _ online a;
          rate_written = positive_env_sound L env _ _ rate b;
          burst_written = count_env_sound L env _ _ burst c;
          register_written = positive_env_sound L env _ _ register d;
          register_burst_written = count_env_sound L env _ _ register_burst e;
          max_written = count_env_sound L env _ _ max f;
          allowed_written = parse_cidrs_sound L _ allowed g;
          proxies_written = parse_cidrs_sound L _ proxies i;
          no_catch_all = refuse_catch_all_sound L proxies j;
          level_written = parse_level_sound L (env_or env "LOG_LEVEL" "info") level k;
        },
        sym (loaded_inj at),
      )

  load_complete :
      (env : Environment) (v : Values)
      → IsWritten env (env_or env) v
      → load L env ≡ loaded (config_of (env_or env) v)
  unfolding load config_of
  load_complete env v w =
      rw
        (
          positive_env_complete L env "ONLINE_THRESHOLD" (pos (30 * second)) v.online
              w.online_written,
          positive_env_complete L env "RATE_LIMIT" (pos (5 * second)) v.rate w.rate_written,
          count_env_complete L env "RATE_LIMIT_BURST" "3" v.burst w.burst_written,
          positive_env_complete L env "REGISTER_LIMIT" (pos (60 * minute)) v.register
              w.register_written,
          count_env_complete L env "REGISTER_LIMIT_BURST" "3" v.register_burst
              w.register_burst_written,
          count_env_complete L env "MAX_PROBES" "500" v.max w.max_written,
          parse_cidrs_complete L (env_or env "METRICS_ALLOWED_CIDRS" "") v.allowed
              w.allowed_written,
          parse_cidrs_complete L (env_or env "TRUSTED_PROXY_CIDRS" "") v.proxies w.proxies_written,
          refuse_catch_all_complete L v.proxies w.no_catch_all,
          parse_level_complete L (env_or env "LOG_LEVEL" "info") v.level w.level_written,
        )
        refl

  env_or-said : (env : Environment) → env_or env ≡ said env
  unfolding env_or
  env_or-said env = fun_ext (λ key. fun_ext (λ default. by_text (trim_space (env key)) default))
    where
      by_text :
          (text default : String)
          → (if not (text == "") then text else default) ≡ (if text == "" then default else text)
      by_text text default = ground arith

  -- `Load` succeeds exactly where every variable is blank or well formed and within its bounds, and no
  -- trusted proxy network is a catch-all; a setting is then what its variable says, without the space
  -- around it, and its default where the variable is blank.
  pub load_iff :
      (env : Environment) (cfg : Config L.Network)
      → (load L env ≡ loaded cfg)
        ↔ ((v : Values) × IsWritten env (said env) v × (cfg ≡ config_of (said env) v))
  load_iff env cfg =
      subst
        (λ read.
          (load L env ≡ loaded cfg)
          ↔ ((v : Values) × IsWritten env read v × (cfg ≡ config_of read v)))
        (env_or-said env)
        (load_sound env cfg, λ (v, w, at). load_complete env v w ∙ ap loaded (sym at))
