-- ===== src/Config/Variables.antt =====
-- What one variable of the environment is read as.
use cqu_netprobe_gateway.Prelude.{
  ◌||◌, ◌↔◌, String, Bool, true, false, Option, none, some, List, [], ◌∷◌, ◌≡◌, ◌≢◌, ◌⊎◌, refl, sym,
  ap, subst, ◌∙◌, inl, inr, arith, Bool-cases, Option-cases, ◌==◌, eq_iff, if◌then◌else◌,
}
use cqu_netprobe_gateway.Prelude.Int.{ℤ, pos, leb_ℤ, ltb_ℤ, ◌<ℤ◌, ◌≤ℤ◌}
use cqu_netprobe_gateway.Prelude.Text.Split.{split_comma, trim_space}
use cqu_netprobe_gateway.Config.{
  Level, level_debug, level_info, level_warn, level_error, parse_level, ConfigLibrary, ConfigError,
  Loaded, refused, loaded, ◌>>=◌, Environment, not_positive, below_one, invalid_duration,
  not_an_integer, env_or, parsed_or, duration_env, positive_env, count_env, parse_parts,
  parse_cidrs, is_catch_all, refuse_catch_all,
}

pub loaded_inj : {N T : Type 0} {a b : T} → ◌≡◌ {A = Loaded N T} (loaded a) (loaded b) → a ≡ b
loaded_inj h = ground (arith, h)

pub >>=-eq-loaded :
    {N T U : Type 0} (first : Loaded N T) (next : T → Loaded N U) (last : U)
    → (first >>= next) ≡ loaded last
    → (t : T) × (first ≡ loaded t) × (next t ≡ loaded last)
>>=-eq-loaded (refused e) next last h = absurd (ground (arith, h))
>>=-eq-loaded (loaded t) next last h = (t, refl, h)

unless-loaded :
    {N T : Type 0} (b : Bool) (e : ConfigError N) (t u : T)
    → ◌≡◌ {A = Loaded N T} (if b then refused e else loaded t) (loaded u)
    → (b ≡ false) × (t ≡ u)
unless-loaded true e t u h = absurd (ground (arith, h))
unless-loaded false e t u h = (refl, loaded_inj h)

unless_false :
    {N T : Type 0} (b : Bool) (e : ConfigError N) (t : T)
    → b ≡ false
    → ◌≡◌ {A = Loaded N T} (if b then refused e else loaded t) (loaded t)
unless_false true e t h = absurd (ground (arith, h))
unless_false false e t h = refl

is_named : (s : String) → s ≢ "" → (s == "") ≡ false
is_named s ne = ground (arith, ne, eq_iff s "")

module _ (L : ConfigLibrary) where
  -- The variable's own duration, or the default where the variable is blank, and above zero.
  pub record DurationOf (env : Environment) (key : String) (default : ℤ) (d : ℤ) : Type 0 where
    pub written :
        ((trim_space (env key) ≡ "") × (d ≡ default))
        ⊎ ((trim_space (env key) ≢ "") × (L.parse_duration (trim_space (env key)) ≡ some d))
    pub above_zero : pos 0 <ℤ d

  -- A text that is a number of at least one.
  pub record CountOf (text : String) (n : ℤ) : Type 0 where
    pub written : L.atoi text ≡ some n
    pub at_least_one : pos 1 ≤ℤ n

  -- The networks of a list, where every entry that is not blank is one.
  pub data NetworksOf : List String → List L.Network → Type 0 where
    no_more : NetworksOf [] []
    blank :
        (part : String) (parts : List String) (nets : List L.Network)
        → trim_space part ≡ ""
        → NetworksOf parts nets
        → NetworksOf (part ∷ parts) nets
    named :
        (part : String) (parts : List String) (n : L.Network) (nets : List L.Network)
        → trim_space part ≢ ""
        → L.parse_cidr (trim_space part) ≡ some n
        → NetworksOf parts nets
        → NetworksOf (part ∷ parts) (n ∷ nets)

  pub NoCatchAll : List L.Network → Type 0
  NoCatchAll [] = Unit {0}
  NoCatchAll (n ∷ nets) = (((L.mask_size n).0 ≢ 0) ⊎ ((L.mask_size n).1 ≡ 0)) × NoCatchAll nets

  not_catch_all_iff :
      (n : L.Network)
      → (is_catch_all L n ≡ false) ↔ (((L.mask_size n).0 ≢ 0) ⊎ ((L.mask_size n).1 ≡ 0))
  unfolding is_catch_all
  not_catch_all_iff n = ground arith

  parsed_or-loaded :
      {T : Type 0} (e : ConfigError L.Network) (o : Option T) (t : T)
      → parsed_or e o ≡ loaded t
      → o ≡ some t
  parsed_or-loaded e none t h = absurd (ground (arith, h))
  parsed_or-loaded e (some u) t h = ap some (loaded_inj h)

  Written : Environment → String → ℤ → ℤ → Type 0
  Written env key default d =
      ((trim_space (env key) ≡ "") × (d ≡ default))
      ⊎ ((trim_space (env key) ≢ "") × (L.parse_duration (trim_space (env key)) ≡ some d))

  duration_env_sound :
      (env : Environment) (key : String) (default d : ℤ)
      → duration_env L env key default ≡ loaded d
      → Written env key default d
  unfolding duration_env Written
  duration_env_sound env key default d h = elim (Bool-cases (trim_space (env key) == "")) [
    | inl e ↦ inl ((eq_iff (trim_space (env key)) "").0 e, sym (loaded_inj (rw e at h)))
    | inr e ↦ inr (
      ground (arith, e, eq_iff (trim_space (env key)) ""),
      parsed_or-loaded (invalid_duration key (trim_space (env key)))
          (L.parse_duration (trim_space (env key))) d (rw e at h),
    )
  ]

  duration_env_complete :
      (env : Environment) (key : String) (default d : ℤ)
      → Written env key default d
      → duration_env L env key default ≡ loaded d
  unfolding duration_env Written
  duration_env_complete env key default d (inl (e, at)) =
      rw ((eq_iff (trim_space (env key)) "").1 e) (ap loaded (sym at))
  duration_env_complete env key default d (inr (ne, at)) =
      rw (is_named (trim_space (env key)) ne, at) refl

  pub positive_env_sound :
      (env : Environment) (key : String) (default d : ℤ)
      → positive_env L env key default ≡ loaded d
      → DurationOf env key default d
  unfolding positive_env Written
  positive_env_sound env key default d h = above (duration_env L env key default) refl h
    where
      above :
          (x : Loaded L.Network ℤ)
          → duration_env L env key default ≡ x
          → (x >>= (λ d. if leb_ℤ d (pos 0) then refused (not_positive key d) else loaded d))
            ≡ loaded d
          → DurationOf env key default d
      above (refused e) g u = absurd (ground (arith, u))
      above (loaded v) g u =
          let (low, at) = unless-loaded (leb_ℤ v (pos 0)) (not_positive key v) v d u in
          record {
            written = duration_env_sound env key default d (g ∙ ap loaded at);
            above_zero = subst (λ x. pos 0 <ℤ x) at (ground (arith, low));
          }

  pub positive_env_complete :
      (env : Environment) (key : String) (default d : ℤ)
      → DurationOf env key default d
      → positive_env L env key default ≡ loaded d
  unfolding positive_env Written
  positive_env_complete env key default d w =
      rw (duration_env_complete env key default d w.written)
        (unless_false (leb_ℤ d (pos 0)) (not_positive key d) d (ground (arith, w.above_zero)))

  pub count_env_sound :
      (env : Environment) (key default : String) (n : ℤ)
      → count_env L env key default ≡ loaded n
      → CountOf (env_or env key default) n
  unfolding count_env
  count_env_sound env key default n h = counted (L.atoi (env_or env key default)) refl h
    where
      counted :
          (o : Option ℤ)
          → L.atoi (env_or env key default) ≡ o
          → ◌>>=◌ {N = L.Network}
              (parsed_or (not_an_integer key (env_or env key default)) o)
              (λ n. if ltb_ℤ n (pos 1) then refused (below_one key n) else loaded n)
            ≡ loaded n
          → CountOf (env_or env key default) n
      counted none g u = absurd (ground (arith, u))
      counted (some v) g u =
          let (low, at) = unless-loaded (ltb_ℤ v (pos 1)) (below_one key v) v n u in
          record {
            written = g ∙ ap some at;
            at_least_one = subst (λ x. pos 1 ≤ℤ x) at (ground (arith, low));
          }

  pub count_env_complete :
      (env : Environment) (key default : String) (n : ℤ)
      → CountOf (env_or env key default) n
      → count_env L env key default ≡ loaded n
  unfolding count_env
  count_env_complete env key default n w =
      rw w.written
        (unless_false (ltb_ℤ n (pos 1)) (below_one key n) n (ground (arith, w.at_least_one)))

  pub parse_parts_sound :
      (parts : List String) (nets : List L.Network)
      → parse_parts L parts ≡ loaded nets
      → NetworksOf parts nets
  unfolding parse_parts
  parse_parts_sound [] [] h = no_more
  parse_parts_sound [] (n ∷ nets) h = absurd (ground (arith, h))
  parse_parts_sound (part ∷ parts) nets h = elim (Bool-cases (trim_space part == "")) [
    | inl e ↦
        blank part parts nets ((eq_iff (trim_space part) "").0 e)
          (parse_parts_sound parts nets (rw e at h))
    | inr e ↦ elim (Option-cases (L.parse_cidr (trim_space part))) [
      | inl q ↦ absurd (ground (arith, rw (e, q) at h))
      | inr (n, q) ↦
          let (rest, r, u) =
            >>=-eq-loaded (parse_parts L parts) (λ out. loaded (n ∷ out)) nets (rw (e, q) at h) in
          subst (NetworksOf (part ∷ parts)) (loaded_inj u)
            (named part parts n rest (not_blank e) q (parse_parts_sound parts rest r))
    ]
  ]
    where
      not_blank : (trim_space part == "") ≡ false → trim_space part ≢ ""
      not_blank e = ground (arith, e, eq_iff (trim_space part) "")

  pub parse_parts_complete :
      (parts : List String) (nets : List L.Network)
      → NetworksOf parts nets
      → parse_parts L parts ≡ loaded nets
  unfolding parse_parts
  parse_parts_complete parts nets no_more = refl
  parse_parts_complete all nets (blank part parts nets' e w) =
      rw ((eq_iff (trim_space part) "").1 e) (parse_parts_complete parts nets' w)
  parse_parts_complete all all_nets (named part parts n nets ne e w) =
      rw (is_named (trim_space part) ne, e, parse_parts_complete parts nets w) refl

  no_text_networks : NetworksOf (split_comma "") []
  unfolding split_comma trim_space
  no_text_networks = blank "" [] [] refl no_more

  no_text_none :
      (nets : List L.Network)
      → NetworksOf (split_comma "") nets
      → ◌≡◌ {A = Loaded L.Network (List L.Network)} (loaded []) (loaded nets)
  unfolding split_comma trim_space parse_parts
  no_text_none nets u = parse_parts_complete (split_comma "") nets u

  -- `parseCIDRs`; the empty text is a list of one blank entry.
  pub parse_cidrs_sound :
      (raw : String) (nets : List L.Network)
      → parse_cidrs L raw ≡ loaded nets
      → NetworksOf (split_comma raw) nets
  unfolding parse_cidrs
  parse_cidrs_sound raw nets h = elim (Bool-cases (raw == "")) [
    | inl e ↦
        subst (λ r. NetworksOf (split_comma r) nets) (sym ((eq_iff raw "").0 e))
          (subst (NetworksOf (split_comma "")) (loaded_inj (rw e at h)) no_text_networks)
    | inr e ↦ parse_parts_sound (split_comma raw) nets (rw e at h)
  ]

  pub parse_cidrs_complete :
      (raw : String) (nets : List L.Network)
      → NetworksOf (split_comma raw) nets
      → parse_cidrs L raw ≡ loaded nets
  unfolding parse_cidrs
  parse_cidrs_complete raw nets w = elim (Bool-cases (raw == "")) [
    | inl e ↦
        rw e
          (no_text_none nets (subst (λ r. NetworksOf (split_comma r) nets) ((eq_iff raw "").0 e) w))
    | inr e ↦ rw e (parse_parts_complete (split_comma raw) nets w)
  ]

  pub refuse_catch_all_sound :
      (nets : List L.Network) → refuse_catch_all L nets ≡ loaded tt → NoCatchAll nets
  unfolding refuse_catch_all NoCatchAll
  refuse_catch_all_sound [] h = tt
  refuse_catch_all_sound (n ∷ nets) h = elim (Bool-cases (is_catch_all L n)) [
    | inl e ↦ absurd (ground (arith, rw e at h))
    | inr e ↦ ((not_catch_all_iff n).0 e, refuse_catch_all_sound nets (rw e at h))
  ]

  pub refuse_catch_all_complete :
      (nets : List L.Network) → NoCatchAll nets → refuse_catch_all L nets ≡ loaded tt
  unfolding refuse_catch_all NoCatchAll
  refuse_catch_all_complete [] w = refl
  refuse_catch_all_complete (n ∷ nets) w =
      rw ((not_catch_all_iff n).1 w.0) (refuse_catch_all_complete nets w.1)

  -- The names of the levels, in lower case.
  abbrev pub LevelOf : String → Level → Type 0
  LevelOf s level_debug = s ≡ "debug"
  LevelOf s level_info = s ≡ "info"
  LevelOf s level_warn = (s ≡ "warn") ⊎ (s ≡ "warning")
  LevelOf s level_error = s ≡ "error"

  pub parse_level_sound :
      (raw : String) (level : Level)
      → parse_level L raw ≡ loaded level
      → LevelOf (L.to_lower raw) level
  unfolding parse_level
  parse_level_sound raw level h = elim (Bool-cases (L.to_lower raw == "debug")) [
    | inl a ↦
        subst (LevelOf (L.to_lower raw)) (loaded_inj (rw a at h))
          ((eq_iff (L.to_lower raw) "debug").0 a)
    | inr a ↦ elim (Bool-cases (L.to_lower raw == "info")) [
      | inl b ↦
          subst (LevelOf (L.to_lower raw)) (loaded_inj (rw (a, b) at h))
            ((eq_iff (L.to_lower raw) "info").0 b)
      | inr b ↦ elim (Bool-cases (L.to_lower raw == "warn" || L.to_lower raw == "warning")) [
        | inl c ↦
            subst (LevelOf (L.to_lower raw)) (loaded_inj (rw (a, b, c) at h))
              (ground (arith, c, eq_iff (L.to_lower raw) "warn", eq_iff (L.to_lower raw) "warning"))
        | inr c ↦ elim (Bool-cases (L.to_lower raw == "error")) [
          | inl d ↦
              subst (LevelOf (L.to_lower raw)) (loaded_inj (rw (a, b, c, d) at h))
                ((eq_iff (L.to_lower raw) "error").0 d)
          | inr d ↦ absurd (ground (arith, rw (a, b, c, d) at h))
        ]
      ]
    ]
  ]

  pub parse_level_complete :
      (raw : String) (level : Level)
      → LevelOf (L.to_lower raw) level
      → parse_level L raw ≡ loaded level
  unfolding parse_level
  parse_level_complete raw level_debug h = rw h refl
  parse_level_complete raw level_info h = rw h refl
  parse_level_complete raw level_warn (inl h) = rw h refl
  parse_level_complete raw level_warn (inr h) = rw h refl
  parse_level_complete raw level_error h = rw h refl
