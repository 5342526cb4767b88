-- ===== src/Config/Validity.antt =====
-- What `Load` of internal/config/config.go returns.
use submitter_smtp_daemon.Config.Requirements.{IsValid, is_empty_of, not_empty, validate_lem}
use mathlib.Core.Path.{subst}
use submitter_smtp_daemon.Config.Types.{Config}
use submitter_smtp_daemon.Config.Loading.{
  override, override_list, override_int, override_bool, override_redis_auth, override_s3, validated,
  Environment, apply_env_overrides, load, loaded, is_empty, validate, validate_rest,
  check_listeners,
}
use submitter_smtp_daemon.Config.Overrides.{IsOverridden, apply_env_overrides_iff}
use submitter_smtp_daemon.Config.Defaults.{default_config}
use submitter_smtp_daemon.Prelude.{
  text_eq, ap, sym, Option, Option-cases, some, Bool-cases, inl, inr, List, Text, [], arith, none,
  refl, true, txt, ℕ, ◌↔◌, ◌∷◌, ◌≡◌, ◌≢◌, ◌⊎◌,
}

defaults_pass : validate default_config ≡ none
unfolding validate validate_rest check_listeners default_config text_eq txt
defaults_pass = refl

is_empty-eq : {A : Type 0} (xs : List A) → is_empty xs ≡ true → xs ≡ []
is_empty-eq [] h = refl
is_empty-eq (x ∷ xs) h = cc

accepted : (c d : Config) → validated c ≡ loaded d → (d ≡ c) × IsValid d
unfolding validated
accepted c d h = elim (Option-cases (validate c)) [
  | inl fine ↦ let e : d ≡ c = ground arith in (e, subst IsValid (sym e) ((validate_lem c).0 fine))
  | inr (p, broken) ↦ absurd (ground arith)
]

accepts : (c d : Config) → d ≡ c → IsValid d → validated c ≡ loaded d
unfolding validated
accepts c d e v =
    let fine : validate c ≡ none = subst (λ x. validate x ≡ none) e ((validate_lem d).1 v) in
    rw (fine, validated) (ap loaded (sym e))

module _ (unmarshal : List ℕ → Config → Option Config) (env : Environment) (file : Option (List ℕ))
    (path : Text) where
  -- The configuration before the environment: the defaults, or what the decoder makes of the file.
  abbrev pub IsBase : Config → Type 0
  IsBase base =
      (path ≡ []) × (base ≡ default_config)
      ⊎ (path ≢ [])
        × ((bytes : List ℕ) × (file ≡ some bytes) × (unmarshal bytes default_config ≡ some base))

  -- What `Load` may return.
  abbrev pub IsLoaded : Config → Type 0
  IsLoaded c = (base : Config) × IsBase base × IsOverridden env base c × IsValid c

  load-IsLoaded : (c : Config) → load unmarshal env file path ≡ loaded c → IsLoaded c
  unfolding load
  load-IsLoaded c h = elim (Bool-cases (is_empty path)) [
    | inl none_given ↦
        let (e, v) = accepted (apply_env_overrides env default_config) c (rw none_given at h) in
        (
          default_config,
          inl (is_empty-eq path none_given, refl),
          (apply_env_overrides_iff env default_config c).0 e,
          v,
        )
    | inr given ↦ elim (Option-cases file) [
      | inl lost ↦ absurd (cc (rw (given, lost) at h))
      | inr (bytes, held) ↦ elim (Option-cases (unmarshal bytes default_config)) [
        | inl garbled ↦ absurd (cc (rw (given, held, garbled) at h))
        | inr (base, decoded) ↦
            let (e, v) =
              accepted (apply_env_overrides env base) c (rw (given, held, decoded) at h) in
            (
              base,
              inr (not_empty path given, (bytes, held, decoded)),
              (apply_env_overrides_iff env base c).0 e,
              v,
            )
      ]
    ]
  ]

  IsLoaded-load : (c : Config) → IsLoaded c → load unmarshal env file path ≡ loaded c
  unfolding load
  IsLoaded-load c (base, inl (p, b), e, v) =
      let applied : c ≡ apply_env_overrides env default_config =
        rw b at ((apply_env_overrides_iff env base c).1 e) in
      rw p (accepts _ c applied v)
  IsLoaded-load c (base, inr (p, (bytes, held, decoded)), e, v) =
      rw (is_empty_of path p, held, decoded)
        (accepts _ c ((apply_env_overrides_iff env base c).1 e) v)

  defaults_load : load unmarshal (λ key. []) file [] ≡ loaded default_config
  unfolding load validated validate validate_rest check_listeners apply_env_overrides override
      override_list override_int override_bool override_redis_auth override_s3 default_config
      text_eq txt
  defaults_load = refl

  -- Load returns a configuration exactly if it is the defaults, or without an error the file decoded
  -- over the defaults, but for the fields of the sixteen variables OUTBOUND_..., each of which
  -- decides its own field if it is set and, for the number, is one, and if it meets all the
  -- requirements; in every other case it returns an error. Without a path and without variables it
  -- returns the defaults, which meet the requirements.
  pub load_lem :
      (c : Config)
      → ((load unmarshal env file path ≡ loaded c) ↔ IsLoaded c)
        × (load unmarshal (λ key. []) file [] ≡ loaded default_config)
        × IsValid default_config
  load_lem c = (
    (load-IsLoaded c, IsLoaded-load c),
    defaults_load,
    (validate_lem default_config).0 defaults_pass,
  )
