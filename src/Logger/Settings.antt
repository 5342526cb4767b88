-- ===== src/Logger/Settings.antt =====
-- What the level, the output and the format of a configuration of internal/logger/logger.go stand for.
use submitter_smtp_daemon.Logger.{
  Config, output_of, Level, Zerolog, parse_level, debug_level, info_level, warn_level, error_level,
}
use submitter_smtp_daemon.Prelude.{
  Option-cases, none, some, Bool-cases, arith, false, inl, inr, text_eq, text_eq_iff, Text, refl,
  txt, ◌≡◌, ◌≢◌, ◌⊎◌,
}

-- The level that a text of the configuration stands for, without the order of the tests.
abbrev pub Names : Text → Level → Type 0
Names t level =
    ((t ≡ txt "debug") × (level ≡ debug_level))
    ⊎ ((t ≡ txt "info") × (level ≡ info_level))
    ⊎ ((t ≡ txt "warn") × (level ≡ warn_level))
    ⊎ ((t ≡ txt "error") × (level ≡ error_level))
    ⊎ (t ≢ txt "debug")
      × (t ≢ txt "info")
      × (t ≢ txt "warn")
      × (t ≢ txt "error")
      × (level ≡ info_level)

differs : (s t : Text) → text_eq s t ≡ false → s ≢ t
differs s t h e = ground (arith, text_eq_iff s t)

pub parse_level-Names : (t : Text) → Names t (parse_level t)
unfolding parse_level
parse_level-Names t = elim (Bool-cases (text_eq t (txt "debug"))) [
  | inl d ↦ rw d (inl ((text_eq_iff t (txt "debug")).0 d, refl))
  | inr nd ↦ elim (Bool-cases (text_eq t (txt "info"))) [
    | inl i ↦ rw (nd, i) (inr (inl ((text_eq_iff t (txt "info")).0 i, refl)))
    | inr ni ↦ elim (Bool-cases (text_eq t (txt "warn"))) [
      | inl w ↦ rw (nd, ni, w) (inr (inr (inl ((text_eq_iff t (txt "warn")).0 w, refl))))
      | inr nw ↦ elim (Bool-cases (text_eq t (txt "error"))) [
        | inl e ↦
            rw (nd, ni, nw, e) (inr (inr (inr (inl ((text_eq_iff t (txt "error")).0 e, refl)))))
        | inr ne ↦
            rw (nd, ni, nw, ne)
              (inr (
                inr (
                  inr
                    (inr (differs t _ nd, differs t _ ni, differs t _ nw, differs t _ ne, refl)))))
      ]
    ]
  ]
]

module _ {W L : Type 0} (z : Zerolog W L) where
  -- The configured output, standard output if there is none.
  abbrev pub IsOutput : Config W → W → Type 0
  IsOutput cfg w = (cfg.output ≡ some w) ⊎ (cfg.output ≡ none) × (w ≡ z.stdout)

  -- Where the lines go: through a console writer for the format console, else directly.
  abbrev pub IsWriter : Config W → W → Type 0
  IsWriter cfg w =
      (cfg.format ≡ txt "console") × ((out : W) × IsOutput cfg out × (w ≡ z.console_writer out))
      ⊎ (cfg.format ≢ txt "console") × IsOutput cfg w

  pub output_of-IsWriter : (cfg : Config W) → IsWriter cfg (output_of z cfg)
  unfolding output_of
  output_of-IsWriter cfg = elim (Bool-cases (text_eq cfg.format (txt "console"))) [
    | inl console ↦ elim (Option-cases cfg.output) [
      | inl unset ↦
          rw (console, unset)
            (inl (
              (text_eq_iff cfg.format (txt "console")).0 console,
              (z.stdout, inr (refl, refl), refl),
            ))
      | inr (w, set) ↦
          rw (console, set)
            (inl ((text_eq_iff cfg.format (txt "console")).0 console, (w, inl refl, refl)))
    ]
    | inr plain ↦ elim (Option-cases cfg.output) [
      | inl unset ↦ rw (plain, unset) (inr (differs cfg.format _ plain, inr (refl, refl)))
      | inr (w, set) ↦ rw (plain, set) (inr (differs cfg.format _ plain, inl refl))
    ]
  ]
