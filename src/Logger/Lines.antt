-- ===== src/Logger/Lines.antt =====
-- Which lines the loggers of internal/logger/logger.go write.
use submitter_smtp_daemon.Logger.Settings.{IsWriter, Names, output_of-IsWriter, parse_level-Names}
use submitter_smtp_daemon.Logger.{
  Config, new, output_of, Global, Level, Line, Zerolog, debug, error, fatal, info, parse_level,
  warn, with_client_ip, with_component, with_error, with_fields, with_message_id, with_recipient,
  with_request_id, with_session_id, with_stage, with_user, debug_level, info_level, warn_level,
  error_level, fatal_level,
}
use submitter_smtp_daemon.Prelude.{
  if◌then◌else◌, leb, leb→le, Bool-cases, arith, inl, inr, List, Text, [], ap, append_assoc,
  append_nil, refl, sym, txt, ℕ, ◌++◌, ◌<◌, ◌∙◌, ◌∷◌, ◌≡◌, ◌≤◌,
}

-- debug, info, warn, error, fatal, in the order of zerolog.
abbrev pub severity : Level → ℕ
severity debug_level = 0
severity info_level = 1
severity warn_level = 2
severity error_level = 3
severity fatal_level = 4

-- What zerolog documents: a logger has a writer and a context, to whose end the calls add, and an
-- event is written with them unless its level is below the global one.
pub record IsZerolog {W L : Type 0} (z : Zerolog W L) : Type 0 where
  pub writer : L → W
  pub context : L → List (Text × Text)
  pub writer-fresh : (w : W) → writer (z.caller (z.timestamp (z.fresh w))) ≡ w
  pub context-fresh : (w : W) → context (z.caller (z.timestamp (z.fresh w))) ≡ []
  pub writer-str : (k v : Text) (l : L) → writer (z.str k v l) ≡ writer l
  pub context-str : (k v : Text) (l : L) → context (z.str k v l) ≡ context l ++ (k, v) ∷ []
  pub writer-err : (e : Text) (l : L) → writer (z.err e l) ≡ writer l
  pub context-err : (e : Text) (l : L) → context (z.err e l) ≡ context l ++ (txt "error", e) ∷ []
  pub writer-fields : (fs : List (Text × Text)) (l : L) → writer (z.fields fs l) ≡ writer l
  pub context-fields : (fs : List (Text × Text)) (l : L) → context (z.fields fs l) ≡ context l ++ fs
  pub msg-written :
      (g level : Level) (message : Text) (l : L)
      → severity g ≤ severity level
      → z.msg g level message l
        ≡ record { writer = writer l; level = level; context = context l; message = message } ∷ []
  pub msg-dropped :
      (g level : Level) (message : Text) (l : L)
      → severity level < severity g
      → z.msg g level message l ≡ []

-- The calls that derive a logger.
pub data With : Type 0 where
  request_id session_id message_id user client_ip component stage recipient failure : Text → With
  several : List (Text × Text) → With

-- The fields that each of them adds.
abbrev pub added : With → List (Text × Text)
added (request_id v) = (txt "request_id", v) ∷ []
added (session_id v) = (txt "session_id", v) ∷ []
added (message_id v) = (txt "msg_id", v) ∷ []
added (user v) = (txt "user", v) ∷ []
added (client_ip v) = (txt "client_ip", v) ∷ []
added (component v) = (txt "component", v) ∷ []
added (stage v) = (txt "stage", v) ∷ []
added (recipient v) = (txt "recipient", v) ∷ []
added (failure v) = (txt "error", v) ∷ []
added (several fs) = fs

abbrev pub all_added : List With → List (Text × Text)
all_added [] = []
all_added (x ∷ xs) = added x ++ all_added xs

module _ {W L : Type 0} (z : Zerolog W L) where
  unfoldable pub derive : With → L → L
  unfolding with_request_id with_session_id with_message_id with_user with_client_ip with_component
      with_stage with_recipient with_error with_fields
  derive (request_id v) = with_request_id z v
  derive (session_id v) = with_session_id z v
  derive (message_id v) = with_message_id z v
  derive (user v) = with_user z v
  derive (client_ip v) = with_client_ip z v
  derive (component v) = with_component z v
  derive (stage v) = with_stage z v
  derive (recipient v) = with_recipient z v
  derive (failure v) = with_error z v
  derive (several fs) = with_fields z fs

  unfoldable pub derive_all : List With → L → L
  unfolding derive
  derive_all [] l = l
  derive_all (x ∷ xs) l = derive_all xs (derive x l)

  -- The five methods that write.
  unfoldable pub write : Level → Global L → Text → L → List (Line W)
  unfolding debug info warn error fatal
  write debug_level = debug z
  write info_level = info z
  write warn_level = warn z
  write error_level = error z
  write fatal_level = fatal z

  module _ (laws : IsZerolog z) where
    derive_lem :
        (x : With) (l : L)
        → (laws.context (derive x l) ≡ laws.context l ++ added x)
          × (laws.writer (derive x l) ≡ laws.writer l)
    unfolding derive
    derive_lem (request_id v) l = (laws.context-str _ v l, laws.writer-str _ v l)
    derive_lem (session_id v) l = (laws.context-str _ v l, laws.writer-str _ v l)
    derive_lem (message_id v) l = (laws.context-str _ v l, laws.writer-str _ v l)
    derive_lem (user v) l = (laws.context-str _ v l, laws.writer-str _ v l)
    derive_lem (client_ip v) l = (laws.context-str _ v l, laws.writer-str _ v l)
    derive_lem (component v) l = (laws.context-str _ v l, laws.writer-str _ v l)
    derive_lem (stage v) l = (laws.context-str _ v l, laws.writer-str _ v l)
    derive_lem (recipient v) l = (laws.context-str _ v l, laws.writer-str _ v l)
    derive_lem (failure v) l = (laws.context-err v l, laws.writer-err v l)
    derive_lem (several fs) l = (laws.context-fields fs l, laws.writer-fields fs l)

    derive_all_lem :
        (xs : List With) (l : L)
        → (laws.context (derive_all xs l) ≡ laws.context l ++ all_added xs)
          × (laws.writer (derive_all xs l) ≡ laws.writer l)
    unfolding derive_all
    derive_all_lem [] l = (sym (append_nil (laws.context l)), refl)
    derive_all_lem (x ∷ xs) l =
        let (c1, w1) = derive_lem x l in
        let (c2, w2) = derive_all_lem xs (derive x l) in
        (
          c2
              ∙ ap (λ c. c ++ all_added xs) c1
              ∙ sym (append_assoc (laws.context l) (added x) (all_added xs)),
          w2 ∙ w1,
        )

    write_lem :
        (level : Level) (g : Global L) (message : Text) (l : L)
        → write level g message l ≡ z.msg g.level level message l
    unfolding write
    write_lem debug_level g message l = refl
    write_lem info_level g message l = refl
    write_lem warn_level g message l = refl
    write_lem error_level g message l = refl
    write_lem fatal_level g message l = refl

    -- With a zerolog that does what it documents: after New, a logger that any chain of With calls
    -- has derived from the one it returned writes a message exactly if the level of the message is
    -- no lower than the level that the configuration names, info where it names none of the four.
    -- It writes one line, to the configured output or standard output, through a console writer if
    -- the format is console, with the fields of the chain in their order.
    pub new_lem :
        (cfg : Config W) (xs : List With) (level : Level) (message : Text)
        → (threshold : Level) × Names cfg.level threshold
          × (writer : W) × IsWriter z cfg writer
          × (write level (new z cfg).1 message (derive_all xs (new z cfg).0) ≡ (
              if leb (severity threshold) (severity level)
              then record {
                writer = writer;
                level = level;
                context = all_added xs;
                message = message;
              }
                ∷ []
              else []))
    unfolding new
    new_lem cfg xs level message =
        let l = (new z cfg).0 in
        let g = (new z cfg).1 in
        let (context, writer) = derive_all_lem xs l in
        (
          parse_level cfg.level,
          parse_level-Names cfg.level,
          output_of z cfg,
          output_of-IsWriter z cfg,
          elim (Bool-cases (leb (severity g.level) (severity level))) [
            | inl high ↦ rw high (
                write_lem level g message (derive_all xs l)
                ∙ laws.msg-written g.level level message (derive_all xs l)
                    (leb→le (severity g.level) (severity level) high)
                ∙ (λ i.
                    record {
                      writer = (writer ∙ laws.writer-fresh (output_of z cfg)) i;
                      level = level;
                      context =
                          (context
                              ∙ ap (λ c. c ++ all_added xs) (laws.context-fresh (output_of z cfg)))
                            i;
                      message = message;
                    }
                    ∷ []))
            | inr low ↦ rw low (
                write_lem level g message (derive_all xs l)
                ∙ laws.msg-dropped g.level level message (derive_all xs l) (ground arith))
          ],
        )
