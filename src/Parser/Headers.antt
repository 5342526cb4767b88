-- ===== src/Parser/Headers.antt =====
-- What the metadata of internal/parser/parser.go says of a message.
use submitter_smtp_daemon.Parser.{
  date_of, metadata_of, Letter, Mail, MessageMetadata, dated, get_header, get_headers, parse,
  copy_headers,
}
use submitter_smtp_daemon.Prelude.{
  txt, false, length, ◌∙◌, Bool-cases, List, Map, Text, [], arith, inl, inr, look_up,
  look_up-set_key, none, refl, set_key, some, text_eq, text_eq_iff, ◌∷◌, ◌≡◌,
}

-- A Go map has a key once.
abbrev pub IsMap : Map (List Text) → Type 0
IsMap [] = Unit
IsMap (e ∷ es) = (look_up e.0 es ≡ none) × IsMap es

copy_headers_lem :
    (key : Text) (es headers : Map (List Text))
    → IsMap es
    → look_up key (copy_headers es headers)
      ≡ (elim (look_up key es) [ none ↦ look_up key headers | some values ↦ some values ])
unfolding copy_headers look_up
copy_headers_lem key [] headers h = refl
copy_headers_lem key (e ∷ es) headers h = elim (Bool-cases (text_eq e.0 key)) [
  | inl same ↦
      let e_new : look_up e.0 es ≡ none = h.0 in
      ground (
        arith,
        copy_headers_lem key es (set_key e.0 e.1 headers) h.1,
        look_up-set_key e.0 key e.1 headers,
        text_eq_iff e.0 key,
      )
  | inr other ↦ ground (
    arith,
    copy_headers_lem key es (set_key e.0 e.1 headers) h.1,
    look_up-set_key e.0 key e.1 headers,
  )
]

module _ {T : Type 0} (mail : Mail T) (now : T) (data_ : Text) where
  -- A message that net/mail reads, with each key of the header once, is parsed: its size is that of
  -- the whole data, its date is not the zero time, provided that the clock does not show it, and its
  -- headers hold under each key what the message has there, of which GetHeader gives the first.
  pub parse_lem :
      (letter : Letter)
      → mail.is_zero now ≡ false
      → mail.read_message data_ ≡ some letter
      → IsMap letter.header
      → (m : MessageMetadata T) × (parse mail now data_ ≡ some m)
        × (m.size ≡ length data_)
        × (mail.is_zero m.date ≡ false)
        × ((key : Text) → look_up key m.headers ≡ look_up key letter.header)
        × ((key first : Text) (rest : List Text)
            → look_up key letter.header ≡ some (first ∷ rest)
            → (get_header key m ≡ first) × (get_headers key m ≡ first ∷ rest))
  unfolding parse metadata_of dated look_up get_header get_headers
  parse_lem letter has_clock reads is_map = (
    metadata_of mail now data_ letter,
    rw (reads, parse) refl,
    refl,
    date_lem (date_of mail (mail.get (txt "Date") letter.header)),
    copied,
    λ key first rest h. (rw (copied key, h, get_header) refl, rw (copied key, h, get_headers) refl),
  )
    where
      date_lem : (date : T) → mail.is_zero (dated mail now date) ≡ false
      date_lem date = ground arith

      copied :
          (key : Text) → look_up key (copy_headers letter.header []) ≡ look_up key letter.header
      copied key = copy_headers_lem key letter.header [] is_map ∙ ground arith
