-- ===== src/Tests/Parser.antt =====
-- internal/parser/parser.go with a concrete net/mail.
use submitter_smtp_daemon.Parser.Addresses.{IsPlain, parse_address_list-written, written}
use submitter_smtp_daemon.Parser.Headers.{parse_lem}
use submitter_smtp_daemon.Parser.{
  Letter, Mail, MessageMetadata, get_header, get_headers, parse, parse_address_list,
}
use submitter_smtp_daemon.Prelude.{
  All, List, Text, [], arith, false, length, look_up, none, refl, some, strip, space_front,
  space_back, trim_space, txt, ℕ, ◌==◌, ◌∷◌, ◌≡◌,
}

abbrev letter : Letter
letter = record { header = (txt "Subject", txt "hi" ∷ []) ∷ []; body = none }

abbrev mail : Mail ℕ
mail = record {
  read_message = λ bytes. some letter;
  get = λ key header. [];
  parse_address_list = λ s. none;
  parse_date = λ s. none;
  zero_time = 0;
  is_zero = λ t. t == 0;
}

abbrev addresses : List Text
addresses = txt "a@b" ∷ txt "<c d" ∷ []

addresses-IsPlain : All IsPlain addresses
unfolding trim_space strip space_front space_back txt
addresses-IsPlain =
    ((λ e. cc e, refl, λ m. ground arith), ((λ e. cc e, refl, λ m. ground arith), tt))

parse_address_list-written_example : parse_address_list mail (written addresses) ≡ addresses
parse_address_list-written_example =
    parse_address_list-written mail addresses addresses-IsPlain refl

parse_lem_example :
    (m : MessageMetadata ℕ) × (parse mail 7 (txt "Subject: hi") ≡ some m)
    × (m.size ≡ length (txt "Subject: hi"))
    × ((m.date == 0) ≡ false)
    × ((key : Text) → look_up key m.headers ≡ look_up key letter.header)
    × ((key first : Text) (rest : List Text)
        → look_up key letter.header ≡ some (first ∷ rest)
        → (get_header key m ≡ first) × (get_headers key m ≡ first ∷ rest))
unfolding look_up
parse_lem_example = parse_lem mail 7 (txt "Subject: hi") letter refl refl (refl, tt)

-- An ideographic space and a no-break space around a letter.
trims_unicode : trim_space (0xe3 ∷ 0x80 ∷ 0x80 ∷ b'x' ∷ 0xc2 ∷ 0xa0 ∷ []) ≡ b'x' ∷ []
unfolding trim_space strip space_front space_back
trims_unicode = refl
