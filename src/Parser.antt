-- ===== src/Parser.antt =====
-- internal/parser/parser.go. Package net/mail and the times of package time are parameters; the
-- clock is an argument.
pub mod Addresses
pub mod Headers
use submitter_smtp_daemon.Prelude.{
  split, Bool, List, Map, Option, Text, [], if◌then◌else◌, length, look_up, none, set_key, some,
  trim_space, txt, ℕ, ◌++◌, ◌∷◌,
}

-- What mail.ReadMessage reads: the header, and the body, `none` where it cannot be read.
pub record Letter : Type 0 where
  pub header : Map (List Text)
  pub body : Option Text

-- The functions of net/mail, and `IsZero`, over a type of times. An address list is parsed to its
-- Address fields. `none` is an error.
pub record Mail (T : Type 0) : Type 0 where
  pub read_message : Text → Option Letter
  pub get : Text → Map (List Text) → Text
  pub parse_address_list : Text → Option (List Text)
  pub parse_date : Text → Option T
  pub zero_time : T
  pub is_zero : T → Bool

pub record MessageMetadata (T : Type 0) : Type 0 where
  pub message_id : Text
  pub from : Text
  pub to : List Text
  pub cc_ : List Text
  pub bcc : List Text
  pub subject : Text
  pub date : T
  pub content_type : Text
  pub size : ℕ
  pub headers : Map (List Text)

-- the loop of the fallback: each part without its outer blanks, unless nothing is left of it
unfoldable pub trimmed_parts : List Text → List Text
unfolding trim_space
trimmed_parts [] = []
trimmed_parts (part ∷ parts) =
    let rest = trimmed_parts parts in
    elim (trim_space part) [ [] ↦ rest | c ∷ addr ↦ (c ∷ addr) ∷ rest ]

-- The loop that copies the header.
unfoldable pub copy_headers : Map (List Text) → Map (List Text) → Map (List Text)
unfolding set_key
copy_headers [] headers = headers
copy_headers (e ∷ es) headers = copy_headers es (set_key e.0 e.1 headers)

module _ {T : Type 0} (mail : Mail T) where
  -- `parseAddressList`
  unfoldable pub parse_address_list : Text → List Text
  unfolding split trimmed_parts
  parse_address_list addr_list = elim (mail.parse_address_list addr_list) [
    | none ↦ trimmed_parts (split b',' addr_list)
    | some addrs ↦ addrs
  ]

  -- an address header, which may be missing
  unfoldable pub addresses_of : Text → List Text
  unfolding parse_address_list
  addresses_of [] = []
  addresses_of (c ∷ value) = parse_address_list (c ∷ value)

  -- a Date header that is missing or cannot be parsed leaves the zero time
  unfoldable pub date_of : Text → T
  date_of [] = mail.zero_time
  date_of (c ∷ value) = elim (mail.parse_date (c ∷ value)) [
    | none ↦ mail.zero_time
    | some date ↦ date
  ]

  unfoldable pub dated : T → T → T
  dated now date = if mail.is_zero date then now else date

  -- the fields that are read from the header
  unfoldable pub metadata_of : T → Text → Letter → MessageMetadata T
  unfolding addresses_of date_of dated copy_headers
  metadata_of now data_ msg = record {
    message_id = mail.get (txt "Message-ID") msg.header;
    from = mail.get (txt "From") msg.header;
    to = addresses_of (mail.get (txt "To") msg.header);
    cc_ = addresses_of (mail.get (txt "Cc") msg.header);
    bcc = addresses_of (mail.get (txt "Bcc") msg.header);
    subject = mail.get (txt "Subject") msg.header;
    date = dated now (date_of (mail.get (txt "Date") msg.header));
    content_type = mail.get (txt "Content-Type") msg.header;
    size = length data_;
    headers = copy_headers msg.header [];
  }

  -- `Parse`; `none` is an error
  unfoldable pub parse : T → Text → Option (MessageMetadata T)
  unfolding metadata_of
  parse now data_ = elim (mail.read_message data_) [
    | none ↦ none
    | some msg ↦ some (metadata_of now data_ msg)
  ]

  -- `ParseBody`; `none` is an error
  unfoldable pub parse_body : Text → Option Text
  parse_body data_ = elim (mail.read_message data_) [ none ↦ none | some msg ↦ msg.body ]

module _ {T : Type 0} where
  unfoldable pub extract_recipients : MessageMetadata T → List Text
  extract_recipients m = (([] ++ m.to) ++ m.cc_) ++ m.bcc

  unfoldable pub get_headers : Text → MessageMetadata T → List Text
  unfolding look_up
  get_headers key m = elim (look_up key m.headers) [ none ↦ [] | some values ↦ values ]

  unfoldable pub get_header : Text → MessageMetadata T → Text
  unfolding look_up
  get_header key m = elim (look_up key m.headers) [
    | none ↦ []
    | some values ↦ elim values [ [] ↦ [] | first ∷ rest ↦ first ]
  ]
