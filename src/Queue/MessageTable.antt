-- ===== src/Queue/MessageTable.antt =====
-- The table of messages in internal/queue/queue.go: AddMessage, GetMessage, UpdateMessageStage and
-- ConvertMetadataToMessage, and how columns are read.
use submitter_smtp_daemon.Parser.{MessageMetadata}
use submitter_smtp_daemon.Schema.{Db, MessageRow, find_message, is_some, unix}
use submitter_smtp_daemon.Prelude.{
  Bool, List, Option, Text, [], if◌then◌else◌, none, pos, some, text_eq, txt, ℕ, ℤ, ◌*◌, ◌++◌, ◌||◌,
  ◌∷◌,
}

pub record Message : Type 0 where
  pub msg_id : Text
  pub session_id : Text
  pub auth_user : Text
  pub client_ip : Text
  pub mail_from : Text
  pub rcpt_to : List Text
  pub message_size : ℤ
  pub body_hash : Text
  pub dedup_original : Text
  pub created_at : ℕ
  pub current_stage : Text
  pub subject : Text
  pub message_id_header : Text
  pub date_header : Text

-- `ConvertMetadataToMessage`; `format` is `Format(time.RFC3339)`
unfoldable pub convert_metadata_to_message :
    {T : Type 0}
    → (T → Text)
    → Text
    → Text
    → Text
    → Text
    → Text
    → List Text
    → MessageMetadata T
    → Text
    → ℕ
    → Message
convert_metadata_to_message format msg_id session_id auth_user client_ip mail_from rcpt_to metadata
      body_hash now =
    record {
      msg_id = msg_id;
      session_id = session_id;
      auth_user = auth_user;
      client_ip = client_ip;
      mail_from = mail_from;
      rcpt_to = rcpt_to;
      message_size = pos metadata.size;
      body_hash = body_hash;
      dedup_original = [];
      created_at = now;
      current_stage = txt "parsed";
      subject = metadata.subject;
      message_id_header = metadata.message_id;
      date_header = format metadata.date;
    }

pub data Error : Type 0 where
  marshal_failed insert_failed enqueue_failed query_failed update_failed : Error
  not_found get_failed unmarshal_failed stage_failed : Error

-- encoding/json on a list of strings
pub record Json : Type 0 where
  pub marshal : List Text → Option Text
  pub unmarshal : Text → Option (List Text)

abbrev pub message_row : Message → Text → MessageRow
message_row msg rcpt_json = record {
  msg_id = msg.msg_id;
  session_id = msg.session_id;
  auth_user = msg.auth_user;
  client_ip = msg.client_ip;
  mail_from = msg.mail_from;
  rcpt_to = rcpt_json;
  message_size = msg.message_size;
  body_hash = msg.body_hash;
  dedup_original = some msg.dedup_original;
  created_at = unix msg.created_at;
  current_stage = msg.current_stage;
  subject = msg.subject;
  message_id_header = msg.message_id_header;
  date_header = msg.date_header;
}

-- msg_id is the primary key, so an INSERT of a known one fails
unfoldable pub add_message : Json → Bool → Message → Db → Option Error × Db
add_message json fault msg db = elim (json.marshal msg.rcpt_to) [
  | none ↦ (some marshal_failed, db)
  | some rcpt_json ↦
      if fault || is_some (find_message msg.msg_id db.messages)
      then (some insert_failed, db)
      else (none, record db { messages = db.messages ++ message_row msg rcpt_json ∷ [] })
]

-- `.String` of a NULL column is ""
abbrev pub string_of : Option Text → Text
string_of none = []
string_of (some s) = s

abbrev pub int_of : Option ℕ → ℕ
int_of none = 0
int_of (some n) = n

-- `time.Unix(s, 0)`
abbrev pub from_unix : ℕ → ℕ
from_unix s = s * 1_000_000_000

abbrev pub time_of : Option ℕ → Option ℕ
time_of none = none
time_of (some s) = some (from_unix s)

abbrev scan_message : MessageRow → List Text → Message
scan_message r rcpt_to = record {
  msg_id = r.msg_id;
  session_id = r.session_id;
  auth_user = r.auth_user;
  client_ip = r.client_ip;
  mail_from = r.mail_from;
  rcpt_to = rcpt_to;
  message_size = r.message_size;
  body_hash = r.body_hash;
  dedup_original = string_of r.dedup_original;
  created_at = from_unix r.created_at;
  current_stage = r.current_stage;
  subject = r.subject;
  message_id_header = r.message_id_header;
  date_header = r.date_header;
}

unfoldable pub get_message : Json → Bool → Text → Db → (Option Error × Option Message)
get_message json fault msg_id db =
    if fault then (some get_failed, none) else elim (find_message msg_id db.messages) [
      | none ↦ (some not_found, none)
      | some r ↦ elim (json.unmarshal r.rcpt_to) [
        | none ↦ (some unmarshal_failed, none)
        | some rcpt_to ↦ (none, some (scan_message r rcpt_to))
      ]
    ]

abbrev update_stage : Text → Text → List MessageRow → List MessageRow
update_stage id stage [] = []
update_stage id stage (r ∷ rs) =
    (if text_eq r.msg_id id then record r { current_stage = stage } else r)
    ∷ update_stage id stage rs

unfoldable pub update_message_stage : Bool → Text → Text → Db → Option Error × Db
update_message_stage fault msg_id stage db =
    if fault
    then (some stage_failed, db)
    else (none, record db { messages = update_stage msg_id stage db.messages })
