-- ===== src/Delivery/Remote.antt =====
-- The remote side of internal/delivery/worker.go: lookupMX and deliver, with what DNS, the remote
-- SMTP server, the clock and the driver answer to one `processDelivery`.
use submitter_smtp_daemon.Files.{Stage}
use submitter_smtp_daemon.Prelude.{
  false, true, Bool, List, Option, Text, [], none, some, split, trim_suffix, txt, ℕ, ◌++◌, ◌∷◌,
}

-- An error of net/smtp: a reply with its code, or a failure of the connection; with its text.
pub data SmtpError : Type 0 where
  rejected : ℕ → Text → SmtpError
  broken : Text → SmtpError

abbrev pub error_text : SmtpError → Text
error_text (rejected code text) = text
error_text (broken text) = text

-- How the calls of `deliver` on the SMTP client end. `kept` says whether the server has taken the
-- message where the connection breaks at Close: the final dot was sent, and its reply is lost. After a
-- failed Write the client cannot send the final dot any more, and a server that answers with a
-- refusal has not taken the message.
pub record Transaction : Type 0 where
  pub dial : Option SmtpError
  pub hello : Option SmtpError
  pub mail : Option SmtpError
  pub rcpt : Option SmtpError
  pub data_command : Option SmtpError
  pub write : Option SmtpError
  pub close : Option SmtpError
  pub kept : Bool

-- The answer of a DNS lookup: the names or addresses, or the text of an error.
pub data Lookup : Type 0 where
  answer : List Text → Lookup
  failure : Text → Lookup

pub record Answers : Type 0 where
  pub read_fails : Stage → Bool
  -- the texts that the call of `updateDeliveryFailed` after a failed read stores as MX name, MX
  -- address and error; the call in the source has one argument too few to tell them apart
  pub unreadable : Text × Text × Text
  pub lookup_mx : Text → Lookup
  pub lookup_ip : Text → Lookup
  pub transaction : Transaction
  pub duration : ℕ
  pub retry_now : ℕ
  pub delivered_now : ℕ
  pub updated_now : ℕ
  pub event_now : ℕ
  pub update_fails : Bool

-- A message that a remote server has accepted.
pub record Envelope : Type 0 where
  pub host : Text
  pub sender : Text
  pub recipient : Text
  pub content : List ℕ

-- `lookupMX`: host, address and error
unfoldable pub resolve_host : Text → Lookup → Text × Text × Option Text
resolve_host mx_host (failure text) =
    (mx_host, [], some (txt "failed to resolve MX host " ++ (mx_host ++ (txt ": " ++ text))))
resolve_host mx_host (answer []) =
    (mx_host, [], some (txt "failed to resolve MX host " ++ (mx_host ++ txt ": %!w(<nil>)")))
resolve_host mx_host (answer (ip ∷ ips)) = (mx_host, ip, none)

unfoldable pub lookup_domain : Answers → Text → Lookup → Text × Text × Option Text
unfolding resolve_host trim_suffix
lookup_domain a domain (failure text) = ([], [], some (txt "MX lookup failed: " ++ text))
lookup_domain a domain (answer []) = ([], [], some (txt "no MX records found for " ++ domain))
lookup_domain a domain (answer (host ∷ hosts)) =
    let mx_host = trim_suffix b'.' host in resolve_host mx_host (a.lookup_ip mx_host)

unfoldable pub lookup_parts : Answers → Text → List Text → Text × Text × Option Text
lookup_parts a recipient (user ∷ domain ∷ []) = lookup_domain a domain (a.lookup_mx domain)
lookup_parts a recipient _ = ([], [], some (txt "invalid recipient address: " ++ recipient))

unfoldable pub lookup_mx : Answers → Text → Text × Text × Option Text
unfolding lookup_parts lookup_domain split
lookup_mx a recipient = lookup_parts a recipient (split b'@' recipient)

pub record Outcome : Type 0 where
  pub smtp_code : ℕ
  pub smtp_message : Text
  pub err : Option Text

abbrev gives_up : Text → SmtpError → Outcome
gives_up what e = record {
  smtp_code = 0;
  smtp_message = [];
  err = some (what ++ (txt ": " ++ error_text e));
}

abbrev sender : Text
sender = txt "postmaster@localhost"

-- What the server has when Close fails.
unfoldable pub kept_after : SmtpError → Bool → Envelope → List Envelope
kept_after (rejected code text) kept e = []
kept_after (broken text) true e = e ∷ []
kept_after (broken text) false e = []

-- `deliver`: the outcome, and what the remote server accepted
unfoldable pub deliver : Text → Text → List ℕ → Transaction → Outcome × List Envelope
unfolding kept_after
deliver mx_host recipient msg_data t = elim t.dial [
  | some e ↦ (gives_up (txt "failed to connect to " ++ (mx_host ++ txt ":25")) e, [])
  | none ↦ elim t.hello [
    | some e ↦ (gives_up (txt "HELO failed") e, [])
    | none ↦ elim t.mail [
      | some e ↦ (gives_up (txt "MAIL FROM failed") e, [])
      | none ↦ elim t.rcpt [
        | some e ↦ (gives_up (txt "RCPT TO failed") e, [])
        | none ↦ elim t.data_command [
          | some e ↦ (gives_up (txt "DATA command failed") e, [])
          | none ↦ elim t.write [
            | some e ↦ (gives_up (txt "failed to write message data") e, [])
            | none ↦ elim t.close [
              | some e ↦ (
                gives_up (txt "failed to close data writer") e,
                kept_after e t.kept (record {
                  host = mx_host;
                  sender = sender;
                  recipient = recipient;
                  content = msg_data;
                }),
              )
              | none ↦ (
                record { smtp_code = 250; smtp_message = txt "OK"; err = none },
                record {
                  host = mx_host;
                  sender = sender;
                  recipient = recipient;
                  content = msg_data;
                }
                    ∷ [],
              )
            ]
          ]
        ]
      ]
    ]
  ]
]
