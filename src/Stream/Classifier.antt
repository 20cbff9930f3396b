-- ===== src/Stream/Classifier.antt =====
-- src/treasury/retry/failure-classifier.ts: what a thrown value is taken for.
use invoice_reservation.Prelude.{
  ℕ, Bool, true, false, not, ◌&&◌, ◌||◌, Option, none, some, List, [], ◌∷◌, if◌then◌else◌, ◌+◌,
  ◌==◌, length, leb, take, drop,
}
use invoice_reservation.Prelude.Text.{Text, codes, text_eq}

pub data FailureClass : Type 0 where
  transient permanent : FailureClass

-- The properties `code` and `message` of an object, where they are strings.
pub record ErrorFields : Type 0 where
  pub code : Option Text
  pub message : Option Text

-- A thrown value as the classifier reads it. `driver_error` and `cause` are the properties of
-- these names, where they are objects.
pub data Thrown : Type 0 where
  -- not an object, or `null`
  primitive : Thrown
  -- an instance of PermanentTreasuryError
  permanent_error : Thrown
  object : ErrorFields → (driver_error cause : Option ErrorFields) → Thrown

abbrev pub one_of : List Text → Text → Bool
one_of [] t = false
one_of (x ∷ xs) t = text_eq x t || one_of xs t

abbrev pub transient_sqlstate_classes : List Text
transient_sqlstate_classes = codes "08" ∷ codes "53" ∷ codes "55" ∷ codes "57" ∷ codes "58" ∷ []

abbrev pub transient_sqlstate_codes : List Text
transient_sqlstate_codes = codes "55P03" ∷ codes "57014" ∷ codes "40001" ∷ codes "40P01" ∷ []

abbrev pub transient_network_codes : List Text
transient_network_codes =
    codes "ECONNREFUSED"
    ∷ codes "ECONNRESET"
    ∷ codes "ETIMEDOUT"
    ∷ codes "ENOTFOUND"
    ∷ codes "EPIPE"
    ∷ codes "EAI_AGAIN"
    ∷ codes "EHOSTUNREACH"
    ∷ codes "ENETUNREACH"
    ∷ []

-- The flag `i`: an ASCII letter matches both of its cases.
abbrev pub lower : ℕ → ℕ
lower c = if leb b'A' c && leb c b'Z' then c + 32 else c

-- Whether the text starts with the pattern, cases aside.
starts_with : Text → Text → Bool
starts_with [] t = true
starts_with (p ∷ ps) [] = false
starts_with (p ∷ ps) (c ∷ t) = lower c == p && starts_with ps t

contains : Text → Text → Bool
unfolding starts_with
contains p [] = starts_with p []
contains p (c ∷ t) = starts_with p (c ∷ t) || contains p t

-- What `.` does not match.
abbrev pub is_line_terminator : ℕ → Bool
is_line_terminator c = c == 10 || c == 13 || c == 8232 || c == 8233

-- `.*` in front of the pattern.
after_any : Text → Text → Bool
unfolding starts_with
after_any p [] = starts_with p []
after_any p (c ∷ t) = starts_with p (c ∷ t) || (not (is_line_terminator c) && after_any p t)

-- `p.*q`
contains_both : Text → Text → Text → Bool
unfolding starts_with after_any
contains_both p q [] = starts_with p [] && after_any q []
contains_both p q (c ∷ t) =
    starts_with p (c ∷ t) && after_any q (drop (length p) (c ∷ t)) || contains_both p q t

abbrev pub plain_messages : List Text
plain_messages =
    codes "timeout exceeded when trying to connect"
    ∷ codes "connection terminated unexpectedly"
    ∷ codes "client has encountered a connection error"
    ∷ codes "connection refused"
    ∷ codes "socket hang up"
    ∷ codes "terminating connection due to"
    ∷ codes "connection pool"
    ∷ codes "too many clients"
    ∷ codes "remaining connection slots"
    ∷ codes "canceling statement due to"
    ∷ codes "could not connect"
    ∷ []

contains_one_of : List Text → Text → Bool
unfolding contains
contains_one_of [] t = false
contains_one_of (p ∷ ps) t = contains p t || contains_one_of ps t

-- `TRANSIENT_ERROR_MESSAGES.some`
unfoldable pub is_transient_message : Text → Bool
unfolding contains_one_of contains_both
is_transient_message t =
    contains_one_of plain_messages t
    || contains_both (codes "connection to ") (codes " has been closed") t

-- A string property of an object that may not be there.
abbrev code_of : Option ErrorFields → Option Text
code_of none = none
code_of (some e) = e.code

abbrev message_of : Option ErrorFields → Option Text
message_of none = none
message_of (some e) = e.message

abbrev or_next : Option Text → Option Text → Option Text
or_next none next = next
or_next (some t) next = some t

-- `errorCode`: its own code, its driver error's, its cause's.
abbrev pub error_code : Thrown → Option Text
error_code (object e driver_error cause) =
    or_next e.code (or_next (code_of driver_error) (code_of cause))
error_code _ = none

-- `errorMessage`. A PermanentTreasuryError never gets here.
abbrev pub error_message : Thrown → Option Text
error_message (object e driver_error cause) = or_next e.message (message_of cause)
error_message _ = none

unfoldable pub is_transient_code : Text → Bool
is_transient_code code =
    one_of transient_sqlstate_codes code
    || one_of transient_network_codes code
    || length code == 5 && one_of transient_sqlstate_classes (take 2 code)

unfoldable pub is_transient_failure : Thrown → Bool
is_transient_failure e =
    elim (error_code e) [ none ↦ false | some code ↦ is_transient_code code ]
    || elim (error_message e) [ none ↦ false | some message ↦ is_transient_message message ]

-- Both of the last returns are TRANSIENT.
unfoldable pub classify_failure : Thrown → FailureClass
classify_failure permanent_error = permanent
classify_failure e = if is_transient_failure e then transient else transient
