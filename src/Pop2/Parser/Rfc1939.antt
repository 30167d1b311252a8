-- ===== src/Pop2/Parser/Rfc1939.antt =====
-- async-pop2/src/response/parser/rfc1939.rs: the status of a response, and the responses to STAT, LIST,
-- UIDL, RETR and TOP, and all that are a line of text.
use mathlib.Core.Option
use getemail.Base.{ℕ, Bool, true, false, ◌&&◌, ◌||◌, [], ◌∷◌, Bytes, codes, none, some, leb}
use getemail.Base.Decimal.{is_digit}
use getemail.Pop2.Types.{Text, Number}
use getemail.Pop2.Response.{Status, Stat, UniqueId, UidlResponse, Response}
use getemail.Pop2.Nom.{Nom, Parser, pure, ◌>>=◌, ◌>>◌}
use getemail.Pop2.Parser.Core.{eol, end_of_multiline, message_parser, unwrap_or_empty}

-- constants.rs
abbrev pub ok_tag : Bytes
ok_tag = codes "+OK"

abbrev pub err_tag : Bytes
err_tag = codes "-ERR"

abbrev pub new_number : Bytes → Number
new_number digits = record { inner = digits }

abbrev pub new_text : Bytes → Text
new_text bytes = record { inner = bytes }

-- `nom::character::is_alphanumeric`
abbrev pub is_alphanumeric : ℕ → Bool
is_alphanumeric c = is_digit c || (leb b'A' c && leb c b'Z') || (leb b'a' c && leb c b'z')

-- `UniqueIdParser::is_valid_char`
abbrev pub is_valid_char : ℕ → Bool
is_valid_char c = leb 0x21 c && leb c 0x7e

module _ (nom : Nom) where
  unfoldable pub status : Parser Status
  status =
      nom.terminated
        (nom.map
          (nom.alt (nom.value true (nom.tag ok_tag) ∷ nom.value false (nom.tag err_tag) ∷ []))
          (λ success. record { success = success }))
        nom.space0

  unfoldable pub stat : Parser Stat
  stat = do
    count ← nom.digit1
    nom.space1
    size ← nom.digit1
    nom.opt nom.not_line_ending
    eol nom
    pure (record { message_count = new_number count; size = new_number size })

  unfoldable pub stat_response : Parser Response
  unfolding stat
  stat_response = do stats ← stat; pure (Response.stat stats)

  unfoldable pub list_stats : Parser Stat
  list_stats = do
    count ← nom.digit1
    nom.space1
    nom.take_while is_alphanumeric
    nom.space1
    (size, _, _) ←
        nom.delimited (nom.char b'(')
          (nom.tuple nom.digit1 nom.space1 (nom.take_while is_alphanumeric)) (nom.char b')')
    eol nom
    pure (record { message_count = new_number count; size = new_number size })

  -- An item, of which a leading dot is dropped.
  unfoldable pub undotted : {A : Type 0} → Parser A → Parser A
  undotted p = nom.preceded (nom.opt (nom.tag (b'.' ∷ []))) p

  unfoldable pub list_response : Parser Response
  unfolding list_stats stat undotted
  list_response = do
    stats ←
        nom.alt
          (nom.map list_stats (λ stats. some stats) ∷ nom.map (message_parser nom) (λ _. none) ∷ [])
    (items, _) ← nom.many_till (undotted stat) (end_of_multiline nom)
    pure (Response.list (record { stats = stats; items = items }))

  unfoldable pub unique_id : Parser Bytes
  unique_id = nom.take_while_m_n 1 70 is_valid_char

  unfoldable pub uidl : Parser UniqueId
  unfolding unique_id
  uidl = do
    index ← nom.digit1
    nom.space1
    id ← unique_id
    eol nom
    pure (record { index = new_number index; id = new_text id })

  unfoldable pub uidl_list_response : Parser Response
  unfolding uidl undotted
  uidl_list_response = do
    message ← message_parser nom
    (list, _) ← nom.many_till (undotted uidl) (end_of_multiline nom)
    pure (
        Response.uidl
          (UidlResponse.multiple (record { message = Option.map new_text message; items = list })))

  unfoldable pub uidl_response : Parser Response
  unfolding uidl
  uidl_response = do unique_id ← uidl; pure (Response.uidl (UidlResponse.single unique_id))

  unfoldable pub rfc822_response : Parser Response
  rfc822_response = do
    message_parser nom
    content ← nom.take_until (0x0d ∷ 0x0a ∷ b'.' ∷ 0x0d ∷ 0x0a ∷ [])
    eol nom
    end_of_multiline nom
    pure (Response.bytes content)

  unfoldable pub error_response : Parser Response
  error_response = do
    message ← message_parser nom
    pure (Response.err (new_text (unwrap_or_empty message)))

  unfoldable pub string_response : Parser Response
  string_response = do
    message ← message_parser nom
    pure (Response.message (new_text (unwrap_or_empty message)))
