-- ===== src/Pop2/Parser/Core.antt =====
-- async-pop2/src/response/parser/core.rs
use getemail.Base.{[], ◌∷◌, Bytes, Option, none, some}
use getemail.Pop2.Nom.{Nom, Parser, pure, ◌>>◌}

module _ (nom : Nom) where
  unfoldable pub eol : Parser Unit
  eol = do nom.pair nom.space0 nom.line_ending; pure tt

  unfoldable pub end_of_multiline : Parser Unit
  end_of_multiline = do nom.pair (nom.tag (b'.' ∷ [])) nom.line_ending; pure tt

  unfoldable pub message_parser : Parser (Option Bytes)
  unfolding eol
  message_parser = nom.terminated (nom.opt nom.not_line_ending) eol

-- `message.unwrap_or(b"")`
abbrev pub unwrap_or_empty : Option Bytes → Bytes
unwrap_or_empty none = []
unwrap_or_empty (some message) = message
