-- ===== src/Tests/Fields.antt =====
-- A text of a server that is cut off within a character.
use getemail.Base.{◌≡◌, refl, [], ◌∷◌}
use getemail.Pop2.Types.{Text}
use getemail.Pop2.Types.Lossy.{text_as_str_lossy}

abbrev cut_off : Text
cut_off = record { inner = b'a' ∷ 0xe2 ∷ 0x82 ∷ b'b' ∷ [] }

cut_off_lossy : text_as_str_lossy cut_off ≡ b'a' ∷ 0xef ∷ 0xbf ∷ 0xbd ∷ b'b' ∷ []
unfolding text_as_str_lossy
cut_off_lossy = refl
