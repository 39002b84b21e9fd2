-- ===== src/AuthorizedKeys/Tests.antt =====
-- `cleanComment` and `installCommand` at concrete inputs.
use wosh.Prelude.{◌≡◌, refl, arith, Option, some, [], ◌∷◌, Text, codes}
use wosh.AuthorizedKeys.{clean_comment, install_command, blob}
use wosh.AuthorizedKeys.Quoting.{quoted_words, outside_quotes, frame, quoted_words-install_command}

abbrev hostile : Option Text
hostile = some (codes "' ; echo  my phone\n")

cleaned : clean_comment hostile ≡ codes "echo my phone"
unfolding clean_comment
cleaned = refl

abbrev key_line : Text
key_line = codes "ssh-ed25519 AAAA me"

quoted_words-install_command_example :
    (quoted_words (install_command key_line) ≡ some (blob key_line ∷ codes "%s\\n" ∷ key_line ∷ []))
    × (outside_quotes (install_command key_line) ≡ frame)
quoted_words-install_command_example = quoted_words-install_command key_line (omega arith)
