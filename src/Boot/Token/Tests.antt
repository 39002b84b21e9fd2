-- ===== src/Boot/Token/Tests.antt =====
-- Tokens as they are typed, and a link.
use wosh.Prelude.{ℕ, ◌-◌, ◌&&◌, ◌≡◌, refl, [], ◌∷◌, none, some, if◌then◌else◌, leb, Text, codes}
use wosh.Boot.Connstring.{Details, v3_connstring}
use wosh.Boot.Tests.{lettered, card_id, card_relay, card}
use wosh.Boot.HostKeys.{Urls}
use wosh.Boot.Token.{decode_token, repair_link}

abbrev bare : Urls
bare = record { hash_of = λ t. none; decode = λ t. some t }

abbrev upper : ℕ → Text
upper c = if leb 97 c && leb c 122 then (c - 32) ∷ [] else c ∷ []

abbrev saved : Details
saved = record { id = card_id; relay = card_relay }

typed :
    decode_token upper (codes "ilLI1-aaaaa aaaaa aaaaa aaaaaA")
    ≡ some (90 ∷ 214 ∷ 181 ∷ 128 ∷ 0 ∷ 0 ∷ 0 ∷ 0 ∷ 0 ∷ 0 ∷ 0 ∷ 0 ∷ 0 ∷ 0 ∷ 0 ∷ 0 ∷ [])
unfolding decode_token
typed = refl

left_over : decode_token upper (codes "aaaaaaaaaaaaaaaaaaaaaaaaab") ≡ none
unfolding decode_token
left_over = refl

relinked :
    repair_link lettered bare upper (some saved) (codes "ilLI1-aaaaa aaaaa aaaaa aaaaaA")
    ≡ some (
        v3_connstring lettered card_id card_relay
          (some (90 ∷ 214 ∷ 181 ∷ 128 ∷ 0 ∷ 0 ∷ 0 ∷ 0 ∷ 0 ∷ 0 ∷ 0 ∷ 0 ∷ 0 ∷ 0 ∷ 0 ∷ 0 ∷ [])))
unfolding repair_link wosh.Boot.Tests.from_letters
relinked = refl
