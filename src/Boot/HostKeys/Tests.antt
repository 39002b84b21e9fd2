-- ===== src/Boot/HostKeys/Tests.antt =====
-- Host keys presented for one card, in a browser whose `URL` takes nothing.
use wosh.Prelude.{◌≡◌, refl, true, false, List, [], ◌∷◌, none, some, Text, codes}
use wosh.Boot.Connstring.{endpoint_id_of, v3_connstring}
use wosh.Boot.Tests.{letter, letters, from_letters, lettered, card_id, card_relay}
use wosh.Boot.HostKeys.{
  Urls, connstring_from, Stored, unreadable, yes, check, expired, confirm_host_key,
}
use wosh.Boot.HostKeys.Approvals.{IsConsented, confirm_host_key-IsConsented}
use wosh.Boot.HostKeys.Pinned.{Event, presented, run, has_approved, confirm_host_key-has_approved}

abbrev bare : Urls
bare = record { hash_of = λ t. none; decode = λ t. some t }

abbrev link : Text
link = v3_connstring lettered card_id card_relay none

abbrev key : Text
key = codes "SHA256:abc"

abbrev today : Text
today = codes "2024-01-01"

link_id : endpoint_id_of lettered (connstring_from bare link) ≡ some card_id
unfolding endpoint_id_of connstring_from v3_connstring letters from_letters letter
link_id = refl

-- Approved with the box checked; the other approval is of a changed key, and stores nothing.
abbrev past : List Event
past =
    presented link key (check ∷ yes ∷ []) true today
    ∷ presented link (codes "SHA256:other") (yes ∷ expired ∷ yes ∷ yes ∷ []) true today
    ∷ []

abbrev pinned : Stored
pinned = run lettered bare unreadable past

quiet : (confirm_host_key lettered bare true today key link [] pinned).asked ≡ false
unfolding confirm_host_key run letters from_letters letter v3_connstring
quiet = refl

confirm_host_key-has_approved_example : has_approved lettered bare card_id key past ≡ true
confirm_host_key-has_approved_example =
    confirm_host_key-has_approved lettered bare past true today key link [] card_id link_id quiet

allowed :
    (confirm_host_key lettered bare true today key link (yes ∷ []) unreadable).allowed ≡ some true
unfolding confirm_host_key letters from_letters letter v3_connstring
allowed = refl

confirm_host_key-IsConsented_example :
    IsConsented unreadable
      (endpoint_id_of lettered (connstring_from bare link))
      key
      (yes ∷ [])
      (confirm_host_key lettered bare true today key link (yes ∷ []) unreadable)
confirm_host_key-IsConsented_example =
    confirm_host_key-IsConsented lettered bare true today key link (yes ∷ []) unreadable allowed
