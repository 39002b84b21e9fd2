-- ===== src/Boot/HostKeys.antt =====
-- Host keys: the pin store of site/boot.mjs, the sheet `hostKeyAsk`, and `ui.confirmHostKey`.
pub mod Approvals
pub mod Backed
pub mod Pinned
mod Tests
use wosh.Prelude.{
  ℕ, Bool, true, false, ◌&&◌, ◌||◌, not, List, [], ◌∷◌, Option, none, some, if◌then◌else◌, is_nil,
  Text, text_eq, trim, is_space, starts_with, codes, drop,
}
use wosh.Boot.Connstring.{Browser, endpoint_id_of}

-- What a browser knows of URLs: the fragment of a text that is one, with its `#` or empty, and the
-- percent-decoding of a text where it decodes.
pub record Urls : Type 0 where
  pub hash_of : Text → Option Text
  pub decode : Text → Option Text

-- The fragment without its `#`
unfoldable pub fragment_text : Text → Text
unfolding starts_with
fragment_text h = if starts_with (codes "#") h then drop 1 h else h

unfoldable pub fragment_value : Urls → Text → Text
unfolding fragment_text trim
fragment_value u h =
    if is_nil (fragment_text h)
    then []
    else elim (u.decode (fragment_text h)) [ none ↦ trim (fragment_text h) | some t ↦ trim t ]

abbrev or_whole : Text → Text → Text
or_whole fragment s = if is_nil fragment then s else fragment

unfoldable pub connstring_from : Urls → Text → Text
unfolding fragment_value trim starts_with
connstring_from u raw =
    if starts_with (codes "#") (trim raw)
    then fragment_value u (trim raw)
    else elim (u.hash_of (trim raw)) [
      | none ↦ trim raw
      | some h ↦ or_whole (fragment_value u h) (trim raw)
    ]

pub record Pin : Type 0 where
  pub fp : Text
  pub at : Text

-- What storage holds under the key: an object of pins, or what `loadPins` reads as none.
pub data Stored : Type 0 where
  pins : List (Text × Pin) → Stored
  unreadable : Stored

unfoldable pub load_pins : Stored → List (Text × Pin)
load_pins (pins ps) = ps
load_pins unreadable = []

unfoldable pub find_pin : Text → List (Text × Pin) → Option Pin
unfolding text_eq
find_pin i [] = none
find_pin i ((j, p) ∷ ps) = let rest = find_pin i ps in if text_eq j i then some p else rest

-- Assignment to a property and `delete`
unfoldable pub put_pin : Text → Pin → List (Text × Pin) → List (Text × Pin)
unfolding text_eq
put_pin i p [] = (i, p) ∷ []
put_pin i p ((j, q) ∷ ps) =
    let rest = put_pin i p ps in if text_eq j i then (j, p) ∷ ps else (j, q) ∷ rest

unfoldable pub drop_pin : Text → List (Text × Pin) → List (Text × Pin)
unfolding text_eq
drop_pin i [] = []
drop_pin i ((j, q) ∷ ps) = let rest = drop_pin i ps in if text_eq j i then rest else (j, q) ∷ rest

-- The flag says whether storage accepts.
unfoldable pub save_pin : Bool → Text → Text → Text → Stored → Stored
unfolding load_pins put_pin
save_pin accepted now i fp s =
    if accepted then pins (put_pin i (record { fp = fp; at = now }) (load_pins s)) else s

unfoldable pub remove_pin : Bool → Text → Stored → Stored
unfolding load_pins drop_pin
remove_pin accepted i s = if accepted then pins (drop_pin i (load_pins s)) else s

-- What happens to the sheet: its buttons, the checkbox, the end of a button's armed time, and Esc,
-- the backdrop or another sheet that takes its place.
pub data Gesture : Type 0 where
  yes no check expired closed : Gesture

pub data Reply : Type 0 where
  pending dismissed refused : Reply
  approved : Bool → Reply

-- `hostKeyAsk` where a different key was approved before or not. The button of a changed key is the
-- one of `armTwoStep`, and that sheet has no checkbox.
unfoldable pub host_key_ask : Bool → Bool → Bool → List Gesture → Reply
host_key_ask changed armed remember [] = pending
host_key_ask changed armed remember (yes ∷ gs) =
    let rest = host_key_ask changed true remember gs in
    if changed && not armed then rest else approved (not changed && remember)
host_key_ask changed armed remember (no ∷ gs) = refused
host_key_ask changed armed remember (check ∷ gs) = host_key_ask changed armed (not remember) gs
host_key_ask changed armed remember (expired ∷ gs) = host_key_ask changed false remember gs
host_key_ask changed armed remember (closed ∷ gs) = dismissed

-- `allowed` is what the promise resolves to; `none` while the sheet is open.
pub record Confirmed : Type 0 where
  pub allowed : Option Bool
  pub asked : Bool
  pub stored : Stored

unfoldable pub is_match : Option Pin → Text → Bool
unfolding text_eq
is_match none fp = false
is_match (some p) fp = text_eq p.fp fp

abbrev pub is_some {ℓ} : {A : Type ℓ} → Option A → Bool
is_some none = false
is_some (some a) = true

abbrev pub pinned_at : Option Text → Stored → Option Pin
pinned_at none s = none
pinned_at (some i) s = find_pin i (load_pins s)

-- `if (endpointId && r.remember) savePin(…)`
abbrev pub remembered : Bool → Text → Option Text → Text → Bool → Stored → Stored
remembered accepted now none fp remember s = s
remembered accepted now (some i) fp remember s =
    if remember then save_pin accepted now i fp s else s

unfoldable pub settled : Bool → Text → Option Text → Text → Reply → Stored → Confirmed
unfolding save_pin
settled accepted now id fp pending s = record { allowed = none; asked = true; stored = s }
settled accepted now id fp dismissed s = record { allowed = some false; asked = true; stored = s }
settled accepted now id fp refused s = record { allowed = some false; asked = true; stored = s }
settled accepted now id fp (approved remember) s = record {
  allowed = some true;
  asked = true;
  stored = remembered accepted now id fp remember s;
}

-- After `endpointIdOf`
unfoldable pub confirm_for : Bool → Text → Text → Option Text → List Gesture → Stored → Confirmed
unfolding find_pin load_pins is_match host_key_ask settled
confirm_for accepted now fp id gs s =
    if is_match (pinned_at id s) fp
    then record { allowed = some true; asked = false; stored = s }
    else settled accepted now id fp (host_key_ask (is_some (pinned_at id s)) false false gs) s

unfoldable pub confirm_host_key :
    Browser → Urls → Bool → Text → Text → Text → List Gesture → Stored → Confirmed
unfolding confirm_for endpoint_id_of connstring_from
confirm_host_key w u accepted now fp connstring gs s =
    confirm_for accepted now fp (endpoint_id_of w (connstring_from u connstring)) gs s
