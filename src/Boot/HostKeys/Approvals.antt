-- ===== src/Boot/HostKeys/Approvals.antt =====
-- What a confirmed host key was confirmed by.
use wosh.Prelude.{
  ℕ, suc, ◌≤◌, ◌≡◌, refl, sym, ◌∙◌, ap, subst, Bool, true, false, ◌&&◌, not, List, [], ◌∷◌, Option,
  none, some, if◌then◌else◌, Bool-cases, inl, inr, arith, Text,
}
use wosh.Boot.Connstring.{Browser, endpoint_id_of}
use wosh.Boot.HostKeys.{
  Urls, connstring_from, Stored, Gesture, yes, no, check, expired, closed, Reply, pending,
  dismissed, refused, approved, host_key_ask, Confirmed, is_match, is_some, pinned_at, settled,
  confirm_for, confirm_host_key, remembered,
}

abbrev yeses : List Gesture → ℕ
yeses [] = 0
yeses (yes ∷ gs) = suc (yeses gs)
yeses (no ∷ gs) = yeses gs
yeses (check ∷ gs) = yeses gs
yeses (expired ∷ gs) = yeses gs
yeses (closed ∷ gs) = yeses gs

-- Taps on the approving button that an approval takes.
abbrev taps_needed : Bool → Bool → ℕ
taps_needed changed armed = if changed && not armed then 2 else 1

pub host_key_ask-approved :
    (gs : List Gesture) (changed armed remember b : Bool)
    → host_key_ask changed armed remember gs ≡ approved b
    → (taps_needed changed armed ≤ yeses gs) × ((changed && b) ≡ false)
unfolding host_key_ask
host_key_ask-approved [] changed armed remember b h = absurd (cc)
host_key_ask-approved (yes ∷ gs) true false remember b h =
    let (taps, quiet) = host_key_ask-approved gs true true remember b h in
    (omega (arith, taps), quiet)
host_key_ask-approved (yes ∷ gs) true true remember b h = (omega arith, ground arith)
host_key_ask-approved (yes ∷ gs) false armed remember b h = (omega arith, refl)
host_key_ask-approved (no ∷ gs) changed armed remember b h = absurd (cc)
host_key_ask-approved (check ∷ gs) changed armed remember b h =
    host_key_ask-approved gs changed armed (not remember) b h
host_key_ask-approved (expired ∷ gs) changed armed remember b h =
    let (taps, quiet) = host_key_ask-approved gs changed false remember b h in (ground arith, quiet)
host_key_ask-approved (closed ∷ gs) changed armed remember b h = absurd (cc)

-- The ways a connection is allowed: by the pin; for a key never seen from there; or for another key
-- than the approved one, which takes two taps and changes no pin.
pub data IsConsented (s : Stored) (id : Option Text) (fp : Text) (gs : List Gesture) (c : Confirmed)
    : Type 0 where
  by_pin :
      is_match (pinned_at id s) fp ≡ true
      → c.asked ≡ false
      → c.stored ≡ s
      → IsConsented s id fp gs c
  first_key :
      is_some (pinned_at id s) ≡ false → c.asked ≡ true → 1 ≤ yeses gs → IsConsented s id fp gs c
  changed_key :
      is_some (pinned_at id s) ≡ true
      → is_match (pinned_at id s) fp ≡ false
      → c.asked ≡ true
      → 2 ≤ yeses gs
      → c.stored ≡ s
      → IsConsented s id fp gs c

remembered_off :
    (accepted : Bool) (now : Text) (id : Option Text) (fp : Text) (s : Stored)
    → remembered accepted now id fp false s ≡ s
remembered_off accepted now none fp s = refl
remembered_off accepted now (some i) fp s = refl

settled-IsConsented :
    (accepted : Bool) (now fp : Text) (id : Option Text) (gs : List Gesture) (s : Stored)
    (r : Reply) (changed : Bool)
    → is_some (pinned_at id s) ≡ changed
    → is_match (pinned_at id s) fp ≡ false
    → host_key_ask changed false false gs ≡ r
    → (settled accepted now id fp r s).allowed ≡ some true
    → IsConsented s id fp gs (settled accepted now id fp r s)
unfolding settled
settled-IsConsented accepted now fp id gs s pending changed known other asked h = absurd (cc)
settled-IsConsented accepted now fp id gs s dismissed changed known other asked h = absurd (cc)
settled-IsConsented accepted now fp id gs s refused changed known other asked h = absurd (cc)
settled-IsConsented accepted now fp id gs s (approved b) false known other asked h =
    first_key known refl (host_key_ask-approved gs false false false b asked).0
settled-IsConsented accepted now fp id gs s (approved b) true known other asked h =
    let (taps, quiet) = host_key_ask-approved gs true false false b asked in
    changed_key known other refl taps
      (ap (λ x. remembered accepted now id fp x s) quiet ∙ remembered_off accepted now id fp s)

pub confirm_for-asked :
    (accepted : Bool) (now fp : Text) (id : Option Text) (gs : List Gesture) (s : Stored)
    → is_match (pinned_at id s) fp ≡ false
    → confirm_for accepted now fp id gs s
      ≡ settled accepted now id fp (host_key_ask (is_some (pinned_at id s)) false false gs) s
unfolding confirm_for
confirm_for-asked accepted now fp id gs s e = rw e refl

-- A host key is accepted in just three cases: it is the pinned one, byte for byte, and nothing is
-- asked; no key is pinned for the endpoint, and the user approved this one; or another key is pinned,
-- the user tapped the approving button twice or more, and the pin stays as it was.
pub confirm_host_key-IsConsented :
    (w : Browser) (u : Urls) (accepted : Bool) (now fp connstring : Text) (gs : List Gesture)
    (s : Stored)
    → (confirm_host_key w u accepted now fp connstring gs s).allowed ≡ some true
    → IsConsented s
        (endpoint_id_of w (connstring_from u connstring))
        fp
        gs
        (confirm_host_key w u accepted now fp connstring gs s)
unfolding confirm_host_key confirm_for
confirm_host_key-IsConsented w u accepted now fp connstring gs s h =
    let id = endpoint_id_of w (connstring_from u connstring) in
    elim (Bool-cases (is_match (pinned_at id s) fp)) [
      | inl e ↦ rw e (by_pin e refl refl)
      | inr e ↦
          let asked = confirm_for-asked accepted now fp id gs s e in
          subst (IsConsented s id fp gs) (sym asked) (
            settled-IsConsented accepted now fp id gs s _ _ refl e refl
              (ap (λ c. c.allowed) (sym asked) ∙ h))
    ]
