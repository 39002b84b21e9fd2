-- ===== src/Boot/HostKeys/Pinned.antt =====
-- Host keys over time: connections that ask or do not, and approvals that are forgotten.
use wosh.Prelude.{
  ◌≡◌, refl, ap, subst, Bool, true, false, ◌||◌, List, [], ◌∷◌, Option, none, some, Bool-cases, inl,
  inr, arith, Text, text_eq_iff,
}
use wosh.Boot.Connstring.{Browser, endpoint_id_of}
use wosh.Boot.HostKeys.{
  Urls, connstring_from, Pin, Stored, unreadable, load_pins, find_pin, remove_pin, Gesture, Reply,
  pending, dismissed, refused, approved, host_key_ask, Confirmed, is_match, is_some, settled,
  confirm_for, confirm_host_key,
}
use wosh.Boot.HostKeys.Approvals.{confirm_for-asked}
use wosh.Boot.HostKeys.Backed.{
  remembers, IsBacked, IsBacked-weaken, find_pin-IsBacked, drop_pin-IsBacked, confirm_for-IsBacked,
}

-- The component presents a key for a connection string, and the user approves or not; or the user
-- forgets the approval of an endpoint. Storage accepts or not.
pub data Event : Type 0 where
  presented : Text → Text → List Gesture → Bool → Text → Event
  forgotten : Text → Bool → Event

settled_asks :
    (accepted : Bool) (now key : Text) (id : Option Text) (r : Reply) (s : Stored)
    → (settled accepted now id key r s).asked ≡ true
unfolding settled
settled_asks accepted now key id pending s = refl
settled_asks accepted now key id dismissed s = refl
settled_asks accepted now key id refused s = refl
settled_asks accepted now key id (approved b) s = refl

matched :
    (o : Option Pin) (key : Text)
    → is_match o key ≡ true
    → (p : Pin) × ((o ≡ some p) × (p.fp ≡ key))
unfolding is_match
matched none key h = absurd (cc)
matched (some p) key h = (p, (refl, (text_eq_iff p.fp key).0 h))

-- Without a question, the key is the pinned one.
confirm_for-quiet :
    (accepted : Bool) (now key i : Text) (gs : List Gesture) (s : Stored)
    → (confirm_for accepted now key (some i) gs s).asked ≡ false
    → (p : Pin) × ((find_pin i (load_pins s) ≡ some p) × (p.fp ≡ key))
confirm_for-quiet accepted now key i gs s quiet =
    elim (Bool-cases (is_match (find_pin i (load_pins s)) key)) [
      | inl e ↦ matched (find_pin i (load_pins s)) key e
      | inr e ↦ absurd (
          cc (
            ap (λ (c : Confirmed). c.asked) (confirm_for-asked accepted now key (some i) gs s e),
            settled_asks accepted now key (some i)
                (host_key_ask (is_some (find_pin i (load_pins s))) false false gs) s,
          ))
    ]

module _ (w : Browser) (u : Urls) where
  unfoldable pub step : Stored → Event → Stored
  unfolding confirm_host_key remove_pin
  step s (presented connstring fp gs accepted now) =
      (confirm_host_key w u accepted now fp connstring gs s).stored
  step s (forgotten i accepted) = remove_pin accepted i s

  unfoldable pub run : Stored → List Event → Stored
  unfolding step
  run s [] = s
  run s (e ∷ es) = run (step s e) es

  -- Whether the user approved that very key for that endpoint, with the checkbox checked.
  abbrev pub approves : Text → Text → Event → Bool
  approves i fp (presented connstring key gs accepted now) =
      remembers (endpoint_id_of w (connstring_from u connstring)) key gs i fp
  approves i fp (forgotten j accepted) = false

  abbrev pub has_approved : Text → Text → List Event → Bool
  has_approved i fp [] = false
  has_approved i fp (e ∷ es) = approves i fp e || has_approved i fp es

  -- What is known after an event
  abbrev learned : (Text → Text → Bool) → Event → Text → Text → Bool
  learned known e i fp = known i fp || approves i fp e

  weaken-learned :
      (known : Text → Text → Bool) (e : Event) (ps : List (Text × Pin))
      → IsBacked known ps
      → IsBacked (learned known e) ps
  weaken-learned known e ps h =
      IsBacked-weaken known (learned known e) ps (λ i fp k. ground (arith, k)) h

  step-IsBacked :
      (known : Text → Text → Bool) (s : Stored) (e : Event)
      → IsBacked known (load_pins s)
      → IsBacked (learned known e) (load_pins (step s e))
  unfolding step remove_pin load_pins
  step-IsBacked known s (forgotten i false) h = weaken-learned known (forgotten i false) _ h
  step-IsBacked known s (forgotten i true) h =
      weaken-learned known (forgotten i true) _ (drop_pin-IsBacked known i (load_pins s) h)
  step-IsBacked known s (presented connstring fp gs accepted now) h =
      confirm_for-IsBacked known accepted now fp (endpoint_id_of w (connstring_from u connstring))
        gs s h

  run-IsBacked :
      (es : List Event) (known : Text → Text → Bool) (s : Stored)
      → IsBacked known (load_pins s)
      → IsBacked (λ i fp. known i fp || has_approved i fp es) (load_pins (run s es))
  unfolding run
  run-IsBacked [] known s h =
      IsBacked-weaken known (λ i fp. known i fp || false) _ (λ i fp k. ground (arith, k)) h
  run-IsBacked (e ∷ es) known s h =
      IsBacked-weaken (λ i fp. learned known e i fp || has_approved i fp es)
        (λ i fp. known i fp || (approves i fp e || has_approved i fp es)) _
        (λ i fp k. ground (arith, k))
        (run-IsBacked es (learned known e) (step s e) (step-IsBacked known s e h))

  -- A connection is let through without a question only where the user has approved exactly that key
  -- for that endpoint at an earlier connection, with the box to remember it checked.
  pub confirm_host_key-has_approved :
      (es : List Event) (accepted : Bool) (now fp connstring : Text) (gs : List Gesture) (i : Text)
      → endpoint_id_of w (connstring_from u connstring) ≡ some i
      → (confirm_host_key w u accepted now fp connstring gs (run unreadable es)).asked ≡ false
      → has_approved i fp es ≡ true
  unfolding confirm_host_key IsBacked
  confirm_host_key-has_approved es accepted now fp connstring gs i at quiet =
      let s = run unreadable es in
      let plain = subst (λ o. (confirm_for accepted now fp o gs s).asked ≡ false) at quiet in
      let (p, (found, same)) = confirm_for-quiet accepted now fp i gs s plain in
      subst (λ k. has_approved i k es ≡ true) same
        (find_pin-IsBacked (λ j k. has_approved j k es) i p (load_pins s)
          (run-IsBacked es (λ j k. false) unreadable tt) found)
