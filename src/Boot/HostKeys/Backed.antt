-- ===== src/Boot/HostKeys/Backed.antt =====
-- Pins and what is known to be approved.
use wosh.Prelude.{
  ◌≡◌, refl, sym, subst, ◌⊎◌, Bool, true, false, ◌&&◌, ◌||◌, List, [], ◌∷◌, Option, none, some,
  if◌then◌else◌, Bool-cases, inl, inr, arith, Text, text_eq, text_eq_iff,
}
use wosh.Boot.HostKeys.{
  Pin, Stored, load_pins, find_pin, put_pin, drop_pin, save_pin, Gesture, Reply, pending, dismissed,
  refused, approved, host_key_ask, Confirmed, is_match, pinned_at, settled, confirm_for,
}
use wosh.Boot.HostKeys.Approvals.{host_key_ask-approved, confirm_for-asked}

picked :
    (b : Bool) (q p : Pin) (rest : Option Pin)
    → (if b then some q else rest) ≡ some p
    → ((b ≡ true) × (q ≡ p)) ⊎ (rest ≡ some p)
picked true q p rest h = inl (refl, cc)
picked false q p rest h = inr h

abbrev same_id : Option Text → Text → Bool
same_id none i = false
same_id (some j) i = text_eq j i

abbrev is_remembering : Reply → Bool
is_remembering pending = false
is_remembering dismissed = false
is_remembering refused = false
is_remembering (approved b) = b

-- Whether the sheet of a first connection ended in an approval of the key, to be remembered.
abbrev pub remembers : Option Text → Text → List Gesture → Text → Text → Bool
remembers id key gs i fp =
    same_id id i && (text_eq key fp && is_remembering (host_key_ask false false false gs))

unfoldable pub IsBacked : (Text → Text → Bool) → List (Text × Pin) → Type 0
IsBacked known [] = Unit
IsBacked known ((i, p) ∷ ps) = (known i p.fp ≡ true) × IsBacked known ps

pub IsBacked-weaken :
    (known more : Text → Text → Bool) (ps : List (Text × Pin))
    → ((i fp : Text) → known i fp ≡ true → more i fp ≡ true)
    → IsBacked known ps
    → IsBacked more ps
unfolding IsBacked
IsBacked-weaken known more [] f h = tt
IsBacked-weaken known more ((i, p) ∷ ps) f h = (f i p.fp h.0, IsBacked-weaken known more ps f h.1)

put_pin-IsBacked :
    (known : Text → Text → Bool) (i : Text) (p : Pin) (ps : List (Text × Pin))
    → known i p.fp ≡ true
    → IsBacked known ps
    → IsBacked known (put_pin i p ps)
unfolding IsBacked put_pin
put_pin-IsBacked known i p [] k h = (k, tt)
put_pin-IsBacked known i p ((j, q) ∷ ps) k h = elim (Bool-cases (text_eq j i)) [
  | inl e ↦ rw e (subst (λ x. known x p.fp ≡ true) (sym ((text_eq_iff j i).0 e)) k, h.1)
  | inr e ↦ rw e (h.0, put_pin-IsBacked known i p ps k h.1)
]

pub drop_pin-IsBacked :
    (known : Text → Text → Bool) (i : Text) (ps : List (Text × Pin))
    → IsBacked known ps
    → IsBacked known (drop_pin i ps)
unfolding IsBacked drop_pin
drop_pin-IsBacked known i [] h = tt
drop_pin-IsBacked known i ((j, q) ∷ ps) h = elim (Bool-cases (text_eq j i)) [
  | inl e ↦ rw e (drop_pin-IsBacked known i ps h.1)
  | inr e ↦ rw e (h.0, drop_pin-IsBacked known i ps h.1)
]

pub find_pin-IsBacked :
    (known : Text → Text → Bool) (i : Text) (p : Pin) (ps : List (Text × Pin))
    → IsBacked known ps
    → find_pin i ps ≡ some p
    → known i p.fp ≡ true
unfolding IsBacked find_pin
find_pin-IsBacked known i p [] h f = absurd (cc)
find_pin-IsBacked known i p ((j, q) ∷ ps) h f = elim (picked (text_eq j i) q p (find_pin i ps) f) [
  | inl (e, same) ↦
      subst (λ x. known x p.fp ≡ true) ((text_eq_iff j i).0 e)
        (subst (λ (x : Pin). known j x.fp ≡ true) same h.0)
  | inr rest ↦ find_pin-IsBacked known i p ps h.1 rest
]

text_eq_refl : (t : Text) → text_eq t t ≡ true
text_eq_refl t = (text_eq_iff t t).1 refl

remembers_itself :
    (i key : Text) (gs : List Gesture)
    → host_key_ask false false false gs ≡ approved true
    → remembers (some i) key gs i key ≡ true
remembers_itself i key gs asked = rw (text_eq_refl i, text_eq_refl key, asked) refl

-- With what an answer teaches
abbrev taught : (Text → Text → Bool) → Option Text → Text → List Gesture → Text → Text → Bool
taught known id key gs i fp = known i fp || remembers id key gs i fp

weaken-taught :
    (known : Text → Text → Bool) (id : Option Text) (key : Text) (gs : List Gesture)
    (ps : List (Text × Pin))
    → IsBacked known ps
    → IsBacked (taught known id key gs) ps
weaken-taught known id key gs ps h =
    IsBacked-weaken known (taught known id key gs) ps (λ i fp k. ground (arith, k)) h

settled-IsBacked :
    (known : Text → Text → Bool) (accepted : Bool) (now key : Text) (id : Option Text)
    (gs : List Gesture) (s : Stored)
    → (r : Reply) (changed : Bool) → host_key_ask changed false false gs ≡ r
    → IsBacked known (load_pins s)
    → IsBacked (taught known id key gs) (load_pins (settled accepted now id key r s).stored)
unfolding settled save_pin load_pins
settled-IsBacked known accepted now key id gs s pending c asked h =
    weaken-taught known id key gs _ h
settled-IsBacked known accepted now key id gs s dismissed c asked h =
    weaken-taught known id key gs _ h
settled-IsBacked known accepted now key id gs s refused c asked h =
    weaken-taught known id key gs _ h
settled-IsBacked known accepted now key none gs s (approved b) c asked h =
    weaken-taught known none key gs _ h
settled-IsBacked known accepted now key (some i) gs s (approved false) c asked h =
    weaken-taught known (some i) key gs _ h
settled-IsBacked known accepted now key (some i) gs s (approved true) true asked h =
    absurd (ground (arith, (host_key_ask-approved gs true false false true asked).1))
settled-IsBacked known false now key (some i) gs s (approved true) false asked h =
    weaken-taught known (some i) key gs _ h
settled-IsBacked known true now key (some i) gs s (approved true) false asked h =
    put_pin-IsBacked (taught known (some i) key gs) i (record { fp = key; at = now }) (load_pins s)
      (ground (arith, remembers_itself i key gs asked))
      (weaken-taught known (some i) key gs (load_pins s) h)

pub confirm_for-IsBacked :
    (known : Text → Text → Bool) (accepted : Bool) (now key : Text) (id : Option Text)
    (gs : List Gesture) (s : Stored)
    → IsBacked known (load_pins s)
    → IsBacked (taught known id key gs) (load_pins (confirm_for accepted now key id gs s).stored)
unfolding confirm_for
confirm_for-IsBacked known accepted now key id gs s h =
    elim (Bool-cases (is_match (pinned_at id s) key)) [
      | inl e ↦ rw e (weaken-taught known id key gs (load_pins s) h)
      | inr e ↦
          subst (λ (c : Confirmed). IsBacked (taught known id key gs) (load_pins c.stored))
            (sym (confirm_for-asked accepted now key id gs s e))
            (settled-IsBacked known accepted now key id gs s _ _ refl h)
    ]
