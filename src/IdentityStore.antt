-- ===== src/IdentityStore.antt =====
-- The SSH identity that the tabs of one browser share: site/identity-store.ts. WebCrypto's keys are
-- known by what `usable` asks of them.
mod Agreement
mod Answers
mod Tests
use wosh.Prelude.{
  ℕ, suc, ◌==◌, Bool, true, false, ◌&&◌, ◌||◌, not, List, [], ◌∷◌, Option, none, some,
  if◌then◌else◌, Text, codes, text_eq,
}
use mathlib.Core.Option
use wosh.Prelude.Results.{err_arm, Result, ok, err, ◌>>=◌}

pub record CryptoKey : Type 0 where
  pub id : ℕ
  pub algorithm : Text
  pub extractable : Bool
  pub usages : List Text

pub record CryptoKeyPair : Type 0 where
  pub private_key : CryptoKey
  pub public_key : CryptoKey

-- What the database has under the key: nothing or no object, or an object whose two properties are
-- keys or not.
pub data Value : Type 0 where
  no_object : Value
  object : Option CryptoKey → Option CryptoKey → Value

abbrev has_usage : Text → List Text → Bool
has_usage u [] = false
has_usage u (v ∷ vs) = text_eq u v || has_usage u vs

abbrev is_signing : CryptoKey → Bool
is_signing k =
    text_eq k.algorithm (codes "Ed25519") && not k.extractable && has_usage (codes "sign") k.usages

abbrev pair_of : CryptoKey → CryptoKey → CryptoKeyPair
pair_of private public = record { private_key = private; public_key = public }

-- `usable`, with the value as what it is then taken for
unfoldable pub usable : Value → Option CryptoKeyPair
unfolding text_eq
usable no_object = none
usable (object none public) = none
usable (object (some private) none) = none
usable (object (some private) (some public)) =
    if is_signing private then some (pair_of private public) else none

abbrev pub value_of_pair : CryptoKeyPair → Value
value_of_pair p = object (some p.private_key) (some p.public_key)

-- How far `identityPair` has come in a tab. A pair that the tab has is the kept one, or one of its own
-- for this page load.
pub data TabPhase : Type 0 where
  idle opening reading minting falling_back : TabPhase
  rejected : Text → TabPhase
  settling kept ephemeral : CryptoKeyPair → TabPhase

-- What happens in a tab: the next thing that `identityPair` does there or waits for, with whether the
-- database does it, or a new page load.
pub data Happening : Type 0 where
  goes_on : Bool → Happening
  reloaded : Happening

pub record Browser : Type 0 where
  pub stored : Value
  pub generations : ℕ
  pub tabs : ℕ → TabPhase

-- What a tab comes to, with what is stored and the count of generated pairs.
pub record Outcome : Type 0 where
  pub phase : TabPhase
  pub stored : Value
  pub generations : ℕ

abbrev pub outcome : TabPhase → Value → ℕ → Outcome
outcome ph v n = record { phase = ph; stored = v; generations = n }

abbrev pub after_reading : Option CryptoKeyPair → TabPhase
after_reading (some p) = kept p
after_reading none = minting

abbrev pub after_minting : Result CryptoKeyPair → TabPhase
after_minting (ok p) = settling p
after_minting (err e) = falling_back

abbrev pub after_falling_back : Result CryptoKeyPair → TabPhase
after_falling_back (ok p) = ephemeral p
after_falling_back (err e) = rejected e

-- The second transaction: what is there already wins.
abbrev pub race : CryptoKeyPair → Value → ℕ → Option CryptoKeyPair → Outcome
race candidate v n (some winner) = outcome (kept winner) v n
race candidate v n none = outcome (kept candidate) (value_of_pair candidate) n

abbrev pub set_tab : ℕ → TabPhase → (ℕ → TabPhase) → ℕ → TabPhase
set_tab i ph tabs j = if i == j then ph else tabs j

-- `crypto.subtle.generateKey`, by the calls of it so far, which rejects or gives a pair.
module _ (mint : ℕ → Result CryptoKeyPair) where
  -- `identityPair` and `loadOrMint`
  unfoldable pub happen : Happening → TabPhase → Value → ℕ → Outcome
  unfolding usable
  happen reloaded ph v n = outcome idle v n
  happen (goes_on good) idle v n = outcome opening v n
  happen (goes_on true) opening v n = outcome reading v n
  happen (goes_on false) opening v n = outcome falling_back v n
  happen (goes_on true) reading v n = outcome (after_reading (usable v)) v n
  happen (goes_on false) reading v n = outcome falling_back v n
  happen (goes_on good) minting v n = outcome (after_minting (mint n)) v (suc n)
  happen (goes_on true) (settling p) v n = race p v n (usable v)
  happen (goes_on false) (settling p) v n = outcome falling_back v n
  happen (goes_on good) falling_back v n = outcome (after_falling_back (mint n)) v (suc n)
  happen (goes_on good) (kept p) v n = outcome (kept p) v n
  happen (goes_on good) (ephemeral p) v n = outcome (ephemeral p) v n
  happen (goes_on good) (rejected e) v n = outcome (rejected e) v n

  unfoldable pub step : ℕ × Happening → Browser → Browser
  unfolding happen
  step (i, h) w =
      let o = happen h (w.tabs i) w.stored w.generations in
      record { stored = o.stored; generations = o.generations; tabs = set_tab i o.phase w.tabs }

  unfoldable pub run : List (ℕ × Happening) → Browser → Browser
  unfolding step
  run [] w = w
  run (e ∷ es) w = run es (step e w)

-- What `pairPromise` has come to, if it has settled.
abbrev pub settled_pair : TabPhase → Option (Result CryptoKeyPair)
settled_pair (kept p) = some (ok p)
settled_pair (ephemeral p) = some (ok p)
settled_pair (rejected e) = some (err e)
settled_pair ph = none

-- `publicKey` and `sign`, once the promise has settled
module _ (export_raw : CryptoKey → Result (List ℕ))
    (sign_with : CryptoKey → List ℕ → Result (List ℕ)) where
  unfoldable pub public_key : TabPhase → Option (Result (List ℕ))
  public_key ph =
      Option.map
        (λ m. err_arm (codes "ssh identity public key") (do pair ← m; export_raw pair.public_key))
        (settled_pair ph)

  unfoldable pub sign : List ℕ → TabPhase → Option (Result (List ℕ))
  sign data_ ph =
      Option.map
        (λ m. err_arm (codes "ssh identity sign") (do pair ← m; sign_with pair.private_key data_))
        (settled_pair ph)
