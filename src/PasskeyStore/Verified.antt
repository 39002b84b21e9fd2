-- ===== src/PasskeyStore/Verified.antt =====
-- What a signature must pass before a passkey is stored or used.
use wosh.Prelude.{
  ◌≡◌, refl, sym, ap, ◌∙◌, subst, Bool, true, false, Option, none, some, inl, inr, Text, text_eq,
  text_eq_iff,
}
use wosh.Prelude.Results.{
  Access, closed, working, refused, Result, ok, err, ◌>>=◌, >>=-returned, Result-cases,
  ok_injective,
}
use wosh.PasskeyStore.Records.{Bytes, StoredIdentity, stored_identity, Kept, save_record}
use wosh.PasskeyStore.Ceremonies.{Picked, Page, present, ensure, verify_assertion, PasskeyIdentity}
use wosh.PasskeyStore.Asserting.{adopt_from, taught_transports, blind_request, confirmed, adopt}

pub present-eq-ok : {A : Type 0} (e : Text) (o : Option A) {a : A} → present e o ≡ ok a → o ≡ some a
present-eq-ok e none h = absurd (cc)
present-eq-ok e (some a) h = cc

ensure-eq-ok : (e : Text) (b : Bool) {u : Unit {0}} → ensure e b ≡ ok u → b ≡ true
ensure-eq-ok e true h = refl
ensure-eq-ok e false h = absurd (cc)

-- A ceremony that succeeds: what was picked, and that it verifies.
pub exchanged :
    {A : Type 0} (g : Result (Option Picked)) (v : Picked → Result Bool) (e d : Text)
    (k : Picked → A) {a : A}
    → (g >>= λ given. present e given >>= λ p. v p >>= λ good. ensure d good >>= λ _. ok (k p))
      ≡ ok a
    → (p : Picked) × (g ≡ ok (some p)) × (v p ≡ ok true) × (k p ≡ a)
exchanged g v e d k h =
    let (given, asked, h1) = >>=-returned g _ h in
    let (p, got, h2) = >>=-returned (present e given) _ h1 in
    let (good, verified, h3) = >>=-returned (v p) _ h2 in
    let (_, passed, h4) = >>=-returned (ensure d good) _ h3 in
    (
      p,
      asked ∙ ap ok (present-eq-ok e given got),
      verified ∙ ap ok (ensure-eq-ok d good passed),
      ok_injective h4,
    )

module _ (w : Page) (challenge : Bytes) (candidate : PasskeyIdentity) where
  abbrev pub adopted_record : Picked → StoredIdentity
  adopted_record p =
      stored_identity (some p.raw_id) candidate.public_key candidate.relying_party
        (taught_transports p.attachment)

  -- The candidate is of this site, and an assertion made for it verifies against its key.
  abbrev pub IsConfirmed : Picked → Type 0
  IsConfirmed p =
      (candidate.relying_party ≡ w.hostname)
      × (w.get (blind_request challenge candidate.relying_party) ≡ ok (some p))
      × (verify_assertion w.crypto candidate.public_key p.assertion ≡ ok true)

  confirmed-IsConfirmed :
      {r : StoredIdentity}
      → confirmed w challenge candidate ≡ ok r
      → (p : Picked) × IsConfirmed p × (r ≡ adopted_record p)
  unfolding confirmed
  confirmed-IsConfirmed h =
      let (_, site, h1) =
        >>=-returned (ensure _ (text_eq candidate.relying_party w.hostname)) _ h in
      let (p, asked, verified, made) =
        exchanged (w.get (blind_request challenge candidate.relying_party))
          (λ p. verify_assertion w.crypto candidate.public_key p.assertion) _ _ adopted_record h1 in
      (p, ((text_eq_iff _ _).0 (ensure-eq-ok _ _ site), asked, verified), sym made)

  -- How `adopt` ends: it throws and keeps what was kept, or the record of a confirmed passkey is
  -- saved.
  pub data IsAdoption (access : Access) (s : Kept) (done : Result (Unit {0}) × Kept) : Type 0 where
    thrown : (e : Text) → done.0 ≡ err e → done.1 ≡ s → IsAdoption access s done
    stored :
        (p : Picked)
        → IsConfirmed p
        → done ≡ save_record access (adopted_record p) s
        → IsAdoption access s done

  saved-IsAdoption :
      (access : Access) (s : Kept) (p : Picked)
      → IsConfirmed p
      → IsAdoption access s (adopt_from access (ok (adopted_record p)) s)
  unfolding save_record
  saved-IsAdoption closed s p h = stored p h refl
  saved-IsAdoption working s p h = stored p h refl
  saved-IsAdoption (refused e) s p h = thrown _ refl refl

  -- A passkey is adopted only if it is of this site and the assertion that the authenticator then
  -- made verifies against the claimed key; where `adopt` throws, nothing kept has changed.
  pub adopt-IsAdoption :
      (access : Access) (s : Kept) → IsAdoption access s (adopt w challenge candidate access s)
  unfolding adopt
  adopt-IsAdoption access s = elim (Result-cases (confirmed w challenge candidate)) [
    | inl (r, e) ↦
        let (p, h, made) = confirmed-IsConfirmed e in
        subst (λ m. IsAdoption access s (adopt_from access m s)) (sym (e ∙ ap ok made))
          (saved-IsAdoption access s p h)
    | inr (m, e) ↦
        subst (λ m. IsAdoption access s (adopt_from access m s)) (sym e) (thrown _ refl refl)
  ]
