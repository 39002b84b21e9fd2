-- ===== src/PasskeyStore/Asserted.antt =====
-- What an assertion leaves behind.
use wosh.Prelude.{◌≡◌, refl, sym, ap, ◌∙◌, subst, true, false, some, inl, inr, Bool-cases, Text}
use wosh.Prelude.Results.{
  Access, closed, working, refused, Result, ok, err, >>=-returned, Result-cases,
}
use wosh.PasskeyStore.Records.{Bytes, StoredIdentity, Kept, load_record, save_record}
use wosh.PasskeyStore.Ceremonies.{Assertion, Picked, Page, present, verify_assertion, maybe_gate}
use wosh.PasskeyStore.Asserting.{request_for, learned, has_learned, asserted, assert_from, assert}
use wosh.PasskeyStore.Verified.{exchanged, present-eq-ok}

module _ (w : Page) (challenge : Bytes) where
  -- The record was kept, the gate let it pass, and what was picked for it verifies against its key.
  abbrev pub IsProved : Access → Kept → StoredIdentity → Picked → Type 0
  IsProved reading s r p =
      (load_record reading s ≡ ok (some r))
      × (maybe_gate w.is_active w.ceremony_gate ≡ ok tt)
      × (w.get (request_for challenge r) ≡ ok (some p))
      × (verify_assertion w.crypto r.public_key p.assertion ≡ ok true)

  asserted-IsProved :
      (reading : Access) (s : Kept) {x : StoredIdentity × Picked}
      → asserted w challenge reading s ≡ ok x
      → IsProved reading s x.0 x.1
  unfolding asserted
  asserted-IsProved reading s {x} h =
      let (stored, loaded, h1) = >>=-returned (load_record reading s) _ h in
      let (r, got, h2) = >>=-returned (present _ stored) _ h1 in
      let (_, gated, h3) = >>=-returned (maybe_gate w.is_active w.ceremony_gate) _ h2 in
      let (p, asked, verified, made) =
        exchanged (w.get (request_for challenge r))
          (λ p. verify_assertion w.crypto r.public_key p.assertion) _ _ (λ p. (r, p)) h3 in
      subst (λ y. IsProved reading s y.0 y.1) made
        (loaded ∙ ap ok (present-eq-ok _ stored got), gated, asked, verified)

  -- How `assert` ends: it throws and keeps what was kept; or it returns what was picked, and saves
  -- what that taught it, if anything.
  pub data IsAssert (reading writing : Access) (s : Kept) (done : Result Assertion × Kept)
      : Type 0 where
    thrown : (e : Text) → done.0 ≡ err e → done.1 ≡ s → IsAssert reading writing s done
    unchanged :
        (r : StoredIdentity) (p : Picked)
        → IsProved reading s r p
        → has_learned r p ≡ false
        → done ≡ (ok p.assertion, s)
        → IsAssert reading writing s done
    taught :
        (r : StoredIdentity) (p : Picked)
        → IsProved reading s r p
        → save_record writing (learned r p) s ≡ (ok tt, done.1)
        → done.0 ≡ ok p.assertion
        → IsAssert reading writing s done

  taught-IsAssert :
      (reading writing : Access) (s : Kept) (r : StoredIdentity) (p : Picked)
      → IsProved reading s r p
      → has_learned r p ≡ true
      → IsAssert reading writing s (assert_from writing (ok (r, p)) s)
  unfolding save_record
  taught-IsAssert reading closed s r p h e = rw e (taught r p h refl refl)
  taught-IsAssert reading working s r p h e = rw e (taught r p h refl refl)
  taught-IsAssert reading (refused m) s r p h e = rw e (thrown _ refl refl)

  proved-IsAssert :
      (reading writing : Access) (s : Kept) (r : StoredIdentity) (p : Picked)
      → IsProved reading s r p
      → IsAssert reading writing s (assert_from writing (ok (r, p)) s)
  proved-IsAssert reading writing s r p h = elim (Bool-cases (has_learned r p)) [
    | inl e ↦ taught-IsAssert reading writing s r p h e
    | inr e ↦ rw e (unchanged r p h e refl)
  ]

  -- An assertion is returned only if it was made for the kept passkey and verifies against its key,
  -- and what is returned is what the authenticator gave; where `assert` throws, nothing kept has
  -- changed.
  pub assert-IsAssert :
      (reading writing : Access) (s : Kept)
      → IsAssert reading writing s (assert w challenge reading writing s)
  unfolding assert
  assert-IsAssert reading writing s = elim (Result-cases (asserted w challenge reading s)) [
    | inl (x, e) ↦
        subst (λ m. IsAssert reading writing s (assert_from writing m s)) (sym e)
          (proved-IsAssert reading writing s x.0 x.1 (asserted-IsProved reading s e))
    | inr (m, e) ↦
        subst (λ m. IsAssert reading writing s (assert_from writing m s)) (sym e)
          (thrown _ refl refl)
  ]
