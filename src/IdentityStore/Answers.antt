-- ===== src/IdentityStore/Answers.antt =====
-- A page answers for one pair.
use wosh.Prelude.{
  ℕ, ◌==◌, ◌≡◌, refl, sym, ap, ◌∙◌, subst, Bool, false, List, [], ◌∷◌, some, inl, inr, Bool-cases,
  ==_iff, ==_refl, All, codes,
}
use wosh.Prelude.Results.{err_arm, Result, ok}
use wosh.IdentityStore.{
  CryptoKey, public_key, sign, CryptoKeyPair, Value, TabPhase, idle, opening, reading, minting,
  falling_back, rejected, settling, kept, ephemeral, Happening, goes_on, reloaded, settled_pair,
  Browser, happen, step, run,
}

module _ (mint : ℕ → Result CryptoKeyPair) where
  -- An event that is no new page load of a tab.
  abbrev pub IsOther : ℕ → ℕ × Happening → Type 0
  IsOther i (j, goes_on good) = Unit
  IsOther i (j, reloaded) = j == i ≡ false

  happen-settled :
      (good : Bool) (ph : TabPhase) (v : Value) (n : ℕ) {m : Result CryptoKeyPair}
      → settled_pair ph ≡ some m
      → (happen mint (goes_on good) ph v n).phase ≡ ph
  unfolding happen
  happen-settled good (kept p) v n h = refl
  happen-settled good (ephemeral p) v n h = refl
  happen-settled good (rejected e) v n h = refl
  happen-settled good idle v n h = absurd (cc)
  happen-settled good opening v n h = absurd (cc)
  happen-settled good reading v n h = absurd (cc)
  happen-settled good minting v n h = absurd (cc)
  happen-settled good (settling p) v n h = absurd (cc)
  happen-settled good falling_back v n h = absurd (cc)

  own-settled :
      (good : Bool) (w : Browser) (i : ℕ) {m : Result CryptoKeyPair}
      → settled_pair (w.tabs i) ≡ some m
      → (step mint (i, goes_on good) w).tabs i ≡ w.tabs i
  unfolding step
  own-settled good w i h = rw (==_refl i) (happen-settled good (w.tabs i) w.stored w.generations h)

  step-settled :
      (e : ℕ × Happening) (w : Browser) (i : ℕ) {m : Result CryptoKeyPair}
      → IsOther i e
      → settled_pair (w.tabs i) ≡ some m
      → (step mint e w).tabs i ≡ w.tabs i
  unfolding step
  step-settled (j, goes_on good) w i o h = elim (Bool-cases (j == i)) [
    | inl e ↦
        subst (λ k. (step mint (k, goes_on good) w).tabs i ≡ w.tabs i) (sym ((==_iff j i).0 e))
          (own-settled good w i h)
    | inr e ↦ rw e refl
  ]
  step-settled (j, reloaded) w i o h = rw o refl

  run-settled :
      (es : List (ℕ × Happening)) (w : Browser) (i : ℕ) {m : Result CryptoKeyPair}
      → All (IsOther i) es
      → settled_pair (w.tabs i) ≡ some m
      → (run mint es w).tabs i ≡ w.tabs i
  unfolding run
  run-settled [] w i o h = refl
  run-settled (e ∷ es) w i {m} (o, os) h =
      let here : (step mint e w).tabs i ≡ w.tabs i = step-settled e w i o h in
      run-settled es (step mint e w) i os (ap settled_pair here ∙ h) ∙ here

  -- Once a page has settled on a pair, `publicKey` and `sign` answer for that pair until the page is
  -- loaded again, whatever it and the other tabs do.
  settled-run :
      (export_raw : CryptoKey → Result (List ℕ)) (sign_with : CryptoKey → List ℕ → Result (List ℕ))
      (es : List (ℕ × Happening)) (w : Browser) (i : ℕ) (data_ : List ℕ) {p : CryptoKeyPair}
      → All (IsOther i) es
      → settled_pair (w.tabs i) ≡ some (ok p)
      → (public_key export_raw sign_with ((run mint es w).tabs i)
          ≡ some (err_arm (codes "ssh identity public key") (export_raw p.public_key)))
        × (sign export_raw sign_with data_ ((run mint es w).tabs i)
            ≡ some (err_arm (codes "ssh identity sign") (sign_with p.private_key data_)))
  unfolding public_key sign
  settled-run export_raw sign_with es w i data_ os h =
      let same = ap settled_pair (run-settled es w i os h) ∙ h in rw same (refl, refl)
