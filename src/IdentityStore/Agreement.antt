-- ===== src/IdentityStore/Agreement.antt =====
-- The tabs agree on the identity that is stored.
use wosh.Prelude.{
  ℕ, suc, ◌==◌, ◌≡◌, refl, sym, ◌∙◌, subst, true, false, List, [], ◌∷◌, Option, none, some, inl,
  inr, Bool-cases,
}
use wosh.Prelude.Results.{Result, ok, err}
use wosh.IdentityStore.{
  CryptoKeyPair, Value, usable, value_of_pair, TabPhase, idle, opening, reading, minting,
  falling_back, rejected, settling, kept, ephemeral, Happening, goes_on, reloaded,
  after_falling_back, set_tab, Browser, Outcome, outcome, after_reading, after_minting, race,
  happen, step, run,
}

-- A tab that has the kept pair has what is stored, and a pair about to be stored is usable.
abbrev Fits : Value → TabPhase → Type 0
Fits v (kept p) = usable v ≡ some p
Fits v (settling p) = usable (value_of_pair p) ≡ some p
Fits v ph = Unit

-- Nothing takes the place of an identity.
abbrev IsHeld : Value → Value → Type 0
IsHeld v u = (p : CryptoKeyPair) → usable v ≡ some p → usable u ≡ some p

Fits-IsHeld : (v u : Value) (ph : TabPhase) → IsHeld v u → Fits v ph → Fits u ph
Fits-IsHeld v u (kept p) held f = held p f
Fits-IsHeld v u (settling p) held f = f
Fits-IsHeld v u idle held f = tt
Fits-IsHeld v u opening held f = tt
Fits-IsHeld v u reading held f = tt
Fits-IsHeld v u minting held f = tt
Fits-IsHeld v u falling_back held f = tt
Fits-IsHeld v u (rejected e) held f = tt
Fits-IsHeld v u (ephemeral p) held f = tt

module _ (mint : ℕ → Result CryptoKeyPair) where
  -- A key pair that is made is one that `usable` accepts.
  abbrev pub IsSound : Type 0
  IsSound = (n : ℕ) (p : CryptoKeyPair) → mint n ≡ ok p → usable (value_of_pair p) ≡ some p

  abbrev IsKept : Value → Outcome → Type 0
  IsKept v o = Fits o.stored o.phase × IsHeld v o.stored

  read-IsKept :
      (v : Value) (n : ℕ) (m : Option CryptoKeyPair)
      → usable v ≡ m
      → IsKept v (outcome (after_reading m) v n)
  read-IsKept v n (some p) e = (e, λ q h. h)
  read-IsKept v n none e = (tt, λ q h. h)

  mint-IsKept :
      IsSound
      → (v : Value) (n k : ℕ) (m : Result CryptoKeyPair) → mint n ≡ m
      → IsKept v (outcome (after_minting m) v k)
  mint-IsKept sound v n k (ok p) e = (sound n p e, λ q h. h)
  mint-IsKept sound v n k (err x) e = (tt, λ q h. h)

  fall-IsKept :
      (v : Value) (k : ℕ) (m : Result CryptoKeyPair) → IsKept v (outcome (after_falling_back m) v k)
  fall-IsKept v k (ok p) = (tt, λ q h. h)
  fall-IsKept v k (err x) = (tt, λ q h. h)

  race-IsKept :
      (p : CryptoKeyPair) (v : Value) (n : ℕ) (m : Option CryptoKeyPair)
      → usable v ≡ m
      → usable (value_of_pair p) ≡ some p
      → IsKept v (race p v n m)
  race-IsKept p v n (some q) e f = (e, λ q h. h)
  race-IsKept p v n none e f = (f, λ q h. absurd (cc))

  happen-IsKept :
      IsSound
      → (h : Happening) (ph : TabPhase) (v : Value) (n : ℕ) → Fits v ph
      → IsKept v (happen mint h ph v n)
  unfolding happen
  happen-IsKept sound reloaded ph v n f = (tt, λ q h. h)
  happen-IsKept sound (goes_on good) idle v n f = (tt, λ q h. h)
  happen-IsKept sound (goes_on true) opening v n f = (tt, λ q h. h)
  happen-IsKept sound (goes_on false) opening v n f = (tt, λ q h. h)
  happen-IsKept sound (goes_on true) reading v n f = read-IsKept v n (usable v) refl
  happen-IsKept sound (goes_on false) reading v n f = (tt, λ q h. h)
  happen-IsKept sound (goes_on good) minting v n f = mint-IsKept sound v n (suc n) (mint n) refl
  happen-IsKept sound (goes_on true) (settling p) v n f = race-IsKept p v n (usable v) refl f
  happen-IsKept sound (goes_on false) (settling p) v n f = (tt, λ q h. h)
  happen-IsKept sound (goes_on good) falling_back v n f = fall-IsKept v (suc n) (mint n)
  happen-IsKept sound (goes_on good) (kept p) v n f = (f, λ q h. h)
  happen-IsKept sound (goes_on good) (ephemeral p) v n f = (f, λ q h. h)
  happen-IsKept sound (goes_on good) (rejected e) v n f = (f, λ q h. h)

  abbrev AllFit : Browser → Type 0
  AllFit w = (i : ℕ) → Fits w.stored (w.tabs i)

  step-AllFit :
      IsSound
      → (e : ℕ × Happening) (w : Browser) → AllFit w
      → AllFit (step mint e w) × IsHeld w.stored (step mint e w).stored
  unfolding step
  step-AllFit sound (i, h) w f =
      let (mine, held) = happen-IsKept sound h (w.tabs i) w.stored w.generations (f i) in
      let o : Outcome = happen mint h (w.tabs i) w.stored w.generations in
      let each : (j : ℕ) → Fits o.stored (set_tab i o.phase w.tabs j) = λ j.
        elim (Bool-cases (i == j)) [
          | inl e ↦ rw e mine
          | inr e ↦ rw e (Fits-IsHeld w.stored o.stored (w.tabs j) held (f j))
        ] in
      (each, held)

  run-AllFit :
      IsSound
      → (es : List (ℕ × Happening)) (w : Browser) → AllFit w
      → AllFit (run mint es w) × IsHeld w.stored (run mint es w).stored
  unfolding run
  run-AllFit sound [] w f = (f, λ p h. h)
  run-AllFit sound (e ∷ es) w f =
      let (fits, held) = step-AllFit sound e w f in
      let (fits', held') = run-AllFit sound es (step mint e w) fits in
      (fits', λ p h. held' p (held p h))

  -- No tab has been asked yet.
  abbrev pub waiting : Value → ℕ → Browser
  waiting v n = record { stored = v; generations = n; tabs = λ i. idle }

  -- However the tabs of a browser take turns, are reloaded and fail, two that have a stored identity
  -- have the same one, and it is still the one that the database has.
  pub run-agrees :
      IsSound
      → (es : List (ℕ × Happening)) (v : Value) (n i j : ℕ) {p q : CryptoKeyPair}
      → (run mint es (waiting v n)).tabs i ≡ kept p
      → (run mint es (waiting v n)).tabs j ≡ kept q
      → (p ≡ q) × (usable (run mint es (waiting v n)).stored ≡ some p)
  run-agrees sound es v n i j {p} {q} hp hq =
      let w : Browser = run mint es (waiting v n) in
      let (fits, _) = run-AllFit sound es (waiting v n) (λ k. tt) in
      let of_p : usable w.stored ≡ some p = subst (Fits w.stored) hp (fits i) in
      let of_q : usable w.stored ≡ some q = subst (Fits w.stored) hq (fits j) in
      (some_injective (sym of_p ∙ of_q), of_p)
    where
      some_injective : {a b : CryptoKeyPair} → some a ≡ some b → a ≡ b
      some_injective h = cc

  -- An identity that is stored is not replaced, whatever the tabs do.
  stored-run :
      IsSound
      → (es : List (ℕ × Happening)) (v : Value) (n : ℕ) {p : CryptoKeyPair} → usable v ≡ some p
      → usable (run mint es (waiting v n)).stored ≡ some p
  stored-run sound es v n {p} h = (run-AllFit sound es (waiting v n) (λ i. tt)).1 p h
