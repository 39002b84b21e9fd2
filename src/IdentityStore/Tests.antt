-- ===== src/IdentityStore/Tests.antt =====
-- Two tabs at concrete inputs.
use wosh.Prelude.{ℕ, ◌+◌, ◌≡◌, refl, subst, true, false, List, [], ◌∷◌, some, codes}
use wosh.Prelude.Results.{Result, ok, ok_injective}
use wosh.IdentityStore.{
  CryptoKey, CryptoKeyPair, no_object, value_of_pair, usable, kept, settled_pair, Happening,
  goes_on, reloaded, run,
}
use wosh.IdentityStore.Agreement.{waiting, IsSound, run-agrees}

abbrev key : ℕ → CryptoKey
key n = record {
  id = n;
  algorithm = codes "Ed25519";
  extractable = false;
  usages = codes "sign" ∷ [];
}

abbrev pair : ℕ → CryptoKeyPair
pair n = record { private_key = key n; public_key = key (n + 100) }

abbrev mint : ℕ → Result CryptoKeyPair
mint n = ok (pair n)

usable-pair : (n : ℕ) → usable (value_of_pair (pair n)) ≡ some (pair n)
unfolding usable
usable-pair n = refl

mint_sound : IsSound mint
mint_sound n p h = subst (λ q. usable (value_of_pair q) ≡ some q) (ok_injective h) (usable-pair n)

-- Both tabs find nothing and make a pair before either stores its own.
abbrev racing : List (ℕ × Happening)
racing =
    (0, goes_on true)
    ∷ (1, goes_on true)
    ∷ (0, goes_on true)
    ∷ (1, goes_on true)
    ∷ (0, goes_on true)
    ∷ (1, goes_on true)
    ∷ (0, goes_on true)
    ∷ (1, goes_on true)
    ∷ (1, goes_on true)
    ∷ (0, goes_on true)
    ∷ []

first_tab : (run mint racing (waiting mint no_object 0)).tabs 0 ≡ kept (pair 1)
unfolding run
first_tab = refl

second_tab : (run mint racing (waiting mint no_object 0)).tabs 1 ≡ kept (pair 1)
unfolding run
second_tab = refl

run-agrees_example :
    (pair 1 ≡ pair 1) × (usable (run mint racing (waiting mint no_object 0)).stored ≡ some (pair 1))
run-agrees_example = run-agrees mint mint_sound racing no_object 0 0 1 first_tab second_tab

abbrev export_raw : CryptoKey → Result (List ℕ)
export_raw k = ok (k.id ∷ [])

abbrev sign_with : CryptoKey → List ℕ → Result (List ℕ)
sign_with k bs = ok (k.id ∷ bs)

abbrev later : List (ℕ × Happening)
later = (1, reloaded) ∷ (0, goes_on true) ∷ []

settled_here :
    settled_pair ((run mint racing (waiting mint no_object 0)).tabs 0) ≡ some (ok (pair 1))
unfolding run
settled_here = refl
