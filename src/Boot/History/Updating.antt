-- ===== src/Boot/History/Updating.antt =====
-- An update never brings back a connection that the user chose not to remember.
use wosh.Prelude.{
  ℕ, zero, suc, ◌≡◌, refl, ◌∙◌, ap, Bool, true, List, [], ◌∷◌, map, none, some, take, Text,
  Bool-cases, inl, inr,
}
use wosh.Boot.History.{
  Storage, Connection, coerce, loaded, load_history, to_stored, save_history, history_cap,
}
use wosh.Boot.History.Operations.{is_at, find_at, update_at, update_hit, update_connection}

abbrev pub account : Connection → Text × Text
account c = (c.id, c.user)

abbrev pub accounts : List Connection → List (Text × Text)
accounts [] = []
accounts (c ∷ cs) = account c ∷ accounts cs

accounts-update_at :
    (id user : Text) (patch : Connection → Connection) (cs : List Connection)
    → ((c : Connection) → account (patch c) ≡ account c)
    → accounts (update_at id user patch cs) ≡ accounts cs
unfolding update_at
accounts-update_at id user patch [] h = refl
accounts-update_at id user patch (c ∷ cs) h = elim (Bool-cases (is_at id user c)) [
  | inl e ↦ rw e (ap (λ a. a ∷ accounts cs) (h c))
  | inr e ↦ rw e (ap (account c ∷◌) (accounts-update_at id user patch cs h))
]

accounts-loaded :
    (cs : List Connection) → accounts (loaded (map (λ c. some (to_stored c)) cs)) ≡ accounts cs
unfolding loaded coerce to_stored
accounts-loaded [] = refl
accounts-loaded (c ∷ cs) = ap (account c ∷◌) (accounts-loaded cs)

accounts-take : (n : ℕ) (cs : List Connection) → accounts (take n cs) ≡ take n (accounts cs)
accounts-take zero cs = refl
accounts-take (suc n) [] = refl
accounts-take (suc n) (c ∷ cs) = ap (account c ∷◌) (accounts-take n cs)

-- Without an entry for that account an update stores nothing.
pub update_connection-missed :
    (accepted : Bool) (id user : Text) (patch : Connection → Connection) (s : Storage)
    → find_at id user (load_history s) ≡ none
    → update_connection accepted id user patch s ≡ s
unfolding update_connection update_hit
update_connection-missed accepted id user patch s missed =
    ap (update_hit accepted id user patch s) missed

-- When storage accepts, an update that keeps an entry's endpoint and user leaves the history with the
-- same accounts in the same order, up to the cap.
update_connection-accounts :
    (id user : Text) (patch : Connection → Connection) (s : Storage) (hit : Connection)
    → ((c : Connection) → account (patch c) ≡ account c)
    → find_at id user (load_history s) ≡ some hit
    → accounts (load_history (update_connection true id user patch s))
      ≡ take history_cap (accounts (load_history s))
unfolding update_connection update_hit save_history load_history
update_connection-accounts id user patch s hit h found =
    ap (λ o. accounts (load_history (update_hit true id user patch s o))) found
    ∙ (accounts-loaded (take history_cap (update_at id user patch (load_history s)))
        ∙ (accounts-take history_cap (update_at id user patch (load_history s))
            ∙ ap (take history_cap) (accounts-update_at id user patch (load_history s) h)))
