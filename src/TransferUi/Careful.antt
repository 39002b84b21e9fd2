-- ===== src/TransferUi/Careful.antt =====
-- What a staged file may be removed for.
use wosh.Prelude.{
  ℕ, ◌==◌, ◌≡◌, refl, sym, ap, ◌∙◌, subst, Bool, true, false, ◌&&◌, ◌||◌, List, [], ◌∷◌, ◌++◌,
  Option, none, some, ◌⊎◌, inl, inr, Bool-cases, ==_iff, ==_refl,
}
use wosh.TransferUi.Resumable.{SavedTransfer, TransferStore, SomeComplete, load_resumable_careful}
use wosh.TransferUi.Handoff.{
  Downloads, start, hand_off, first_due, Change, grown, finished, due, page_loaded, resumed,
  retried, discarded, reload, grow, change, change_all, has_handed,
}

-- The timers are of files that were handed over.
abbrev AllHanded : List SavedTransfer → List ℕ → Type 0
AllHanded [] js = Unit
AllHanded (r ∷ rs) js = (has_handed r.staging_id js ≡ true) × AllHanded rs js

AllHanded-more :
    (rs : List SavedTransfer) (j : ℕ) (js : List ℕ) → AllHanded rs js → AllHanded rs (j ∷ js)
AllHanded-more [] j js h = tt
AllHanded-more (r ∷ rs) j js (h, hs) = (or_true (r.staging_id == j) h, AllHanded-more rs j js hs)
  where
    or_true : (b : Bool) {c : Bool} → c ≡ true → (b || c) ≡ true
    or_true true h = refl
    or_true false h = h

AllHanded-append :
    (rs : List SavedTransfer) (r : SavedTransfer) (js : List ℕ)
    → AllHanded rs js
    → AllHanded (rs ++ r ∷ []) (r.staging_id ∷ js)
AllHanded-append [] r js h = (rw (==_refl r.staging_id) refl, tt)
AllHanded-append (q ∷ rs) r js h =
    ((AllHanded-more (q ∷ rs) r.staging_id js h).0, AllHanded-append rs r js h.1)

abbrev IsHanded : Downloads → Type 0
IsHanded d = AllHanded d.timers d.handed

hand_off-IsHanded :
    (r : SavedTransfer) (o : Option ℕ) (d : Downloads) → IsHanded d → IsHanded (hand_off r o d)
hand_off-IsHanded r none d h = h
hand_off-IsHanded r (some n) d h = AllHanded-append d.timers r d.handed h

first_due-IsHanded :
    (a b : Bool) (rs : List SavedTransfer) (d : Downloads)
    → AllHanded rs d.handed
    → IsHanded d
    → IsHanded (first_due a b rs d)
first_due-IsHanded a b [] d h k = k
first_due-IsHanded a b (r ∷ rs) d h k = h.1

change-IsHanded : (c : Change) (d : Downloads) → IsHanded d → IsHanded (change c d)
unfolding change
change-IsHanded (grown k n) d h = h
change-IsHanded (finished r good closes) d h =
    elim (Bool-cases (good && (r.is_download && closes))) [
      | inl e ↦ rw e (hand_off-IsHanded r (d.store.files r.staging_id) d h)
      | inr e ↦ rw e h
    ]
change-IsHanded (due a b) d h = first_due-IsHanded a b d.timers d h h
change-IsHanded page_loaded d h = tt
change-IsHanded (resumed r k) d h = h
change-IsHanded (retried r overwrite removes k) d h = h
change-IsHanded (discarded r) d h = h

change_all-IsHanded : (cs : List Change) (d : Downloads) → IsHanded d → IsHanded (change_all cs d)
unfolding change_all
change_all-IsHanded [] d h = h
change_all-IsHanded (c ∷ cs) d h = change_all-IsHanded cs (change c d) (change-IsHanded c d h)

-- What a staged file may go for: it was handed to the browser, it has reached the total of a record of
-- a download into it, or the user discards it or starts it over.
pub data IsExcused (k n : ℕ) (c : Change) (d : Downloads) : Type 0 where
  was_handed : has_handed k d.handed ≡ true → IsExcused k n c d
  was_complete : SomeComplete k n d.store.records → IsExcused k n c d
  was_discarded : (r : SavedTransfer) → c ≡ discarded r → r.staging_id ≡ k → IsExcused k n c d
  was_started_over :
      (r : SavedTransfer) (j : ℕ) → c ≡ retried r true true j → r.staging_id ≡ k → IsExcused k n c d

abbrev pub IsThere : ℕ → TransferStore → Type 0
IsThere k s = (m : ℕ) × (s.files k ≡ some m)

grow-IsThere : (k n j m : ℕ) (s : TransferStore) → s.files k ≡ some n → IsThere k (grow j m s)
grow-IsThere k n j m s h = elim (Bool-cases (k == j)) [
  | inl e ↦ (m, rw e refl)
  | inr e ↦ (n, rw e h)
]

hand_off-store :
    (r : SavedTransfer) (o : Option ℕ) (d : Downloads) → (hand_off r o d).store ≡ d.store
hand_off-store r none d = refl
hand_off-store r (some n) d = refl

finished-store :
    (r : SavedTransfer) (good closes : Bool) (d : Downloads)
    → (change (finished r good closes) d).store ≡ d.store
unfolding change
finished-store r good closes d = elim (Bool-cases (good && (r.is_download && closes))) [
  | inl e ↦ rw e (hand_off-store r (d.store.files r.staging_id) d)
  | inr e ↦ rw e refl
]

first_due-IsThere :
    (k n : ℕ) (a b : Bool) (rs : List SavedTransfer) (d : Downloads)
    → AllHanded rs d.handed
    → d.store.files k ≡ some n
    → IsThere k (first_due a b rs d).store ⊎ (has_handed k d.handed ≡ true)
first_due-IsThere k n a b [] d t h = inl (n, h)
first_due-IsThere k n false b (r ∷ rs) d t h = inl (n, h)
first_due-IsThere k n true b (r ∷ rs) d t h = elim (Bool-cases (k == r.staging_id)) [
  | inl e ↦ inr (subst (λ j. has_handed j d.handed ≡ true) (sym ((==_iff k r.staging_id).0 e)) t.0)
  | inr e ↦ inl (n, rw e h)
]

change_careful :
    (k n : ℕ) (c : Change) (d : Downloads)
    → IsHanded d
    → d.store.files k ≡ some n
    → IsThere k (change c d).store ⊎ IsExcused k n c d
unfolding change
change_careful k n (grown j m) d t h = inl (grow-IsThere k n j m d.store h)
change_careful k n (finished r good closes) d t h =
    inl (n, ap (λ s. s.files k) (finished-store r good closes d) ∙ h)
change_careful k n (due a b) d t h = elim (first_due-IsThere k n a b d.timers d t h) [
  | inl e ↦ inl e
  | inr e ↦ inr (was_handed e)
]
change_careful k n page_loaded d t h = elim (load_resumable_careful k n (reload d.store) h) [
  | inl e ↦ inl (n, e)
  | inr e ↦ inr (was_complete e)
]
change_careful k n (resumed r j) d t h = inl (n, h)
change_careful k n (discarded r) d t h = elim (Bool-cases (k == r.staging_id)) [
  | inl e ↦ inr (was_discarded r refl (sym ((==_iff k r.staging_id).0 e)))
  | inr e ↦ inl (n, rw e h)
]
change_careful k n (retried r false removes j) d t h = inl (n, h)
change_careful k n (retried r true false j) d t h = inl (n, h)
change_careful k n (retried r true true j) d t h = elim (Bool-cases (k == r.staging_id)) [
  | inl e ↦ inr (was_started_over r j refl (sym ((==_iff k r.staging_id).0 e)))
  | inr e ↦ inl (n, rw e h)
]

-- Whatever happened since a page load, a staged file that is there is there after whatever happens
-- next, unless it was handed to the browser, has reached the total of a record of a download into it,
-- or the user discards it or starts the download into it over.
pub change_all_careful :
    (k n : ℕ) (c : Change) (cs : List Change) (s : TransferStore)
    → (change_all cs (start s)).store.files k ≡ some n
    → IsThere k (change c (change_all cs (start s))).store
      ⊎ IsExcused k n c (change_all cs (start s))
change_all_careful k n c cs s h =
    change_careful k n c (change_all cs (start s)) (change_all-IsHanded cs (start s) tt) h
