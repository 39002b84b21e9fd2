-- ===== src/AuthorizedKeys/Runs.antt =====
-- What `replace`, `trim` and `slice` keep, for any class of characters.
use wosh.Prelude.{
  ℕ, suc, zero, ◌≡◌, refl, Bool, true, false, [], ◌∷◌, take, is_nil, All, Bool-cases, inl, inr,
  Text, trim_start, trim_end, if◌then◌else◌, ◌&&◌,
}
use wosh.AuthorizedKeys.{replace_runs}

module _ {κ} (P : ℕ → Type κ) (p : ℕ → Bool) where
  pub All-trim_start : (s : Text) → All P s → All P (trim_start p s)
  unfolding trim_start
  All-trim_start [] h = tt
  All-trim_start (c ∷ s) (q, h) = elim (Bool-cases (p c)) [
    | inl e ↦ rw e (All-trim_start s h)
    | inr e ↦ rw e (q, h)
  ]

  pub All-trim_end : (s : Text) → All P s → All P (trim_end p s)
  unfolding trim_end
  All-trim_end [] h = tt
  All-trim_end (c ∷ s) (q, h) = elim (Bool-cases (p c && is_nil (trim_end p s))) [
    | inl e ↦ rw e tt
    | inr e ↦ rw e (q, All-trim_end s h)
  ]

  -- Every kept character satisfies `P`, and so does the replacement.
  pub All-replace_runs :
      (r : ℕ) (within : Bool) (s : Text)
      → P r
      → ((c : ℕ) → p c ≡ false → P c)
      → All P (replace_runs p r within s)
  unfolding replace_runs
  All-replace_runs r within [] pr keep = tt
  All-replace_runs r within (c ∷ s) pr keep = elim (Bool-cases (p c)) [
    | inl e ↦ rw e (run within _ (All-replace_runs r true s pr keep))
    | inr e ↦ rw e (keep c e, All-replace_runs r false s pr keep)
  ]
    where
      run : (b : Bool) (t : Text) → All P t → All P (if b then t else r ∷ t)
      run true t h = h
      run false t h = (pr, h)

  -- The same, where `P` holds of the whole input.
  pub All-replace_runs_of_All :
      (r : ℕ) (within : Bool) (s : Text) → P r → All P s → All P (replace_runs p r within s)
  unfolding replace_runs
  All-replace_runs_of_All r within [] pr h = tt
  All-replace_runs_of_All r within (c ∷ s) pr (q, h) = elim (Bool-cases (p c)) [
    | inl e ↦ rw e (run within _ (All-replace_runs_of_All r true s pr h))
    | inr e ↦ rw e (q, All-replace_runs_of_All r false s pr h)
  ]
    where
      run : (b : Bool) (t : Text) → All P t → All P (if b then t else r ∷ t)
      run true t k = k
      run false t k = (pr, k)

-- The first character, if there is one, is outside the class.
abbrev pub HeadOutside : (ℕ → Bool) → Text → Type 0
HeadOutside p [] = Unit
HeadOutside p (c ∷ s) = p c ≡ false

module _ (p : ℕ → Bool) where
  pub trim_start-HeadOutside : (s : Text) → HeadOutside p (trim_start p s)
  unfolding trim_start
  trim_start-HeadOutside [] = tt
  trim_start-HeadOutside (c ∷ s) = elim (Bool-cases (p c)) [
    | inl e ↦ rw e (trim_start-HeadOutside s)
    | inr e ↦ rw e e
  ]

  pub trim_end-HeadOutside :
      (q : ℕ → Bool) (s : Text) → HeadOutside p s → HeadOutside p (trim_end q s)
  unfolding trim_end
  trim_end-HeadOutside q [] h = tt
  trim_end-HeadOutside q (c ∷ s) h = elim (Bool-cases (q c && is_nil (trim_end q s))) [
    | inl e ↦ rw e tt
    | inr e ↦ rw e h
  ]

  pub take-HeadOutside : (n : ℕ) (s : Text) → HeadOutside p s → HeadOutside p (take n s)
  take-HeadOutside zero s h = tt
  take-HeadOutside (suc n) [] h = tt
  take-HeadOutside (suc n) (c ∷ s) h = h

  pub trim_start_of_HeadOutside : (s : Text) → HeadOutside p s → trim_start p s ≡ s
  unfolding trim_start
  trim_start_of_HeadOutside [] h = refl
  trim_start_of_HeadOutside (c ∷ s) h = rw h

  pub trim_end_idem : (s : Text) → trim_end p (trim_end p s) ≡ trim_end p s
  unfolding trim_end
  trim_end_idem [] = refl
  trim_end_idem (c ∷ s) = elim (Bool-cases (p c && is_nil (trim_end p s))) [
    | inl e ↦ rw e refl
    | inr e ↦ rw (e, trim_end_idem s, e) refl
  ]
