-- ===== src/TransferIo/Pending.antt =====
-- The map of pending calls.
use wosh.Prelude.{
  ℕ, ◌+◌, ◌≤◌, ◌<◌, ◌==◌, ◌≡◌, refl, sym, ap, ◌∙◌, subst, Bool, true, false, ◌||◌, List, [], ◌∷◌,
  ◌++◌, arith, Bool-cases, inl, inr, ==_iff,
}
use wosh.TransferIo.Rpc.{has, delete}

module _ (V : Type 0) where
  -- The ids of pending calls are distinct, and of calls that were made.
  abbrev pub IsFresh : ℕ → List ℕ → Type 0
  IsFresh n [] = Unit
  IsFresh n (j ∷ js) = (j ≤ n) × (has V j js ≡ false) × IsFresh n js

  pub IsFresh-le : (n i : ℕ) (js : List ℕ) → IsFresh n js → has V i js ≡ true → i ≤ n
  IsFresh-le n i [] f h = absurd (cc)
  IsFresh-le n i (j ∷ js) f h = elim (Bool-cases (i == j)) [
    | inl e ↦ ground (arith, f.0)
    | inr e ↦ IsFresh-le n i js f.2 (subst (λ b. (b || has V i js) ≡ true) e h)
  ]

  pub has-append : (i k : ℕ) (js : List ℕ) → has V i (js ++ k ∷ []) ≡ (has V i js || i == k)
  has-append i k [] = ground arith
  has-append i k (j ∷ js) = elim (Bool-cases (i == j)) [
    | inl e ↦ rw e refl
    | inr e ↦ rw e (has-append i k js)
  ]

  has-above : (n i : ℕ) (js : List ℕ) → n < i → IsFresh n js → has V i js ≡ false
  has-above n i js h f = elim (Bool-cases (has V i js)) [
    | inl e ↦ absurd (omega (arith, h, IsFresh-le n i js f e))
    | inr e ↦ e
  ]

  below : (j n : ℕ) → j ≤ n → j == n + 1 ≡ false
  below j n h = ground arith

  differs : (i j k : ℕ) → i == j ≡ false → j == k ≡ true → i == k ≡ false
  differs i j k h e = ground arith

  or_false : (a b : Bool) → (a || b) ≡ false → (a ≡ false) × (b ≡ false)
  or_false a b h = ground arith

  both_false : {a b : Bool} → a ≡ false → b ≡ false → (a || b) ≡ false
  both_false h k = ground arith

  pub IsFresh-append : (n : ℕ) (js : List ℕ) → IsFresh n js → IsFresh (n + 1) (js ++ (n + 1) ∷ [])
  IsFresh-append n [] f = (omega arith, refl, tt)
  IsFresh-append n (j ∷ js) f = (
    omega (arith, f.0),
    has-append j (n + 1) js ∙ rw f.1 (below j n f.0),
    IsFresh-append n js f.2,
  )

  pub has-delete_of_other :
      (i j : ℕ) (js : List ℕ) → i == j ≡ false → has V i (delete V j js) ≡ has V i js
  has-delete_of_other i j [] h = refl
  has-delete_of_other i j (k ∷ js) h = elim (Bool-cases (j == k)) [
    | inl e ↦ rw e (rw (differs i j k h e) refl)
    | inr e ↦ rw e (ap ((i == k) ||◌) (has-delete_of_other i j js h))
  ]

  has-delete_of_absent :
      (i j : ℕ) (js : List ℕ) → has V i js ≡ false → has V i (delete V j js) ≡ false
  has-delete_of_absent i j [] h = refl
  has-delete_of_absent i j (k ∷ js) h = elim (Bool-cases (j == k)) [
    | inl e ↦ rw e (or_false (i == k) (has V i js) h).1
    | inr e ↦ rw e (
        both_false (or_false (i == k) (has V i js) h).0
          (has-delete_of_absent i j js (or_false (i == k) (has V i js) h).1))
  ]

  pub has-delete : (n i : ℕ) (js : List ℕ) → IsFresh n js → has V i (delete V i js) ≡ false
  has-delete n i [] f = refl
  has-delete n i (j ∷ js) f = elim (Bool-cases (i == j)) [
    | inl e ↦ rw e (subst (λ k. has V k js ≡ false) (sym ((==_iff i j).0 e)) f.1)
    | inr e ↦ rw (e, e) (has-delete n i js f.2)
  ]

  pub IsFresh-delete : (n i : ℕ) (js : List ℕ) → IsFresh n js → IsFresh n (delete V i js)
  IsFresh-delete n i [] f = tt
  IsFresh-delete n i (j ∷ js) f = elim (Bool-cases (i == j)) [
    | inl e ↦ rw e f.2
    | inr e ↦ rw e (f.0, has-delete_of_absent j i js f.1, IsFresh-delete n i js f.2)
  ]
