-- ===== src/TransferIo/Settled.antt =====
-- What becomes of each call.
use wosh.Prelude.{
  ℕ, ◌+◌, ◌≤◌, ◌==◌, ◌≡◌, refl, sym, ap, ◌∙◌, subst, Bool, true, false, ◌||◌, ◌&&◌, List, [], ◌∷◌,
  ◌++◌, if◌then◌else◌, arith, Bool-cases, inl, inr, ==_iff, append_assoc, append-nil,
}
use wosh.Prelude.Results.{Result}
use wosh.TransferIo.Rpc.{
  Rpc, fresh, has, delete, call, on_reply, Event, called, replied, run, settle_call,
}
use wosh.TransferIo.Pending.{
  IsFresh, has-append, IsFresh-le, IsFresh-append, has-delete_of_other, has-delete, IsFresh-delete,
}

module _ (V : Type 0) where
  -- What the promise of a call was settled with, each time.
  abbrev pub settlements : ℕ → List (ℕ × Result V) → List (Result V)
  settlements i [] = []
  settlements i ((j, r) ∷ ps) = if i == j then r ∷ settlements i ps else settlements i ps

  -- The first reply with an id, if there is one.
  abbrev pub first_reply : ℕ → List (Event V) → List (Result V)
  first_reply i [] = []
  first_reply i (called ∷ es) = first_reply i es
  first_reply i (replied j r ∷ es) = if i == j then r ∷ [] else first_reply i es

  -- What is to become of the call with an id that has not been made yet, after so many calls.
  abbrev pub due : ℕ → ℕ → List (Event V) → List (Result V)
  due n i [] = []
  due n i (called ∷ es) = if i == n + 1 then first_reply i es else due (n + 1) i es
  due n i (replied j r ∷ es) = due n i es

  settlements-append :
      (i : ℕ) (ps qs : List (ℕ × Result V))
      → settlements i (ps ++ qs) ≡ settlements i ps ++ settlements i qs
  settlements-append i [] qs = refl
  settlements-append i ((j, r) ∷ ps) qs = elim (Bool-cases (i == j)) [
    | inl e ↦ rw e (ap (r ∷◌) (settlements-append i ps qs))
    | inr e ↦ rw e (settlements-append i ps qs)
  ]

  due-past : (n i : ℕ) (es : List (Event V)) → i ≤ n → due n i es ≡ []
  due-past n i [] h = refl
  due-past n i (called ∷ es) h = elim (Bool-cases (i == n + 1)) [
    | inl e ↦ absurd (ground arith)
    | inr e ↦ rw e (due-past (n + 1) i es (omega arith))
  ]
  due-past n i (replied j r ∷ es) h = due-past n i es h

  -- What is still to come for a call, by whether it is pending.
  abbrev coming : Bool → ℕ → ℕ → List (Event V) → List (Result V)
  coming true n i es = first_reply i es
  coming false n i es = due n i es

  coming-called :
      (p : Bool) (n i : ℕ) (es : List (Event V))
      → coming (p || i == n + 1) (n + 1) i es ≡ coming p n i (called ∷ es)
  coming-called true n i es = refl
  coming-called false n i es = elim (Bool-cases (i == n + 1)) [
    | inl e ↦ rw e refl
    | inr e ↦ rw e refl
  ]

  coming-skipped :
      (p : Bool) (n i j : ℕ) (r : Result V) (es : List (Event V))
      → (i == j && p) ≡ false
      → coming p n i es ≡ coming p n i (replied j r ∷ es)
  coming-skipped true n i j r es h = elim (Bool-cases (i == j)) [
    | inl e ↦ absurd (cc)
    | inr e ↦ rw e refl
  ]
  coming-skipped false n i j r es h = refl

  reply-settlements :
      (n i j : ℕ) (r : Result V) (js : List ℕ) (es : List (Event V))
      → IsFresh V n js
      → has V j js ≡ true
      → (settlements i ((j, r) ∷ []) ++ coming (has V i (delete V j js)) n i es)
        ≡ coming (has V i js) n i (replied j r ∷ es)
  reply-settlements n i j r js es f h = elim (Bool-cases (i == j)) [
    | inl e ↦
        let same : i ≡ j = (==_iff i j).0 e in
        let here : has V i js ≡ true = subst (λ k. has V k js ≡ true) (sym same) h in
        let gone : has V i (delete V j js) ≡ false =
          subst (λ k. has V i (delete V k js) ≡ false) same (has-delete V n i js f) in
        rw (here, gone, e) (ap (r ∷◌) (due-past n i es (IsFresh-le V n i js f here)))
    | inr e ↦
        rw (e, has-delete_of_other V i j js e)
          (coming-skipped (has V i js) n i j r es (ap (λ b. b && has V i js) e))
  ]

  on_reply_pending :
      (j : ℕ) (r : Result V) (s : Rpc V)
      → has V j s.pending ≡ true
      → on_reply V j r s ≡ settle_call V j r s
  unfolding on_reply
  on_reply_pending j r s h = rw h refl

  on_reply_stale :
      (j : ℕ) (r : Result V) (s : Rpc V) → has V j s.pending ≡ false → on_reply V j r s ≡ s
  unfolding on_reply
  on_reply_stale j r s h = rw h refl

  unasked : (i j : ℕ) (js : List ℕ) → has V j js ≡ false → (i == j && has V i js) ≡ false
  unasked i j js h = elim (Bool-cases (i == j)) [
    | inl e ↦ rw e (subst (λ k. has V k js ≡ false) (sym ((==_iff i j).0 e)) h)
    | inr e ↦ rw e refl
  ]

  run-settlements :
      (es : List (Event V)) (s : Rpc V) (i : ℕ)
      → IsFresh V s.next_req_id s.pending
      → settlements i (run V es s).settled
        ≡ settlements i s.settled ++ coming (has V i s.pending) s.next_req_id i es
  unfolding run
  run-settlements [] s i f = ending (has V i s.pending) s.next_req_id
    where
      ending :
          (p : Bool) (n : ℕ) → settlements i s.settled ≡ settlements i s.settled ++ coming p n i []
      ending true n = sym (append-nil _)
      ending false n = sym (append-nil _)
  run-settlements (called ∷ es) s i f =
      run-settlements es (call V s) i (IsFresh-append V s.next_req_id s.pending f)
      ∙ ap (settlements i s.settled ++◌) (
          ap (λ p. coming p (s.next_req_id + 1) i es) (has-append V i (s.next_req_id + 1) s.pending)
          ∙ coming-called (has V i s.pending) s.next_req_id i es)
  run-settlements (replied j r ∷ es) s i f = elim (Bool-cases (has V j s.pending)) [
    | inl e ↦
        ap (λ t. settlements i (run V es t).settled) (on_reply_pending j r s e)
        ∙ (run-settlements es (settle_call V j r s) i (IsFresh-delete V s.next_req_id j s.pending f)
            ∙ ap (◌++ coming (has V i (delete V j s.pending)) s.next_req_id i es)
                (settlements-append i s.settled ((j, r) ∷ []))
            ∙ append_assoc (settlements i s.settled) _ _
            ∙ ap (settlements i s.settled ++◌)
                (reply-settlements s.next_req_id i j r s.pending es f e))
    | inr e ↦
        ap (λ t. settlements i (run V es t).settled) (on_reply_stale j r s e)
        ∙ (run-settlements es s i f
            ∙ ap (settlements i s.settled ++◌) (
                coming-skipped (has V i s.pending) s.next_req_id i j r es
                  (unasked i j s.pending e)))
  ]

  -- However calls and replies mix, each call of the worker is settled with the first reply that bears
  -- its id after it was made, and never again; no other reply settles anything.
  pub settlements-run :
      (es : List (Event V)) (i : ℕ) → settlements i (run V es (fresh V)).settled ≡ due 0 i es
  settlements-run es i = run-settlements es (fresh V) i tt
