-- ===== src/App/Ending/Announced.antt =====
-- What is done when a session ends.
use wosh.Prelude.{
  ℕ, ◌≡◌, refl, sym, ap, subst, true, false, List, [], ◌∷◌, ◌++◌, append_assoc, length, Option,
  none, some, if◌then◌else◌, ==_iff, Text, Bool, Bool-cases, inl, inr, codes, text_eq, includes,
}
use wosh.App.Input.{is_current}
use wosh.App.Ending.{
  Tail, flushed, saved, status_set, marked, dispatched, Terminal, session_ended, finish,
  finish_taken, take_tail, with_head, final_kind, what_ended, is_poisoned, reported, answered, step,
  run,
}

current_self : (n : ℕ) (o : Option ℕ) → o ≡ some n → is_current n o ≡ true
unfolding is_current
current_self n none h = absurd (cc)
current_self n (some m) h = (==_iff m n).1 (cc)

ended-now :
    (n : ℕ) (why : Text) (code uptime : Option ℕ) (t : Terminal)
    → is_current n t.current ≡ true
    → session_ended n why code uptime t ≡ record t {
      current = none;
      persist_key = none;
      tails = t.tails ++ record { session = n; why = why; code = code; uptime = uptime } ∷ [];
      calls = t.calls ++ (flushed n ∷ saved n t.persist_key ∷ status_set n why ∷ []);
    }
unfolding session_ended
ended-now n why code uptime t e = rw e refl

take_tail-last : (ts : List Tail) (x : Tail) → take_tail (length ts) (ts ++ x ∷ []) ≡ some (x, ts)
unfolding take_tail
take_tail-last [] x = refl
take_tail-last (t ∷ ts) x = ap (with_head t) (take_tail-last ts x)

-- How an end is called in the closing rule, the kind in the event, and whether the instance is to be
-- discarded, by the kind that the component answers and the reported reason.
pub data Verdict : Option Text → Text → Text → Option Text → Bool → Type 0 where
  poisoned :
      {why : Text}
      → includes (codes "reentrance forbidden") why ≡ true
      → Verdict none why (codes "session lost") (some (codes "lost")) true
  unanswered :
      {why : Text}
      → includes (codes "reentrance forbidden") why ≡ false
      → Verdict none why (codes "session ended") none false
  lost :
      {kind why : Text}
      → text_eq kind (codes "lost") ≡ true
      → Verdict (some kind) why (codes "session lost") (some kind) false
  failed :
      {kind why : Text}
      → text_eq kind (codes "lost") ≡ false
      → text_eq kind (codes "failed") ≡ true
      → Verdict (some kind) why (codes "session failed") (some kind) false
  over :
      {kind why : Text}
      → text_eq kind (codes "lost") ≡ false
      → text_eq kind (codes "failed") ≡ false
      → Verdict (some kind) why (codes "session ended") (some kind) false

verdict_of :
    (kind : Option Text) (why : Text)
    → Verdict kind why
        (what_ended (final_kind kind why))
        (final_kind kind why)
        (is_poisoned kind why)
unfolding is_poisoned what_ended
verdict_of none why = elim (Bool-cases (includes (codes "reentrance forbidden") why)) [
  | inl e ↦ rw e (unfold text_eq in poisoned e)
  | inr e ↦ rw e (unanswered e)
]
verdict_of (some kind) why = elim (Bool-cases (text_eq kind (codes "lost"))) [
  | inl e ↦ rw e (lost e)
  | inr e ↦ elim (Bool-cases (text_eq kind (codes "failed"))) [
    | inl f ↦ rw (e, f) (failed e f)
    | inr f ↦ rw (e, f) (over e f)
  ]
]

-- A session's end, announced
pub record IsAnnounced (n : ℕ) (why : Text) (code uptime : Option ℕ) (what : Text)
    (kind : Option Text) (discarded : Bool) (before after : Terminal) : Type 0 where
  pub over : after.current ≡ none
  pub unkeyed : after.persist_key ≡ none
  pub none_left : after.tails ≡ before.tails
  pub in_order :
      after.calls
      ≡ before.calls
        ++ (flushed n
            ∷ saved n before.persist_key
            ∷ status_set n why
            ∷ marked n what
            ∷ dispatched n why kind code uptime
            ∷ [])
  pub loaded : after.client_load ≡ (if discarded then false else before.client_load)

-- The end of the current session as the code calls it
announced :
    (n : ℕ) (why : Text) (code uptime : Option ℕ) (kind : Option Text) (t : Terminal)
    → t.current ≡ some n
    → IsAnnounced n why code uptime
        (what_ended (final_kind kind why))
        (final_kind kind why)
        (is_poisoned kind why)
        t
        (run t (reported n why code uptime ∷ answered (length t.tails) kind ∷ []))
unfolding run step
announced n why code uptime kind t h =
    let x : Tail = record { session = n; why = why; code = code; uptime = uptime } in
    let is_now : is_current n t.current ≡ true = current_self n t.current h in
    let sync : Terminal = record t {
      current = none;
      persist_key = none;
      tails = t.tails ++ x ∷ [];
      calls = t.calls ++ (flushed n ∷ saved n t.persist_key ∷ status_set n why ∷ []);
    } in
    let first : session_ended n why code uptime t ≡ sync = ended-now n why code uptime t is_now in
    subst
      (λ (s : Terminal).
        IsAnnounced n why code uptime (what_ended (final_kind kind why)) (final_kind kind why)
          (is_poisoned kind why) t (finish_taken (take_tail (length t.tails) s.tails) kind s))
      (sym first)
      (subst
        (λ o.
          IsAnnounced n why code uptime (what_ended (final_kind kind why)) (final_kind kind why)
            (is_poisoned kind why) t (finish_taken o kind sync))
        (sym (take_tail-last t.tails x))
        (unfold finish in
          record {
            over = refl;
            unkeyed = refl;
            none_left = refl;
            in_order = append_assoc t.calls _ _;
            loaded = refl;
          }))

-- When the end of the current session is reported and its kind is answered, the page paints what is
-- queued, saves under the session's key, sets the status, draws the closing rule and dispatches the
-- event, in that order. An end without a kind whose reason says `reentrance forbidden` is announced
-- as a lost session and the instance discarded; any other is announced by the answered kind and the
-- instance kept, and the rule says lost, failed or, for any other kind or none, ended.
pub reported-IsAnnounced :
    (n : ℕ) (why : Text) (code uptime : Option ℕ) (kind : Option Text) (t : Terminal)
    → t.current ≡ some n
    → (what : Text) × (shown : Option Text) × (discarded : Bool) × Verdict kind why what shown
        discarded
      × IsAnnounced n why code uptime what shown discarded t
          (run t (reported n why code uptime ∷ answered (length t.tails) kind ∷ []))
reported-IsAnnounced n why code uptime kind t h =
    (_, _, _, verdict_of kind why, announced n why code uptime kind t h)
