-- ===== src/App/Pump/Outcomes.antt =====
-- What one round comes to.
use wosh.Prelude.{
  ℕ, ◌≤◌, ◌≡◌, refl, sym, ◌∙◌, ap, subst, Bool, true, false, ◌&&◌, ◌||◌, not, List, [], ◌∷◌, ◌++◌,
  append-nil, append_assoc, Option, none, some, if◌then◌else◌, length, Bool-cases, inl, inr, arith,
  Text,
}
use wosh.App.Pump.{
  Result, answered, threw, Round, Pump, Call, painted, given, prepend, claim_first, after_exit,
  after_exited, after_drain, round,
}
use wosh.App.Pump.Rounds.{
  collect, on_screen, as_save, as_link, as_end, IsSave, IsLink, after_save-IsGoing,
}

abbrev pub output_of : Result (Option Text) → List (Option Text)
output_of (answered out) = out ∷ []
output_of (threw msg) = []

abbrev pub has_output : Result (Option Text) → Bool
has_output (answered out) = true
has_output (threw msg) = false

abbrev pub still_open : Result Bool → Bool
still_open (answered b) = not b
still_open (threw msg) = false

-- Whether the pump goes on after a round
abbrev pub goes_on : Round → Bool
goes_on r = r.current && (has_output r.drained && still_open r.exited)

-- What the session printed while it was current, up to its end
abbrev pub outputs : List Round → List (Option Text)
outputs [] = []
outputs (r ∷ rs) =
    let rest = outputs rs in
    (if r.current then output_of r.drained else []) ++ (if goes_on r then rest else [])

-- A claim before each output that is not empty, and the output
abbrev pub shown : Option Text → List (Option Text) → List Call
shown key [] = []
shown key (out ∷ outs) = claim_first key out ++ painted out ∷ shown key outs

pub shown-append :
    (key : Option Text) (os ps : List (Option Text))
    → shown key (os ++ ps) ≡ shown key os ++ shown key ps
shown-append key [] ps = refl
shown-append key (out ∷ os) ps =
    ap (λ cs. claim_first key out ++ painted out ∷ cs) (shown-append key os ps)
    ∙ sym (append_assoc (claim_first key out) (painted out ∷ shown key os) (shown key ps))

-- What is left of a round that is the last, or after which the pump goes on, with its outputs
pub data IsRound (key : Option Text) (open_ : Bool) (outs : List (Option Text)) (p : Pump)
    (res : List Call × Option Pump) : Type 0 where
  last :
      open_ ≡ false
      → res.1 ≡ none
      → collect on_screen res.0 ≡ shown key outs
      → collect as_save res.0 ≡ []
      → collect as_link res.0 ≡ []
      → length (collect as_end res.0) ≤ 1
      → IsRound key open_ outs p res
  more :
      (q : Pump)
      → open_ ≡ true
      → res.1 ≡ some q
      → collect on_screen res.0 ≡ shown key outs
      → collect as_end res.0 ≡ []
      → IsSave key p.last_persist_at q.last_persist_at (collect as_save res.0)
      → IsLink p.last_link q.last_link (collect as_link res.0)
      → IsRound key open_ outs p res

after_exit-IsRound :
    (key : Option Text) (ready_at now : ℕ) (reply : Result (Option (ℕ × Text))) (p : Pump)
    → IsRound key false [] p (after_exit ready_at now reply)
unfolding after_exit
after_exit-IsRound key ready_at now (threw msg) p = last refl refl refl refl refl (omega arith)
after_exit-IsRound key ready_at now (answered none) p = last refl refl refl refl refl (omega arith)
after_exit-IsRound key ready_at now (answered (some (code, digits))) p =
    last refl refl refl refl refl (omega arith)

after_exited-IsRound :
    (key : Option Text) (user : Text) (ready_at : ℕ) (r : Round) (e : Result Bool) (p : Pump)
    → IsRound key (still_open e) [] p (after_exited key user ready_at r e p)
unfolding after_exited
after_exited-IsRound key user ready_at r (threw msg) p = last refl refl refl refl refl (omega arith)
after_exited-IsRound key user ready_at r (answered true) p =
    after_exit-IsRound key ready_at r.now r.status p
after_exited-IsRound key user ready_at r (answered false) p =
    let h = after_save-IsGoing key user r (record p { dirty = p.dirty || r.dirtied }) in
    more h.next refl h.goes h.screen h.ends h.save h.link

-- A claim with its output adds to the screen, and to nothing else.
claim_only :
    (key out : Option Text) (cs : List Call)
    → let all = (claim_first key out ++ painted out ∷ []) ++ cs in
      (collect on_screen all ≡ shown key (out ∷ []) ++ collect on_screen cs)
      × ((collect as_save all ≡ collect as_save cs)
          × ((collect as_link all ≡ collect as_link cs) × (collect as_end all ≡ collect as_end cs)))
claim_only key out cs = elim (Bool-cases (given out)) [
  | inl e ↦ rw e (refl, (refl, (refl, refl)))
  | inr e ↦ rw e (refl, (refl, (refl, refl)))
]

claimed-IsRound :
    (key out : Option Text) (open_ : Bool) (p : Pump) (res : List Call × Option Pump)
    → IsRound key open_ [] p res
    → IsRound key open_ (out ∷ []) p (prepend (claim_first key out ++ painted out ∷ []) res)
claimed-IsRound key out open_ p res (last closed over screen saves links ends) =
    let (s, (v, (l, e))) = claim_only key out res.0 in
    last closed over
      (s ∙ (ap (shown key (out ∷ []) ++◌) screen ∙ append-nil (shown key (out ∷ [])))) (v ∙ saves)
      (l ∙ links) (subst (λ xs. length xs ≤ 1) (sym e) ends)
claimed-IsRound key out open_ p res (more q goes next screen ends save link) =
    let (s, (v, (l, e))) = claim_only key out res.0 in
    more q goes next
      (s ∙ (ap (shown key (out ∷ []) ++◌) screen ∙ append-nil (shown key (out ∷ [])))) (e ∙ ends)
      (subst (IsSave key p.last_persist_at q.last_persist_at) (sym v) save)
      (subst (IsLink p.last_link q.last_link) (sym l) link)

after_drain-IsRound :
    (key : Option Text) (user : Text) (ready_at : ℕ) (r : Round) (d : Result (Option Text))
    (p : Pump)
    → IsRound key
        (has_output d && still_open r.exited)
        (output_of d)
        p
        (after_drain key user ready_at r d p)
unfolding after_drain
after_drain-IsRound key user ready_at r (threw msg) p = last refl refl refl refl refl (omega arith)
after_drain-IsRound key user ready_at r (answered out) p =
    claimed-IsRound key out (still_open r.exited) p
      (after_exited key user ready_at r r.exited (record p { dirty = p.dirty || given out }))
      (same_pump (
        after_exited-IsRound key user ready_at r r.exited
          (record p { dirty = p.dirty || given out })))
  where
    same_pump :
        {res : List Call × Option Pump}
        → IsRound key (still_open r.exited) [] (record p { dirty = p.dirty || given out }) res
        → IsRound key (still_open r.exited) [] p res
    same_pump (last a b c d e f) = last a b c d e f
    same_pump (more q a b c d e f) = more q a b c d e f

pub round-IsRound :
    (key : Option Text) (user : Text) (ready_at : ℕ) (r : Round) (p : Pump)
    → IsRound key
        (goes_on r)
        (if r.current then output_of r.drained else [])
        p
        (round key user ready_at r p)
unfolding round
round-IsRound key user ready_at r p = elim (Bool-cases r.current) [
  | inl e ↦ rw e (after_drain-IsRound key user ready_at r r.drained p)
  | inr e ↦ rw e (last refl refl refl refl refl (omega arith))
]
