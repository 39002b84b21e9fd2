-- ===== src/App/Pump/Order.antt =====
-- Whole runs of a pump: what it shows, how it ends, when it saves.
use wosh.Prelude.{
  ℕ, ◌+◌, ◌≤◌, ◌≡◌, refl, sym, ◌∙◌, ap, subst, false, List, [], ◌∷◌, ◌++◌, append-nil, Option, none,
  some, if◌then◌else◌, length, arith, Text,
}
use wosh.App.Pump.{Round, Pump, Call, same_link, round, pump}
use wosh.App.Pump.Rounds.{
  collect, collect-append, on_screen, as_save, as_link, as_end, IsSave, unsaved, saved_one, IsLink,
  unchanged, changed,
}
use wosh.App.Pump.Outcomes.{
  output_of, goes_on, outputs, shown, shown-append, IsRound, last, more, round-IsRound,
}

-- Saves at least ten seconds apart, each under the pump's key.
abbrev pub IsSpaced : Option Text → ℕ → List (Text × ℕ) → Type 0
IsSpaced key t [] = Unit
IsSpaced key t ((k, u) ∷ saves) = (key ≡ some k) × ((t + 10000 ≤ u) × IsSpaced key u saves)

-- Each state is another one than the state before.
abbrev pub IsChanging : Option Text → List Text → Type 0
IsChanging l [] = Unit
IsChanging l (ls ∷ links) = (same_link l ls ≡ false) × IsChanging (some ls) links

save-IsSpaced :
    (key : Option Text) (t u : ℕ) (saves rest : List (Text × ℕ))
    → IsSave key t u saves
    → IsSpaced key u rest
    → IsSpaced key t (saves ++ rest)
save-IsSpaced key t u saves rest (unsaved same none_) h =
    subst (λ xs. IsSpaced key t (xs ++ rest)) (sym none_) (subst (λ v. IsSpaced key v rest) same h)
save-IsSpaced key t u saves rest (saved_one k is_k late one) h =
    subst (λ xs. IsSpaced key t (xs ++ rest)) (sym one) (is_k, (late, h))

link-IsChanging :
    (l m : Option Text) (links rest : List Text)
    → IsLink l m links
    → IsChanging m rest
    → IsChanging l (links ++ rest)
link-IsChanging l m links rest (unchanged same none_) h =
    subst (λ xs. IsChanging l (xs ++ rest)) (sym none_) (subst (λ v. IsChanging v rest) same h)
link-IsChanging l m links rest (changed ls new is_ls one) h =
    subst (λ xs. IsChanging l (xs ++ rest)) (sym one) (new, subst (λ v. IsChanging v rest) is_ls h)

-- What a run of the pump shows and how it ends, and its saves and link events.
pub record IsOrderly (key : Option Text) (p : Pump) (rs : List Round) (calls : List Call)
    : Type 0 where
  pub on_the_screen : collect on_screen calls ≡ shown key (outputs rs)
  pub ends_once : length (collect as_end calls) ≤ 1
  pub saves_apart : IsSpaced key p.last_persist_at (collect as_save calls)
  pub links_change : IsChanging p.last_link (collect as_link calls)

abbrev rest_of : Option Text → Text → ℕ → Option Pump → List Round → List Call
rest_of key user ready_at none rs = []
rest_of key user ready_at (some q) rs = pump key user ready_at q rs

same_some : (p q : Pump) → some p ≡ some q → p ≡ q
same_some p q h = cc

-- One round before the rest
round_first :
    (key : Option Text) (user : Text) (ready_at : ℕ) (r : Round) (rs : List Round) (p : Pump)
    (res : List Call × Option Pump) (o : Option Pump)
    → res.1 ≡ o
    → IsRound key (goes_on r) (if r.current then output_of r.drained else []) p res
    → ((q : Pump) → IsOrderly key q rs (pump key user ready_at q rs))
    → IsOrderly key p (r ∷ rs) (res.0 ++ rest_of key user ready_at o rs)
round_first key user ready_at r rs p res none is_o (last closed over screen saves links ends) rest =
    let outs = if r.current then output_of r.drained else [] in
    let all : outs ++ (if goes_on r then outputs rs else []) ≡ outs = rw closed (append-nil outs) in
    subst (IsOrderly key p (r ∷ rs)) (sym (append-nil res.0)) (record {
      on_the_screen = screen ∙ ap (shown key) (sym all);
      ends_once = ends;
      saves_apart = subst (IsSpaced key p.last_persist_at) (sym saves) tt;
      links_change = subst (IsChanging p.last_link) (sym links) tt;
    })
round_first key user ready_at r rs p res (some q) is_o (last closed over screen saves links ends)
      rest =
    absurd (cc (is_o, over))
round_first key user ready_at r rs p res none is_o (more n goes next screen ends save link) rest =
    absurd (cc (is_o, next))
round_first key user ready_at r rs p res (some q) is_o (more n goes next screen ends save link)
      rest =
    let outs = if r.current then output_of r.drained else [] in
    let same : n ≡ q = same_some n q (sym next ∙ is_o) in
    let more_calls = pump key user ready_at q rs in
    let all : outs ++ (if goes_on r then outputs rs else []) ≡ outs ++ outputs rs = rw goes refl in
    let h = rest q in
    record {
      on_the_screen =
          collect-append on_screen res.0 more_calls
          ∙ (ap (λ cs. cs ++ collect on_screen more_calls) screen
              ∙ (ap (shown key outs ++◌) h.on_the_screen
                  ∙ (sym (shown-append key outs (outputs rs)) ∙ ap (shown key) (sym all))));
      ends_once =
          subst (λ xs. length xs ≤ 1)
            (sym (
              collect-append as_end res.0 more_calls
              ∙ ap (λ xs. xs ++ collect as_end more_calls) ends))
            h.ends_once;
      saves_apart =
          subst (IsSpaced key p.last_persist_at) (sym (collect-append as_save res.0 more_calls)) (
            save-IsSpaced key p.last_persist_at q.last_persist_at (collect as_save res.0) _
              (subst
                (λ (k : Pump).
                  IsSave key p.last_persist_at k.last_persist_at (collect as_save res.0))
                same save)
              h.saves_apart);
      links_change =
          subst (IsChanging p.last_link) (sym (collect-append as_link res.0 more_calls)) (
            link-IsChanging p.last_link q.last_link (collect as_link res.0) _
              (subst (λ (k : Pump). IsLink p.last_link k.last_link (collect as_link res.0)) same
                link)
              h.links_change);
    }

by_option :
    (key : Option Text) (user : Text) (ready_at : ℕ) (rs : List Round) (o : Option Pump)
    → elim o [ none ↦ [] | some q ↦ pump key user ready_at q rs ] ≡ rest_of key user ready_at o rs
by_option key user ready_at rs none = refl
by_option key user ready_at rs (some q) = refl

-- Whatever the component answers, a pump shows all that its session printed while it was current, in
-- order and nothing else, each piece after a claim of the screen for the pump's key; it reports at
-- most one end; its saves are at least ten seconds apart, the first included, and under its key; and
-- it announces a link state only when it is another one than the last announced.
pub pump-IsOrderly :
    (key : Option Text) (user : Text) (ready_at : ℕ) (rs : List Round) (p : Pump)
    → IsOrderly key p rs (pump key user ready_at p rs)
unfolding pump
pump-IsOrderly key user ready_at [] p = record {
  on_the_screen = refl;
  ends_once = omega arith;
  saves_apart = tt;
  links_change = tt;
}
pump-IsOrderly key user ready_at (r ∷ rs) p =
    let res = round key user ready_at r p in
    subst (IsOrderly key p (r ∷ rs)) (ap (res.0 ++◌) (sym (by_option key user ready_at rs res.1))) (
      round_first key user ready_at r rs p res res.1 refl (round-IsRound key user ready_at r p)
        (pump-IsOrderly key user ready_at rs))
