-- ===== src/App/Scrollback/Filing.antt =====
-- No dump is filed under another key than the one that all of its content came from.
use wosh.Prelude.{
  ℕ, ◌≡◌, refl, sym, ap, subst, Bool, true, false, ◌||◌, not, List, [], ◌∷◌, Option, none, some,
  if◌then◌else◌, ltb, is_nil, arith, Bool-cases, inl, inr, Text, text_eq_iff, All,
}
use wosh.App.Scrollback.{
  Owner, unclaimed, mixed, owned, owner_key, key_eq, claim, Page, fresh, restore, is_owned,
  save_cap, Event, drained, restoring, saving, screen_switched, step, run,
}

key_eq_sound : (a b : Option Text) → key_eq a b ≡ true → a ≡ b
unfolding key_eq
key_eq_sound none none h = refl
key_eq_sound (some a) (some b) h = ap some ((text_eq_iff a b).0 h)
key_eq_sound none (some b) h = cc
key_eq_sound (some a) none h = cc

-- The screen shows only what the owner says.
abbrev Shows : Owner → List (Option Text) → Type 0
Shows unclaimed screen = screen ≡ []
Shows (owned k) screen = All (λ t. t ≡ k) screen
Shows mixed screen = Unit

-- A save under a key has only content of that key.
abbrev pub IsFiled : Text × List (Option Text) → Type 0
IsFiled s = All (λ t. t ≡ some s.0) s.1

record IsHonest (p : Page) : Type 0 where
  shown : Shows p.owner p.screen
  filed : All IsFiled p.saves

Shows-claim :
    (o : Owner) (key : Option Text) (screen : List (Option Text))
    → Shows o screen
    → Shows (claim key o) (owner_key key ∷ screen)
unfolding claim
Shows-claim unclaimed key screen h = rw h (refl, tt)
Shows-claim mixed key screen h = tt
Shows-claim (owned k) key screen h = elim (Bool-cases (key_eq k (owner_key key))) [
  | inl e ↦ rw e (sym (key_eq_sound k (owner_key key) e), h)
  | inr e ↦ rw e tt
]

Shows-owned :
    (o : Owner) (k : Text) (screen : List (Option Text))
    → is_owned o (some k) ≡ true
    → Shows o screen
    → All (λ t. t ≡ some k) screen
unfolding is_owned
Shows-owned unclaimed k screen e h = cc
Shows-owned mixed k screen e h = cc
Shows-owned (owned j) k screen e h =
    subst (λ i. All (λ t. t ≡ i) screen) (key_eq_sound j (some k) e) h

step-IsHonest : (p : Page) (e : Event) → IsHonest p → IsHonest (step p e)
unfolding step
step-IsHonest p (drained key false) h = h
step-IsHonest p (drained key true) h = record {
  shown = Shows-claim p.owner key p.screen h.shown;
  filed = h.filed;
}
step-IsHonest p (restoring dump key) h = refilled (p.ever_painted || p.restored || is_nil dump)
  where
    refilled :
        (b : Bool)
        → IsHonest
            (if◌then◌else◌ {A = Page × Bool} b
              (p, false)
              (
                record p {
                  restored = true;
                  owner = claim key p.owner;
                  screen = owner_key key ∷ p.screen;
                },
                true,
              )).0
    refilled true = h
    refilled false = record { shown = Shows-claim p.owner key p.screen h.shown; filed = h.filed }
step-IsHonest p (saving key serialize) h = saved (owner_key key) serialize
  where
    saved :
        (o : Option Text) (size : Option ℕ)
        → IsHonest (elim o [
          | none ↦ p
          | some k ↦ elim size [
            | none ↦ p
            | some n ↦
                if not (is_owned p.owner (some k)) || p.alternate || ltb save_cap n
                then p
                else record p { saves = (k, p.screen) ∷ p.saves }
          ]
        ])
    saved none size = h
    saved (some k) none = h
    saved (some k) (some n) =
        elim (Bool-cases (not (is_owned p.owner (some k)) || p.alternate || ltb save_cap n)) [
          | inl e ↦ rw (e, restore) h
          | inr e ↦
              rw (e, restore)
                (record {
                  shown = h.shown;
                  filed = (Shows-owned p.owner k p.screen (ground arith) h.shown, h.filed);
                })
        ]
step-IsHonest p (screen_switched alternate) h = record { shown = h.shown; filed = h.filed }

run-IsHonest : (es : List Event) (p : Page) → IsHonest p → IsHonest (run p es)
unfolding run
run-IsHonest [] p h = h
run-IsHonest (e ∷ es) p h = run-IsHonest es (step p e) (step-IsHonest p e h)

-- Whatever sessions a page shows and whenever it saves, every dump that is filed under a key has
-- content of that key alone.
pub saves-run : (es : List Event) → All IsFiled (run fresh es).saves
saves-run es = (run-IsHonest es fresh (record { shown = refl; filed = tt })).filed
