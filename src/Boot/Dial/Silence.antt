-- ===== src/Boot/Dial/Silence.antt =====
-- Silent reconnects: when they come, and what they need.
use wosh.Prelude.{
  ℕ, ◌+◌, ◌≤◌, ◌≡◌, refl, sym, ◌∙◌, ap, subst, Bool, true, false, List, [], ◌∷◌, Option, none, some,
  if◌then◌else◌, arith, Text,
}
use wosh.Boot.Connstring.{Browser, endpoint_id_of}
use wosh.Boot.Dial.{Dial, Last, Page}
use wosh.Boot.Dial.Ended.{silent_dial, auto_gap, may_reconnect, is_silent_method, is_pinned}
use wosh.Boot.Dial.Steps.{Event, step}
use wosh.Boot.Dial.Moves.{Move, kept, freed, begun, sent, is_silent}
use wosh.Boot.Dial.Moved.{step-Move, time_of, may_reconnect-late}

abbrev is_given : Option Text → Bool
is_given none = false
is_given (some t) = true

-- The silent dial that is in flight after an event and was not before.
abbrev pub silently : Option Dial → Option Dial → Option Dial
silently (some c) after = none
silently none none = none
silently none (some d) = if is_silent d.origin then some d else none

-- Whether the page's last connection has a command to reattach by
abbrev pub reattaches : Option Last → Bool
reattaches none = false
reattaches (some lc) = is_given lc.command

abbrev with_start : ℕ → Bool → Option Dial → List (ℕ × Bool) → List (ℕ × Bool)
with_start now reattached none rest = rest
with_start now reattached (some d) rest = (now, reattached) ∷ rest

-- The silent dials of a run: the times of the events that began them, and whether they reattach.
unfoldable pub silent_dials : Browser → Page → List Event → List (ℕ × Bool)
unfolding step
silent_dials w page [] = []
silent_dials w page (e ∷ es) =
    let after = step w page e in
    with_start (time_of e) (reattaches page.last) (silently page.dialing after.dialing)
      (silent_dials w after es)

abbrev pub IsSpaced : ℕ → List (ℕ × Bool) → Type 0
IsSpaced t [] = Unit
IsSpaced t ((now, reattached) ∷ rest) =
    (t + (if reattached then 15000 else 60000) ≤ now) × IsSpaced now rest

IsSpaced-weaken : (s t : ℕ) (ds : List (ℕ × Bool)) → s ≤ t → IsSpaced t ds → IsSpaced s ds
IsSpaced-weaken s t [] h spaced = tt
IsSpaced-weaken s t ((now, reattached) ∷ rest) h spaced = (omega (arith, h, spaced.0), spaced.1)

silently_same : (o : Option Dial) → silently o o ≡ none
silently_same none = refl
silently_same (some d) = refl

silently-none : (o : Option Dial) → silently o none ≡ none
silently-none none = refl
silently-none (some d) = refl

silently_begun :
    (o : Option Dial) (d : Dial) → is_silent d.origin ≡ false → silently o (some d) ≡ none
silently_begun none d mine = rw mine refl
silently_begun (some c) d mine = refl

quiet-IsSpaced :
    (now : ℕ) (b : Bool) (before after : Page) (rest : List (ℕ × Bool)) (o : Option Dial)
    → o ≡ none
    → before.last_auto_at ≤ after.last_auto_at
    → IsSpaced after.last_auto_at rest
    → IsSpaced before.last_auto_at (with_start now b o rest)
quiet-IsSpaced now b before after rest none e h spaced =
    IsSpaced-weaken before.last_auto_at after.last_auto_at rest h spaced
quiet-IsSpaced now b before after rest (some d) e h spaced = absurd (cc)

auto_gap-if : (c : Option Text) → auto_gap c ≡ (if is_given c then 15000 else 60000)
unfolding auto_gap
auto_gap-if none = refl
auto_gap-if (some c) = refl

with_start-IsSpaced :
    (w : Browser) (now : ℕ) (before after : Page) (rest : List (ℕ × Bool))
    → Move w now before after
    → IsSpaced after.last_auto_at rest
    → IsSpaced before.last_auto_at
        (with_start now (reattaches before.last) (silently before.dialing after.dialing) rest)
with_start-IsSpaced w now before after rest (kept same time) h =
    quiet-IsSpaced now _ before after rest (silently before.dialing after.dialing)
      (ap (silently before.dialing) same ∙ silently_same before.dialing) time h
with_start-IsSpaced w now before after rest (freed none_left time) h =
    quiet-IsSpaced now _ before after rest (silently before.dialing after.dialing)
      (ap (silently before.dialing) none_left ∙ silently-none before.dialing) (omega (arith, time))
      h
with_start-IsSpaced w now before after rest (begun d mine is_d time) h =
    quiet-IsSpaced now _ before after rest (silently before.dialing after.dialing)
      (ap (silently before.dialing) is_d ∙ silently_begun before.dialing d mine)
      (omega (arith, time)) h
with_start-IsSpaced w now before after rest (sent why lc known free is_d time may) h =
    let started : silently before.dialing after.dialing ≡ some (silent_dial why lc) =
      ap (silently before.dialing) is_d ∙ ap (λ o. silently o (some (silent_dial why lc))) free in
    let late : before.last_auto_at + (if is_given lc.command then 15000 else 60000) ≤ now =
      subst (λ g. before.last_auto_at + g ≤ now) (auto_gap-if lc.command)
        (may_reconnect-late w now lc before may) in
    subst (λ o. IsSpaced before.last_auto_at (with_start now (reattaches before.last) o rest))
      (sym started)
      (
        subst (λ o. before.last_auto_at + (if reattaches o then 15000 else 60000) ≤ now) (sym known)
            late,
        subst (λ t. IsSpaced t rest) time h,
      )

-- Whatever happens on the page, the silent dials keep a distance of 15 seconds to the one before
-- where they reattach and of 60 seconds where they start a new shell.
pub silent_dials-IsSpaced :
    (w : Browser) (es : List Event) (page : Page)
    → IsSpaced page.last_auto_at (silent_dials w page es)
unfolding silent_dials
silent_dials-IsSpaced w [] page = tt
silent_dials-IsSpaced w (e ∷ es) page =
    with_start-IsSpaced w (time_of e) page (step w page e) (silent_dials w (step w page e) es)
      (step-Move w page e) (silent_dials-IsSpaced w es (step w page e))

-- What a silent dial needs: a connection of this page whose method asks nothing and whose endpoint
-- has a pinned host key; and it is that connection again.
pub record IsWarranted (w : Browser) (page : Page) (d : Dial) : Type 0 where
  pub lc : Last
  pub known : page.last ≡ some lc
  pub same_endpoint : d.connstring ≡ lc.connstring
  pub same_user : d.user ≡ lc.user
  pub same_method : d.method ≡ lc.method
  pub same_command : some d.command ≡ (if is_given lc.command then lc.command else some [])
  pub unasking : is_silent_method d.method ≡ true
  pub pinned : is_pinned (endpoint_id_of w d.connstring) page.pinned ≡ true

pub same_some : (d e : Dial) → some d ≡ some e → d ≡ e
same_some d e h = cc

may_reconnect-guards :
    (w : Browser) (now : ℕ) (lc : Last) (page : Page)
    → may_reconnect w now lc page ≡ true
    → (is_silent_method lc.method ≡ true)
      × (is_pinned (endpoint_id_of w lc.connstring) page.pinned ≡ true)
unfolding may_reconnect
may_reconnect-guards w now lc page may = (ground arith, ground arith)

command_again :
    (c : Option Text)
    → some (elim c [ none ↦ [] | some t ↦ t ]) ≡ (if is_given c then c else some [])
command_again none = refl
command_again (some t) = refl

Move-IsWarranted :
    (w : Browser) (now : ℕ) (before after : Page) (d : Dial)
    → Move w now before after
    → silently before.dialing after.dialing ≡ some d
    → IsWarranted w before d
Move-IsWarranted w now before after d (kept same time) h =
    absurd (cc (ap (silently before.dialing) same ∙ silently_same before.dialing, h))
Move-IsWarranted w now before after d (freed none_left time) h =
    absurd (cc (ap (silently before.dialing) none_left ∙ silently-none before.dialing, h))
Move-IsWarranted w now before after d (begun e mine is_e time) h =
    absurd (cc (ap (silently before.dialing) is_e ∙ silently_begun before.dialing e mine, h))
Move-IsWarranted w now before after d (sent why lc known free is_d time may) h =
    let (unasking, pinned) = may_reconnect-guards w now lc before may in
    let started : silently before.dialing after.dialing ≡ some (silent_dial why lc) =
      ap (silently before.dialing) is_d ∙ ap (λ o. silently o (some (silent_dial why lc))) free in
    subst (IsWarranted w before) (same_some (silent_dial why lc) d (sym started ∙ h)) (record {
      lc = lc;
      known = known;
      same_endpoint = refl;
      same_user = refl;
      same_method = refl;
      same_command = command_again lc.command;
      unasking = unasking;
      pinned = pinned;
    })

-- A silent dial, which `autoReconnect` makes and no other event, redials the page's last connection,
-- with the parameters it had; it is made only for a method that asks the user nothing and an endpoint whose host key is pinned.
pub silently-IsWarranted :
    (w : Browser) (page : Page) (e : Event) (d : Dial)
    → silently page.dialing (step w page e).dialing ≡ some d
    → IsWarranted w page d
silently-IsWarranted w page e d h =
    Move-IsWarranted w (time_of e) page (step w page e) d (step-Move w page e) h
