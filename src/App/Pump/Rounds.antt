-- ===== src/App/Pump/Rounds.antt =====
-- What the rounds of a pump add up to.
use wosh.Prelude.{
  ℕ, ◌+◌, ◌%◌, ◌≤◌, ◌==◌, ◌≡◌, refl, sym, ◌∙◌, ap, true, false, ◌||◌, List, [], ◌∷◌, ◌++◌,
  append_assoc, Option, none, some, is_nil, Bool-cases, inl, inr, arith, Text, text_eq, codes,
}
use wosh.App.Pump.{
  Result, answered, threw, Round, Pump, Call, claimed, painted, saved, status_set, link_event,
  ended, same_link, polled, poll_link, is_due, link_status, prepend, saved_for, after_save,
}

abbrev pub collect {ℓ} : {B : Type ℓ} → (Call → List B) → List Call → List B
collect f [] = []
collect f (c ∷ cs) = f c ++ collect f cs

pub collect-append {ℓ} :
    {B : Type ℓ} (f : Call → List B) (cs ds : List Call)
    → collect f (cs ++ ds) ≡ collect f cs ++ collect f ds
collect-append f [] ds = refl
collect-append f (c ∷ cs) ds =
    ap (f c ++◌) (collect-append f cs ds) ∙ sym (append_assoc (f c) (collect f cs) (collect f ds))

-- The calls of one kind
abbrev pub on_screen : Call → List Call
on_screen (claimed key) = claimed key ∷ []
on_screen (painted out) = painted out ∷ []
on_screen (saved key now) = []
on_screen (status_set t) = []
on_screen (link_event ls) = []
on_screen (ended why code uptime) = []

abbrev pub as_save : Call → List (Text × ℕ)
as_save (saved key now) = (key, now) ∷ []
as_save (claimed key) = []
as_save (painted out) = []
as_save (status_set t) = []
as_save (link_event ls) = []
as_save (ended why code uptime) = []

abbrev pub as_link : Call → List Text
as_link (link_event ls) = ls ∷ []
as_link (claimed key) = []
as_link (painted out) = []
as_link (saved key now) = []
as_link (status_set t) = []
as_link (ended why code uptime) = []

abbrev pub as_end : Call → List Text
as_end (ended why code uptime) = why ∷ []
as_end (claimed key) = []
as_end (painted out) = []
as_end (saved key now) = []
as_end (status_set t) = []
as_end (link_event ls) = []

-- The save of a round, by the time of the save before it and after it
pub data IsSave (key : Option Text) (t u : ℕ) (saves : List (Text × ℕ)) : Type 0 where
  unsaved : u ≡ t → saves ≡ [] → IsSave key t u saves
  saved_one : (k : Text) → key ≡ some k → t + 10000 ≤ u → saves ≡ (k, u) ∷ [] → IsSave key t u saves

-- The link event of a round
pub data IsLink (l m : Option Text) (links : List Text) : Type 0 where
  unchanged : m ≡ l → links ≡ [] → IsLink l m links
  changed : (ls : Text) → same_link l ls ≡ false → m ≡ some ls → links ≡ ls ∷ [] → IsLink l m links

-- What a poll leaves, whatever it finds
record IsPoll (p : Pump) (res : List Call × Option Pump) : Type 0 where
  next : Pump
  goes : res.1 ≡ some next
  same_time : next.last_persist_at ≡ p.last_persist_at
  screen : collect on_screen res.0 ≡ []
  saves : collect as_save res.0 ≡ []
  ends : collect as_end res.0 ≡ []
  link : IsLink p.last_link next.last_link (collect as_link res.0)

quiet-IsPoll :
    (p q : Pump)
    → q.last_persist_at ≡ p.last_persist_at
    → q.last_link ≡ p.last_link
    → IsPoll p ([], some q)
quiet-IsPoll p q time link = record {
  next = q;
  goes = refl;
  same_time = time;
  screen = refl;
  saves = refl;
  ends = refl;
  link = unchanged link refl;
}

link_status-quiet :
    (user ls : Text)
    → (collect on_screen (link_status user ls ++ link_event ls ∷ []) ≡ [])
      × ((collect as_save (link_status user ls ++ link_event ls ∷ []) ≡ [])
          × ((collect as_end (link_status user ls ++ link_event ls ∷ []) ≡ [])
              × (collect as_link (link_status user ls ++ link_event ls ∷ []) ≡ ls ∷ [])))
link_status-quiet user ls =
    elim (Bool-cases (text_eq ls (codes "reconnecting") || text_eq ls (codes "stalled"))) [
      | inl e ↦ rw e (refl, (refl, (refl, refl)))
      | inr e ↦ elim (Bool-cases (text_eq ls (codes "attached"))) [
        | inl f ↦ rw (e, f) (refl, (refl, (refl, refl)))
        | inr f ↦ rw (e, f) (refl, (refl, (refl, refl)))
      ]
    ]

polled-IsPoll :
    (user : Text) (reply : Result (Option Text)) (p : Pump) → IsPoll p (polled user reply p)
unfolding polled
polled-IsPoll user (threw msg) p = quiet-IsPoll p p refl refl
polled-IsPoll user (answered none) p = quiet-IsPoll p p refl refl
polled-IsPoll user (answered (some ls)) p =
    elim (Bool-cases (is_nil ls || same_link p.last_link ls)) [
      | inl e ↦ rw e (quiet-IsPoll p p refl refl)
      | inr e ↦
          let (screen, (saves, (ends, link))) = link_status-quiet user ls in
          rw e (record {
            next = record p { last_link = some ls };
            goes = refl;
            same_time = refl;
            screen = screen;
            saves = saves;
            ends = ends;
            link = changed ls (ground arith) refl link;
          })
    ]

poll_link-IsPoll :
    (user : Text) (o : Option (Result (Option Text))) (p : Pump) → IsPoll p (poll_link user o p)
unfolding poll_link
poll_link-IsPoll user none p = quiet-IsPoll p p refl refl
poll_link-IsPoll user (some reply) p = elim (Bool-cases ((p.link_poll_tick + 1) % 32 == 0)) [
  | inl e ↦ rw e (
      let h = polled-IsPoll user reply (record p { link_poll_tick = p.link_poll_tick + 1 }) in
      record {
        next = h.next;
        goes = h.goes;
        same_time = h.same_time;
        screen = h.screen;
        saves = h.saves;
        ends = h.ends;
        link = h.link;
      })
  | inr e ↦ rw e (quiet-IsPoll p (record p { link_poll_tick = p.link_poll_tick + 1 }) refl refl)
]

-- A round that goes on, after its output
pub record IsGoing (key : Option Text) (p : Pump) (res : List Call × Option Pump) : Type 0 where
  pub next : Pump
  pub goes : res.1 ≡ some next
  pub screen : collect on_screen res.0 ≡ []
  pub ends : collect as_end res.0 ≡ []
  pub save : IsSave key p.last_persist_at next.last_persist_at (collect as_save res.0)
  pub link : IsLink p.last_link next.last_link (collect as_link res.0)

is_due-late :
    (k : Text) (r : Round) (p : Pump)
    → is_due (some k) r p ≡ true
    → p.last_persist_at + 10000 ≤ r.now
unfolding is_due
is_due-late k r p due = ground (arith, due)

pub after_save-IsGoing :
    (key : Option Text) (user : Text) (r : Round) (p : Pump)
    → IsGoing key p (after_save key user r p)
unfolding after_save
after_save-IsGoing key user r p = elim (Bool-cases (is_due key r p)) [
  | inl due ↦ rw due (due_round key due)
  | inr e ↦ rw e (
      let h = poll_link-IsPoll user r.link p in
      record {
        next = h.next;
        goes = h.goes;
        screen = h.screen;
        ends = h.ends;
        save = unsaved h.same_time h.saves;
        link = h.link;
      })
]
  where
    due_round :
        (key : Option Text)
        → is_due key r p ≡ true
        → IsGoing key p (
            prepend
              (saved_for key r.now)
              (poll_link user r.link (record p { last_persist_at = r.now; dirty = false })))
    due_round none due = absurd (cc due)
    due_round (some k) due =
        let h =
          poll_link-IsPoll user r.link (record p { last_persist_at = r.now; dirty = false }) in
        let late : p.last_persist_at + 10000 ≤ h.next.last_persist_at =
          omega (arith, h.same_time, is_due-late k r p due) in
        record {
          next = h.next;
          goes = h.goes;
          screen = h.screen;
          ends = h.ends;
          save =
              saved_one k refl late
                (ap ((k, r.now) ∷◌) h.saves ∙ ap (λ t. (k, t) ∷ []) (sym h.same_time));
          link = h.link;
        }
