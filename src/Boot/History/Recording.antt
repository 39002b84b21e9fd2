-- ===== src/Boot/History/Recording.antt =====
-- Recording a connection keeps one entry for it, in front, with what it knew before.
use wosh.Prelude.{
  ◌≡◌, refl, ap, Bool, true, false, List, [], ◌∷◌, Option, none, some, take, All, All-take, Text,
  is_nil, text_eq_iff, Bool-cases, inl, inr,
}
use wosh.Boot.History.{
  Storage, Connection, kept_text, is_named, kept_tools, coerce, load_history, to_stored, text_field,
  tools_field,
}
use wosh.Boot.History.Operations.{
  is_at, find_at, without, truthy, prior_name, prior_tools, new_entry, record_connection,
  remove_connection,
}
use wosh.Boot.History.Loading.{
  IsClean, load_history-IsClean, load_history-save_history, load_history-save_history_cons,
}

-- No entry of the list is for that account.
abbrev pub AreElsewhere : Text → Text → List Connection → Type 0
AreElsewhere id user cs = All (λ c. is_at id user c ≡ false) cs

without-AreElsewhere :
    (id user : Text) (cs : List Connection) → AreElsewhere id user (without id user cs)
unfolding without
without-AreElsewhere id user [] = tt
without-AreElsewhere id user (c ∷ cs) = elim (Bool-cases (is_at id user c)) [
  | inl e ↦ rw e (without-AreElsewhere id user cs)
  | inr e ↦ rw e (e, without-AreElsewhere id user cs)
]

All-without :
    (P : Connection → Type 0) (id user : Text) (cs : List Connection)
    → All P cs
    → All P (without id user cs)
unfolding without
All-without P id user [] h = tt
All-without P id user (c ∷ cs) h = elim (Bool-cases (is_at id user c)) [
  | inl e ↦ rw e (All-without P id user cs h.1)
  | inr e ↦ rw e (h.0, All-without P id user cs h.1)
]

abbrev OnSome : (Connection → Type 0) → Option Connection → Type 0
OnSome P none = Unit
OnSome P (some c) = P c

OnSome-find_at :
    (P : Connection → Type 0) (id user : Text) (cs : List Connection)
    → All P cs
    → OnSome P (find_at id user cs)
unfolding find_at
OnSome-find_at P id user [] h = tt
OnSome-find_at P id user (c ∷ cs) h = elim (Bool-cases (is_at id user c)) [
  | inl e ↦ rw e h.0
  | inr e ↦ rw e (OnSome-find_at P id user cs h.1)
]

is_at_self : (id user : Text) (c : Connection) → c.id ≡ id → c.user ≡ user → is_at id user c ≡ true
unfolding is_at
is_at_self id user c hi hu = rw ((text_eq_iff c.id id).1 hi, (text_eq_iff c.user user).1 hu) refl

kept_truthy :
    (p : Text → Bool) (o : Option Text)
    → kept_text p (text_field o) ≡ o
    → kept_text p (text_field (truthy o)) ≡ truthy o
kept_truthy p none h = refl
kept_truthy p (some t) h = elim (Bool-cases (is_nil t)) [ inl e ↦ rw e refl | inr e ↦ rw e h ]

prior_name-kept :
    (o : Option Connection)
    → OnSome IsClean o
    → kept_text is_named (text_field (prior_name o)) ≡ prior_name o
unfolding IsClean coerce to_stored
prior_name-kept none h = refl
prior_name-kept (some c) h = kept_truthy is_named c.name (ap (λ d. d.name) h)

prior_tools-kept :
    (o : Option Connection) → kept_tools (tools_field (prior_tools o)) ≡ prior_tools o
prior_tools-kept none = refl
prior_tools-kept (some c) = go c.tools
  where
    go : (t : Option (List (Text × Bool))) → kept_tools (tools_field t) ≡ t
    go none = refl
    go (some bs) = refl

-- What the page loads after recording: the new entry in front, and behind it the others that fit.
pub record IsRecorded (id relay user : Text) (before after : List Connection) : Type 0 where
  pub entry : Connection
  pub in_front : after ≡ entry ∷ take 19 (without id user before)
  pub is_it : is_at id user entry ≡ true
  pub alone : AreElsewhere id user (take 19 (without id user before))
  pub relayed : entry.relay ≡ relay
  pub name_kept : entry.name ≡ prior_name (find_at id user before)
  pub tools_kept : entry.tools ≡ prior_tools (find_at id user before)

-- When storage accepts, recording a connection leaves exactly one entry for its endpoint and user, in
-- front, with the new relay and the prior entry's name and detection results; the other entries
-- follow unchanged and in their order, as many as the cap leaves.
pub record_connection-IsRecorded :
    (now id relay user : Text) (command method : Option Text) (resume : Option Bool) (s : Storage)
    → IsRecorded id relay user
        (load_history s)
        (load_history (record_connection true now id relay user command method resume s))
unfolding record_connection coerce to_stored
record_connection-IsRecorded now id relay user command method resume s =
    let before = load_history s in
    let made = new_entry now id relay user command method resume (find_at id user before) in
    record {
      entry = coerce (to_stored made);
      in_front =
          load_history-save_history_cons made (without id user before) s
            (All-without IsClean id user before (load_history-IsClean s));
      is_it = is_at_self id user (coerce (to_stored made)) refl refl;
      alone =
          All-take (λ c. is_at id user c ≡ false) 19 (without id user before)
            (without-AreElsewhere id user before);
      relayed = refl;
      name_kept =
          prior_name-kept (find_at id user before)
            (OnSome-find_at IsClean id user before (load_history-IsClean s));
      tools_kept = prior_tools-kept (find_at id user before);
    }

-- When storage accepts, removing a connection leaves the others, and none for its endpoint and user.
load_history-remove_connection :
    (id user : Text) (s : Storage)
    → (load_history (remove_connection true id user s) ≡ take 20 (without id user (load_history s)))
      × AreElsewhere id user (load_history (remove_connection true id user s))
unfolding remove_connection
load_history-remove_connection id user s =
    let left = without id user (load_history s) in
    let same =
      load_history-save_history left s
        (All-without IsClean id user (load_history s) (load_history-IsClean s)) in
    (
      same,
      rw same (
          All-take (λ c. is_at id user c ≡ false) 20 left
            (without-AreElsewhere id user (load_history s))),
    )
