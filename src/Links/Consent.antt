-- ===== src/Links/Consent.antt =====
-- Only web links are opened, and none without consent.
use wosh.Prelude.{
  ℕ, ◌+◌, ◌≤◌, length, length-append, ◌≡◌, refl, Bool, true, false, List, [], ◌∷◌, Option, none,
  some, Text, All, All-append, Bool-cases, inl, inr, arith,
}
use wosh.Links.{
  Page, is_web, Press, Links, Event, pointerdown, activated, toggled, open_clicked, cancelled,
  ignored, activate, click_open, toggle, cancel_dialog, step, run,
}

module _ (page : Page) where
  abbrev pub IsWeb : Text → Type 0
  IsWeb uri = is_web (page.scheme uri) ≡ true

  -- What the dialog asks about
  abbrev pub OnAsked : (Text → Type 0) → Option (Text × Bool) → Type 0
  OnAsked P none = Unit
  OnAsked P (some (uri, checked)) = P uri

  pub record IsGuarded (l : Links page) : Type 0 where
    pub opens_web : All IsWeb l.opened
    pub asks_web : OnAsked IsWeb l.dialog

  ignored-IsWeb :
      (s : Bool) (p : Option (Press page)) (at : Option page.Point) (uri : Text)
      → ignored page s p at uri ≡ false
      → IsWeb uri
  unfolding ignored
  ignored-IsWeb s p at uri h = ground arith

  activate-IsGuarded :
      (s : Bool) (at : Option page.Point) (uri : Text) (l : Links page)
      → IsGuarded l
      → IsGuarded (activate page s at uri l)
  unfolding activate
  activate-IsGuarded s at uri l h = elim (Bool-cases (ignored page s l.pressed at uri)) [
    | inl e ↦ simp e h
    | inr e ↦
        let web = ignored-IsWeb s l.pressed at uri e in
        elim (Bool-cases l.remembered) [
          | inl f ↦
              simp (e, f)
                (record {
                  opens_web = All-append IsWeb l.opened (uri ∷ []) h.opens_web (web, tt);
                  asks_web = h.asks_web;
                })
          | inr f ↦ simp (e, f) (record { opens_web = h.opens_web; asks_web = web })
        ]
  ]

  OnAsked-toggle :
      (P : Text → Type 0) (d : Option (Text × Bool)) → OnAsked P d → OnAsked P (toggle page d)
  unfolding toggle
  OnAsked-toggle P none h = h
  OnAsked-toggle P (some (uri, checked)) h = h

  click_open-IsGuarded :
      (accepted : Bool) (d : Option (Text × Bool)) (l : Links page)
      → OnAsked IsWeb d
      → IsGuarded l
      → IsGuarded (click_open page accepted d l)
  unfolding click_open
  click_open-IsGuarded accepted none l hd h = h
  click_open-IsGuarded accepted (some (uri, checked)) l hd h = record {
    opens_web = All-append IsWeb l.opened (uri ∷ []) h.opens_web (hd, tt);
    asks_web = tt;
  }

  cancel_dialog-IsGuarded :
      (d : Option (Text × Bool)) (l : Links page) → IsGuarded l → IsGuarded (cancel_dialog page d l)
  unfolding cancel_dialog
  cancel_dialog-IsGuarded none l h = h
  cancel_dialog-IsGuarded (some d) l h = record { opens_web = h.opens_web; asks_web = tt }

  step-IsGuarded : (l : Links page) (e : Event page) → IsGuarded l → IsGuarded (step page l e)
  unfolding step
  step-IsGuarded l (pointerdown p s) h = record { opens_web = h.opens_web; asks_web = h.asks_web }
  step-IsGuarded l (activated s at uri) h = activate-IsGuarded s at uri l h
  step-IsGuarded l toggled h = record {
    opens_web = h.opens_web;
    asks_web = OnAsked-toggle IsWeb l.dialog h.asks_web;
  }
  step-IsGuarded l (open_clicked accepted) h = click_open-IsGuarded accepted l.dialog l h.asks_web h
  step-IsGuarded l cancelled h = cancel_dialog-IsGuarded l.dialog l h

  run-IsGuarded :
      (es : List (Event page)) (l : Links page) → IsGuarded l → IsGuarded (run page l es)
  unfolding run
  run-IsGuarded [] l h = h
  run-IsGuarded (e ∷ es) l h = run-IsGuarded es (step page l e) (step-IsGuarded l e h)

  abbrev pub fresh : Bool → Links page
  fresh remembered = record {
    pressed = none;
    remembered = remembered;
    dialog = none;
    opened = [];
    refocused = 0;
  }

  -- Whatever happens on the page and whatever storage holds, only URIs with the scheme `http:` or
  -- `https:` are opened, and the dialog asks about no other.
  pub opened-run :
      (remembered : Bool) (es : List (Event page))
      → All IsWeb (run page (fresh remembered) es).opened
        × OnAsked IsWeb (run page (fresh remembered) es).dialog
  opened-run remembered es =
      let h = run-IsGuarded es (fresh remembered) (record { opens_web = tt; asks_web = tt }) in
      (h.opens_web, h.asks_web)

  -- The clicks of the dialog's open button
  abbrev pub clicks : List (Event page) → ℕ
  clicks [] = 0
  clicks (open_clicked accepted ∷ es) = 1 + clicks es
  clicks (e ∷ es) = clicks es

  -- The preference is remembered only by a click while the box is checked and storage accepts.
  abbrev pub NoAccepted : List (Event page) → Type 0
  NoAccepted [] = Unit
  NoAccepted (open_clicked true ∷ es) = ⊥
  NoAccepted (e ∷ es) = NoAccepted es

  -- One step adds no more to what was opened than it is a click, and remembers nothing.
  IsCounted : Links page → ℕ → Links page → Type 0
  IsCounted l n l' = (length l'.opened ≤ length l.opened + n) × (l'.remembered ≡ false)

  click_open-IsCounted :
      (d : Option (Text × Bool)) (l : Links page)
      → l.remembered ≡ false
      → IsCounted l 1 (click_open page false d l)
  unfolding IsCounted click_open
  click_open-IsCounted none l h = (omega arith, h)
  click_open-IsCounted (some (uri, checked)) l h =
      (omega (arith, length-append l.opened (uri ∷ [])), ground arith)

  activate-IsCounted :
      (s : Bool) (at : Option page.Point) (uri : Text) (l : Links page)
      → l.remembered ≡ false
      → IsCounted l 0 (activate page s at uri l)
  unfolding IsCounted activate
  activate-IsCounted s at uri l h = elim (Bool-cases (ignored page s l.pressed at uri)) [
    | inl e ↦ simp e (omega arith, h)
    | inr e ↦ simp (e, h) (omega arith, refl)
  ]

  cancel_dialog-IsCounted :
      (d : Option (Text × Bool)) (l : Links page)
      → l.remembered ≡ false
      → IsCounted l 0 (cancel_dialog page d l)
  unfolding IsCounted cancel_dialog
  cancel_dialog-IsCounted none l h = (omega arith, h)
  cancel_dialog-IsCounted (some d) l h = (omega arith, h)

  opened-run_of_NoAccepted :
      (es : List (Event page)) (l : Links page)
      → l.remembered ≡ false
      → NoAccepted es
      → length (run page l es).opened ≤ length l.opened + clicks es
  unfolding run step IsCounted
  opened-run_of_NoAccepted [] l h hn = omega arith
  opened-run_of_NoAccepted (pointerdown p s ∷ es) l h hn =
      opened-run_of_NoAccepted es (step page l (pointerdown p s)) h hn
  opened-run_of_NoAccepted (toggled ∷ es) l h hn =
      opened-run_of_NoAccepted es (step page l toggled) h hn
  opened-run_of_NoAccepted (activated s at uri ∷ es) l h hn =
      let (n, r) = activate-IsCounted s at uri l h in
      omega (arith, n, opened-run_of_NoAccepted es (activate page s at uri l) r hn)
  opened-run_of_NoAccepted (cancelled ∷ es) l h hn =
      let (n, r) = cancel_dialog-IsCounted l.dialog l h in
      omega (arith, n, opened-run_of_NoAccepted es (cancel_dialog page l.dialog l) r hn)
  opened-run_of_NoAccepted (open_clicked false ∷ es) l h hn =
      let (n, r) = click_open-IsCounted l.dialog l h in
      omega (arith, n, opened-run_of_NoAccepted es (click_open page false l.dialog l) r hn)
  opened-run_of_NoAccepted (open_clicked true ∷ es) l h hn = elim hn [ ]

  -- On a page whose storage holds no preference and accepts none, no more links are opened than the
  -- dialog's open button was clicked.
  opened-le-clicks :
      (es : List (Event page))
      → NoAccepted es
      → length (run page (fresh false) es).opened ≤ clicks es
  opened-le-clicks es hn = omega (arith, opened-run_of_NoAccepted es (fresh false) refl hn)
