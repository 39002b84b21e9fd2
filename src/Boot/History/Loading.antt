-- ===== src/Boot/History/Loading.antt =====
-- What is saved is loaded again, and loading cleans an entry once and for all.
use wosh.Prelude.{
  ◌≡◌, refl, ap, Bool, true, false, List, [], ◌∷◌, map, Option, none, some, if◌then◌else◌, take,
  All, All-take, Text, Bool-cases, inl, inr,
}
use wosh.Boot.History.{
  Field, text, truth, number, absent, other, Tools, booleans, no_tools, StoredEntry, Connection,
  kept_text, is_named, offered, given, kept_flag, kept_tools, kept_tools_at, coerce, Storage, array,
  unusable, loaded, load_history, text_field, tools_field, number_field, to_stored, history_cap,
  save_history,
}

-- An entry that survives being saved and loaded.
unfoldable pub IsClean : Connection → Type 0
IsClean c = coerce (to_stored c) ≡ c

kept_text_idem :
    (p : Text → Bool) (f : Field) → kept_text p (text_field (kept_text p f)) ≡ kept_text p f
kept_text_idem p (text t) = elim (Bool-cases (p t)) [ inl e ↦ rw (e, e) refl | inr e ↦ rw e refl ]
kept_text_idem p (truth b) = refl
kept_text_idem p (number n) = refl
kept_text_idem p absent = refl
kept_text_idem p other = refl

kept_flag_back : (b : Bool) → kept_flag (if b then truth true else absent) ≡ b
kept_flag_back true = refl
kept_flag_back false = refl

kept_tools_idem : (t : Tools) → kept_tools (tools_field (kept_tools t)) ≡ kept_tools t
kept_tools_idem (booleans bs) = refl
kept_tools_idem no_tools = refl

kept_tools_at_idem :
    (t : Tools) (f : Field)
    → kept_tools_at (tools_field (kept_tools t)) (number_field (kept_tools_at t f))
      ≡ kept_tools_at t f
kept_tools_at_idem (booleans bs) (text t) = refl
kept_tools_at_idem (booleans bs) (truth b) = refl
kept_tools_at_idem (booleans bs) (number n) = refl
kept_tools_at_idem (booleans bs) absent = refl
kept_tools_at_idem (booleans bs) other = refl
kept_tools_at_idem no_tools f = refl

coerce-IsClean : (e : StoredEntry) → IsClean (coerce e)
unfolding IsClean coerce to_stored
coerce-IsClean e =
    rw
      (
        kept_text_idem is_named e.name,
        kept_text_idem given e.command,
        kept_text_idem offered e.method,
        kept_flag_back (kept_flag e.auto_resume),
        kept_tools_idem e.tools,
        kept_tools_at_idem e.tools e.tools_at,
      )
      refl

loaded-IsClean : (es : List (Option StoredEntry)) → All IsClean (loaded es)
unfolding loaded
loaded-IsClean [] = tt
loaded-IsClean (none ∷ es) = loaded-IsClean es
loaded-IsClean (some e ∷ es) = (coerce-IsClean e, loaded-IsClean es)

pub load_history-IsClean : (s : Storage) → All IsClean (load_history s)
unfolding load_history
load_history-IsClean (array es) = loaded-IsClean es
load_history-IsClean unusable = tt

loaded-map :
    (cs : List Connection) → All IsClean cs → loaded (map (λ c. some (to_stored c)) cs) ≡ cs
unfolding loaded IsClean
loaded-map [] h = refl
loaded-map (c ∷ cs) h = rw (h.0, loaded-map cs h.1) refl

pub load_history-save_history :
    (cs : List Connection) (s : Storage)
    → All IsClean cs
    → load_history (save_history true cs s) ≡ take history_cap cs
unfolding load_history save_history
load_history-save_history cs s h =
    loaded-map (take history_cap cs) (All-take IsClean history_cap cs h)

-- Whatever storage holds, what the page loads from it and saves again is loaded as it was, up to the
-- cap.
load_history-resave :
    (s t : Storage)
    → load_history (save_history true (load_history s) t) ≡ take history_cap (load_history s)
load_history-resave s t = load_history-save_history (load_history s) t (load_history-IsClean s)

-- The first entry may be any.
pub load_history-save_history_cons :
    (c : Connection) (cs : List Connection) (s : Storage)
    → All IsClean cs
    → load_history (save_history true (c ∷ cs) s) ≡ coerce (to_stored c) ∷ take 19 cs
unfolding load_history save_history loaded
load_history-save_history_cons c cs s h =
    ap (coerce (to_stored c) ∷◌) (loaded-map (take 19 cs) (All-take IsClean 19 cs h))
