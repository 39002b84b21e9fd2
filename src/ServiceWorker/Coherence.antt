-- ===== src/ServiceWorker/Coherence.antt =====
-- The files that a version serves are those of one deploy.
use wosh.Prelude.{
  ◌≡◌, ◌≢◌, refl, sym, ◌∙◌, subst, true, false, List, [], ◌∷◌, Option, some, Text, codes, text_eq,
  text_eq_iff, All, Bool-cases, inl, inr,
}
use wosh.ServiceWorker.{
  opened, Cache, Caches, cache_name, Network, all_there, is_listed, add_all, set_cache, install,
  activate_worker, respond, on_fetch, Event, installed, activated, step, run,
}

text_eq_refl : (t : Text) → text_eq t t ≡ true
text_eq_refl t = (text_eq_iff t t).1 refl

text_eq_other : (s t : Text) → s ≢ t → text_eq s t ≡ false
text_eq_other s t h = elim (Bool-cases (text_eq s t)) [
  | inl e ↦ absurd (h ((text_eq_iff s t).0 e))
  | inr e ↦ e
]

-- An event that leaves a version's own cache alone: the installation of another version, or the
-- activation of that one.
abbrev pub Spares : Text → Event → Type 0
Spares version (installed other precache net) = cache_name version ≢ cache_name other
Spares version (activated same) = same ≡ version

activate_worker_own :
    (version : Text) (caches : Caches)
    → activate_worker version caches (cache_name version) ≡ caches (cache_name version)
unfolding activate_worker
activate_worker_own version caches = rw (text_eq_refl (cache_name version)) refl

set_cache_own :
    (name : Text) (c : Option Cache) (caches : Caches) → set_cache name c caches name ≡ c
set_cache_own name c caches = rw (text_eq_refl name) refl

add_all-listed :
    (net : Network) (paths : List Text) (c : Cache) (path : Text)
    → all_there net paths ≡ true
    → is_listed path paths ≡ true
    → add_all net paths c path ≡ net path
unfolding add_all
add_all-listed net paths c path ok listed = rw ok (rw listed refl)

step-spared :
    (version : Text) (e : Event) (caches : Caches)
    → Spares version e
    → step e caches (cache_name version) ≡ caches (cache_name version)
unfolding step
step-spared version (installed other precache net) caches h =
    rw (text_eq_other (cache_name version) (cache_name other) h) refl
step-spared version (activated same) caches h =
    subst (λ v. activate_worker v caches (cache_name version) ≡ caches (cache_name version)) (sym h)
      (activate_worker_own version caches)

run-spared :
    (version : Text) (es : List Event) (caches : Caches)
    → All (Spares version) es
    → run es caches (cache_name version) ≡ caches (cache_name version)
unfolding run
run-spared version [] caches h = refl
run-spared version (e ∷ es) caches (h, hs) =
    run-spared version es (step e caches) hs ∙ step-spared version e caches h

-- Once a version is installed, it answers every request of its origin for one of its files with what
-- the network gave when it was installed, whatever the network gives later, as long as no other
-- version is activated and it is not installed again.
pub on_fetch-install :
    (version path body : Text) (precache : List Text) (net later : Network) (caches : Caches)
    (es : List Event)
    → (install version precache net caches).0 ≡ true
    → is_listed path (codes "./" ∷ precache) ≡ true
    → net path ≡ some body
    → All (Spares version) es
    → on_fetch version
        (codes "GET")
        true
        path
        later
        (run es (install version precache net caches).1)
      ≡ respond (some body)
unfolding on_fetch install
on_fetch-install version path body precache net later caches es ok listed there hs =
    let name : Text = cache_name version in
    let paths : List Text = codes "./" ∷ precache in
    let c : Cache = add_all net paths (opened (caches name)) in
    let kept : run es (set_cache name (some c) caches) name ≡ some c =
      run-spared version es (set_cache name (some c) caches) hs
      ∙ set_cache_own name (some c) caches in
    rw kept (rw (add_all-listed net paths (opened (caches name)) path ok listed ∙ there) refl)
