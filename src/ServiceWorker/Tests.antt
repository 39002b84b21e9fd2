-- ===== src/ServiceWorker/Tests.antt =====
-- Two versions of a small site.
use wosh.Prelude.{◌≡◌, ◌≢◌, refl, ap, true, false, List, [], ◌∷◌, none, some, codes, text_eq}
use wosh.ServiceWorker.{
  Caches, Network, cache_name, install, on_fetch, respond, Event, installed, activated, run,
  is_listed,
}
use wosh.ServiceWorker.Coherence.{on_fetch-install}

abbrev old : Network
old path = some (codes "old")

abbrev new : Network
new path = some (codes "new")

abbrev no_caches : Caches
no_caches name = none

-- The worker is activated, and the next version is installed and waits.
abbrev next_waits : List Event
next_waits = activated (codes "a") ∷ installed (codes "b") (codes "boot.mjs" ∷ []) new ∷ []

other_name : cache_name (codes "a") ≢ cache_name (codes "b")
unfolding text_eq
other_name h = false_not_true (ap (λ n. text_eq n (cache_name (codes "b"))) h)
  where
    false_not_true : false ≢ true
    false_not_true e = absurd (cc)

installed_here : (install (codes "a") (codes "boot.mjs" ∷ []) old no_caches).0 ≡ true
unfolding install
installed_here = refl

listed_here : is_listed (codes "boot.mjs") (codes "./" ∷ codes "boot.mjs" ∷ []) ≡ true
unfolding text_eq
listed_here = refl

on_fetch-install_example :
    on_fetch
      (codes "a")
      (codes "GET")
      true
      (codes "boot.mjs")
      new
      (run next_waits (install (codes "a") (codes "boot.mjs" ∷ []) old no_caches).1)
    ≡ respond (some (codes "old"))
on_fetch-install_example =
    on_fetch-install (codes "a") (codes "boot.mjs") (codes "old") (codes "boot.mjs" ∷ []) old new
      no_caches next_waits installed_here listed_here refl (refl, (other_name, tt))
