-- ===== src/ServiceWorker.antt =====
-- The service worker of a deployed site: site/sw.js. The network and the files of a version are
-- parameters; a path of the site stands for its request.
pub mod Coherence
mod Tests
use wosh.Prelude.{
  Bool, true, false, ◌&&◌, ◌||◌, not, List, [], ◌∷◌, ◌++◌, Option, none, some, if◌then◌else◌, Text,
  codes, text_eq, starts_with,
}

abbrev pub Cache : Type 0
Cache = Text → Option Text

-- The caches of the origin, by name, those that there are.
abbrev pub Caches : Type 0
Caches = Text → Option Cache

-- `CACHE`, by `VERSION`
abbrev pub cache_name : Text → Text
cache_name version = codes "wosh-" ++ version

-- What the network answers to a path: a body, or nothing that `addAll` would store.
abbrev pub Network : Type 0
Network = Text → Option Text

-- `caches.open`
abbrev pub opened : Option Cache → Cache
opened none = λ path. none
opened (some c) = c

-- `addAll`, which stores every file or, where one cannot be had, none.
abbrev pub all_there : Network → List Text → Bool
all_there net [] = true
all_there net (p ∷ ps) = is_there (net p) && all_there net ps
  where
    is_there : Option Text → Bool
    is_there none = false
    is_there (some body) = true

abbrev pub is_listed : Text → List Text → Bool
is_listed q [] = false
is_listed q (p ∷ ps) = text_eq q p || is_listed q ps

unfoldable pub add_all : Network → List Text → Cache → Cache
unfolding text_eq
add_all net paths c =
    if all_there net paths then (λ q. if is_listed q paths then net q else c q) else c

abbrev pub set_cache : Text → Option Cache → Caches → Caches
set_cache name c caches n = if text_eq n name then c else caches n

-- `install`: the caches then, and whether the worker is installed
unfoldable pub install : Text → List Text → Network → Caches → Bool × Caches
unfolding add_all
install version precache net caches =
    let paths = codes "./" ∷ precache in
    let name = cache_name version in
    (all_there net paths, set_cache name (some (add_all net paths (opened (caches name)))) caches)

-- `activate`
unfoldable pub activate_worker : Text → Caches → Caches
unfolding text_eq starts_with
activate_worker version caches name =
    if starts_with (codes "wosh-") name && not (text_eq name (cache_name version))
    then none
    else caches name

-- What a `fetch` is answered with: left to the browser, or a response, which the network may not
-- have.
pub data Response : Type 0 where
  left_alone : Response
  respond : Option Text → Response

abbrev in_cache : Option Cache → Text → Option Text
in_cache none path = none
in_cache (some c) path = c path

abbrev or_network : Option Text → Option Text → Option Text
or_network (some hit) body = some hit
or_network none body = body

-- `fetch`, by the method and whether the request is to the worker's origin
unfoldable pub on_fetch : Text → Text → Bool → Text → Network → Caches → Response
unfolding text_eq
on_fetch version method same_origin path net caches =
    if not (text_eq method (codes "GET")) || not same_origin
    then left_alone
    else respond (or_network (in_cache (caches (cache_name version)) path) (net path))

-- A version that is installed with its files, and one that is activated.
pub data Event : Type 0 where
  installed : Text → List Text → Network → Event
  activated : Text → Event

unfoldable pub step : Event → Caches → Caches
unfolding install activate_worker
step (installed version precache net) caches = (install version precache net caches).1
step (activated version) caches = activate_worker version caches

unfoldable pub run : List Event → Caches → Caches
unfolding step
run [] caches = caches
run (e ∷ es) caches = run es (step e caches)
