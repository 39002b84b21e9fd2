-- ===== src/BufferStore/Keeping.antt =====
-- What a put keeps and what it drops.
use wosh.Prelude.{
  ℕ, zero, suc, ◌+◌, ◌≤◌, ◌<◌, ◌≡◌, refl, Bool, true, false, List, [], ◌∷◌, if◌then◌else◌, leb,
  length, drop, All, Bool-cases, inl, inr, arith, Text, text_eq, text_eq_iff,
}
use wosh.BufferStore.{
  Saved, cap, Store, no_fault, insert, insert_by_at, newest_first, has_key, delete_all, stale,
  prune, put,
}

abbrev pub Entries : Type 0
Entries = List (Text × Saved)

-- No key stands twice.
abbrev pub IsDistinct : List (Text × Saved) → Type 0
IsDistinct [] = Unit
IsDistinct ((j, v) ∷ es) = All (λ e. text_eq e.0 j ≡ false) es × IsDistinct es

abbrev pub IsOlder : ℕ → List (Text × Saved) → Type 0
IsOlder now es = All (λ e. e.1.at < now) es

abbrev IsOther : Text → Entries → Type 0
IsOther k es = All (λ e. text_eq e.0 k ≡ false) es

abbrev kept : Entries → Text × Saved → ℕ
kept ks e = if has_key e.0 ks then 0 else 1

length-delete_all :
    (ks : Entries) (e : Text × Saved) (es : Entries)
    → length (delete_all ks (e ∷ es)) ≡ kept ks e + length (delete_all ks es)
unfolding delete_all
length-delete_all ks e es = elim (Bool-cases (has_key e.0 ks)) [
  | inl h ↦ rw h (omega arith)
  | inr h ↦ rw h (omega arith)
]

-- Sorting changes nothing about how many are left.
length-insert_by_at :
    (ks : Entries) (e : Text × Saved) (es : Entries)
    → length (delete_all ks (insert_by_at e es)) ≡ kept ks e + length (delete_all ks es)
unfolding insert_by_at
length-insert_by_at ks e [] = length-delete_all ks e []
length-insert_by_at ks e (x ∷ xs) = elim (Bool-cases (leb x.1.at e.1.at)) [
  | inl le ↦ rw le (length-delete_all ks e (x ∷ xs))
  | inr gt ↦ rw gt (
      omega (
        arith,
        length-delete_all ks x (insert_by_at e xs),
        length-insert_by_at ks e xs,
        length-delete_all ks x xs,
      ))
]

length-newest_first :
    (ks es : Entries) → length (delete_all ks (newest_first es)) ≡ length (delete_all ks es)
unfolding newest_first
length-newest_first ks [] = refl
length-newest_first ks (e ∷ es) = omega (
  arith,
  length-insert_by_at ks e (newest_first es),
  length-newest_first ks es,
  length-delete_all ks e es,
)

pub All-weaken :
    (P Q : Text × Saved → Type 0) (es : Entries)
    → ((e : Text × Saved) → P e → Q e)
    → All P es
    → All Q es
All-weaken P Q [] f h = tt
All-weaken P Q (e ∷ es) f h = (f e h.0, All-weaken P Q es f h.1)

abbrev IsIn : Entries → Entries → Type 0
IsIn ks es = All (λ e. has_key e.0 ks ≡ true) es

self-IsIn : (es : Entries) → IsIn es es
unfolding has_key
self-IsIn [] = tt
self-IsIn ((j, v) ∷ es) =
    let same : text_eq j j ≡ true = (text_eq_iff j j).1 refl in
    (ground (arith, same), All-weaken _ _ es (λ e h. ground (arith, h)) (self-IsIn es))

length-delete_rest : (n : ℕ) (ks es : Entries) → IsIn ks (drop n es) → length (delete_all ks es) ≤ n
unfolding delete_all
length-delete_rest zero ks [] h = omega arith
length-delete_rest zero ks (e ∷ es) h =
    let gone : kept ks e ≡ 0 = rw (h.0) refl in
    omega (arith, gone, length-delete_all ks e es, length-delete_rest zero ks es h.1)
length-delete_rest (suc n) ks [] h = omega arith
length-delete_rest (suc n) ks (e ∷ es) h =
    let few : kept ks e ≤ 1 = ground arith in
    omega (arith, few, length-delete_all ks e es, length-delete_rest n ks es h)

length-prune : (es : Entries) → length (prune es) ≤ cap
unfolding prune
length-prune es = elim (Bool-cases (leb (length es) cap)) [
  | inl e ↦ rw e (ground arith)
  | inr e ↦ rw e (
      omega (
        arith,
        length-newest_first (stale es) es,
        length-delete_rest cap (stale es) (newest_first es) (self-IsIn (stale es)),
      ))
]

-- A put that storage carries out leaves no more records than the cap, whatever was there.
put-le-cap :
    (before : Text → Text → Bool) (k buf : Text) (now : ℕ) (s : Store)
    → length (put before no_fault k buf now s).entries ≤ cap
unfolding put
put-le-cap before k buf now s =
    length-prune (insert before k (record { buf = buf; at = now }) s.entries)
