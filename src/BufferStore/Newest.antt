-- ===== src/BufferStore/Newest.antt =====
-- The dump that was put last is there.
use wosh.Prelude.{
  ℕ, zero, suc, ◌<◌, ◌≡◌, refl, sym, ◌∙◌, ap, subst, Bool, true, false, [], ◌∷◌, ◌++◌, some, leb,
  length, drop, All, All-append, Bool-cases, inl, inr, arith, Text, text_eq, text_eq_iff,
}
use wosh.BufferStore.{
  Saved, cap, Store, find, no_fault, get, replace, add, insert, insert_by_at, newest_first, has_key,
  delete_all, stale, prune, put,
}
use wosh.BufferStore.Keeping.{IsDistinct, IsOlder, Entries}

abbrev IsOther : Text → Entries → Type 0
IsOther k es = All (λ e. text_eq e.0 k ≡ false) es

-- The store around the record that was put
record IsSplit (k : Text) (v : Saved) (es : Entries) : Type 0 where
  front : Entries
  back : Entries
  split : es ≡ front ++ (k, v) ∷ back
  front_other : IsOther k front
  back_other : IsOther k back
  front_older : IsOlder v.at front
  back_older : IsOlder v.at back

after :
    (k : Text) (v : Saved) (es : Entries)
    → (e : Text × Saved) → text_eq e.0 k ≡ false
    → e.1.at < v.at
    → IsSplit k v es
    → IsSplit k v (e ∷ es)
after k v es e other older h = record {
  front = e ∷ h.front;
  back = h.back;
  split = ap (e ∷◌) h.split;
  front_other = (other, h.front_other);
  back_other = h.back_other;
  front_older = (older, h.front_older);
  back_older = h.back_older;
}

has_key-IsOther : (k : Text) (es : Entries) → has_key k es ≡ false → IsOther k es
unfolding has_key
has_key-IsOther k [] h = tt
has_key-IsOther k ((j, v) ∷ es) h = (ground arith, has_key-IsOther k es (ground arith))

IsOther-has_key : (k : Text) (es : Entries) → IsOther k es → has_key k es ≡ false
unfolding has_key
IsOther-has_key k [] h = refl
IsOther-has_key k ((j, v) ∷ es) h = ground (arith, h.0, IsOther-has_key k es h.1)

add-IsSplit :
    (before : Text → Text → Bool) (k : Text) (v : Saved) (es : Entries)
    → IsOther k es
    → IsOlder v.at es
    → IsSplit k v (add before k v es)
unfolding add
add-IsSplit before k v [] other older = record {
  front = [];
  back = [];
  split = refl;
  front_other = tt;
  back_other = tt;
  front_older = tt;
  back_older = tt;
}
add-IsSplit before k v ((j, w) ∷ es) other older = elim (Bool-cases (before k j)) [
  | inl e ↦ rw e (record {
    front = [];
    back = (j, w) ∷ es;
    split = refl;
    front_other = tt;
    back_other = other;
    front_older = tt;
    back_older = older;
  })
  | inr e ↦ rw e (
      after k v (add before k v es) (j, w) other.0 older.0
        (add-IsSplit before k v es other.1 older.1))
]

replace-IsSplit :
    (k : Text) (v : Saved) (es : Entries)
    → has_key k es ≡ true
    → IsDistinct es
    → IsOlder v.at es
    → IsSplit k v (replace k v es)
unfolding replace has_key
replace-IsSplit k v [] h distinct older = absurd (cc)
replace-IsSplit k v ((j, w) ∷ es) h distinct older = elim (Bool-cases (text_eq j k)) [
  | inl e ↦ rw e (record {
    front = [];
    back = es;
    split = refl;
    front_other = tt;
    back_other = subst (λ i. IsOther i es) ((text_eq_iff j k).0 e) distinct.0;
    front_older = tt;
    back_older = older.1;
  })
  | inr e ↦ rw e (
      after k v (replace k v es) (j, w) e older.0
        (replace-IsSplit k v es (ground arith) distinct.1 older.1))
]

insert-IsSplit :
    (before : Text → Text → Bool) (k : Text) (v : Saved) (es : Entries)
    → IsDistinct es
    → IsOlder v.at es
    → IsSplit k v (insert before k v es)
unfolding insert
insert-IsSplit before k v es distinct older = elim (Bool-cases (has_key k es)) [
  | inl e ↦ rw e (replace-IsSplit k v es e distinct older)
  | inr e ↦ rw e (add-IsSplit before k v es (has_key-IsOther k es e) older)
]

module _ (P : Text × Saved → Type 0) where
  All-insert_by_at : (e : Text × Saved) (es : Entries) → P e → All P es → All P (insert_by_at e es)
  unfolding insert_by_at
  All-insert_by_at e [] p h = (p, tt)
  All-insert_by_at e (x ∷ xs) p h = elim (Bool-cases (leb x.1.at e.1.at)) [
    | inl le ↦ rw le (p, h)
    | inr gt ↦ rw gt (h.0, All-insert_by_at e xs p h.1)
  ]

  All-newest_first : (es : Entries) → All P es → All P (newest_first es)
  unfolding newest_first
  All-newest_first [] h = tt
  All-newest_first (e ∷ es) h = All-insert_by_at e (newest_first es) h.0 (All-newest_first es h.1)

  All-drop : (n : ℕ) (es : Entries) → All P es → All P (drop n es)
  All-drop zero es h = h
  All-drop (suc n) [] h = tt
  All-drop (suc n) (e ∷ es) h = All-drop n es h.1

insert_by_at-newest :
    (e : Text × Saved) (es : Entries) → IsOlder e.1.at es → insert_by_at e es ≡ e ∷ es
unfolding insert_by_at
insert_by_at-newest e [] h = refl
insert_by_at-newest e (x ∷ xs) h =
    let le : leb x.1.at e.1.at ≡ true = ground (arith, h.0) in rw le refl

-- The newest comes first, and sorting the others is not changed by it.
newest_first-newest :
    (e : Text × Saved) (xs ys : Entries)
    → IsOlder e.1.at xs
    → IsOlder e.1.at ys
    → newest_first (xs ++ e ∷ ys) ≡ e ∷ newest_first (xs ++ ys)
unfolding newest_first insert_by_at
newest_first-newest e [] ys hx hy =
    insert_by_at-newest e (newest_first ys) (All-newest_first (λ x. x.1.at < e.1.at) ys hy)
newest_first-newest e (x ∷ xs) ys hx hy =
    let gt : leb e.1.at x.1.at ≡ false = ground (arith, hx.0) in
    ap (insert_by_at x) (newest_first-newest e xs ys hx.1 hy) ∙ rw gt refl

find_there :
    (k : Text) (v : Saved) (xs ys : Entries) → IsOther k xs → find k (xs ++ (k, v) ∷ ys) ≡ some v
unfolding find
find_there k v [] ys h = let same = (text_eq_iff k k).1 refl in rw same refl
find_there k v (x ∷ xs) ys h = rw (h.0) (find_there k v xs ys h.1)

find-delete_all :
    (k : Text) (ks es : Entries) → has_key k ks ≡ false → find k (delete_all ks es) ≡ find k es
unfolding find delete_all
find-delete_all k ks [] h = refl
find-delete_all k ks ((j, v) ∷ es) h = elim (Bool-cases (text_eq j k)) [
  | inl e ↦
      let stays : has_key j ks ≡ false =
        subst (λ i. has_key i ks ≡ false) (sym ((text_eq_iff j k).0 e)) h in
      rw (stays, e) refl
  | inr e ↦ elim (Bool-cases (has_key j ks)) [
    | inl f ↦ rw (f, e) (find-delete_all k ks es h)
    | inr f ↦ rw (f, e) (find-delete_all k ks es h)
  ]
]

-- What is pruned is behind the newest.
stale-IsOther :
    (k : Text) (v : Saved) (xs ys : Entries)
    → IsOther k xs
    → IsOther k ys
    → IsOlder v.at xs
    → IsOlder v.at ys
    → has_key k (stale (xs ++ (k, v) ∷ ys)) ≡ false
stale-IsOther k v xs ys ox oy hx hy =
    ap (λ es. has_key k (drop cap es)) (newest_first-newest (k, v) xs ys hx hy)
    ∙ IsOther-has_key k (drop 7 (newest_first (xs ++ ys))) (
        All-drop (λ e. text_eq e.0 k ≡ false) 7 (newest_first (xs ++ ys))
          (All-newest_first (λ e. text_eq e.0 k ≡ false) (xs ++ ys)
            (All-append (λ e. text_eq e.0 k ≡ false) xs ys ox oy)))

find-prune : (k : Text) (v : Saved) (es : Entries) → IsSplit k v es → find k (prune es) ≡ some v
unfolding prune
find-prune k v es h =
    let whole = h.front ++ (k, v) ∷ h.back in
    let there = find_there k v h.front h.back h.front_other in
    subst (λ xs. find k (prune xs) ≡ some v) (sym h.split)
      (elim (Bool-cases (leb (length whole) cap)) [
        | inl e ↦ rw e there
        | inr e ↦ rw e (
            find-delete_all k (stale whole) whole (
              stale-IsOther k v h.front h.back h.front_other h.back_other h.front_older
                h.back_older)
            ∙ there)
      ])

-- In a store of distinct keys whose dumps are all older, a put that storage carries out is read back
-- by a get of the same key, with its time: pruning never drops the dump that was just put.
pub get-put :
    (before : Text → Text → Bool) (k buf : Text) (now : ℕ) (s : Store)
    → IsDistinct s.entries
    → IsOlder now s.entries
    → (get no_fault k (put before no_fault k buf now s)).0 ≡ some (record { buf = buf; at = now })
unfolding get put
get-put before k buf now s distinct older =
    find-prune k (record { buf = buf; at = now })
      (insert before k (record { buf = buf; at = now }) s.entries)
      (insert-IsSplit before k (record { buf = buf; at = now }) s.entries distinct older)
