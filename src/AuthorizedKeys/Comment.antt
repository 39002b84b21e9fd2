-- ===== src/AuthorizedKeys/Comment.antt =====
-- What `cleanComment` lets through.
use wosh.Prelude.{
  ℕ, suc, zero, ◌≤◌, ◌≡◌, refl, ap, Bool, true, false, not, [], ◌∷◌, take, is_nil, All, arith,
  Bool-cases, inl, inr, Text, is_space, is_word, trim_start, trim_end, if◌then◌else◌, length,
  length-take, All-take, Option, none, some, ◌&&◌, take-length_le,
}
use wosh.AuthorizedKeys.{replace_runs, is_comment, is_edge, clean_comment}
use wosh.AuthorizedKeys.Runs.{
  All-trim_start, All-trim_end, All-replace_runs, All-replace_runs_of_All, HeadOutside,
  trim_start-HeadOutside, trim_end-HeadOutside, take-HeadOutside, trim_start_of_HeadOutside,
  trim_end_idem,
}

abbrev pub IsComment : ℕ → Type 0
IsComment c = is_comment c ≡ true

-- Spaces are single and plain; the flag says that the character before was one.
abbrev pub SingleSpaces : Bool → Text → Type 0
SingleSpaces b [] = Unit
SingleSpaces b (c ∷ s) = (is_space c ≡ true → (b ≡ false) × (c ≡ 32)) × SingleSpaces (is_space c) s

-- A comment in the form that `cleanComment` returns.
pub record IsClean (s : Text) : Type 0 where
  pub allowed : All IsComment s
  pub single : SingleSpaces false s
  pub head_outside : HeadOutside is_edge s
  pub no_trailing : trim_end is_edge s ≡ s
  pub short : length s ≤ 64

length-trim_end : (p : ℕ → Bool) (s : Text) → length (trim_end p s) ≤ length s
unfolding trim_end
length-trim_end p [] = omega arith
length-trim_end p (c ∷ s) = ground (arith, length-trim_end p s)

weaken : (b : Bool) (s : Text) → SingleSpaces b s → SingleSpaces false s
weaken b [] h = tt
weaken b (c ∷ s) (h, k) = (λ e. (refl, (h e).1), k)

SingleSpaces-replace_runs : (b : Bool) (s : Text) → SingleSpaces b (replace_runs is_space 32 b s)
unfolding replace_runs is_space
SingleSpaces-replace_runs b [] = tt
SingleSpaces-replace_runs b (c ∷ s) = elim (Bool-cases (is_space c)) [
  | inl e ↦ rw e (run b _ (SingleSpaces-replace_runs true s))
  | inr e ↦ rw e ((λ h. absurd (ground arith)), rw e (SingleSpaces-replace_runs false s))
]
  where
    run : (b : Bool) (t : Text) → SingleSpaces true t → SingleSpaces b (if b then t else 32 ∷ t)
    run true t h = h
    run false t h = (λ e. (refl, refl), h)

SingleSpaces-trim_start :
    (b : Bool) (p : ℕ → Bool) (s : Text) → SingleSpaces b s → SingleSpaces false (trim_start p s)
unfolding trim_start
SingleSpaces-trim_start b p [] h = tt
SingleSpaces-trim_start b p (c ∷ s) h = elim (Bool-cases (p c)) [
  | inl e ↦ rw e (SingleSpaces-trim_start (is_space c) p s h.1)
  | inr e ↦ rw e (weaken b (c ∷ s) h)
]

SingleSpaces-trim_end :
    (b : Bool) (p : ℕ → Bool) (s : Text) → SingleSpaces b s → SingleSpaces b (trim_end p s)
unfolding trim_end
SingleSpaces-trim_end b p [] h = tt
SingleSpaces-trim_end b p (c ∷ s) h = elim (Bool-cases (p c && is_nil (trim_end p s))) [
  | inl e ↦ rw e tt
  | inr e ↦ rw e (h.0, SingleSpaces-trim_end (is_space c) p s h.1)
]

SingleSpaces-take : (b : Bool) (n : ℕ) (s : Text) → SingleSpaces b s → SingleSpaces b (take n s)
SingleSpaces-take b zero s h = tt
SingleSpaces-take b (suc n) [] h = tt
SingleSpaces-take b (suc n) (c ∷ s) (h, k) = (h, SingleSpaces-take (is_space c) n s k)

IsComment-of_not : (c : ℕ) → not (is_comment c) ≡ false → IsComment c
IsComment-of_not c h = ground arith

-- Every text is brought into clean form: only whitelisted characters, single spaces, no dash or
-- space at either end, and at most 64 characters.
clean_comment-IsClean : (s : Option Text) → IsClean (clean_comment s)
unfolding clean_comment trim_end is_comment is_word
clean_comment-IsClean none = record {
  allowed = tt;
  single = tt;
  head_outside = tt;
  no_trailing = refl;
  short = omega arith;
}
clean_comment-IsClean (some s) = record {
  allowed = All-trim_end IsComment is_edge _ (All-take IsComment 64 _ kept);
  single = SingleSpaces-trim_end false is_edge _ (SingleSpaces-take false 64 _ spaces);
  head_outside = trim_end-HeadOutside is_edge is_edge _ (take-HeadOutside is_edge 64 _ head);
  no_trailing = trim_end_idem is_edge (take 64 trimmed);
  short = omega (arith, length-trim_end is_edge (take 64 trimmed), length-take 64 trimmed);
}
  where
    dashed : Text
    dashed = replace_runs (λ c. not (is_comment c)) 45 false s

    spaced : Text
    spaced = replace_runs is_space 32 false dashed

    trimmed : Text
    trimmed = trim_end is_edge (trim_start is_edge spaced)

    kept : All IsComment trimmed
    kept = All-trim_end IsComment is_edge _ (
        All-trim_start IsComment is_edge _ (
          All-replace_runs_of_All IsComment is_space 32 false dashed refl (
            All-replace_runs IsComment (λ c. not (is_comment c)) 45 false s refl IsComment-of_not)))

    spaces : SingleSpaces false trimmed
    spaces =
        SingleSpaces-trim_end false is_edge _
          (SingleSpaces-trim_start false is_edge _ (SingleSpaces-replace_runs false dashed))

    head : HeadOutside is_edge trimmed
    head = trim_end-HeadOutside is_edge is_edge _ (trim_start-HeadOutside is_edge spaced)

dashed_of_comment :
    (b : Bool) (s : Text) → All IsComment s → replace_runs (λ c. not (is_comment c)) 45 b s ≡ s
unfolding replace_runs
dashed_of_comment b [] h = refl
dashed_of_comment b (c ∷ s) (q, h) = rw q (ap (c ∷◌) (dashed_of_comment false s h))

spaced_of_single : (b : Bool) (s : Text) → SingleSpaces b s → replace_runs is_space 32 b s ≡ s
unfolding replace_runs
spaced_of_single b [] h = refl
spaced_of_single b (c ∷ s) (h, k) = elim (Bool-cases (is_space c)) [
  | inl e ↦ rw (e, (h e).0, (h e).1) (ap (32 ∷◌) (spaced_of_single true s (rw e at k)))
  | inr e ↦ rw e (ap (c ∷◌) (spaced_of_single false s (rw e at k)))
]

-- A comment in clean form is returned as it is.
pub clean_comment_of_IsClean : (s : Text) → IsClean s → clean_comment (some s) ≡ s
unfolding clean_comment
clean_comment_of_IsClean s h = rw (
  dashed_of_comment false s h.allowed,
  spaced_of_single false s h.single,
  trim_start_of_HeadOutside is_edge s h.head_outside,
  h.no_trailing,
  take-length_le 64 s h.short,
  h.no_trailing,
)

-- Cleaning a second time changes nothing.
clean_comment_idem : (s : Option Text) → clean_comment (some (clean_comment s)) ≡ clean_comment s
clean_comment_idem s = clean_comment_of_IsClean (clean_comment s) (clean_comment-IsClean s)
