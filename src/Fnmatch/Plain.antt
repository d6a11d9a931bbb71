-- ===== src/Fnmatch/Plain.antt =====
-- fnMatch of fnmatch.go on patterns without special characters, and on patterns of stars.
use git4go.Common.{
  ℕ, zero, suc, ◌+◌, ◌≤◌, ◌<◌, ◌≡◌, refl, sym, ap, ◌∙◌, inl, inr, Bool, true, false, some, List, [],
  ◌∷◌, arith, ltb, ◌==◌, if◌then◌else◌, Bool-cases, length, get_elem?, drop, replicate, All,
  drop-nil, ◌>>=◌, ok, panic, GitError, bytes_compare, bytes_equal,
}
use git4go.Fnmatch.Fold.{has, case_insensitive_match}
use git4go.Fnmatch.Match.{
  without_error, match_character, skip_stars, double_star, Recursion, match_star, match_round,
  match_loop, fn_match_x, fn_match, return, continue_with,
}

-- A character that stands for itself.
abbrev pub IsPlain : ℕ → Type 0
IsPlain c = (c == 63 ≡ false) × (c == 42 ≡ false) × (c == 91 ≡ false) × (c == 92 ≡ false)

drop-cons :
    (i : ℕ) (xs : List ℕ) (y : ℕ) (ys : List ℕ)
    → drop i xs ≡ y ∷ ys
    → (get_elem? xs i ≡ some y) × (drop (i + 1) xs ≡ ys) × (i < length xs)
drop-cons i [] y ys h = cc (sym (drop-nil i) ∙ h)
drop-cons zero (x ∷ xs) y ys h = (cc, cc, omega arith)
drop-cons (suc i) (x ∷ xs) y ys h =
    let (at, rest, below) = drop-cons i xs y ys h in
    (at, ap (λ k. drop k (x ∷ xs)) next ∙ rest, omega (arith, below))
  where
    next : suc i + 1 ≡ suc (i + 1)
    next = omega arith

drop-nil-le : (i : ℕ) (xs : List ℕ) → drop i xs ≡ [] → length xs ≤ i
drop-nil-le i [] h = omega arith
drop-nil-le zero (x ∷ xs) h = cc
drop-nil-le (suc i) (x ∷ xs) h = omega (arith, drop-nil-le i xs h)

bytes_equal-cons :
    (c t : ℕ) (p s : List ℕ)
    → bytes_equal (c ∷ p) (t ∷ s) ≡ (if c == t then bytes_equal p s else false)
unfolding bytes_equal bytes_compare
bytes_equal-cons c t p s = ground arith

plain_round :
    (call : Recursion) (pattern str : List ℕ) (c po initial so flags : ℕ)
    → IsPlain c
    → match_round call pattern str c po initial so flags ≡ match_character c str po so flags
unfolding match_round
plain_round call pattern str c po initial so flags h = rw (h.0, h.1, h.2, h.3) refl

plain_character :
    (c : ℕ) (str : List ℕ) (po so t : ℕ) (s : List ℕ)
    → drop so str ≡ t ∷ s
    → match_character c str po so 0
      ≡ ok (if c == t then continue_with po (so + 1) 0 else return false)
unfolding match_character case_insensitive_match has
plain_character c str po so t s h = rw (inside, (drop-cons so str t s h).0) (both (c == t))
  where
    inside : (so == length str) ≡ false
    inside = ground (arith, (drop-cons so str t s h).2)

    both :
        (b : Bool)
        → ◌>>=◌ {E = GitError}
            (if b then ok true else ok false)
            (λ same. ok (if same then continue_with po (so + 1) 0 else return false))
          ≡ ok (if b then continue_with po (so + 1) 0 else return false)
    both true = refl
    both false = refl

plain_character_end :
    (c : ℕ) (str : List ℕ) (po so : ℕ)
    → (so == length str) ≡ true
    → match_character c str po so 0 ≡ ok (return false)
unfolding match_character case_insensitive_match
plain_character_end c str po so h = rw h refl

at_end :
    (so : ℕ) (str s : List ℕ)
    → drop so str ≡ s
    → so ≤ length str
    → (so == length str) ≡ bytes_equal [] s
unfolding bytes_equal bytes_compare
at_end so str [] h inside = ground (arith, drop-nil-le so str h)
at_end so str (t ∷ s) h inside = ground (arith, (drop-cons so str t s h).2)

not_at_end :
    (i : ℕ) (xs : List ℕ) (y : ℕ) (ys : List ℕ) → drop i xs ≡ y ∷ ys → (i == length xs) ≡ false
not_at_end i xs y ys h = ground (arith, (drop-cons i xs y ys h).2)

plain_loop :
    (fuel : ℕ) (call : Recursion) (pattern str : List ℕ) (initial po so : ℕ) (p s : List ℕ)
    → drop po pattern ≡ p
    → drop so str ≡ s
    → po ≤ length pattern
    → so ≤ length str
    → All IsPlain p
    → length p < fuel
    → match_loop fuel call pattern str initial po so 0 ≡ ok (bytes_equal p s)
unfolding match_loop
plain_loop zero call pattern str initial po so p s hp hs lp ls plain fits = absurd (omega arith)
plain_loop (suc fuel) call pattern str initial po so [] s hp hs lp ls plain fits =
    rw (at_end po pattern [] hp lp, at_end so str s hs ls) (unfold bytes_equal in refl)
plain_loop (suc fuel) call pattern str initial po so (c ∷ p) [] hp hs lp ls plain fits =
    rw
      (
        not_at_end po pattern c p hp,
        (drop-cons po pattern c p hp).0,
        plain_round call pattern str c (po + 1) initial so 0 plain.0,
        plain_character_end c str (po + 1) so (at_end so str [] hs ls ∙ unfold bytes_equal in refl),
      )
      (unfold bytes_equal in refl)
plain_loop (suc fuel) call pattern str initial po so (c ∷ p) (t ∷ s) hp hs lp ls plain fits =
    rw
      (
        not_at_end po pattern c p hp,
        (drop-cons po pattern c p hp).0,
        plain_round call pattern str c (po + 1) initial so 0 plain.0,
        plain_character c str (po + 1) so t s hs,
        bytes_equal-cons c t p s,
      )
      (elim (Bool-cases (c == t)) [
        | inr e ↦ rw e refl
        | inl e ↦ rw e (
            plain_loop fuel call pattern str initial (po + 1) (so + 1) p s
              (drop-cons po pattern c p hp).1 (drop-cons so str t s hs).1
              (omega (arith, (drop-cons po pattern c p hp).2))
              (omega (arith, (drop-cons so str t s hs).2)) plain.1 (omega (arith, fits)))
      ])

-- A pattern without special characters matches exactly the string that it is, with no flag set.
pub fn_match_plain :
    (pattern str : List ℕ)
    → All IsPlain pattern
    → fn_match pattern str 0 ≡ ok (bytes_equal pattern str)
unfolding fn_match fn_match_x without_error
fn_match_plain pattern str plain =
    rw
      (plain_loop (suc (length pattern + length str)) (fn_match_x 63 pattern str) pattern str 0 0 0
        pattern str refl refl (omega arith) (omega arith) plain (omega arith))
      refl

skip_stars-replicate : (p k : ℕ) → skip_stars p (replicate k 42) ≡ panic
unfolding skip_stars
skip_stars-replicate p zero = refl
skip_stars-replicate p (suc k) = skip_stars-replicate (p + 1) k

abbrev stars : ℕ → List ℕ
stars k = 42 ∷ 42 ∷ replicate k 42

double_star-stars : (k flags : ℕ) → double_star (stars k) 1 flags ≡ panic
unfolding double_star
double_star-stars k flags = rw (two, skip_stars-replicate 1 (suc k)) refl
  where
    two : ltb 1 (length (stars k)) ≡ true
    two = ground arith

star_round :
    (k : ℕ) (call : Recursion) (str : List ℕ) (initial so flags : ℕ)
    → match_round call (stars k) str 42 1 initial so flags ≡ panic
unfolding match_round match_star
star_round k call str initial so flags = rw (double_star-stars k flags) refl

star_loop_panic :
    (fuel k : ℕ) (call : Recursion) (str : List ℕ) (initial so flags : ℕ)
    → match_loop (suc fuel) call (stars k) str initial 0 so flags ≡ panic
unfolding match_loop
star_loop_panic fuel k call str initial so flags =
    rw (more, star_round k call str initial so flags) refl
  where
    more : (0 == length (stars k)) ≡ false
    more = ground arith

fn_match_x-stars :
    (recurs k : ℕ) (str : List ℕ) (so flags : ℕ)
    → fn_match_x (suc (suc recurs)) (stars k) str 0 so flags ≡ panic
unfolding fn_match_x
fn_match_x-stars recurs k str so flags =
    star_loop_panic _ k (fn_match_x (suc recurs) (stars k) str) str so so flags

-- A pattern of two stars or more panics, on every string and whatever the flags are.
pub fn_match_stars :
    (k : ℕ) (str : List ℕ) (flags : ℕ) → fn_match (42 ∷ 42 ∷ replicate k 42) str flags ≡ panic
unfolding fn_match without_error
fn_match_stars k str flags = ap without_error (fn_match_x-stars 62 k str 0 flags)
