-- ===== src/Oid/Examples.antt =====
-- Runs of oid.go.
use git4go.Common.{
  ℕ, zero, suc, ◌-◌, ◌*◌, ◌<◌, Ordering, ◌≡◌, refl, ◌↔◌, true, none, [], ◌∷◌, ◌++◌, arith, take,
  replicate, All, All-append, ok, err, codes, GitError, message,
}
use git4go.Oid.{
  Oid, IsOid, zero_oid, new_oid, new_oid_from_prefix, parse_oid_with_prefix, string, cmp, is_zero,
  n_cmp,
}
use git4go.Oid.RoundTrip.{new_oid-string, string-new_oid, lower_all}
use git4go.Oid.Prefix.{new_oid_from_prefix-take, n_cmp-eq}

replicate-All : (P : ℕ → Type 0) (n x : ℕ) → P x → All P (replicate n x)
replicate-All P zero x h = tt
replicate-All P (suc n) x h = (h, replicate-All P n x h)

abbrev IsByte : ℕ → Type 0
IsByte b = b < 256

abbrev one_id : Oid
one_id = replicate 20 0xab

abbrev other_id : Oid
other_id = replicate 19 0xab ++ (0x12 ∷ [])

one_id-IsOid : IsOid one_id
one_id-IsOid = (refl, replicate-All IsByte 20 0xab (omega arith))

other_id-IsOid : IsOid other_id
other_id-IsOid = (
  refl,
  All-append IsByte (replicate 19 0xab) (0x12 ∷ []) (replicate-All IsByte 19 0xab (omega arith))
      (omega arith, tt),
)

-- Tests.
zero_is_zero : is_zero zero_oid ≡ true
unfolding is_zero
zero_is_zero = refl

capitals_run : new_oid (replicate 40 65) ≡ ok (replicate 20 0xaa)
unfolding new_oid
capitals_run = refl

short_run : new_oid (replicate 38 65) ≡ err (message "Invalid Oid")
unfolding new_oid
short_run = refl

order_run : cmp one_id other_id ≡ Ordering.gt
unfolding cmp
order_run = refl

bad_prefix_run : parse_oid_with_prefix (codes "tree 12\n") 0 (codes "tree ") ≡ ok (none, 0)
unfolding parse_oid_with_prefix
bad_prefix_run = refl

-- Witnesses.
new_oid-string_example : new_oid (string other_id) ≡ ok other_id
new_oid-string_example = new_oid-string other_id other_id-IsOid

string-new_oid_example :
    IsOid (replicate 20 0xaa) × (string (replicate 20 0xaa) ≡ lower_all (replicate 40 65))
string-new_oid_example = string-new_oid (replicate 40 65) (replicate 20 0xaa) capitals_run

new_oid_from_prefix-take_example :
    new_oid_from_prefix (take (2 * 3) (string other_id))
    ≡ ok (take 3 other_id ++ replicate (20 - 3) 0)
new_oid_from_prefix-take_example = new_oid_from_prefix-take 3 other_id other_id-IsOid (omega arith)

n_cmp-eq_example :
    (n_cmp {E = GitError} one_id other_id (2 * 19) ≡ ok Ordering.eq)
    ↔ (take (2 * 19) (string one_id) ≡ take (2 * 19) (string other_id))
n_cmp-eq_example = n_cmp-eq 19 one_id other_id one_id-IsOid other_id-IsOid (omega arith)
