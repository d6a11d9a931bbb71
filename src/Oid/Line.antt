-- ===== src/Oid/Line.antt =====
-- parseOidWithPrefix of oid.go on the line that it is made for.
use git4go.Common.{
  ℕ, suc, ◌+◌, ◌≡◌, refl, sym, ap, ◌∙◌, false, some, List, ◌∷◌, ◌++◌, arith, ltb, length, get_elem?,
  take, drop, length-append, take-append_self, drop-append_self, get_elem?-append, drop-append_add,
  ok, bytes_equal_self,
}
use git4go.Oid.{Oid, IsOid, hex_oid, or_none, parse_oid_with_prefix, string}
use git4go.Oid.RoundTrip.{new_oid-string, length-encode_to_string}

hex_oid-string : (oid : Oid) → IsOid oid → hex_oid (string oid) ≡ ok (some oid)
unfolding hex_oid or_none
hex_oid-string oid h = ap or_none (new_oid-string oid h)

pub length-string : (oid : Oid) → IsOid oid → length (string oid) ≡ 40
unfolding string
length-string oid h = omega (arith, length-encode_to_string oid, h.0)

-- A line of `prefix`, the text of an id and a newline gives that id, and the index behind the
-- line, wherever it stands.
pub parse_oid_with_prefix-line :
    (before prefix after : List ℕ) (oid : Oid)
    → IsOid oid
    → parse_oid_with_prefix
        (before ++ (prefix ++ (string oid ++ (10 ∷ after))))
        (length before)
        prefix
      ≡ ok (some oid, length before + length prefix + 40 + 1)
unfolding parse_oid_with_prefix
parse_oid_with_prefix-line before prefix after oid h =
    rw
      (
        long_enough,
        drop-append_self before (prefix ++ (string oid ++ (10 ∷ after))),
        take-append_self prefix (string oid ++ (10 ∷ after)),
        bytes_equal_self prefix,
        newline,
        digits,
        hex_oid-string oid h,
      )
      refl
  where
    line : List ℕ
    line = prefix ++ (string oid ++ (10 ∷ after))

    size : length (before ++ line) ≡ length before + (length prefix + (40 + suc (length after)))
    size = omega (
      arith,
      length-append before line,
      length-append prefix (string oid ++ (10 ∷ after)),
      length-append (string oid) (10 ∷ after),
      length-string oid h,
    )

    long_enough : ltb (length (before ++ line)) (length before + (length prefix + 40 + 1)) ≡ false
    long_enough = ground (arith, size)

    newline : get_elem? (before ++ line) (length before + length prefix + 40) ≡ some 10
    newline =
        ap (get_elem? (before ++ line)) add_assoc
        ∙ get_elem?-append before line (length prefix + 40)
        ∙ get_elem?-append prefix (string oid ++ (10 ∷ after)) 40
        ∙ behind
      where
        add_assoc : length before + length prefix + 40 ≡ length before + (length prefix + 40)
        add_assoc = omega arith

        behind : get_elem? (string oid ++ (10 ∷ after)) 40 ≡ some 10
        behind =
            ap (get_elem? (string oid ++ (10 ∷ after))) end
            ∙ get_elem?-append (string oid) (10 ∷ after) 0
          where
            end : 40 ≡ length (string oid) + 0
            end = omega (arith, length-string oid h)

    digits : take 40 (drop (length before + length prefix) (before ++ line)) ≡ string oid
    digits =
        ap (take 40) (
          drop-append_add before line (length prefix)
          ∙ drop-append_self prefix (string oid ++ (10 ∷ after)))
        ∙ ap (λ n. take n (string oid ++ (10 ∷ after))) (sym (length-string oid h))
        ∙ take-append_self (string oid) (10 ∷ after)
