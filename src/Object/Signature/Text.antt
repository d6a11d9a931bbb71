-- ===== src/Object/Signature/Text.antt =====
-- The steps of parseSignature of signature.go on the text of a signature, as git writes it.
use git4go.Common.{
  ℕ, suc, ◌+◌, ◌-◌, ◌≡◌, ◌≢◌, refl, ap, ap₂, ◌∙◌, false, Option, none, some, List, [], ◌∷◌, ◌++◌,
  append_assoc, arith, le→not_ltb, ne_test, length, length-append, take, drop, take-append_self,
  drop-append_add, All, ok, ℤ, pos, difference,
}
use git4go.RefDb.{trim_space}
use git4go.Object.Signature.{
  parse_int64, scan_line, name_and_email, drop_spaces, split_space, when_at, time_of,
}

-- A byte that is neither a newline nor a bracket around an e-mail.
abbrev pub IsPlain : ℕ → Type 0
IsPlain c = (c ≢ 10) × (c ≢ 60) × (c ≢ 62)

-- What a line of a signature says, as text.
pub record Signed : Type 0 where
  pub name : List ℕ
  pub email : List ℕ
  pub first : ℕ
  pub digits : List ℕ
  pub zone : List ℕ

abbrev pub stamp_tail : Signed → List ℕ
stamp_tail v = v.digits ++ (32 ∷ v.zone)

abbrev pub behind_email : Signed → List ℕ
behind_email v = 32 ∷ (v.first ∷ stamp_tail v)

abbrev pub signed_text : Signed → List ℕ
signed_text v = v.name ++ (32 ∷ (60 ∷ (v.email ++ (62 ∷ behind_email v))))

-- Where the brackets around its e-mail stand.
abbrev pub start_of : Signed → ℕ
start_of v = length v.name + 1

abbrev pub end_of : Signed → ℕ
end_of v = length v.name + 2 + length v.email

-- A name and an e-mail without white space around them, and a time without spaces, none of them with
-- a newline or a bracket.
pub record IsSigned (v : Signed) : Type 0 where
  pub plain_name : All IsPlain v.name
  pub plain_email : All IsPlain v.email
  pub plain_first : IsPlain v.first × (v.first ≢ 32)
  pub plain_digits : All (λ c. IsPlain c × (c ≢ 32)) v.digits
  pub plain_zone : All IsPlain v.zone
  pub trim_name : trim_space v.name ≡ v.name
  pub trim_email : trim_space v.email ≡ v.email
  pub trim_zone : trim_space v.zone ≡ v.zone

scan_line-plain :
    (xs ys : List ℕ) (i : ℕ) (start end : Option ℕ)
    → All IsPlain xs
    → scan_line (xs ++ ys) i start end ≡ scan_line ys (i + length xs) start end
unfolding scan_line
scan_line-plain [] ys i start end h = ap (λ k. scan_line ys k start end) (omega arith)
scan_line-plain (c ∷ xs) ys i start end h =
    rw (ne_test c 10 h.0.0, ne_test c 60 h.0.1, ne_test c 62 h.0.2)
      (scan_line-plain xs ys (i + 1) start end h.1
        ∙ ap (λ k. scan_line ys k start end) (omega arith))

split_space-plain :
    (xs ys : List ℕ)
    → All (λ c. IsPlain c × (c ≢ 32)) xs
    → split_space (xs ++ (32 ∷ ys)) ≡ (xs, 32 ∷ ys)
unfolding split_space
split_space-plain [] ys h = refl
split_space-plain (c ∷ xs) ys h = rw (split_space-plain xs ys h.1, ne_test c 32 h.0.1) refl

All-IsPlain : (xs : List ℕ) → All (λ c. IsPlain c × (c ≢ 32)) xs → All IsPlain xs
All-IsPlain [] h = tt
All-IsPlain (c ∷ xs) h = (h.0.0, All-IsPlain xs h.1)

pub difference-add : (a b : ℕ) → difference (a + b) a ≡ pos b
difference-add a b = rw (le→not_ltb (a + b) a (omega arith)) (ap pos (omega arith))

module _ (v : Signed) (signed : IsSigned v) where
  -- Scanning the line.
  pub scan_line-signed :
      (prefix behind : List ℕ)
      → All IsPlain prefix
      → scan_line (prefix ++ (signed_text v ++ (10 ∷ behind))) 0 none none
        ≡ some (
          length prefix + length (signed_text v),
          some (length prefix + start_of v),
          some (length prefix + end_of v),
        )
  unfolding scan_line
  scan_line-signed prefix behind h =
      ap (λ l. scan_line (prefix ++ l) 0 none none) text
      ∙ scan_line-plain prefix _ 0 none none h
      ∙ scan_line-plain v.name _ (0 + length prefix) none none signed.plain_name
      ∙ scan_line-plain v.email _ (at_start + 1) (some at_start) none signed.plain_email
      ∙ scan_line-plain (v.first ∷ v.digits) _ (at_end + 1 + 1) (some at_start) (some at_end)
          (signed.plain_first.0, All-IsPlain v.digits signed.plain_digits)
      ∙ scan_line-plain v.zone (10 ∷ behind) _ (some at_start) (some at_end) signed.plain_zone
      ∙ ap₃
          (omega (
            arith,
            length-append v.name (32 ∷ (60 ∷ (v.email ++ (62 ∷ behind_email v)))),
            length-append v.email (62 ∷ behind_email v),
            length-append v.digits (32 ∷ v.zone),
          ))
          (omega arith) (omega arith)
    where
      at_start : ℕ
      at_start = 0 + length prefix + length v.name + 1

      at_end : ℕ
      at_end = at_start + 1 + length v.email

      ap₃ :
          {a a' b b' c c' : ℕ}
          → a ≡ a'
          → b ≡ b'
          → c ≡ c'
          → ◌≡◌ {A = Option (ℕ × Option ℕ × Option ℕ)}
              (some (a, some b, some c))
              (some (a', some b', some c'))
      ap₃ p q r = cc

      text :
          signed_text v ++ (10 ∷ behind)
          ≡ v.name
            ++ (32
                ∷ (60
                    ∷ (v.email
                        ++ (62
                            ∷ (32 ∷ ((v.first ∷ v.digits) ++ (32 ∷ (v.zone ++ (10 ∷ behind)))))))))
      text = simp append_assoc

  pub name_and_email-signed :
      name_and_email (signed_text v) (pos (start_of v)) (pos (end_of v)) ≡ ok (v.name, v.email)
  unfolding name_and_email
  name_and_email-signed =
      rw
        (
          le→not_ltb (length v.name + 2 + length v.email) (length v.name + 1) (omega arith),
          ne_test (length v.name + 1) 0 (λ h. omega (arith, h)),
          name_bytes,
          email_bytes,
          signed.trim_name,
          signed.trim_email,
        )
        refl
    where
      name_bytes : take (length v.name + 1 - 1) (signed_text v) ≡ v.name
      name_bytes =
          ap (λ k. take k (signed_text v)) (omega arith)
          ∙ take-append_self v.name (32 ∷ (60 ∷ (v.email ++ (62 ∷ behind_email v))))

      email_bytes :
          take
            (length v.name + 2 + length v.email - (length v.name + 1 + 1))
            (drop (length v.name + 1 + 1) (signed_text v))
          ≡ v.email
      email_bytes =
          ap₂ take {x = length v.name + 2 + length v.email - (length v.name + 1 + 1)}
            {y = length v.email} (omega arith)
            (ap (λ k. drop k (signed_text v)) (omega arith)
              ∙ drop-append_add v.name (32 ∷ (60 ∷ (v.email ++ (62 ∷ behind_email v)))) 2)
          ∙ take-append_self v.email (62 ∷ behind_email v)

  pub behind_end : drop (end_of v + 1) (signed_text v) ≡ behind_email v
  behind_end =
      ap (λ k. drop k (signed_text v)) (omega arith)
      ∙ drop-append_add v.name (32 ∷ (60 ∷ (v.email ++ (62 ∷ behind_email v))))
          (suc (suc (length v.email + 1)))
      ∙ drop-append_add v.email (62 ∷ behind_email v) 1

  pub time_of-signed :
      (local_zone : ℤ → ℤ) (epoch : ℤ)
      → parse_int64 (v.first ∷ v.digits) ≡ (epoch, false)
      → time_of local_zone (drop_spaces (behind_email v))
        ≡ ok (when_at local_zone epoch (parse_int64 v.zone).0)
  unfolding time_of drop_spaces trim_space
  time_of-signed local_zone epoch parsed =
      rw
        (
          ne_test v.first 32 signed.plain_first.1,
          split_space-plain v.digits v.zone signed.plain_digits,
          parsed,
          signed.trim_zone,
        )
        refl
