-- ===== src/Object/Signature/RoundTrip.antt =====
-- parseSignature of signature.go on a whole line, wherever it stands.
use git4go.Common.{
  ℕ, ◌+◌, ◌*◌, ◌<◌, Bool, not, some, ◌+ℤ◌, ◌-◌, ◌≡◌, refl, ap, ap₂, ◌∙◌, false, List, ◌∷◌, ◌++◌,
  arith, le→not_ltb, length, length-append, take, drop, take-append_self, drop-append_self,
  drop-append_add, All, ok, GitError, slice_range, slice_range-ok, bytes_equal_self, ℤ, pos,
}
use git4go.Object.Signature.{
  Signature, parse_int64, within_line, when_at, read_line, parse_signature,
}
use git4go.Object.Signature.Zone.{zone_text, directed, when_at-zone_text}
use git4go.Object.Signature.Text.{
  IsPlain, Signed, IsSigned, signed_text, difference-add, start_of, end_of, scan_line-signed,
  name_and_email-signed, behind_end, time_of-signed,
}

-- The signature that a text says.
abbrev pub signature_of : (local_zone : ℤ → ℤ) → Signed → (epoch : ℤ) → Signature
signature_of local_zone v epoch = record {
  name = v.name;
  email = v.email;
  when = when_at local_zone epoch (parse_int64 v.zone).0;
}

read_line-signed :
    (local_zone : ℤ → ℤ) (v : Signed) (epoch : ℤ)
    → IsSigned v
    → parse_int64 (v.first ∷ v.digits) ≡ (epoch, false)
    → read_line local_zone (signed_text v) (pos (start_of v)) (pos (end_of v))
      ≡ ok (signature_of local_zone v epoch)
unfolding read_line
read_line-signed local_zone v epoch signed parsed =
    rw
      (
        name_and_email-signed v signed,
        behind_end v signed,
        time_of-signed v signed local_zone epoch parsed,
      )
      refl

-- The line is read with the time as when_at makes it.
pub parse_signature-signed :
    (local_zone : ℤ → ℤ) (v : Signed) (front prefix behind spare : List ℕ) (epoch : ℤ)
    → IsSigned v
    → All IsPlain prefix
    → parse_int64 (v.first ∷ v.digits) ≡ (epoch, false)
    → parse_signature local_zone
        (record { elems = front ++ (prefix ++ (signed_text v ++ (10 ∷ behind))); spare = spare })
        (length front)
        prefix
      ≡ ok (
        signature_of local_zone v epoch,
        length front + (length prefix + length (signed_text v)) + 1,
      )
unfolding parse_signature within_line
parse_signature-signed local_zone v front prefix behind spare epoch signed plain parsed =
    rw
      (
        drop-append_self front line,
        scan_line-signed v signed prefix behind plain,
        opening,
        bytes_equal_self prefix,
        le→not_ltb (length prefix + length (signed_text v)) (length prefix) (omega arith),
        text,
        difference-add (length prefix) (start_of v),
        difference-add (length prefix) (end_of v),
        read_line-signed local_zone v epoch signed parsed,
      )
      refl
  where
    line : List ℕ
    line = prefix ++ (signed_text v ++ (10 ∷ behind))

    opening :
        slice_range {E = GitError}
          (record { elems = front ++ (prefix ++ (signed_text v ++ (10 ∷ behind))); spare = spare })
          (length front)
          (length prefix)
        ≡ ok prefix
    opening =
        slice_range-ok (record { elems = front ++ line; spare = spare }) (length front)
          (length prefix)
          (omega (
            arith,
            length-append front line,
            length-append prefix (signed_text v ++ (10 ∷ behind)),
          ))
        ∙ ap (λ l. ok (take (length prefix) l)) (drop-append_self front line)
        ∙ ap ok (take-append_self prefix (signed_text v ++ (10 ∷ behind)))

    text :
        take
          (length prefix + length (signed_text v) - length prefix)
          (drop (length front + length prefix) (front ++ line))
        ≡ signed_text v
    text =
        ap₂ take {x = length prefix + length (signed_text v) - length prefix}
          {y = length (signed_text v)} (omega arith)
          (drop-append_add front line (length prefix)
            ∙ drop-append_self prefix (signed_text v ++ (10 ∷ behind)))
        ∙ take-append_self (signed_text v) (10 ∷ behind)

-- Where a line begins with a prefix that has no bracket and no newline, and a signature stands behind it
-- as git writes that, with a zone of at most 13 hours and at most 58 minutes beside them, the name and
-- the e-mail are read back, which have no brackets, no newlines and no white space around them, and the
-- offset behind the line is returned. The zone of the time is the one of the line, and its seconds are
-- those that ParseInt takes from the line, moved by the machine's zone less the zone of the line.
pub parse_signature-zone_text :
    (local_zone : ℤ → ℤ) (v : Signed) (front prefix behind spare : List ℕ) (epoch : ℤ) (west : Bool)
    (hours minutes : ℕ)
    → IsSigned v
    → All IsPlain prefix
    → parse_int64 (v.first ∷ v.digits) ≡ (epoch, false)
    → v.zone ≡ zone_text west hours minutes
    → hours < 14
    → minutes < 59
    → parse_signature local_zone
        (record { elems = front ++ (prefix ++ (signed_text v ++ (10 ∷ behind))); spare = spare })
        (length front)
        prefix
      ≡ ok (
        record {
          name = v.name;
          email = v.email;
          when = record {
            seconds =
                epoch +ℤ (local_zone epoch +ℤ directed (not west) (hours * 3600 + minutes * 60));
            zone = some (directed west (hours * 3600 + minutes * 60));
          };
        },
        length front + (length prefix + length (signed_text v)) + 1,
      )
parse_signature-zone_text local_zone v front prefix behind spare epoch west hours minutes signed
      plain parsed zoned h k =
    parse_signature-signed local_zone v front prefix behind spare epoch signed plain parsed
    ∙ ap
        (λ t. ok (
          record { name = v.name; email = v.email; when = t },
          length front + (length prefix + length (signed_text v)) + 1,
        ))
        (ap (λ z. when_at local_zone epoch (parse_int64 z).0) zoned
          ∙ when_at-zone_text local_zone epoch west hours minutes h k)
