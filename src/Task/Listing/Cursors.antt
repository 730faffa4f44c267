-- ===== src/Task/Listing/Cursors.antt =====
-- A cursor that was issued is read back.
use austro_os.Common.{
  ℕ, ◌<◌, false, ◌==◌, leb, if◌then◌else◌, Option, some, ok, err, [], ◌∷◌, ◌++◌, All, ◌≡◌, refl,
  ◌∙◌, ap, arith,
}
use austro_os.Common.Int.{pos}
use austro_os.Common.Text.{Text, is_empty}
use austro_os.Execution.Types.{Uuid}
use austro_os.Task.Lifecycle.{Task}
use austro_os.Task.Listing.Decimal.{half, IsDigit, format_int, format_nat-All, parse_int-format_int}
use austro_os.Task.Listing.{
  UuidText, invalid_cursor, dot, cut, max_nano, encode_cursor, decode_cursor, decode_id,
}

cut-digits : (s r : Text) → All IsDigit s → cut (s ++ dot ∷ r) ≡ some (s, r)
unfolding cut
cut-digits [] r d = refl
cut-digits (c ∷ s) r d =
    let other : (c == dot) ≡ false = ground arith in rw (other, cut-digits s r d.1) refl

pub not_empty-append : (s r : Text) (c : ℕ) → is_empty (s ++ c ∷ r) ≡ false
not_empty-append [] r c = refl
not_empty-append (x ∷ s) r c = refl

module _ (uuid : UuidText) where
  decodes :
      (n : ℕ) (id : Text)
      → n < half
      → decode_cursor uuid (format_int (pos n) ++ dot ∷ id)
        ≡ (if leb n max_nano then decode_id uuid (pos n) (uuid.parse id) else err invalid_cursor)
  unfolding decode_cursor
  decodes n id l =
      rw
        (
          not_empty-append (format_int (pos n)) id dot,
          cut-digits (format_int (pos n)) id (unfold format_int in format_nat-All n),
          parse_int-format_int n l,
        )
        refl

  -- The cursor of a task, from a time that fits an int64, is read back as the task's own time and id up to
  -- 2534023007999999999 nanoseconds, a day in April 2050, and refused beyond. The text of a UUID is read back by its library.
  pub decode_cursor-encode_cursor :
      ((id : Uuid) → uuid.parse (uuid.to_text id) ≡ some id)
      → (t : Task) → t.created_at < half
      → decode_cursor uuid (encode_cursor uuid t) ≡ (
          if leb t.created_at max_nano
          then ok (some (record { created_at = pos t.created_at; id = t.id }))
          else err invalid_cursor)
  unfolding encode_cursor
  decode_cursor-encode_cursor read t l =
      decodes t.created_at (uuid.to_text t.id) l
      ∙ ap
          (λ (o : Option Uuid).
            if leb t.created_at max_nano
            then decode_id uuid (pos t.created_at) o
            else err invalid_cursor)
          (read t.id)
