-- ===== src/Api/Cursor.antt =====
-- `encode_cursor` and `decode_cursor` of services/api/app/usecases/alert_usecase.py, which fill the
-- interface that the pages take. UTF-8, ISO 8601 and the text of an ObjectId are parameters.
pub mod Tests
use theft_detection_platform.Prelude.{
  ℕ, zero, suc, ◌+◌, ◌*◌, ◌/◌, ◌%◌, ◌<◌, ◌≡◌, ◌≢◌, refl, sym, ap, ◌∙◌, Bool, true, false, not, ◌&&◌,
  ◌||◌, Option, none, some, List, [], ◌∷◌, ◌++◌, arith, ltb, ◌==◌, all, bytes_eq, bytes_eq_refl,
  if◌then◌else◌, Result, ok, err, ◌>>=◌, ◌>>◌, raise_if, All, Bytes,
}
use theft_detection_platform.Api.Alerts.{
  AlertSort, by_created_at, by_decided_at, AppError, malformed_id, malformed_cursor,
  cursor_order_mismatch,
}
use theft_detection_platform.Api.Alerts.Repository.{Place}
use theft_detection_platform.Api.Alerts.Listing.{Cursor, CursorCodec}
use theft_detection_platform.Api.Base64

abbrev pub bar : ℕ
bar = 124

abbrev Text : Type 0
Text = List ℕ

abbrev pub has_no_bar : Text → Bool
has_no_bar t = all (λ c. not (c == bar)) t

abbrev pub is_empty : Text → Bool
is_empty [] = true
is_empty (_ ∷ _) = false

-- What the cursor relies on of Python and bson.
pub record Formats : Type 0 where
  pub utf8 : Text → Bytes
  pub from_utf8 : Bytes → Option Text
  pub isoformat : ℕ → Text
  pub fromisoformat : Text → Option ℕ
  pub show_oid : ℕ → Text
  pub parse_oid : Text → Option ℕ

-- Each reading undoes the writing, bytes are below 256, and the texts are neither empty nor hold a
-- bar.
pub record IsFaithful (f : Formats) : Type 0 where
  pub utf8_bytes : (t : Text) → All (λ b. b < 256) (f.utf8 t)
  pub utf8_some : (t : Text) → is_empty t ≡ false → is_empty (f.utf8 t) ≡ false
  pub utf8_back : (t : Text) → f.from_utf8 (f.utf8 t) ≡ some t
  pub iso_back : (moment : ℕ) → f.fromisoformat (f.isoformat moment) ≡ some moment
  pub iso_bar : (moment : ℕ) → has_no_bar (f.isoformat moment) ≡ true
  pub iso_some : (moment : ℕ) → is_empty (f.isoformat moment) ≡ false
  pub oid_back : (oid : ℕ) → f.parse_oid (f.show_oid oid) ≡ some oid
  pub oid_bar : (oid : ℕ) → has_no_bar (f.show_oid oid) ≡ true
  pub oid_some : (oid : ℕ) → is_empty (f.show_oid oid) ≡ false

-- The values of SORT_CREATED and SORT_DECIDED.
abbrev pub sort_name : AlertSort → Text
sort_name by_created_at = b'c' ∷ b'r' ∷ b'e' ∷ b'a' ∷ b't' ∷ b'e' ∷ b'd' ∷ b'_' ∷ b'a' ∷ b't' ∷ []
sort_name by_decided_at = b'd' ∷ b'e' ∷ b'c' ∷ b'i' ∷ b'd' ∷ b'e' ∷ b'd' ∷ b'_' ∷ b'a' ∷ b't' ∷ []

abbrev prepend : ℕ → List Text → List Text
prepend c [] = (c ∷ []) ∷ []
prepend c (part ∷ parts) = (c ∷ part) ∷ parts

-- `raw.split("|")`
unfoldable pub split_bars : Text → List Text
split_bars [] = [] ∷ []
split_bars (c ∷ cs) = if c == bar then [] ∷ split_bars cs else prepend c (split_bars cs)

split_bars-end : (t : Text) → has_no_bar t ≡ true → split_bars t ≡ t ∷ []
unfolding split_bars
split_bars-end [] h = refl
split_bars-end (c ∷ t) h = ground (arith, split_bars-end t (ground arith))

split_bars-append :
    (t rest : Text) → has_no_bar t ≡ true → split_bars (t ++ bar ∷ rest) ≡ t ∷ split_bars rest
unfolding split_bars
split_bars-append [] rest h = refl
split_bars-append (c ∷ t) rest h = ground (arith, split_bars-append t rest (ground arith))

sort_name-has_no_bar : (sort : AlertSort) → has_no_bar (sort_name sort) ≡ true
sort_name-has_no_bar by_created_at = refl
sort_name-has_no_bar by_decided_at = refl

sort_name-some : (sort : AlertSort) → is_empty (sort_name sort) ≡ false
sort_name-some by_created_at = refl
sort_name-some by_decided_at = refl

append-some : (t rest : Text) → is_empty t ≡ false → is_empty (t ++ rest) ≡ false
append-some [] rest h = absurd (ground arith)
append-some (c ∷ t) rest h = refl

module _ (f : Formats) where
  unfoldable pub encode_cursor : AlertSort → (boundary oid : ℕ) → Cursor
  encode_cursor sort boundary oid =
      Base64.encode
        (f.utf8 (sort_name sort ++ bar ∷ (f.isoformat boundary ++ bar ∷ f.show_oid oid)))

  -- The three segments.
  unfoldable pub decode_parts : List Text → AlertSort → Result AppError (ℕ × List ℕ)
  decode_parts (origin ∷ timestamp ∷ id ∷ []) sort =
      raise_if (is_empty id || is_empty timestamp) malformed_cursor
      >> raise_if (not (bytes_eq origin (sort_name sort))) cursor_order_mismatch
      >> elim (f.fromisoformat timestamp) [
        | none ↦ err malformed_cursor
        | some parsed ↦ ok (parsed, id)
      ]
  decode_parts _ sort = err malformed_cursor

  unfoldable pub decode_cursor : Cursor → AlertSort → Result AppError (ℕ × List ℕ)
  decode_cursor cursor sort =
      raise_if (not (all (λ c. ltb c 128) cursor)) malformed_cursor
      >> elim (Base64.decode (Base64.padded cursor)) [
        | none ↦ err malformed_cursor
        | some bytes ↦ elim (f.from_utf8 bytes) [
          | none ↦ err malformed_cursor
          | some raw ↦ decode_parts (split_bars raw) sort
        ]
      ]

  -- `decode_cursor`, and `_oid` on the identifier.
  unfoldable pub decode_place : Cursor → AlertSort → Result AppError Place
  decode_place cursor sort = decode_cursor cursor sort >>= λ parsed.
      let (boundary, id) = parsed in
      elim (f.parse_oid id) [ none ↦ err malformed_id | some oid ↦ ok (boundary, oid) ]

  module _ (ok_ : IsFaithful f) where
    -- A cursor that was handed out is read back: under the order that it was written for, it gives
    -- the moment and the identifier that it was written with.
    pub decode_cursor-encode :
        (sort : AlertSort) (boundary oid : ℕ)
        → decode_cursor (encode_cursor sort boundary oid) sort ≡ ok (boundary, f.show_oid oid)
    unfolding encode_cursor decode_cursor decode_parts
    decode_cursor-encode sort boundary oid =
        let raw = sort_name sort ++ bar ∷ (f.isoformat boundary ++ bar ∷ f.show_oid oid) in
        let parts : split_bars raw ≡ sort_name sort ∷ f.isoformat boundary ∷ f.show_oid oid ∷ [] =
          split_bars-append (sort_name sort) _ (sort_name-has_no_bar sort)
          ∙ ap (λ ps. sort_name sort ∷ ps)
              (split_bars-append (f.isoformat boundary) _ (ok_.iso_bar boundary)
                ∙ ap (λ ps. f.isoformat boundary ∷ ps)
                    (split_bars-end (f.show_oid oid) (ok_.oid_bar oid))) in
        rw
          (
            Base64.all-encode (f.utf8 raw) (ok_.utf8_bytes raw),
            Base64.decode-encode (f.utf8 raw) (ok_.utf8_bytes raw),
            ok_.utf8_back raw,
            parts,
            ok_.oid_some oid,
            ok_.iso_some boundary,
            bytes_eq_refl (sort_name sort),
            ok_.iso_back boundary,
          )
          refl

    pub encode_cursor-some :
        (sort : AlertSort) (boundary oid : ℕ) → encode_cursor sort boundary oid ≢ []
    unfolding encode_cursor
    encode_cursor-some sort boundary oid h =
        let raw = sort_name sort ++ bar ∷ (f.isoformat boundary ++ bar ∷ f.show_oid oid) in
        let filled = ok_.utf8_some raw (append-some (sort_name sort) _ (sort_name-some sort)) in
        let nothing = Base64.encode-eq-nil (f.utf8 raw) h in ground arith

    pub decode_place-encode :
        (sort : AlertSort) (boundary oid : ℕ)
        → decode_place (encode_cursor sort boundary oid) sort ≡ ok (boundary, oid)
    unfolding decode_place
    decode_place-encode sort boundary oid =
        rw (decode_cursor-encode sort boundary oid, ok_.oid_back oid) refl

    -- The interface that the pages take.
    abbrev pub cursor_codec : CursorCodec
    cursor_codec = record {
      encode = encode_cursor;
      decode = decode_place;
      nonempty = encode_cursor-some;
      round_trip = decode_place-encode;
    }
