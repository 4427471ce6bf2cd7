-- ===== src/Rest/Header/Content.antt =====
-- The text that `RestAPI::get` of eigerApp/src/restApi.cpp takes from a reply that a server has printed.
use mathlib.Core.List.{append-nil}
use adeiger.Base.{
  ℕ, suc, ◌+◌, ◌<◌, ◌≡◌, refl, sym, ap, Bool-cases, ◌∙◌, true, false, some, List, [], ◌∷◌, ◌++◌,
  ◌⊎◌, inl, inr, length, length-append, take-append, arith, codes, leb, ltb,
}
use adeiger.Base.Int.{ℤ}
use adeiger.Rest.Outside.{Outside}
use adeiger.Rest.Monad.{Result, ok}
use adeiger.Rest.Header.{
  Header, max_buf_size, connection_value, length_value, read_field, parse_header, same_word,
}
use adeiger.Rest.Header.Roundtrip.{
  IsLine, AreFields, print_fields, print_reply, blank_header, read_all, parse_header-print_reply,
}
use adeiger.Rest.Request.{content_text}

fits : (text old : List ℕ) → leb (length text) (length (text ++ old)) ≡ true
fits text old = ground (arith, length-append text old)

below_max : (n : ℕ) → n < 256 → ltb n max_buf_size ≡ true
below_max n h = ground (arith, h)

module _ (o : Outside) where
  -- A field with what follows its colon. It is not the length of the content, and if it is "connection" then
  -- its word fits in the array of 256 characters.
  abbrev pub IsOther : List ℕ → List ℕ → Type 0
  IsOther key rest =
      (same_word key (codes "content-length") ≡ false)
      × ((same_word key (codes "connection") ≡ false)
          ⊎ ((word : List ℕ) × (o.scan_word rest ≡ some word) × (length word < 256)))

  -- Fields with those that follow them and the text.
  abbrev pub AreOthers : List (List ℕ × List ℕ) → List (List ℕ × List ℕ) → List ℕ → Type 0
  AreOthers [] behind body = Unit
  AreOthers (f ∷ fields) behind body =
      IsOther f.0 (f.1 ++ (13 ∷ 10 ∷ print_fields (fields ++ behind) body))
      × AreOthers fields behind body

  -- The header that is read has the code and the length of `h`, whatever else changes.
  record Keeps (h : Header) (r : Result Header) : Type 0 where
    header : Header
    result : r ≡ ok header
    code : header.code ≡ h.code
    content_length : header.content_length ≡ h.content_length

  ignored-Keeps :
      (key rest : List ℕ) (h : Header)
      → same_word key (codes "content-length") ≡ false
      → same_word key (codes "connection") ≡ false
      → Keeps h (read_field o key rest h)
  unfolding read_field
  ignored-Keeps key rest h x y = record {
    header = h;
    result = rw (x, y) refl;
    code = refl;
    content_length = refl;
  }

  read_field-Keeps :
      (key rest : List ℕ) (h : Header) → IsOther key rest → Keeps h (read_field o key rest h)
  unfolding read_field connection_value
  read_field-Keeps key rest h (x, inl y) = ignored-Keeps key rest h x y
  read_field-Keeps key rest h (x, inr (word, y, z)) =
      elim (Bool-cases (same_word key (codes "connection"))) [
        | inl e ↦ record {
          header = record h { reconnect = same_word word (codes "close") };
          result = rw (x, e, y, below_max (length word) z) refl;
          code = refl;
          content_length = refl;
        }
        | inr e ↦ ignored-Keeps key rest h x e
      ]

  -- Other fields are read without a change of the code and the length.
  record Reaches (behind : List (List ℕ × List ℕ)) (body : List ℕ) (h : Header) (r : Result Header)
      : Type 0 where
    offset : ℕ
    header : Header
    result : r ≡ read_all o offset behind body header
    code : header.code ≡ h.code
    content_length : header.content_length ≡ h.content_length

  read_all-Reaches :
      (offset : ℕ) (fields behind : List (List ℕ × List ℕ)) (body : List ℕ) (h : Header)
      → AreOthers fields behind body
      → Reaches behind body h (read_all o offset (fields ++ behind) body h)
  unfolding read_all
  read_all-Reaches offset [] behind body h are = record {
    offset = offset;
    header = h;
    result = refl;
    code = refl;
    content_length = refl;
  }
  read_all-Reaches offset (f ∷ fields) behind body h are =
      let k =
        read_field-Keeps f.0 (f.1 ++ (13 ∷ 10 ∷ print_fields (fields ++ behind) body)) h are.0 in
      let r =
        read_all-Reaches (offset + (suc (length f.0 + length f.1) + 2)) fields behind body k.header
          are.1 in
      record {
        offset = r.offset;
        header = r.header;
        result = rw k.result r.result;
        code = r.code ∙ k.code;
        content_length = r.content_length ∙ k.content_length;
      }

  read_length :
      (offset n : ℕ) (key value : List ℕ) (behind : List (List ℕ × List ℕ)) (body : List ℕ)
      (h : Header)
      → same_word key (codes "content-length") ≡ true
      → o.scan_length (value ++ (13 ∷ 10 ∷ print_fields behind body)) ≡ some n
      → read_all o offset ((key, value) ∷ behind) body h
        ≡ read_all o
            (offset + (suc (length key + length value) + 2))
            behind
            body
            (record h { content_length = n })
  unfolding read_all read_field length_value
  read_length offset n key value behind body h is says = rw (is, says) refl

  -- A reply with a code, with a field "content-length" in upper or lower case that says the length of its
  -- text, with any other fields before and behind it, and with that text and anything behind it, is read as
  -- this code and this text. Of the other fields none has that key too, and a field "connection" has a word
  -- of less than 256 characters.
  pub content_text-print_reply :
      (status key value text old : List ℕ) (before behind : List (List ℕ × List ℕ)) (code : ℤ)
      → IsLine status
      → AreFields (before ++ ((key, value) ∷ behind))
      → AreOthers before ((key, value) ∷ behind) (text ++ old)
      → AreOthers behind [] (text ++ old)
      → same_word key (codes "content-length") ≡ true
      → o.scan_code (print_reply status (before ++ ((key, value) ∷ behind)) (text ++ old))
        ≡ some code
      → o.scan_length (value ++ (13 ∷ 10 ∷ print_fields behind (text ++ old))) ≡ some (length text)
      → (h : Header) × (parse_header o
            (print_reply status (before ++ ((key, value) ∷ behind)) (text ++ old))
          ≡ ok h)
        × (h.code ≡ code)
        × (content_text h ≡ ok text)
  unfolding read_all read_field length_value content_text
  content_text-print_reply status key value text old before behind code is_status are others1
        others2 is has_code says =
      let a =
        read_all-Reaches (length status + 2) before ((key, value) ∷ behind) (text ++ old)
          (blank_header code) others1 in
      let offset = a.offset + (suc (length key + length value) + 2) in
      let b =
        read_all-Reaches offset behind [] (text ++ old)
          (record (a.header) { content_length = length text }) others2 in
      (
        record (b.header) { header_len = b.offset + 2; content = text ++ old },
        parse_header-print_reply o status (before ++ ((key, value) ∷ behind)) (text ++ old) code
              is_status are has_code
            ∙ a.result
            ∙ read_length a.offset (length text) key value behind (text ++ old) a.header is says
            ∙ ap
                (λ l.
                  read_all o offset l (text ++ old)
                    (record (a.header) { content_length = length text }))
                (sym (append-nil behind))
            ∙ b.result,
        b.code ∙ a.code,
        rw (b.content_length, fits text old) (ap ok (take-append text old)),
      )
