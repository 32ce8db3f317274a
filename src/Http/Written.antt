-- ===== src/Http/Written.antt =====
-- The text of a response (writeHttpResponse of backend/main.cpp and gateway/main.cpp), as the lines
-- that its readers find.
use paid_server.Base.{
  ℕ, ◌^◌, ◌<◌, ◌≡◌, refl, sym, ap, ◌∙◌, Text, text, same, [], ◌∷◌, ◌++◌, some, All, arith, length,
}
use mathlib.Core.Path.{subst}
use mathlib.Core.List.{append_assoc, reverse, reverse-cons}
use paid_server.Database.Monad.{ok}
use paid_server.Strings.{Headers, to_string, drop_blank}
use paid_server.Strings.Digits.{IsDigit, to_string-IsDigit}
use paid_server.Interfaces.{pos}
use paid_server.Settings.Keys.{IsTrim}
use paid_server.Settings.Load.{lines}
use paid_server.Gateway.Forwarder.{crlf, header_lines}
use paid_server.Http.{cut_end}
use paid_server.Http.Chunks.{body_within}
use paid_server.Http.Lines.{
  IsLineByte, IsLine, tail_of, rest_of, cut_end-message, lines-rest_of, got,
}
use paid_server.Http.Stored.{IsHeader, header_texts, got_rest, stoul-to_string, IsNoLength}
use paid_server.Http.Target.{append-All}
use paid_server.Http.Decide.{
  all_of, line_byte, other_than, header_ok, trim_ok, headers_ok, lines_ok,
}
use paid_server.Http.Forwarded.{
  tail_of-headers, header_texts-IsLine, body_within-length, got_cases, pop_cr-first,
}
use paid_server.Http.Response.{ForwardResponse, response_headers, response_finish, response_lines}
use paid_server.Http.Returned.{
  collected, cookies, collected-append, response_headers-collected, status_of-line,
}

digits-IsLine : (s : Text) → All IsDigit s → All IsLineByte s
digits-IsLine [] h = tt
digits-IsLine (c ∷ s) ((a, b), h) =
    ((λ e. omega (arith, a, e), λ e. omega (arith, a, e)), digits-IsLine s h)

digits-drop_blank : (s : Text) → All IsDigit s → drop_blank s ≡ s
unfolding drop_blank
digits-drop_blank [] h = refl
digits-drop_blank (c ∷ s) ((a, b), h) = ground (arith, a)

reverse-All : (P : ℕ → Type 0) (s : Text) → All P s → All P (reverse s)
reverse-All P [] h = tt
reverse-All P (c ∷ s) (p, h) =
    subst (λ r. All P r) (sym (reverse-cons c s))
      (append-All P (reverse s) (c ∷ []) (reverse-All P s h) (p, tt))

digits-IsTrim : (s : Text) → All IsDigit s → IsTrim s
digits-IsTrim s h = record {
  front = digits-drop_blank s h;
  back = digits-drop_blank (reverse s) (reverse-All IsDigit s h);
}

module _ (http_status : ℕ) (body : Text) (extra : Headers) where
  -- The text that writeHttpResponse puts together.
  abbrev pub response_text : Text
  response_text =
      text "HTTP/1.1 "
      ++ to_string http_status
      ++ text " OK"
      ++ crlf
      ++ text "Content-Type: application/json; charset=utf-8"
      ++ crlf
      ++ header_lines extra
      ++ text "Content-Length: "
      ++ to_string (length body)
      ++ crlf
      ++ text "Connection: close"
      ++ crlf
      ++ crlf
      ++ body

  abbrev pub last_headers : Headers
  last_headers =
      (text "Content-Length", to_string (length body)) ∷ (text "Connection", text "close") ∷ []

  abbrev pub first_headers : Headers
  first_headers = (text "Content-Type", text "application/json; charset=utf-8") ∷ extra

  abbrev pub status_line : Text
  status_line = text "HTTP/1.1 " ++ (to_string http_status ++ text " OK")

  header_lines-append :
      (hs ts : Headers) → header_lines (hs ++ ts) ≡ header_lines hs ++ header_lines ts
  unfolding header_lines
  header_lines-append [] ts = refl
  header_lines-append ((k, v) ∷ hs) ts =
      ap (λ s. k ++ text ": " ++ v ++ crlf ++ s) (header_lines-append hs ts)
      ∙ simp append_assoc refl

  written-lines :
      response_text ≡ status_line ++ tail_of (header_texts (first_headers ++ last_headers)) body
  unfolding header_lines text
  written-lines =
      rw⁻¹ (tail_of-headers (first_headers ++ last_headers) body)
        (rw (header_lines-append extra last_headers) (simp append_assoc refl))

  pub last_headers-IsHeader : All IsHeader last_headers
  unfolding text all_of header_ok trim_ok line_byte other_than drop_blank same
  last_headers-IsHeader =
      let fixed =
        headers_ok ((text "Content-Length", []) ∷ (text "Connection", text "close") ∷ []) refl in
      let digits = to_string-IsDigit (length body) in
      (
        (
          (
            append-All IsLineByte (text "Content-Length: ") (to_string (length body))
                (lines_ok (text "Content-Length: ") refl)
                (digits-IsLine (to_string (length body)) digits),
            refl,
          ),
          fixed.0.1,
          fixed.0.2,
          digits-IsTrim (to_string (length body)) digits,
        ),
        fixed.1,
      )

  content_type-IsHeader : IsHeader (text "Content-Type", text "application/json; charset=utf-8")
  unfolding text all_of header_ok trim_ok line_byte other_than drop_blank same
  content_type-IsHeader =
      (headers_ok ((text "Content-Type", text "application/json; charset=utf-8") ∷ []) refl).0

  collected_headers :
      All IsNoLength extra
      → length body < 2 ^ 64
      → collected (first_headers ++ last_headers) (0, []) ≡ ok (length body, cookies extra)
  unfolding same text
  collected_headers h b =
      collected-append first_headers last_headers [] 0 (refl, h)
      ∙ rw (stoul-to_string (length body) b) refl

  pub status_line-IsLine : IsLine status_line
  unfolding text all_of line_byte
  status_line-IsLine = (
    append-All IsLineByte (text "HTTP/1.1 ") _ (lines_ok (text "HTTP/1.1 ") refl) (
        append-All IsLineByte (to_string http_status) (text " OK")
          (digits-IsLine _ (to_string-IsDigit http_status)) (lines_ok (text " OK") refl)),
    refl,
  )

  abbrev pub forwarded : ForwardResponse
  forwarded = record { status = pos http_status; body = body; extra_headers = cookies extra }

  module _ (headers_h : All IsHeader extra) (no_length : All IsNoLength extra)
      (status_h : http_status < 2 ^ 31) (length_h : length body < 2 ^ 64) where
    pub sent_lines : All IsLine (header_texts (first_headers ++ last_headers))
    sent_lines = header_texts-IsLine (first_headers ++ last_headers) (
        append-All IsHeader first_headers last_headers (content_type-IsHeader, headers_h)
          last_headers-IsHeader)

    pub lines_of :
        response_lines
          (λ n. body_within n body)
          (got status_line (header_texts (first_headers ++ last_headers)))
        ≡ ok (some forwarded)
    lines_of =
        ap (response_lines (λ n. body_within n body))
          (got_cases status_line (header_texts (first_headers ++ last_headers)))
        ∙ ap
            (λ l.
              response_finish l (λ n. body_within n body)
                (response_headers (got_rest (header_texts (first_headers ++ last_headers)))
                  (0, [])))
            (pop_cr-first status_line (header_texts (first_headers ++ last_headers))
              status_line-IsLine.0)
        ∙ ap (response_finish status_line (λ n. body_within n body)) (
            response_headers-collected (first_headers ++ last_headers) (0, [])
              (append-All IsHeader first_headers last_headers (content_type-IsHeader, headers_h)
                last_headers-IsHeader)
            ∙ collected_headers no_length length_h)
        ∙ rw (status_of-line http_status status_h, body_within-length body) refl

    pub lines_written :
        lines (status_line ++ rest_of (header_texts (first_headers ++ last_headers)))
        ≡ got status_line (header_texts (first_headers ++ last_headers))
    lines_written =
        lines-rest_of status_line (header_texts (first_headers ++ last_headers)) status_line-IsLine
          sent_lines

    pub cut_response :
        cut_end (response_text)
        ≡ some (status_line ++ rest_of (header_texts (first_headers ++ last_headers)), body)
    cut_response =
        ap cut_end written-lines
        ∙ cut_end-message status_line (header_texts (first_headers ++ last_headers)) body
            status_line-IsLine.0 sent_lines
