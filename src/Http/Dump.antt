-- ===== src/Http/Dump.antt =====
-- The form of what `dump` prints.
use cczoecpp.Common.Text.{bytes_of, decimal}
use cczoecpp.Common.{
  ℕ, ◌≡◌, refl, ap, ◌∙◌, List, [], ◌∷◌, ◌++◌, map, append_assoc, append-nil, Bool, Option, none,
  some, length,
}
use cczoecpp.Http.Tables.{http_method_to_string, http_status_to_string, status_code}
use cczoecpp.Http.Headers.{MapType, find}
use cczoecpp.Http.Message.{
  HttpRequest, HttpResponse, crlf, print_headers, print_part, print_version, print_request_body,
  print_connection, request_close, response_close, print_response_body, dump_request, dump_response,
}

-- A message of HTTP/1.1: the start line and the field lines, each with its end, an empty line, and
-- the body.
abbrev pub lines_of : List (List ℕ) → List ℕ
lines_of [] = []
lines_of (l ∷ ls) = l ++ crlf ++ lines_of ls

abbrev pub message : List (List ℕ) → List ℕ → List ℕ
message ls body = lines_of ls ++ crlf ++ body

abbrev pub field : List ℕ × List ℕ → List ℕ
field (key, value) = key ++ bytes_of ": " ++ value

abbrev pub length_line : List ℕ → List ℕ → List (List ℕ)
length_line name [] = []
length_line name (x ∷ xs) = (name ++ decimal (length (x ∷ xs))) ∷ []

abbrev pub request_line : HttpRequest → List ℕ
request_line r =
    http_method_to_string r.method
    ++ bytes_of " "
    ++ r.path
    ++ print_part (bytes_of "?") r.query
    ++ print_part (bytes_of "#") r.fragment
    ++ bytes_of " "
    ++ print_version r.version

abbrev pub request_length : Option (List ℕ) → List ℕ → List (List ℕ)
request_length none body = length_line (bytes_of "Content-Length: ") body
request_length (some v) body = []

abbrev pub request_fields : HttpRequest → List (List ℕ)
request_fields r =
    request_close r.close
    ∷ (map field r.headers ++ request_length (find r.headers (bytes_of "Content-Length")) r.body)

abbrev pub status_line : HttpResponse → List ℕ
status_line r =
    print_version r.version
    ++ bytes_of " "
    ++ decimal (status_code r.status)
    ++ bytes_of " "
    ++ http_status_to_string r.status

abbrev pub connection_line : Option (List ℕ) → Bool → List (List ℕ)
connection_line none close = response_close close ∷ []
connection_line (some v) close = []

abbrev pub response_fields : HttpResponse → List (List ℕ)
response_fields r =
    connection_line (find r.headers (bytes_of "connection")) r.close
    ++ (map field r.headers ++ length_line (bytes_of "content-length: ") r.body)

lines_of-append : (xs ys : List (List ℕ)) → lines_of (xs ++ ys) ≡ lines_of xs ++ lines_of ys
lines_of-append [] ys = refl
lines_of-append (l ∷ xs) ys = simp (lines_of-append xs ys, append_assoc) refl

print_headers_lem : (headers : MapType) → print_headers headers ≡ lines_of (map field headers)
print_headers_lem [] = refl
print_headers_lem ((key, value) ∷ headers) = simp (print_headers_lem headers, append_assoc) refl

request_tail :
    (headers : MapType) (o : Option (List ℕ)) (body : List ℕ)
    → print_headers headers ++ print_request_body o body
      ≡ message (map field headers ++ request_length o body) body
request_tail headers none [] = simp (append-nil, print_headers_lem headers) refl
request_tail headers (some v) [] = simp (append-nil, print_headers_lem headers) refl
request_tail headers none (x ∷ xs) =
    simp (print_headers_lem headers, lines_of-append, append_assoc) refl
request_tail headers (some v) (x ∷ xs) =
    simp (append-nil, print_headers_lem headers, append_assoc) refl

regroup :
    (end start close fields body : List ℕ)
    → start ++ end ++ close ++ end ++ (fields ++ end ++ body)
      ≡ start ++ end ++ (close ++ end ++ fields) ++ end ++ body
regroup end start close fields body = simp (append_assoc) refl

-- A request is printed as its request line, a `connection` field, the headers, a field with the
-- length of the body unless the body is empty or a header has it, an empty line and the body.
pub dump_request_lem :
    (r : HttpRequest) → dump_request r ≡ message (request_line r ∷ request_fields r) r.body
unfolding dump_request
dump_request_lem r =
    append_assoc (request_line r ++ crlf ++ request_close r.close ++ crlf) (print_headers r.headers)
      (print_request_body (find r.headers (bytes_of "Content-Length")) r.body)
    ∙ ap (◌++◌ (request_line r ++ crlf ++ request_close r.close ++ crlf))
        (request_tail r.headers (find r.headers (bytes_of "Content-Length")) r.body)
    ∙ regroup crlf (request_line r) (request_close r.close)
        (lines_of (
          map field r.headers
          ++ request_length (find r.headers (bytes_of "Content-Length")) r.body))
        r.body

response_tail :
    (headers : MapType) (body : List ℕ)
    → print_headers headers ++ print_response_body body
      ≡ message (map field headers ++ length_line (bytes_of "content-length: ") body) body
response_tail headers [] = simp (append-nil, print_headers_lem headers) refl
response_tail headers (x ∷ xs) =
    simp (print_headers_lem headers, lines_of-append, append_assoc) refl

connection_tail :
    (o : Option (List ℕ)) (close : Bool) (rest : List (List ℕ)) (body : List ℕ)
    → print_connection o close ++ message rest body ≡ message (connection_line o close ++ rest) body
connection_tail none close rest body = simp (append_assoc) refl
connection_tail (some v) close rest body = refl

regroup_response :
    (end start fields body : List ℕ)
    → start ++ end ++ (fields ++ end ++ body) ≡ start ++ end ++ fields ++ end ++ body
regroup_response end start fields body = simp (append_assoc) refl

-- A response is printed as its status line, a `connection` field unless a header is one, the
-- headers, a field with the length of the body unless the body is empty, an empty line and the body.
pub dump_response_lem :
    (r : HttpResponse) → dump_response r ≡ message (status_line r ∷ response_fields r) r.body
unfolding dump_response
dump_response_lem r =
    append_assoc (status_line r ++ crlf ++ line) (print_headers r.headers)
      (print_response_body r.body)
    ∙ ap (◌++◌ (status_line r ++ crlf ++ line)) (response_tail r.headers r.body)
    ∙ append_assoc (status_line r ++ crlf) line (message tail r.body)
    ∙ ap (◌++◌ (status_line r ++ crlf))
        (connection_tail (find r.headers (bytes_of "connection")) r.close tail r.body)
    ∙ regroup_response crlf (status_line r) (lines_of (response_fields r)) r.body
  where
    line : List ℕ
    line = print_connection (find r.headers (bytes_of "connection")) r.close

    tail : List (List ℕ)
    tail = map field r.headers ++ length_line (bytes_of "content-length: ") r.body
