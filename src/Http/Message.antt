-- ===== src/Http/Message.antt =====
-- `HttpRequest` and `HttpResponse` of cczoecpp/Net/Http/http.{h,cpp}: their fields and `dump`.
--
-- The fields that a constructor leaves without a value (`m_status` of a request) are arguments.
-- `dump` returns the bytes that it writes to the stream.
use cczoecpp.Common.Text.{bytes_of, decimal}
use cczoecpp.Common.{
  ℕ, ◌/◌, ◌%◌, ◌^◌, List, [], ◌∷◌, ◌++◌, Bool, true, false, Option, none, some, length,
}
use cczoecpp.Http.Tables.{
  HttpMethod, HttpStatus, http_method_to_string, http_status_to_string, status_code,
}
use cczoecpp.Http.Headers.{MapType, find, assign, erase}

pub record HttpRequest : Type 0 where
  pub method : HttpMethod
  pub status : HttpStatus
  pub version : ℕ
  pub close : Bool
  pub path : List ℕ
  pub query : List ℕ
  pub fragment : List ℕ
  pub body : List ℕ
  pub headers : MapType
  pub params : MapType
  pub cookies : MapType

pub record HttpResponse : Type 0 where
  pub status : HttpStatus
  pub version : ℕ
  pub close : Bool
  pub body : List ℕ
  pub reason : List ℕ
  pub headers : MapType

pub new_request : HttpStatus → ℕ → Bool → HttpRequest
new_request status version close = record {
  method = HttpMethod.get;
  status = status;
  version = version;
  close = close;
  path = bytes_of "/";
  query = [];
  fragment = [];
  body = [];
  headers = [];
  params = [];
  cookies = [];
}

pub new_response : ℕ → Bool → HttpResponse
new_response version close = record {
  status = HttpStatus.ok;
  version = version;
  close = close;
  body = [];
  reason = [];
  headers = [];
}

abbrev pub get_header : HttpRequest → List ℕ → Option (List ℕ)
get_header r key = find r.headers key

abbrev pub get_param : HttpRequest → List ℕ → Option (List ℕ)
get_param r key = find r.params key

abbrev pub get_cookie : HttpRequest → List ℕ → Option (List ℕ)
get_cookie r key = find r.cookies key

abbrev pub set_header : List ℕ → List ℕ → HttpRequest → HttpRequest
set_header key value r = record r { headers = assign key value r.headers }

abbrev pub del_header : List ℕ → HttpRequest → HttpRequest
del_header key r = record r { headers = erase key r.headers }

abbrev pub crlf : List ℕ
crlf = 13 ∷ 10 ∷ []

abbrev pub print_headers : MapType → List ℕ
print_headers [] = []
print_headers ((k, v) ∷ entries) = k ++ bytes_of ": " ++ v ++ crlf ++ print_headers entries

-- `if (!text.empty()) os << sign << text`
abbrev pub print_part : List ℕ → List ℕ → List ℕ
print_part sign [] = []
print_part sign (x ∷ xs) = sign ++ x ∷ xs

abbrev pub print_version : ℕ → List ℕ
print_version version =
    bytes_of "HTTP/" ++ decimal (version / 2 ^ 4) ++ bytes_of "." ++ decimal (version % 2 ^ 4)

-- The last part of the request; the first argument is the header `Content-Length`.
abbrev pub print_request_body : Option (List ℕ) → List ℕ → List ℕ
print_request_body o [] = crlf
print_request_body none (x ∷ xs) =
    bytes_of "Content-Length: " ++ decimal (length (x ∷ xs)) ++ crlf ++ crlf ++ x ∷ xs
print_request_body (some v) (x ∷ xs) = crlf ++ x ∷ xs

abbrev pub request_close : Bool → List ℕ
request_close true = bytes_of "connection: close"
request_close false = bytes_of "connection: keep-alive"

unfoldable pub dump_request : HttpRequest → List ℕ
dump_request r =
    http_method_to_string r.method
    ++ bytes_of " "
    ++ r.path
    ++ print_part (bytes_of "?") r.query
    ++ print_part (bytes_of "#") r.fragment
    ++ bytes_of " "
    ++ print_version r.version
    ++ crlf
    ++ request_close r.close
    ++ crlf
    ++ print_headers r.headers
    ++ print_request_body (find r.headers (bytes_of "Content-Length")) r.body

abbrev pub response_close : Bool → List ℕ
response_close true = bytes_of "Connection: close"
response_close false = bytes_of "Connection: keep-alive"

-- The argument is the header `connection`.
abbrev pub print_connection : Option (List ℕ) → Bool → List ℕ
print_connection none close = response_close close ++ crlf
print_connection (some v) close = []

abbrev pub print_response_body : List ℕ → List ℕ
print_response_body [] = crlf
print_response_body (x ∷ xs) =
    bytes_of "content-length: " ++ decimal (length (x ∷ xs)) ++ crlf ++ crlf ++ x ∷ xs

unfoldable pub dump_response : HttpResponse → List ℕ
dump_response r =
    print_version r.version
    ++ bytes_of " "
    ++ decimal (status_code r.status)
    ++ bytes_of " "
    ++ http_status_to_string r.status
    ++ crlf
    ++ print_connection (find r.headers (bytes_of "connection")) r.close
    ++ print_headers r.headers
    ++ print_response_body r.body
