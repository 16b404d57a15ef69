-- ===== src/Http/Runs.antt =====
-- Messages of the examples, and the theorems at them.
use cczoecpp.Common.Text.{lower, bytes_of}
use cczoecpp.Http.Headers.{MapType, find, assign, find-assign}
use cczoecpp.Http.Dump.{message, request_line, request_fields, dump_request_lem}
use cczoecpp.Http.Tables.{HttpStatus}
use cczoecpp.Http.Message.{HttpRequest, new_request, dump_request}
use cczoecpp.Common.{ℕ, ◌≡◌, List, [], ◌∷◌, some, ◌≢◌, false}

-- One header, and messages with a body.
abbrev one_header : MapType
one_header = (bytes_of "Host", bytes_of "a") ∷ []

abbrev a_request : HttpRequest
a_request = record (new_request HttpStatus.ok 17 false) {
  headers = one_header;
  body = bytes_of "hi";
}

find-assign_example :
    ((other : List ℕ)
      → lower other ≡ lower (bytes_of "HOST")
      → find (assign (bytes_of "HOST") (bytes_of "b") one_header) other ≡ some (bytes_of "b"))
    × ((other : List ℕ)
        → lower other ≢ lower (bytes_of "HOST")
        → find (assign (bytes_of "HOST") (bytes_of "b") one_header) other ≡ find one_header other)
find-assign_example = find-assign one_header (bytes_of "HOST") (bytes_of "b")

dump_request_lem_example :
    dump_request a_request
    ≡ message (request_line a_request ∷ request_fields a_request) a_request.body
dump_request_lem_example = dump_request_lem a_request
