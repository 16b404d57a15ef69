-- ===== src/Http/Tables.antt =====
-- cczoecpp/Net/Http/http.h, the tables HTTP_METHOD_MAP and HTTP_STATUS_MAP, and the conversions of
-- http.cpp that they generate. A string is its bytes.
use cczoecpp.Common.Text.{bytes_of, same_bytes}
use cczoecpp.Common.{ℕ, List, [], ◌∷◌, true, false, Option, none, some}

pub data HttpMethod : Type 0 where
  delete get head post put connect options trace copy lock mkcol move propfind proppatch search
        unlock bind rebind unbind acl report mkactivity checkout merge msearch notify subscribe
        unsubscribe patch purge mkcalendar link unlink source :
      HttpMethod

pub data HttpStatus : Type 0 where
  continue switching_protocols processing ok created accepted non_authoritative_information
        no_content reset_content partial_content multi_status already_reported im_used
        multiple_choices moved_permanently found see_other not_modified use_proxy temporary_redirect
        permanent_redirect bad_request unauthorized payment_required forbidden not_found
        method_not_allowed not_acceptable proxy_authentication_required request_timeout conflict
        gone length_required precondition_failed payload_too_large uri_too_long
        unsupported_media_type range_not_satisfiable expectation_failed misdirected_request
        unprocessable_entity locked failed_dependency upgrade_required precondition_required
        too_many_requests request_header_fields_too_large unavailable_for_legal_reasons
        internal_server_error not_implemented bad_gateway service_unavailable gateway_timeout
        http_version_not_supported variant_also_negotiates insufficient_storage loop_detected
        not_extended network_authentication_required :
      HttpStatus

abbrev pub method_table : List (HttpMethod × List ℕ)
method_table =
    (delete, bytes_of "DELETE")
    ∷ (get, bytes_of "GET")
    ∷ (head, bytes_of "HEAD")
    ∷ (post, bytes_of "POST")
    ∷ (put, bytes_of "PUT")
    ∷ (connect, bytes_of "CONNECT")
    ∷ (options, bytes_of "OPTIONS")
    ∷ (trace, bytes_of "TRACE")
    ∷ (copy, bytes_of "COPY")
    ∷ (lock, bytes_of "LOCK")
    ∷ (mkcol, bytes_of "MKCOL")
    ∷ (move, bytes_of "MOVE")
    ∷ (propfind, bytes_of "PROPFIND")
    ∷ (proppatch, bytes_of "PROPPATCH")
    ∷ (search, bytes_of "SEARCH")
    ∷ (unlock, bytes_of "UNLOCK")
    ∷ (bind, bytes_of "BIND")
    ∷ (rebind, bytes_of "REBIND")
    ∷ (unbind, bytes_of "UNBIND")
    ∷ (acl, bytes_of "ACL")
    ∷ (report, bytes_of "REPORT")
    ∷ (mkactivity, bytes_of "MKACTIVITY")
    ∷ (checkout, bytes_of "CHECKOUT")
    ∷ (merge, bytes_of "MERGE")
    ∷ (msearch, bytes_of "M-SEARCH")
    ∷ (notify, bytes_of "NOTIFY")
    ∷ (subscribe, bytes_of "SUBSCRIBE")
    ∷ (unsubscribe, bytes_of "UNSUBSCRIBE")
    ∷ (patch, bytes_of "PATCH")
    ∷ (purge, bytes_of "PURGE")
    ∷ (mkcalendar, bytes_of "MKCALENDAR")
    ∷ (link, bytes_of "LINK")
    ∷ (unlink, bytes_of "UNLINK")
    ∷ (source, bytes_of "SOURCE")
    ∷ []

-- The chain of tests that the table generates; `none` is the exception at its end.
unfoldable pub first_match : List (HttpMethod × List ℕ) → List ℕ → Option HttpMethod
first_match [] name = none
first_match ((m, text) ∷ table) name = elim (same_bytes name text) [
  | true ↦ some m
  | false ↦ first_match table name
]

-- `none` is `std::invalid_argument`.
unfoldable pub string_to_http_method : List ℕ → Option HttpMethod
string_to_http_method name = first_match method_table name

unfoldable pub http_method_to_string : HttpMethod → List ℕ
http_method_to_string delete = bytes_of "DELETE"
http_method_to_string get = bytes_of "GET"
http_method_to_string head = bytes_of "HEAD"
http_method_to_string post = bytes_of "POST"
http_method_to_string put = bytes_of "PUT"
http_method_to_string connect = bytes_of "CONNECT"
http_method_to_string options = bytes_of "OPTIONS"
http_method_to_string trace = bytes_of "TRACE"
http_method_to_string copy = bytes_of "COPY"
http_method_to_string lock = bytes_of "LOCK"
http_method_to_string mkcol = bytes_of "MKCOL"
http_method_to_string move = bytes_of "MOVE"
http_method_to_string propfind = bytes_of "PROPFIND"
http_method_to_string proppatch = bytes_of "PROPPATCH"
http_method_to_string search = bytes_of "SEARCH"
http_method_to_string unlock = bytes_of "UNLOCK"
http_method_to_string bind = bytes_of "BIND"
http_method_to_string rebind = bytes_of "REBIND"
http_method_to_string unbind = bytes_of "UNBIND"
http_method_to_string acl = bytes_of "ACL"
http_method_to_string report = bytes_of "REPORT"
http_method_to_string mkactivity = bytes_of "MKACTIVITY"
http_method_to_string checkout = bytes_of "CHECKOUT"
http_method_to_string merge = bytes_of "MERGE"
http_method_to_string msearch = bytes_of "M-SEARCH"
http_method_to_string notify = bytes_of "NOTIFY"
http_method_to_string subscribe = bytes_of "SUBSCRIBE"
http_method_to_string unsubscribe = bytes_of "UNSUBSCRIBE"
http_method_to_string patch = bytes_of "PATCH"
http_method_to_string purge = bytes_of "PURGE"
http_method_to_string mkcalendar = bytes_of "MKCALENDAR"
http_method_to_string link = bytes_of "LINK"
http_method_to_string unlink = bytes_of "UNLINK"
http_method_to_string source = bytes_of "SOURCE"

unfoldable pub http_status_to_string : HttpStatus → List ℕ
http_status_to_string continue = bytes_of "Continue"
http_status_to_string switching_protocols = bytes_of "Switching Protocols"
http_status_to_string processing = bytes_of "Processing"
http_status_to_string ok = bytes_of "OK"
http_status_to_string created = bytes_of "Created"
http_status_to_string accepted = bytes_of "Accepted"
http_status_to_string non_authoritative_information = bytes_of "Non-Authoritative Information"
http_status_to_string no_content = bytes_of "No Content"
http_status_to_string reset_content = bytes_of "Reset Content"
http_status_to_string partial_content = bytes_of "Partial Content"
http_status_to_string multi_status = bytes_of "Multi-Status"
http_status_to_string already_reported = bytes_of "Already Reported"
http_status_to_string im_used = bytes_of "IM Used"
http_status_to_string multiple_choices = bytes_of "Multiple Choices"
http_status_to_string moved_permanently = bytes_of "Moved Permanently"
http_status_to_string found = bytes_of "Found"
http_status_to_string see_other = bytes_of "See Other"
http_status_to_string not_modified = bytes_of "Not Modified"
http_status_to_string use_proxy = bytes_of "Use Proxy"
http_status_to_string temporary_redirect = bytes_of "Temporary Redirect"
http_status_to_string permanent_redirect = bytes_of "Permanent Redirect"
http_status_to_string bad_request = bytes_of "Bad Request"
http_status_to_string unauthorized = bytes_of "Unauthorized"
http_status_to_string payment_required = bytes_of "Payment Required"
http_status_to_string forbidden = bytes_of "Forbidden"
http_status_to_string not_found = bytes_of "Not Found"
http_status_to_string method_not_allowed = bytes_of "Method Not Allowed"
http_status_to_string not_acceptable = bytes_of "Not Acceptable"
http_status_to_string proxy_authentication_required = bytes_of "Proxy Authentication Required"
http_status_to_string request_timeout = bytes_of "Request Timeout"
http_status_to_string conflict = bytes_of "Conflict"
http_status_to_string gone = bytes_of "Gone"
http_status_to_string length_required = bytes_of "Length Required"
http_status_to_string precondition_failed = bytes_of "Precondition Failed"
http_status_to_string payload_too_large = bytes_of "Payload Too Large"
http_status_to_string uri_too_long = bytes_of "URI Too Long"
http_status_to_string unsupported_media_type = bytes_of "Unsupported Media Type"
http_status_to_string range_not_satisfiable = bytes_of "Range Not Satisfiable"
http_status_to_string expectation_failed = bytes_of "Expectation Failed"
http_status_to_string misdirected_request = bytes_of "Misdirected Request"
http_status_to_string unprocessable_entity = bytes_of "Unprocessable Entity"
http_status_to_string locked = bytes_of "Locked"
http_status_to_string failed_dependency = bytes_of "Failed Dependency"
http_status_to_string upgrade_required = bytes_of "Upgrade Required"
http_status_to_string precondition_required = bytes_of "Precondition Required"
http_status_to_string too_many_requests = bytes_of "Too Many Requests"
http_status_to_string request_header_fields_too_large = bytes_of "Request Header Fields Too Large"
http_status_to_string unavailable_for_legal_reasons = bytes_of "Unavailable For Legal Reasons"
http_status_to_string internal_server_error = bytes_of "Internal Server Error"
http_status_to_string not_implemented = bytes_of "Not Implemented"
http_status_to_string bad_gateway = bytes_of "Bad Gateway"
http_status_to_string service_unavailable = bytes_of "Service Unavailable"
http_status_to_string gateway_timeout = bytes_of "Gateway Timeout"
http_status_to_string http_version_not_supported = bytes_of "HTTP Version Not Supported"
http_status_to_string variant_also_negotiates = bytes_of "Variant Also Negotiates"
http_status_to_string insufficient_storage = bytes_of "Insufficient Storage"
http_status_to_string loop_detected = bytes_of "Loop Detected"
http_status_to_string not_extended = bytes_of "Not Extended"
http_status_to_string network_authentication_required = bytes_of "Network Authentication Required"

-- The number of a status.
unfoldable pub status_code : HttpStatus → ℕ
status_code continue = 100
status_code switching_protocols = 101
status_code processing = 102
status_code ok = 200
status_code created = 201
status_code accepted = 202
status_code non_authoritative_information = 203
status_code no_content = 204
status_code reset_content = 205
status_code partial_content = 206
status_code multi_status = 207
status_code already_reported = 208
status_code im_used = 226
status_code multiple_choices = 300
status_code moved_permanently = 301
status_code found = 302
status_code see_other = 303
status_code not_modified = 304
status_code use_proxy = 305
status_code temporary_redirect = 307
status_code permanent_redirect = 308
status_code bad_request = 400
status_code unauthorized = 401
status_code payment_required = 402
status_code forbidden = 403
status_code not_found = 404
status_code method_not_allowed = 405
status_code not_acceptable = 406
status_code proxy_authentication_required = 407
status_code request_timeout = 408
status_code conflict = 409
status_code gone = 410
status_code length_required = 411
status_code precondition_failed = 412
status_code payload_too_large = 413
status_code uri_too_long = 414
status_code unsupported_media_type = 415
status_code range_not_satisfiable = 416
status_code expectation_failed = 417
status_code misdirected_request = 421
status_code unprocessable_entity = 422
status_code locked = 423
status_code failed_dependency = 424
status_code upgrade_required = 426
status_code precondition_required = 428
status_code too_many_requests = 429
status_code request_header_fields_too_large = 431
status_code unavailable_for_legal_reasons = 451
status_code internal_server_error = 500
status_code not_implemented = 501
status_code bad_gateway = 502
status_code service_unavailable = 503
status_code gateway_timeout = 504
status_code http_version_not_supported = 505
status_code variant_also_negotiates = 506
status_code insufficient_storage = 507
status_code loop_detected = 508
status_code not_extended = 510
status_code network_authentication_required = 511
