-- ===== src/Http/Status.antt =====
-- http/http_wrapper.cc: HttpResponseStatus and the statuses that the standard defines.
use tube.Common.{ℕ, Bytes, codes, Bool, false, []}

pub record HttpResponseStatus : Type 0 where
  pub status_code : ℕ
  pub reason : Bytes
  pub is_text : Bool
  pub text : Bytes

-- HttpResponseStatus::HttpResponseStatus(code, reason_string)
abbrev pub new_status : ℕ → Bytes → HttpResponseStatus
new_status code reason_string = record {
  status_code = code;
  reason = reason_string;
  is_text = false;
  text = [];
}

abbrev pub continue_on : HttpResponseStatus
continue_on = new_status 100 (codes "Continue")

abbrev pub switching_protocols : HttpResponseStatus
switching_protocols = new_status 101 (codes "Switching Protocols")

abbrev pub ok : HttpResponseStatus
ok = new_status 200 (codes "OK")

abbrev pub created : HttpResponseStatus
created = new_status 201 (codes "Created")

abbrev pub accepted : HttpResponseStatus
accepted = new_status 202 (codes "Accepted")

abbrev pub non_authoritative_information : HttpResponseStatus
non_authoritative_information = new_status 203 (codes "Non-Authoritative Information")

abbrev pub no_content : HttpResponseStatus
no_content = new_status 204 (codes "No Content")

abbrev pub reset_content : HttpResponseStatus
reset_content = new_status 205 (codes "Reset Content")

abbrev pub partial_content : HttpResponseStatus
partial_content = new_status 206 (codes "Partial Content")

abbrev pub multiple_choices : HttpResponseStatus
multiple_choices = new_status 300 (codes "Multiple Choices")

abbrev pub moved_permanently : HttpResponseStatus
moved_permanently = new_status 301 (codes "Moved Permanently")

abbrev pub found : HttpResponseStatus
found = new_status 302 (codes "Found")

abbrev pub see_other : HttpResponseStatus
see_other = new_status 303 (codes "See Other")

abbrev pub not_modified : HttpResponseStatus
not_modified = new_status 304 (codes "Not Modified")

abbrev pub use_proxy : HttpResponseStatus
use_proxy = new_status 305 (codes "Use Proxy")

abbrev pub temporary_redirect : HttpResponseStatus
temporary_redirect = new_status 307 (codes "Temporary Redirect")

abbrev pub bad_request : HttpResponseStatus
bad_request = new_status 400 (codes "Bad Request")

abbrev pub unauthorized : HttpResponseStatus
unauthorized = new_status 401 (codes "Unauthorized")

abbrev pub payment_required : HttpResponseStatus
payment_required = new_status 402 (codes "Payment Required")

abbrev pub forbidden : HttpResponseStatus
forbidden = new_status 403 (codes "Forbidden")

abbrev pub not_found : HttpResponseStatus
not_found = new_status 404 (codes "Not Found")

abbrev pub method_not_allowed : HttpResponseStatus
method_not_allowed = new_status 405 (codes "Method Not Allowed")

abbrev pub not_acceptable : HttpResponseStatus
not_acceptable = new_status 406 (codes "Not Acceptable")

abbrev pub proxy_authentication_required : HttpResponseStatus
proxy_authentication_required = new_status 407 (codes "Proxy Authentication Required")

abbrev pub request_timeout : HttpResponseStatus
request_timeout = new_status 408 (codes "Request Time-out")

abbrev pub conflict : HttpResponseStatus
conflict = new_status 409 (codes "Conflict")

abbrev pub gone : HttpResponseStatus
gone = new_status 410 (codes "Gone")

abbrev pub length_required : HttpResponseStatus
length_required = new_status 411 (codes "Length Required")

abbrev pub precondition_failed : HttpResponseStatus
precondition_failed = new_status 412 (codes "Precondition Failed")

abbrev pub request_entity_too_large : HttpResponseStatus
request_entity_too_large = new_status 413 (codes "Request Entity Too Large")

abbrev pub request_uri_too_large : HttpResponseStatus
request_uri_too_large = new_status 414 (codes "Request-URI Too Large")

abbrev pub unsupported_media_type : HttpResponseStatus
unsupported_media_type = new_status 415 (codes "Unsupported Media Type")

abbrev pub requested_range_not_satisfiable : HttpResponseStatus
requested_range_not_satisfiable = new_status 416 (codes "Requested range not satisfiable")

abbrev pub expectation_failed : HttpResponseStatus
expectation_failed = new_status 417 (codes "Expectation Failed")

abbrev pub internal_server_error : HttpResponseStatus
internal_server_error = new_status 500 (codes "Internal Server Error")

abbrev pub not_implemented : HttpResponseStatus
not_implemented = new_status 501 (codes "Not Implemented")

abbrev pub bad_gateway : HttpResponseStatus
bad_gateway = new_status 502 (codes "Bad Gateway")

abbrev pub service_unavailable : HttpResponseStatus
service_unavailable = new_status 503 (codes "Service Unavailable")

abbrev pub gateway_timeout : HttpResponseStatus
gateway_timeout = new_status 504 (codes "Gateway Time-out")

abbrev pub http_version_not_supported : HttpResponseStatus
http_version_not_supported = new_status 505 (codes "HTTP Version not supported")
