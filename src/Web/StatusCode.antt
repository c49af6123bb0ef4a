-- ===== src/Web/StatusCode.antt =====
-- http_status_code and its texts (include/server_lib/network/web/status_code.h).
pub mod Lookup
use barbacoa_server_lib.Prelude.{ℕ, List, [], ◌∷◌, codes}

pub data HttpStatusCode : Type 0 where
  unknown : HttpStatusCode
  information_continue : HttpStatusCode
  information_switching_protocols : HttpStatusCode
  information_processing : HttpStatusCode
  success_ok : HttpStatusCode
  success_created : HttpStatusCode
  success_accepted : HttpStatusCode
  success_non_authoritative_information : HttpStatusCode
  success_no_content : HttpStatusCode
  success_reset_content : HttpStatusCode
  success_partial_content : HttpStatusCode
  success_multi_status : HttpStatusCode
  success_already_reported : HttpStatusCode
  success_im_used : HttpStatusCode
  redirection_multiple_choices : HttpStatusCode
  redirection_moved_permanently : HttpStatusCode
  redirection_found : HttpStatusCode
  redirection_see_other : HttpStatusCode
  redirection_not_modified : HttpStatusCode
  redirection_use_proxy : HttpStatusCode
  redirection_switch_proxy : HttpStatusCode
  redirection_temporary_redirect : HttpStatusCode
  redirection_permanent_redirect : HttpStatusCode
  client_error_bad_request : HttpStatusCode
  client_error_unauthorized : HttpStatusCode
  client_error_payment_required : HttpStatusCode
  client_error_forbidden : HttpStatusCode
  client_error_not_found : HttpStatusCode
  client_error_method_not_allowed : HttpStatusCode
  client_error_not_acceptable : HttpStatusCode
  client_error_proxy_authentication_required : HttpStatusCode
  client_error_request_timeout : HttpStatusCode
  client_error_conflict : HttpStatusCode
  client_error_gone : HttpStatusCode
  client_error_length_required : HttpStatusCode
  client_error_precondition_failed : HttpStatusCode
  client_error_payload_too_large : HttpStatusCode
  client_error_uri_too_long : HttpStatusCode
  client_error_unsupported_media_type : HttpStatusCode
  client_error_range_not_satisfiable : HttpStatusCode
  client_error_expectation_failed : HttpStatusCode
  client_error_im_a_teapot : HttpStatusCode
  client_error_misdirection_required : HttpStatusCode
  client_error_unprocessable_entity : HttpStatusCode
  client_error_locked : HttpStatusCode
  client_error_failed_dependency : HttpStatusCode
  client_error_upgrade_required : HttpStatusCode
  client_error_precondition_required : HttpStatusCode
  client_error_too_many_requests : HttpStatusCode
  client_error_request_header_fields_too_large : HttpStatusCode
  client_error_unavailable_for_legal_reasons : HttpStatusCode
  server_error_internal_server_error : HttpStatusCode
  server_error_not_implemented : HttpStatusCode
  server_error_bad_gateway : HttpStatusCode
  server_error_service_unavailable : HttpStatusCode
  server_error_gateway_timeout : HttpStatusCode
  server_error_http_version_not_supported : HttpStatusCode
  server_error_variant_also_negotiates : HttpStatusCode
  server_error_insufficient_storage : HttpStatusCode
  server_error_loop_detected : HttpStatusCode
  server_error_not_extended : HttpStatusCode
  server_error_network_authentication_required : HttpStatusCode

-- `static_cast<int>`
unfoldable pub value : HttpStatusCode → ℕ
value unknown = 0
value information_continue = 100
value information_switching_protocols = 101
value information_processing = 102
value success_ok = 200
value success_created = 201
value success_accepted = 202
value success_non_authoritative_information = 203
value success_no_content = 204
value success_reset_content = 205
value success_partial_content = 206
value success_multi_status = 207
value success_already_reported = 208
value success_im_used = 226
value redirection_multiple_choices = 300
value redirection_moved_permanently = 301
value redirection_found = 302
value redirection_see_other = 303
value redirection_not_modified = 304
value redirection_use_proxy = 305
value redirection_switch_proxy = 306
value redirection_temporary_redirect = 307
value redirection_permanent_redirect = 308
value client_error_bad_request = 400
value client_error_unauthorized = 401
value client_error_payment_required = 402
value client_error_forbidden = 403
value client_error_not_found = 404
value client_error_method_not_allowed = 405
value client_error_not_acceptable = 406
value client_error_proxy_authentication_required = 407
value client_error_request_timeout = 408
value client_error_conflict = 409
value client_error_gone = 410
value client_error_length_required = 411
value client_error_precondition_failed = 412
value client_error_payload_too_large = 413
value client_error_uri_too_long = 414
value client_error_unsupported_media_type = 415
value client_error_range_not_satisfiable = 416
value client_error_expectation_failed = 417
value client_error_im_a_teapot = 418
value client_error_misdirection_required = 421
value client_error_unprocessable_entity = 422
value client_error_locked = 423
value client_error_failed_dependency = 424
value client_error_upgrade_required = 426
value client_error_precondition_required = 428
value client_error_too_many_requests = 429
value client_error_request_header_fields_too_large = 431
value client_error_unavailable_for_legal_reasons = 451
value server_error_internal_server_error = 500
value server_error_not_implemented = 501
value server_error_bad_gateway = 502
value server_error_service_unavailable = 503
value server_error_gateway_timeout = 504
value server_error_http_version_not_supported = 505
value server_error_variant_also_negotiates = 506
value server_error_insufficient_storage = 507
value server_error_loop_detected = 508
value server_error_not_extended = 510
value server_error_network_authentication_required = 511

-- The map is ordered by the values, which is the order of the entries.
unfoldable pub status_code_strings : List (HttpStatusCode × List ℕ)
status_code_strings =
    (unknown, codes "")
    ∷ (information_continue, codes "100 Continue")
    ∷ (information_switching_protocols, codes "101 Switching Protocols")
    ∷ (information_processing, codes "102 Processing")
    ∷ (success_ok, codes "200 OK")
    ∷ (success_created, codes "201 Created")
    ∷ (success_accepted, codes "202 Accepted")
    ∷ (success_non_authoritative_information, codes "203 Non-Authoritative Information")
    ∷ (success_no_content, codes "204 No Content")
    ∷ (success_reset_content, codes "205 Reset Content")
    ∷ (success_partial_content, codes "206 Partial Content")
    ∷ (success_multi_status, codes "207 Multi-Status")
    ∷ (success_already_reported, codes "208 Already Reported")
    ∷ (success_im_used, codes "226 IM Used")
    ∷ (redirection_multiple_choices, codes "300 Multiple Choices")
    ∷ (redirection_moved_permanently, codes "301 Moved Permanently")
    ∷ (redirection_found, codes "302 Found")
    ∷ (redirection_see_other, codes "303 See Other")
    ∷ (redirection_not_modified, codes "304 Not Modified")
    ∷ (redirection_use_proxy, codes "305 Use Proxy")
    ∷ (redirection_switch_proxy, codes "306 Switch Proxy")
    ∷ (redirection_temporary_redirect, codes "307 Temporary Redirect")
    ∷ (redirection_permanent_redirect, codes "308 Permanent Redirect")
    ∷ (client_error_bad_request, codes "400 Bad Request")
    ∷ (client_error_unauthorized, codes "401 Unauthorized")
    ∷ (client_error_payment_required, codes "402 Payment Required")
    ∷ (client_error_forbidden, codes "403 Forbidden")
    ∷ (client_error_not_found, codes "404 Not Found")
    ∷ (client_error_method_not_allowed, codes "405 Method Not Allowed")
    ∷ (client_error_not_acceptable, codes "406 Not Acceptable")
    ∷ (client_error_proxy_authentication_required, codes "407 Proxy Authentication Required")
    ∷ (client_error_request_timeout, codes "408 Request Timeout")
    ∷ (client_error_conflict, codes "409 Conflict")
    ∷ (client_error_gone, codes "410 Gone")
    ∷ (client_error_length_required, codes "411 Length Required")
    ∷ (client_error_precondition_failed, codes "412 Precondition Failed")
    ∷ (client_error_payload_too_large, codes "413 Payload Too Large")
    ∷ (client_error_uri_too_long, codes "414 URI Too Long")
    ∷ (client_error_unsupported_media_type, codes "415 Unsupported Media Type")
    ∷ (client_error_range_not_satisfiable, codes "416 Range Not Satisfiable")
    ∷ (client_error_expectation_failed, codes "417 Expectation Failed")
    ∷ (client_error_im_a_teapot, codes "418 I'm a teapot")
    ∷ (client_error_misdirection_required, codes "421 Misdirected Request")
    ∷ (client_error_unprocessable_entity, codes "422 Unprocessable Entity")
    ∷ (client_error_locked, codes "423 Locked")
    ∷ (client_error_failed_dependency, codes "424 Failed Dependency")
    ∷ (client_error_upgrade_required, codes "426 Upgrade Required")
    ∷ (client_error_precondition_required, codes "428 Precondition Required")
    ∷ (client_error_too_many_requests, codes "429 Too Many Requests")
    ∷ (client_error_request_header_fields_too_large, codes "431 Request Header Fields Too Large")
    ∷ (client_error_unavailable_for_legal_reasons, codes "451 Unavailable For Legal Reasons")
    ∷ (server_error_internal_server_error, codes "500 Internal Server Error")
    ∷ (server_error_not_implemented, codes "501 Not Implemented")
    ∷ (server_error_bad_gateway, codes "502 Bad Gateway")
    ∷ (server_error_service_unavailable, codes "503 Service Unavailable")
    ∷ (server_error_gateway_timeout, codes "504 Gateway Timeout")
    ∷ (server_error_http_version_not_supported, codes "505 HTTP Version Not Supported")
    ∷ (server_error_variant_also_negotiates, codes "506 Variant Also Negotiates")
    ∷ (server_error_insufficient_storage, codes "507 Insufficient Storage")
    ∷ (server_error_loop_detected, codes "508 Loop Detected")
    ∷ (server_error_not_extended, codes "510 Not Extended")
    ∷ (server_error_network_authentication_required, codes "511 Network Authentication Required")
    ∷ []
