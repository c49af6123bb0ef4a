-- ===== src/Web/StatusCode/Lookup.antt =====
-- The two functions named status_code (include/server_lib/network/web/status_code.h).
use barbacoa_server_lib.Prelude.{
  ℕ, ◌≡◌, ◌≢◌, refl, List, [], ◌∷◌, bytes_eq, ◌==◌, if◌then◌else◌, take, to_string, lt_wf, dec_lt,
}
use barbacoa_server_lib.Web.StatusCode.{HttpStatusCode, value, status_code_strings}

-- The unordered_map: an `emplace` of a text that is there changes nothing, so the first one counts.
unfoldable pub find_text : List (HttpStatusCode × List ℕ) → List ℕ → HttpStatusCode
find_text [] s = HttpStatusCode.unknown
find_text ((code, text) ∷ rest) s =
    let later = find_text rest s in if bytes_eq text s then code else later

-- status_code(const std::string&)
unfoldable pub status_of_text : List ℕ → HttpStatusCode
unfolding find_text status_code_strings
status_of_text s = find_text status_code_strings s

unfoldable pub find_code : List (HttpStatusCode × List ℕ) → ℕ → List ℕ
unfolding value
find_code [] c = []
find_code ((code, text) ∷ rest) c =
    let later = find_code rest c in if value code == c then text else later

-- status_code(http_status_code)
unfoldable pub text_of_status : HttpStatusCode → List ℕ
unfolding find_code status_code_strings value
text_of_status c = find_code status_code_strings (value c)

-- The text of every code is found again as that code.
pub status_of_text-text_of_status : (c : HttpStatusCode) → status_of_text (text_of_status c) ≡ c
unfolding status_of_text text_of_status
status_of_text-text_of_status HttpStatusCode.unknown = refl
status_of_text-text_of_status HttpStatusCode.information_continue = refl
status_of_text-text_of_status HttpStatusCode.information_switching_protocols = refl
status_of_text-text_of_status HttpStatusCode.information_processing = refl
status_of_text-text_of_status HttpStatusCode.success_ok = refl
status_of_text-text_of_status HttpStatusCode.success_created = refl
status_of_text-text_of_status HttpStatusCode.success_accepted = refl
status_of_text-text_of_status HttpStatusCode.success_non_authoritative_information = refl
status_of_text-text_of_status HttpStatusCode.success_no_content = refl
status_of_text-text_of_status HttpStatusCode.success_reset_content = refl
status_of_text-text_of_status HttpStatusCode.success_partial_content = refl
status_of_text-text_of_status HttpStatusCode.success_multi_status = refl
status_of_text-text_of_status HttpStatusCode.success_already_reported = refl
status_of_text-text_of_status HttpStatusCode.success_im_used = refl
status_of_text-text_of_status HttpStatusCode.redirection_multiple_choices = refl
status_of_text-text_of_status HttpStatusCode.redirection_moved_permanently = refl
status_of_text-text_of_status HttpStatusCode.redirection_found = refl
status_of_text-text_of_status HttpStatusCode.redirection_see_other = refl
status_of_text-text_of_status HttpStatusCode.redirection_not_modified = refl
status_of_text-text_of_status HttpStatusCode.redirection_use_proxy = refl
status_of_text-text_of_status HttpStatusCode.redirection_switch_proxy = refl
status_of_text-text_of_status HttpStatusCode.redirection_temporary_redirect = refl
status_of_text-text_of_status HttpStatusCode.redirection_permanent_redirect = refl
status_of_text-text_of_status HttpStatusCode.client_error_bad_request = refl
status_of_text-text_of_status HttpStatusCode.client_error_unauthorized = refl
status_of_text-text_of_status HttpStatusCode.client_error_payment_required = refl
status_of_text-text_of_status HttpStatusCode.client_error_forbidden = refl
status_of_text-text_of_status HttpStatusCode.client_error_not_found = refl
status_of_text-text_of_status HttpStatusCode.client_error_method_not_allowed = refl
status_of_text-text_of_status HttpStatusCode.client_error_not_acceptable = refl
status_of_text-text_of_status HttpStatusCode.client_error_proxy_authentication_required = refl
status_of_text-text_of_status HttpStatusCode.client_error_request_timeout = refl
status_of_text-text_of_status HttpStatusCode.client_error_conflict = refl
status_of_text-text_of_status HttpStatusCode.client_error_gone = refl
status_of_text-text_of_status HttpStatusCode.client_error_length_required = refl
status_of_text-text_of_status HttpStatusCode.client_error_precondition_failed = refl
status_of_text-text_of_status HttpStatusCode.client_error_payload_too_large = refl
status_of_text-text_of_status HttpStatusCode.client_error_uri_too_long = refl
status_of_text-text_of_status HttpStatusCode.client_error_unsupported_media_type = refl
status_of_text-text_of_status HttpStatusCode.client_error_range_not_satisfiable = refl
status_of_text-text_of_status HttpStatusCode.client_error_expectation_failed = refl
status_of_text-text_of_status HttpStatusCode.client_error_im_a_teapot = refl
status_of_text-text_of_status HttpStatusCode.client_error_misdirection_required = refl
status_of_text-text_of_status HttpStatusCode.client_error_unprocessable_entity = refl
status_of_text-text_of_status HttpStatusCode.client_error_locked = refl
status_of_text-text_of_status HttpStatusCode.client_error_failed_dependency = refl
status_of_text-text_of_status HttpStatusCode.client_error_upgrade_required = refl
status_of_text-text_of_status HttpStatusCode.client_error_precondition_required = refl
status_of_text-text_of_status HttpStatusCode.client_error_too_many_requests = refl
status_of_text-text_of_status HttpStatusCode.client_error_request_header_fields_too_large = refl
status_of_text-text_of_status HttpStatusCode.client_error_unavailable_for_legal_reasons = refl
status_of_text-text_of_status HttpStatusCode.server_error_internal_server_error = refl
status_of_text-text_of_status HttpStatusCode.server_error_not_implemented = refl
status_of_text-text_of_status HttpStatusCode.server_error_bad_gateway = refl
status_of_text-text_of_status HttpStatusCode.server_error_service_unavailable = refl
status_of_text-text_of_status HttpStatusCode.server_error_gateway_timeout = refl
status_of_text-text_of_status HttpStatusCode.server_error_http_version_not_supported = refl
status_of_text-text_of_status HttpStatusCode.server_error_variant_also_negotiates = refl
status_of_text-text_of_status HttpStatusCode.server_error_insufficient_storage = refl
status_of_text-text_of_status HttpStatusCode.server_error_loop_detected = refl
status_of_text-text_of_status HttpStatusCode.server_error_not_extended = refl
status_of_text-text_of_status HttpStatusCode.server_error_network_authentication_required = refl

-- The text of every code but `unknown` begins with the decimal digits of its value.
pub text_of_status-digits :
    (c : HttpStatusCode)
    → c ≢ HttpStatusCode.unknown
    → take 3 (text_of_status c) ≡ to_string (value c)
unfolding text_of_status value to_string lt_wf dec_lt
text_of_status-digits HttpStatusCode.unknown h = absurd (h refl)
text_of_status-digits HttpStatusCode.information_continue h = refl
text_of_status-digits HttpStatusCode.information_switching_protocols h = refl
text_of_status-digits HttpStatusCode.information_processing h = refl
text_of_status-digits HttpStatusCode.success_ok h = refl
text_of_status-digits HttpStatusCode.success_created h = refl
text_of_status-digits HttpStatusCode.success_accepted h = refl
text_of_status-digits HttpStatusCode.success_non_authoritative_information h = refl
text_of_status-digits HttpStatusCode.success_no_content h = refl
text_of_status-digits HttpStatusCode.success_reset_content h = refl
text_of_status-digits HttpStatusCode.success_partial_content h = refl
text_of_status-digits HttpStatusCode.success_multi_status h = refl
text_of_status-digits HttpStatusCode.success_already_reported h = refl
text_of_status-digits HttpStatusCode.success_im_used h = refl
text_of_status-digits HttpStatusCode.redirection_multiple_choices h = refl
text_of_status-digits HttpStatusCode.redirection_moved_permanently h = refl
text_of_status-digits HttpStatusCode.redirection_found h = refl
text_of_status-digits HttpStatusCode.redirection_see_other h = refl
text_of_status-digits HttpStatusCode.redirection_not_modified h = refl
text_of_status-digits HttpStatusCode.redirection_use_proxy h = refl
text_of_status-digits HttpStatusCode.redirection_switch_proxy h = refl
text_of_status-digits HttpStatusCode.redirection_temporary_redirect h = refl
text_of_status-digits HttpStatusCode.redirection_permanent_redirect h = refl
text_of_status-digits HttpStatusCode.client_error_bad_request h = refl
text_of_status-digits HttpStatusCode.client_error_unauthorized h = refl
text_of_status-digits HttpStatusCode.client_error_payment_required h = refl
text_of_status-digits HttpStatusCode.client_error_forbidden h = refl
text_of_status-digits HttpStatusCode.client_error_not_found h = refl
text_of_status-digits HttpStatusCode.client_error_method_not_allowed h = refl
text_of_status-digits HttpStatusCode.client_error_not_acceptable h = refl
text_of_status-digits HttpStatusCode.client_error_proxy_authentication_required h = refl
text_of_status-digits HttpStatusCode.client_error_request_timeout h = refl
text_of_status-digits HttpStatusCode.client_error_conflict h = refl
text_of_status-digits HttpStatusCode.client_error_gone h = refl
text_of_status-digits HttpStatusCode.client_error_length_required h = refl
text_of_status-digits HttpStatusCode.client_error_precondition_failed h = refl
text_of_status-digits HttpStatusCode.client_error_payload_too_large h = refl
text_of_status-digits HttpStatusCode.client_error_uri_too_long h = refl
text_of_status-digits HttpStatusCode.client_error_unsupported_media_type h = refl
text_of_status-digits HttpStatusCode.client_error_range_not_satisfiable h = refl
text_of_status-digits HttpStatusCode.client_error_expectation_failed h = refl
text_of_status-digits HttpStatusCode.client_error_im_a_teapot h = refl
text_of_status-digits HttpStatusCode.client_error_misdirection_required h = refl
text_of_status-digits HttpStatusCode.client_error_unprocessable_entity h = refl
text_of_status-digits HttpStatusCode.client_error_locked h = refl
text_of_status-digits HttpStatusCode.client_error_failed_dependency h = refl
text_of_status-digits HttpStatusCode.client_error_upgrade_required h = refl
text_of_status-digits HttpStatusCode.client_error_precondition_required h = refl
text_of_status-digits HttpStatusCode.client_error_too_many_requests h = refl
text_of_status-digits HttpStatusCode.client_error_request_header_fields_too_large h = refl
text_of_status-digits HttpStatusCode.client_error_unavailable_for_legal_reasons h = refl
text_of_status-digits HttpStatusCode.server_error_internal_server_error h = refl
text_of_status-digits HttpStatusCode.server_error_not_implemented h = refl
text_of_status-digits HttpStatusCode.server_error_bad_gateway h = refl
text_of_status-digits HttpStatusCode.server_error_service_unavailable h = refl
text_of_status-digits HttpStatusCode.server_error_gateway_timeout h = refl
text_of_status-digits HttpStatusCode.server_error_http_version_not_supported h = refl
text_of_status-digits HttpStatusCode.server_error_variant_also_negotiates h = refl
text_of_status-digits HttpStatusCode.server_error_insufficient_storage h = refl
text_of_status-digits HttpStatusCode.server_error_loop_detected h = refl
text_of_status-digits HttpStatusCode.server_error_not_extended h = refl
text_of_status-digits HttpStatusCode.server_error_network_authentication_required h = refl
