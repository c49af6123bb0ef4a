-- ===== src/Web/HttpServer/KeepAlive.antt =====
-- What follows a response that was sent: the callback that write gives to send
-- (src/network/web/http_server_impl.h).
use barbacoa_server_lib.Prelude.{
  ℕ, Bool, true, false, not, ◌||◌, ◌&&◌, ◌∙◌, subst, ◌≡◌, refl, List, [], ◌∷◌, Option, none, some,
  Outcome, returned, thrown, ltb, ◌==◌, if◌then◌else◌, codes, Bool-cases, inl, inr,
}
use barbacoa_server_lib.Web.Fields.{equal_range, some_value, case_insensitive_equal}
use barbacoa_server_lib.Web.HttpServer.Response.{Response, new_response}
use barbacoa_server_lib.Web.HttpSession.Asio.{Ec}
use barbacoa_server_lib.Web.HttpSession.Session.{Session, Errc}
use barbacoa_server_lib.Web.HttpServer.Dispatch.{Callback}
use barbacoa_server_lib.Web.Request.{Request}
use barbacoa_server_lib.Web.HttpServer.Session.{new_session}

-- `std::string::operator>=`
unfoldable pub string_ge : List ℕ → List ℕ → Bool
string_ge xs [] = true
string_ge [] (y ∷ ys) = false
string_ge (x ∷ xs) (y ∷ ys) = let rest = string_ge xs ys in if x == y then rest else ltb y x

-- The connection is let go, a new session reads from it, or on_error is told.
pub data AfterSend : Type 0 where
  let_go : AfterSend
  read_again : (s : Session Request) → (next_request_id : ℕ) → AfterSend
  failed : (ec : Ec) → AfterSend

abbrev pub again : ℕ → AfterSend
again next_request_id =
    AfterSend.read_again (new_session next_request_id).0 (new_session next_request_id).1

-- The loop over the values of "Connection", and what follows it.
unfoldable pub by_connection : List (List ℕ) → List ℕ → ℕ → AfterSend
unfolding case_insensitive_equal string_ge new_session
by_connection [] version next_request_id =
    if string_ge version (codes "1.1") then again next_request_id else AfterSend.let_go
by_connection (v ∷ values) version next_request_id =
    let rest = by_connection values version next_request_id in
    if case_insensitive_equal v (codes "close")
    then AfterSend.let_go
    else (if case_insensitive_equal v (codes "keep-alive") then again next_request_id else rest)

-- `in_order` is the order in which the multimap has the values of one name.
unfoldable pub on_sent :
    (in_order : List (List ℕ) → List (List ℕ)) → Ec → Response → Session Request → ℕ → AfterSend
unfolding by_connection equal_range
on_sent in_order Ec.not_found response s next_request_id = AfterSend.failed Ec.not_found
on_sent in_order Ec.eof response s next_request_id = AfterSend.failed Ec.eof
on_sent in_order (Ec.other c) response s next_request_id = AfterSend.failed (Ec.other c)
on_sent in_order Ec.success response s next_request_id =
    let decided =
      by_connection (in_order (equal_range (codes "Connection") s.head.header)) s.head.version
        next_request_id in
    if response.close_connection_after_response then AfterSend.let_go else decided

abbrev pub called : Outcome Response → Option Errc × Response
called (returned response) = (none, response)
called (thrown e response) = (some Errc.operation_canceled, response)

-- `write`: the callback's response is sent when it is given up, also by a callback that throws; which
-- on_error is told.
unfoldable pub write : Session Request → Callback → Option Errc × Response
unfolding new_response
write s callback = called (callback s new_response)

-- The multimap has the values, in some order.
abbrev pub IsOrder : (List (List ℕ) → List (List ℕ)) → Type 0
IsOrder in_order =
    (is_it : List ℕ → Bool) (values : List (List ℕ))
    → some_value is_it (in_order values) ≡ some_value is_it values

abbrev pub is_close : List ℕ → Bool
is_close v = case_insensitive_equal v (codes "close")

abbrev pub is_keep_alive : List ℕ → Bool
is_keep_alive v = case_insensitive_equal v (codes "keep-alive")

-- What a client wants, that says nothing, or that says one thing, however often.
abbrev pub is_persistent : List (List ℕ) → List ℕ → Bool
is_persistent values version =
    not (some_value is_close values)
    && (some_value is_keep_alive values || string_ge version (codes "1.1"))

no_other : (a b c d : Bool) → (a || b) && (c || d) ≡ false → c ≡ true → b ≡ false
no_other a false c d h k = refl
no_other true true true d h k = absurd (cc)
no_other false true true d h k = absurd (cc)
no_other a true false d h k = absurd (cc)

by_connection-is_persistent :
    (values : List (List ℕ)) (version : List ℕ) (n : ℕ)
    → some_value is_close values && some_value is_keep_alive values ≡ false
    → by_connection values version n
      ≡ (if is_persistent values version then again n else AfterSend.let_go)
unfolding by_connection
by_connection-is_persistent [] version n h = refl
by_connection-is_persistent (v ∷ values) version n h =
    elim (Bool-cases (case_insensitive_equal v (codes "close"))) [
      | inl c ↦ rw c refl
      | inr c ↦ elim (Bool-cases (case_insensitive_equal v (codes "keep-alive"))) [
        | inl k ↦
            let only : some_value is_close values ≡ false =
              no_other (is_close v) (some_value is_close values) (is_keep_alive v)
                (some_value is_keep_alive values) h k in
            rw (c, k, only) refl
        | inr k ↦
            rw (c, k)
              (by_connection-is_persistent values version n
                (subst (λ b. b ≡ false) (rw (c, k) refl) h))
      ]
    ]

-- After a response that was sent, and that is not to close the connection, to a request whose values of
-- "Connection" do not say both "close" and "keep-alive", in whatever order the multimap has them: a new session reads
-- from the connection just when no value is "close", and one is "keep-alive" or the version is at least 1.1; it has
-- the next id and nothing in its streambuf.
pub on_sent-is_persistent :
    (in_order : List (List ℕ) → List (List ℕ)) (response : Response) (s : Session Request) (n : ℕ)
    → IsOrder in_order
    → response.close_connection_after_response ≡ false
    → some_value is_close (equal_range (codes "Connection") s.head.header)
        && some_value is_keep_alive (equal_range (codes "Connection") s.head.header)
      ≡ false
    → on_sent in_order Ec.success response s n ≡ (
        if is_persistent (equal_range (codes "Connection") s.head.header) s.head.version
        then again n
        else AfterSend.let_go)
unfolding on_sent
on_sent-is_persistent in_order response s n same kept one =
    let values = equal_range (codes "Connection") s.head.header in
    rw kept (
      by_connection-is_persistent (in_order values) s.head.version n
        (rw (same is_close values, same is_keep_alive values) one)
      ∙ rw (same is_close values, same is_keep_alive values) refl)
