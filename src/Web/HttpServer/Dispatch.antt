-- ===== src/Web/HttpServer/Dispatch.antt =====
-- find_resource and write (src/network/web/http_server_impl.h): the resource that answers a request, and
-- what it does. The callbacks and the regular expressions of the resources are parameters.
use barbacoa_server_lib.Prelude.{
  ℕ, Bool, true, false, ◌≡◌, refl, List, [], ◌∷◌, ◌++◌, Option, none, some, Outcome, ◌==◌,
  if◌then◌else◌, codes, bytes_eq, Option-cases, inl, inr, ◌⊎◌, ◌∙◌,
}
use barbacoa_server_lib.Web.Fields.{find, Pick}
use barbacoa_server_lib.Web.Request.{Request}
use barbacoa_server_lib.Web.HttpServer.Response.{Response}
use barbacoa_server_lib.Web.HttpSession.Session.{Session}

-- A callback of a resource: the response as it leaves it, also when it throws.
abbrev pub Callback : Type 0
Callback = Session Request → Response → Outcome Response

-- std::map<std::string, request_callback_type>, by method.
abbrev pub Methods : Type 0
Methods = List (List ℕ × Callback)

unfoldable pub find_method : List ℕ → Methods → Option Callback
find_method method [] = none
find_method method ((m, callback) ∷ methods) =
    let rest = find_method method methods in if bytes_eq m method then some callback else rest

unfoldable pub remove : ℕ → List ℕ → List ℕ
remove c [] = []
remove c (x ∷ xs) = let rest = remove c xs in if x == c then xs else x ∷ rest

module _ (Regex : Type 0) (regex_match : Regex → List ℕ → Bool) where
  -- The map of resources, in the order of the texts of its regular expressions.
  pub record Resources : Type 0 where
    pub resource : List (Regex × Methods)
    pub default_resource : Methods
    pub has_on_upgrade : Bool

  -- What becomes of a request: on_upgrade takes over, a callback is called, with the regular
  -- expression that matched, or nothing is.
  pub data Action : Type 0 where
    upgrade : Action
    call : Option Regex → Callback → Action
    nothing : Action

  abbrev pub or_later : Option Callback → Bool → Regex → Action → Action
  or_later none matches r later = later
  or_later (some callback) true r later = Action.call (some r) callback
  or_later (some callback) false r later = later

  abbrev pub by_default : Option Callback → Action
  by_default none = Action.nothing
  by_default (some callback) = Action.call none callback

  -- The loop over `resource`, and `default_resource`.
  unfoldable pub find_route : List (Regex × Methods) → Methods → Request → Action
  unfolding find_method
  find_route [] default r = by_default (find_method r.method default)
  find_route ((regex, methods) ∷ routes) default r =
      or_later (find_method r.method methods) (regex_match regex r.path) regex
        (find_route routes default r)

  abbrev pub has_value : Option (List ℕ) → Bool
  has_value none = false
  has_value (some v) = true

  -- `find_resource`, with the table of connections: an upgraded one leaves it.
  unfoldable pub find_resource : Pick → Resources → List ℕ → ℕ → Session Request → Action × List ℕ
  unfolding find find_route remove
  find_resource pick resources connections connection s =
      let route = find_route resources.resource resources.default_resource s.head in
      let upgraded : Action × List ℕ = (Action.upgrade, remove connection connections) in
      if resources.has_on_upgrade
      then (if has_value (find pick (codes "Upgrade") s.head.header)
          then upgraded
          else (route, connections))
      else (route, connections)

  -- A resource fits a request.
  abbrev pub Fits : Regex × Methods → Request → Callback → Type 0
  Fits (regex, methods) r callback =
      (find_method r.method methods ≡ some callback) × (regex_match regex r.path ≡ true)

  -- None of them does.
  abbrev pub NoneFits : List (Regex × Methods) → Request → Type 0
  NoneFits [] r = Unit {0}
  NoneFits ((regex, methods) ∷ routes) r =
      ((find_method r.method methods ≡ none) ⊎ (regex_match regex r.path ≡ false))
      × NoneFits routes r

  passed_over :
      (before routes : List (Regex × Methods)) (default : Methods) (r : Request)
      → NoneFits before r
      → find_route (before ++ routes) default r ≡ find_route routes default r
  unfolding find_route
  passed_over [] routes default r h = refl
  passed_over ((regex, methods) ∷ before) routes default r (inl no_method, rest) =
      rw (no_method) (passed_over before routes default r rest)
  passed_over ((regex, methods) ∷ before) routes default r (inr no_match, rest) =
      elim (Option-cases (find_method r.method methods)) [
        | inl n ↦ rw n (passed_over before routes default r rest)
        | inr (c, e) ↦ rw (e, no_match) (passed_over before routes default r rest)
      ]

  -- The first resource that fits by its method and its path is called, in the order of the map.
  pub first_resource :
      (before after : List (Regex × Methods)) (regex : Regex) (methods default : Methods)
      (callback : Callback) (r : Request)
      → NoneFits before r
      → Fits (regex, methods) r callback
      → find_route (before ++ (regex, methods) ∷ after) default r
        ≡ Action.call (some regex) callback
  unfolding find_route
  first_resource before after regex methods default callback r none_before (method, path) =
      passed_over before ((regex, methods) ∷ after) default r none_before ∙ rw (method, path) refl
