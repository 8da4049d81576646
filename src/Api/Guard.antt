-- ===== src/Api/Guard.antt =====
-- internal/api: the routes, and the key that all but the health check ask for.
use try_it_now.Base.{
  List, ℕ, ◌≡◌, ◌≢◌, ◌⊎◌, inl, inr, refl, sym, ap, ◌∙◌, arith, String, Bool, true, false, Option,
  str_eq, eq_iff, eq_refl, Bool-cases, if◌then◌else◌,
}
use try_it_now.World.{Services, World, ok, M}
use try_it_now.Api.{
  Config, Response, error_response, unauthorized, problem, health, acquire_demo, get_demo,
  extend_demo, release_demo, pool_stats,
}
use try_it_now.Api.Stream.{Wake, demo_status}

-- The routes that Router registers; /metrics answers from the collector and is left out.
pub data Route : Type 0 where
  get_health post_acquire get_stats : Route
  get_instance_route delete_instance_route get_status : String → Route
  post_extend : String → Option ℕ → Route

pub record Request : Type 0 where
  pub route : Route
  pub client_ip : String
  -- The header X-API-Key and the parameter api_key, empty where they are missing.
  pub header_key : String
  pub query_key : String
  -- What a stream meets while it lasts.
  pub wakes : List Wake

abbrev pub presented_key : Request → String
presented_key r = if str_eq r.header_key "" then r.query_key else r.header_key

-- APIKeyAuth; `subtle.ConstantTimeCompare` is 1 just where the texts are equal.
unfoldable pub api_key_auth : Config → Request → M Response → M Response
api_key_auth c r next =
    if str_eq c.api_key ""
    then next
    else if str_eq (presented_key r) c.api_key
    then next
    else problem 401 unauthorized

abbrev pub handle_protected : Services → Config → Request → Route → M Response
handle_protected x c r get_health = health x c
handle_protected x c r post_acquire = acquire_demo x c r.client_ip
handle_protected x c r get_stats = pool_stats x c
handle_protected x c r (get_instance_route id) = get_demo x c id
handle_protected x c r (delete_instance_route id) = release_demo x id
handle_protected x c r (get_status id) = demo_status r.wakes x id
handle_protected x c r (post_extend id minutes) = extend_demo x c id minutes

abbrev pub is_public : Route → Bool
is_public get_health = true
is_public _ = false

unfoldable pub serve : Services → Config → Request → M Response
unfolding api_key_auth
serve x c r =
    let handle = handle_protected x c r r.route in
    if is_public r.route then handle else api_key_auth c r handle

-- The key is not asked for, or the right one is in the header, or it is in the parameter and the
-- header is empty.
abbrev pub KeyAccepted : Config → Request → Type 0
KeyAccepted c r =
    (c.api_key ≡ "")
    ⊎ (r.header_key ≡ c.api_key)
    ⊎ ((r.header_key ≡ "") × (r.query_key ≡ c.api_key))

-- What a request is answered: the health check with any key or none; each other route by its own
-- operation, where the key is accepted; and any other request with 401, and then nothing changes.
pub record Serves (x : Services) (c : Config) : Type 0 where
  pub health_open : (r : Request) (w : World) → r.route ≡ get_health → serve x c r w ≡ health x c w
  pub refused :
      (r : Request) (w : World)
      → r.route ≢ get_health
      → ¬ KeyAccepted c r
      → serve x c r w ≡ (ok (record { status = 401; body = error_response unauthorized }), w)
  pub acquires :
      (r : Request) (w : World)
      → KeyAccepted c r
      → r.route ≡ post_acquire
      → serve x c r w ≡ acquire_demo x c r.client_ip w
  pub counts :
      (r : Request) (w : World)
      → KeyAccepted c r
      → r.route ≡ get_stats
      → serve x c r w ≡ pool_stats x c w
  pub gets :
      (r : Request) (w : World) (id : String)
      → KeyAccepted c r
      → r.route ≡ get_instance_route id
      → serve x c r w ≡ get_demo x c id w
  pub releases :
      (r : Request) (w : World) (id : String)
      → KeyAccepted c r
      → r.route ≡ delete_instance_route id
      → serve x c r w ≡ release_demo x id w
  pub streams :
      (r : Request) (w : World) (id : String)
      → KeyAccepted c r
      → r.route ≡ get_status id
      → serve x c r w ≡ demo_status r.wakes x id w
  pub extends :
      (r : Request) (w : World) (id : String) (minutes : Option ℕ)
      → KeyAccepted c r
      → r.route ≡ post_extend id minutes
      → serve x c r w ≡ extend_demo x c id minutes w

-- APIKeyAuth, on any handler.
let_through :
    (c : Config) (r : Request) (next : M Response) (w : World)
    → KeyAccepted c r
    → api_key_auth c r next w ≡ next w
unfolding api_key_auth
let_through c r next w (inl none_asked) = ground (arith, none_asked, eq_refl c.api_key)
let_through c r next w (inr (inl in_header)) = elim (Bool-cases (str_eq r.header_key "")) [
  | inl empty ↦
      let unasked : c.api_key ≡ "" = sym in_header ∙ (eq_iff r.header_key "").0 empty in
      let blank : str_eq c.api_key "" ≡ true = (eq_iff c.api_key "").1 unasked in rw blank refl
  | inr there ↦
      let right : str_eq r.header_key c.api_key ≡ true =
        (eq_iff r.header_key c.api_key).1 in_header in
      elim (Bool-cases (str_eq c.api_key "")) [
        | inl unasked ↦ rw unasked refl
        | inr asked ↦ rw (asked, there, right) refl
      ]
]
let_through c r next w (inr (inr (no_header, in_query))) =
    let empty : str_eq r.header_key "" ≡ true = (eq_iff r.header_key "").1 no_header in
    let right : str_eq r.query_key c.api_key ≡ true = (eq_iff r.query_key c.api_key).1 in_query in
    elim (Bool-cases (str_eq c.api_key "")) [
      | inl unasked ↦ rw unasked refl
      | inr asked ↦ rw (asked, empty, right) refl
    ]

turned_away :
    (c : Config) (r : Request) (next : M Response) (w : World)
    → ¬ KeyAccepted c r
    → api_key_auth c r next w
      ≡ (ok (record { status = 401; body = error_response unauthorized }), w)
unfolding api_key_auth
turned_away c r next w h = elim (Bool-cases (str_eq c.api_key "")) [
  | inl unasked ↦ absurd (h (inl ((eq_iff c.api_key "").0 unasked)))
  | inr asked ↦ elim (Bool-cases (str_eq (presented_key r) c.api_key)) [
    | inl right ↦ absurd (h (right_key right))
    | inr wrong ↦ rw (asked, wrong) refl
  ]
]
  where
    right_key : str_eq (presented_key r) c.api_key ≡ true → KeyAccepted c r
    right_key right = elim (Bool-cases (str_eq r.header_key "")) [
      | inl empty ↦ inr (
          inr (
            (eq_iff r.header_key "").0 empty,
            (eq_iff r.query_key c.api_key).0 (rw empty at right),
          ))
      | inr there ↦ inr (inl ((eq_iff r.header_key c.api_key).0 (rw there at right)))
    ]

guarded :
    (x : Services) (c : Config) (r : Request) (w : World)
    → r.route ≢ get_health
    → serve x c r w ≡ api_key_auth c r (handle_protected x c r r.route) w
unfolding serve
guarded x c r w h = go r.route h
  where
    go :
        (route : Route)
        → route ≢ get_health
        → (if is_public route
              then handle_protected x c r r.route
              else api_key_auth c r (handle_protected x c r r.route))
            w
          ≡ api_key_auth c r (handle_protected x c r r.route) w
    go get_health h = absurd (h refl)
    go post_acquire h = refl
    go get_stats h = refl
    go (get_instance_route id) h = refl
    go (delete_instance_route id) h = refl
    go (get_status id) h = refl
    go (post_extend id minutes) h = refl

served_by :
    (x : Services) (c : Config) (r : Request) (w : World) (route : Route)
    → KeyAccepted c r
    → r.route ≡ route
    → route ≢ get_health
    → serve x c r w ≡ handle_protected x c r route w
served_by x c r w route k e differs =
    guarded x c r w (λ same. differs (sym e ∙ same))
    ∙ let_through c r (handle_protected x c r r.route) w k
    ∙ ap (λ route. handle_protected x c r route w) e

-- The health check is answered whatever the key; a request for any other route whose key is not
-- accepted, in the header first, is answered 401 and changes nothing at all; and where the key is
-- accepted, each route is answered by its own operation, with the route's parameters.
pub serve-Serves : (x : Services) (c : Config) → Serves x c
unfolding serve
serve-Serves x c = record {
  health_open = λ r w e. rw e refl;
  refused = λ r w e h. guarded x c r w e ∙ turned_away c r (handle_protected x c r r.route) w h;
  acquires = λ r w k e. served_by x c r w post_acquire k e (λ s. ground (arith, s));
  counts = λ r w k e. served_by x c r w get_stats k e (λ s. ground (arith, s));
  gets = λ r w id k e. served_by x c r w (get_instance_route id) k e (λ s. ground (arith, s));
  releases =
      λ r w id k e. served_by x c r w (delete_instance_route id) k e (λ s. ground (arith, s));
  streams = λ r w id k e. served_by x c r w (get_status id) k e (λ s. ground (arith, s));
  extends =
      λ r w id minutes k e. served_by x c r w (post_extend id minutes) k e (λ s. ground (arith, s));
}
