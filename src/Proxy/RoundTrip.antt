-- ===== src/Proxy/RoundTrip.antt =====
-- A route that is written to the Caddy server and read back.
use Prim.Native.Char.{Char}
use Prim.Native.String.{count}
use text.Mathlib.TextLemmas.{
  nil-append, cons-append, append_assoc, length-append, length-cons, cons≢nil,
}
use try_it_now.Base.{
  ℕ, suc, ◌+◌, ◌≡◌, ◌≢◌, refl, ◌∙◌, ap, String, false, none, some, arith, str_eq, eq_iff, eq_refl,
  Bool-cases, inl, inr,
}
use try_it_now.Base.Text.{
  ◌<>◌, has_char, replace_char, after_prefix, trim_prefix, trim_suffix, decimal,
}
use try_it_now.Domain.{Instance}
use try_it_now.World.{Route}
use try_it_now.Pool.{route_of}
use try_it_now.Proxy.{Config, build_caddy_route, caddy_route_to_route, route_id}

pub after_prefix-append : (p s : String) → after_prefix p (p <> s) ≡ some s
unfolding after_prefix
after_prefix-append String.[] s = rw (nil-append s) refl
after_prefix-append (String.◌∷◌ c p) s =
    rw (cons-append c p s) (ground (arith, after_prefix-append p s))

pub trim_prefix-append : (p s : String) → trim_prefix p (p <> s) ≡ s
unfolding trim_prefix
trim_prefix-append p s = rw (after_prefix-append p s, trim_prefix) refl

pub trim_not_there : (p s : String) → after_prefix p s ≡ none → trim_prefix p s ≡ s
unfolding trim_prefix
trim_not_there p s h = rw (h, trim_prefix) refl

-- A text is not the end of what it ends with one character more.
str_eq-longer : (c : Char) (s t : String) → str_eq t (String.◌∷◌ c (s <> t)) ≡ false
str_eq-longer c s t = elim (Bool-cases (str_eq t (String.◌∷◌ c (s <> t)))) [
  | inl same ↦
      let counts : count t ≡ suc (count s + count t) =
        ap count ((eq_iff t (String.◌∷◌ c (s <> t))).0 same)
        ∙ length-cons c (s <> t)
        ∙ ap suc (length-append s t) in
      ground (arith, counts)
  | inr differ ↦ differ
]

pub trim_suffix-append : (s t : String) → trim_suffix t (s <> t) ≡ s
unfolding trim_suffix
trim_suffix-append String.[] String.[] = refl
trim_suffix-append String.[] (String.◌∷◌ d t) =
    rw (nil-append (String.◌∷◌ d t)) (ground (arith, eq_refl (String.◌∷◌ d t)))
trim_suffix-append (String.◌∷◌ c s) t =
    rw (cons-append c s t) (ground (arith, trim_suffix-append s t, str_eq-longer c s t))

pub replace_char_none :
    (k : ℕ) (d : Char) (s : String) → has_char k s ≡ false → replace_char k d s ≡ s
unfolding replace_char has_char
replace_char_none k d String.[] h = refl
replace_char_none k d (String.◌∷◌ c s) h = ground (arith, replace_char_none k d s)

id_of : (cfg : Config) (h : String) → has_char b'.' h ≡ false → route_id h ≡ "demo-route-" <> h
unfolding route_id
id_of cfg h plain = rw (replace_char_none b'.' "-" h plain) refl

l_after : (s : String) → after_prefix "https://" (String.◌∷◌ "l" s) ≡ none
unfolding after_prefix
l_after s = refl

id_not_empty : (h : String) → str_eq ("demo-route-" <> h) "" ≡ false
id_not_empty h =
    let not_empty : ◌≢◌ {A = String} (String.◌∷◌ "d" ("emo-route-" <> h)) "" = cons≢nil in
    rw (cons-append "d" "emo-route-" h)
      (ground (arith, eq_iff (String.◌∷◌ "d" ("emo-route-" <> h)) "", not_empty))

read_back :
    (cfg : Config) (r : Route) (address : String)
    → has_char b'.' r.hostname ≡ false
    → r.upstream_url ≡ "http://" <> address
    → after_prefix "https://" address ≡ none
    → caddy_route_to_route cfg (build_caddy_route cfg r)
      ≡ some (record r { instance_id = r.hostname })
unfolding caddy_route_to_route build_caddy_route
read_back cfg r address plain http not_https = ground (
  arith,
  trim_suffix-append r.hostname ("." <> cfg.base_domain),
  id_of cfg r.hostname plain,
  id_not_empty r.hostname,
  trim_prefix-append "demo-route-" r.hostname,
  trim_prefix-append "http://" address,
  trim_not_there "https://" address not_https,
)

pub local_address : (p : ℕ) → after_prefix "https://" ("localhost:" <> decimal p) ≡ none
unfolding after_prefix
local_address p = rw (cons-append "l" "ocalhost:" (decimal p)) refl

-- The route of a demo, whose hostname has no dot, comes back from what is written to the Caddy server
-- with its hostname and its upstream. The identifier that comes back for the instance is the hostname:
-- that of the instance is not written.
pub caddy_route_to_route-build_caddy_route :
    (cfg : Config) (i : Instance)
    → has_char b'.' i.hostname ≡ false
    → caddy_route_to_route cfg (build_caddy_route cfg (route_of i))
      ≡ some (record (route_of i) { instance_id = i.hostname })
caddy_route_to_route-build_caddy_route cfg i plain =
    read_back cfg (route_of i) ("localhost:" <> decimal i.port) plain
      (append_assoc "http://" "localhost:" (decimal i.port)) (local_address i.port)
