-- ===== src/Container/Podman/Environment.antt =====
-- What the environment of a Podman container sets (podman.go).
use try_it_now.Base.{
  ◌≡◌, refl, ◌∙◌, ap, String, Bool, true, false, Option, none, some, List, [], ◌∷◌, arith, str_eq,
  eq_iff, eq_refl, Bool-cases, inl, inr, if◌then◌else◌,
}
use try_it_now.Container.{ContainerOptions, Setup, ShopConfig}
use try_it_now.Container.Contract.{overridden, wanted}
use try_it_now.Container.Podman.{PodmanSpec, podman_env, set_env, without_key}

unfoldable pub value_of : String → List (String × String) → Option String
value_of key [] = none
value_of key ((k, v) ∷ rest) = if str_eq k key then some v else value_of key rest

abbrev pub is_value : String → Option String → Bool
is_value value none = false
is_value value (some v) = str_eq v value

-- How Podman sets a container up for a specification.
unfoldable pub podman_setup : PodmanSpec → Setup
podman_setup s = record {
  published = s.host_port;
  image = s.image;
  name = s.name;
  hostname = s.hostname;
  sets = λ key value. is_value value (value_of key s.env);
  labels = s.labels;
  network = s.network;
}

value_of-without_key :
    (key other : String) (env : List (String × String))
    → str_eq other key ≡ false
    → value_of key (without_key other env) ≡ value_of key env
unfolding value_of
value_of-without_key key other [] h = refl
value_of-without_key key other ((k, v) ∷ env) h =
    let later = value_of-without_key key other env h in
    elim (Bool-cases (str_eq k other)) [
      | inl same ↦
          let e : k ≡ other = (eq_iff k other).0 same in
          rw (same) (ground (arith, later, h, ap (λ s. str_eq s key) e))
      | inr differ ↦ ground (arith, differ, later)
    ]

value_of-set_env :
    (key : String) (env vars : List (String × String))
    → value_of key (set_env env vars) ≡ overridden key vars (value_of key env)
unfolding value_of overridden
value_of-set_env key env [] = refl
value_of-set_env key env ((k, v) ∷ vars) =
    value_of-set_env key ((k, v) ∷ without_key k env) vars
    ∙ ap (overridden key vars) (elim (Bool-cases (str_eq k key)) [
      | inl same ↦ ground (arith, same)
      | inr other ↦ ground (arith, other, value_of-without_key key k env other)
    ])

pub podman_env-sets :
    (c : ShopConfig) (o : ContainerOptions) (key value : String)
    → wanted c o key ≡ some value
    → is_value value (value_of key (podman_env c o)) ≡ true
unfolding podman_env value_of
podman_env-sets c o key value h =
    let found : value_of key (podman_env c o) ≡ some value =
      value_of-set_env key _ o.env_vars ∙ h in
    rw found (eq_refl value)
