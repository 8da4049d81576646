-- ===== src/Container/Docker/Environment.antt =====
-- What the environment of a Docker container sets (docker.go).
use try_it_now.Base.{
  ◌≡◌, ◌⊎◌, inl, inr, refl, ◌∙◌, String, true, Option, none, some, List, [], ◌∷◌, ◌++◌, ◌||◌, arith,
  str_eq, eq_iff, eq_refl, contains, Bool-cases, if◌then◌else◌,
}
use try_it_now.Base.Text.{◌<>◌, decimal}
use try_it_now.Container.{ContainerOptions, Setup, ShopConfig}
use try_it_now.Container.Contract.{shop_setting, overridden, wanted}
use try_it_now.Container.Docker.{DockerSpec, docker_env, setting, settings}

-- How Docker sets a container up for a specification.
abbrev pub docker_setup : DockerSpec → Setup
docker_setup s = record {
  published = s.host_port;
  image = s.image;
  name = s.name;
  hostname = s.hostname;
  sets = λ key value. contains str_eq (setting key value) s.env;
  labels = s.labels;
  network = s.network;
}

contains-append :
    (s : String) (xs ys : List String)
    → contains str_eq s (xs ++ ys) ≡ (contains str_eq s xs || contains str_eq s ys)
unfolding contains
contains-append s [] ys = refl
contains-append s (x ∷ xs) ys = ground (arith, contains-append s xs ys)

shop_settings : ShopConfig → ContainerOptions → List (String × String)
shop_settings c o =
    ("PS_DOMAIN", o.common.hostname <> ("." <> c.base_domain))
    ∷ ("MYSQL_HOST", c.db_host)
    ∷ ("MYSQL_PORT", decimal c.db_port)
    ∷ ("MYSQL_DATABASE", c.db_name)
    ∷ ("MYSQL_USER", c.db_user)
    ∷ ("MYSQL_PASSWORD", c.db_password)
    ∷ ("ADMIN_MAIL_OVERRIDE", c.demo_user)
    ∷ ("ADMIN_PASSWORD_OVERRIDE", c.demo_pass)
    ∷ []

first_value : String → List (String × String) → Option String
first_value key [] = none
first_value key ((k, v) ∷ rest) = if str_eq k key then some v else first_value key rest

first_value-settings :
    (key value : String) (env : List (String × String))
    → first_value key env ≡ some value
    → contains str_eq (setting key value) (settings env) ≡ true
unfolding contains first_value
first_value-settings key value [] h = ground (arith, h)
first_value-settings key value ((k, v) ∷ rest) h = elim (Bool-cases (str_eq k key)) [
  | inl same ↦
      let e : k ≡ key = (eq_iff k key).0 same in
      let f : v ≡ value = ground (arith, same, h) in
      rw (e, f) (ground (arith, eq_refl (setting key value)))
  | inr other ↦
      let later = first_value-settings key value rest (ground (arith, other, h)) in
      ground (arith, later)
]

overridden-settings :
    (key value : String) (vars : List (String × String)) (default : Option String)
    → overridden key vars default ≡ some value
    → (default ≡ some value) ⊎ (contains str_eq (setting key value) (settings vars) ≡ true)
unfolding overridden contains
overridden-settings key value [] default h = inl h
overridden-settings key value ((k, v) ∷ rest) default h =
    elim (overridden-settings key value rest (if str_eq k key then some v else default) h) [
      | inl kept ↦ elim (Bool-cases (str_eq k key)) [
        | inl same ↦
            let e : k ≡ key = (eq_iff k key).0 same in
            let f : v ≡ value = ground (arith, same, kept) in
            inr (rw (e, f) (ground (arith, eq_refl (setting key value))))
        | inr other ↦ inl (ground (arith, other, kept))
      ]
      | inr later ↦ inr (ground (arith, later))
    ]

pub docker_env-sets :
    (c : ShopConfig) (o : ContainerOptions) (key value : String)
    → wanted c o key ≡ some value
    → contains str_eq (setting key value) (docker_env c o) ≡ true
unfolding docker_env first_value shop_settings
docker_env-sets c o key value h =
    contains-append (setting key value) (settings (shop_settings c o)) (settings o.env_vars)
    ∙ elim (overridden-settings key value o.env_vars (shop_setting c o.common key) h) [
      | inl default ↦ ground (arith, first_value-settings key value (shop_settings c o) default)
      | inr later ↦ ground (arith, later)
    ]
