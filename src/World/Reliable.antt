-- ===== src/World/Reliable.antt =====
-- Services that behave as documented and lose nothing are those that the documentation describes: a
-- proof about them rewrites by this equation and computes.
use try_it_now.Base.{ℕ, ◌≡◌}
use try_it_now.Valkey.{IsDocumented}
use try_it_now.Valkey.Documented.{documented, documented_lem}
use try_it_now.World.{Services, delivered}

-- Every command reaches the server and its reply arrives.
pub record IsReliable (x : Services) : Type 0 where
  pub documented_server : IsDocumented x.valkey
  pub all_delivered : (n : ℕ) → x.fault n ≡ delivered

abbrev pub documented_services : Services → Services
documented_services x = record x { valkey = documented x.valkey }

abbrev pub reliable : Services → Services
reliable x = record x { valkey = documented x.valkey; fault = λ n. delivered }

pub documented_services_lem : (x : Services) → IsDocumented x.valkey → x ≡ documented_services x
documented_services_lem x d = λ i. record x { valkey = documented_lem x.valkey d i }

pub reliable_lem : (x : Services) → IsReliable x → x ≡ reliable x
reliable_lem x r = λ i. record x {
  valkey = documented_lem x.valkey r.documented_server i;
  fault = λ n. r.all_delivered n i;
}
