-- ===== src/Store/Ports.antt =====
-- store/valkey.go: the two sets of ports, InitializePorts, AllocatePort and ReleasePort.
pub mod Exclusive
pub mod Initial
pub mod Effects
use try_it_now.Base.{
  ℕ, zero, suc, ◌+◌, ◌-◌, Bool, true, false, Option, none, some, List, [], ◌∷◌, ltb, if◌then◌else◌,
}
use try_it_now.Domain.{Error, no_ports_available, failure}
use try_it_now.Valkey.{Valkey, ports_available, ports_in_use}
use try_it_now.World.{
  Services, World, Result, ok, err, M, pure, fail, lift, command, query, perform, ◌>>=◌, ◌>>◌,
}

-- `count` numbers from `first` on: `for port := r.portStart; port <= r.portEnd; port++`.
unfoldable pub port_range : ℕ → ℕ → List ℕ
port_range first zero = []
port_range first (suc count) = first ∷ port_range (suc first) count

-- SADD wants a member: with none the server refuses the command.
abbrev pub add_ports : Services → List ℕ → M (Unit {0})
add_ports x [] = do perform x (λ ks. ks); fail failure
add_ports x (p ∷ ps) = perform x (x.valkey.port_sadd ports_available (p ∷ ps))

-- `make` panics where the range ends before the port before its first: that is `none`.
abbrev pub add_range : Services → ℕ → ℕ → World → Option (Result (Unit {0}) × World)
add_range x first last w =
    if ltb (suc last) first
    then none
    else some (add_ports x (port_range first (suc last - first)) w)

abbrev pub counted_ports : Services → ℕ → ℕ → Result ℕ × World → Option (Result (Unit {0}) × World)
counted_ports x first last (err e, w) = some (err e, w)
counted_ports x first last (ok count, w) =
    if ltb 0 count then some (ok tt, w) else add_range x first last w

unfoldable pub initialize_ports : Services → ℕ → ℕ → World → Option (Result (Unit {0}) × World)
unfolding port_range
initialize_ports x first last w =
    counted_ports x first last (query x (x.valkey.port_scard ports_available) w)

abbrev pub track_port : Services → Option ℕ → M ℕ
track_port x none = fail no_ports_available
track_port x (some port) = do perform x (x.valkey.port_sadd ports_in_use (port ∷ [])); pure port

unfoldable pub allocate_port : Services → M ℕ
allocate_port x = do port ← command x (x.valkey.port_spop ports_available); track_port x port

unfoldable pub release_port : Services → ℕ → M (Unit {0})
release_port x port = do
  perform x (x.valkey.port_srem ports_in_use port)
  perform x (x.valkey.port_sadd ports_available (port ∷ []))
