-- ===== src/Server/Start.antt =====
-- `start` of Server.ts: what the server listens on, which master it connects to, and what it holds.
use diy_redis.Base.{
  ◌≡◌, refl, Bool, true, false, not, Option, none, some, List, [], ◌∷◌, ◌++◌, ◌==◌, if◌then◌else◌,
}
use diy_redis.Base.Int.{ℤ, pos, negsuc}
use diy_redis.Js.Text.{Text, codes, is_truthy}
use diy_redis.Js.Number.{parse_int}
use diy_redis.World.{World}
use diy_redis.Dispatch.{ConnectionState, fresh_state}
use diy_redis.Settings.{Settings, Role, master, slave, behind_flag, detect_server_role}
use diy_redis.Settings.Masters.{IsWord, detect_server_role-replicaof}
use diy_redis.Server.Connections.{Host}
use diy_redis.Server.Events.{started}

-- `port` of listen, what `connectToMaster` is called with, the state that the master's commands run with, and
-- the server behind `loadRDB`.
pub record Startup : Type 0 where
  pub settings : Settings
  pub listens_on : ℤ
  pub connects_to : Option (Text × ℤ)
  pub replica_state : ConnectionState
  pub host : Host

-- `masterPort` as a condition: neither NaN nor 0.
abbrev pub is_port : Option ℤ → Bool
is_port none = false
is_port (some (pos n)) = not (n == 0)
is_port (some (negsuc n)) = true

abbrev pub port_or_zero : Option ℤ → ℤ
port_or_zero none = pos 0
port_or_zero (some port) = port

abbrev pub connect_if : Text → Option ℤ → Option (Text × ℤ)
connect_if host port = if is_port port then some (host, port_or_zero port) else none

-- `serverInfo.role === "slave" && serverInfo.masterHost && serverInfo.masterPort`
unfoldable pub master_to_connect : Role → Option Text → Option ℤ → Option (Text × ℤ)
master_to_connect master host port = none
master_to_connect slave none port = none
master_to_connect slave (some host) port = if is_truthy host then connect_if host port else none

unfoldable pub start : Text → List Text → World → Startup
unfolding detect_server_role master_to_connect started
start cwd args w =
    let s = detect_server_role cwd args in
    record {
      settings = s;
      listens_on = s.port;
      connects_to = master_to_connect s.role s.master_host s.master_port;
      replica_state = fresh_state;
      host = started w;
    }

-- A server that is started with --replicaof, behind other arguments of which none is that flag, and a host and a port
-- that are words, is a replica, whether the two stand in one argument or in two, and it connects to that host and
-- port. If the port is 0 or no number at all, it is still a replica, and connects to nothing.
pub start-replicaof :
    (cwd host port : Text) (before : List Text) (w : World)
    → behind_flag (codes "--replicaof") before ≡ none
    → IsWord host
    → IsWord port
    → let one = start cwd (before ++ codes "--replicaof" ∷ (host ++ 32 ∷ port) ∷ []) w in
      let two = start cwd (before ++ codes "--replicaof" ∷ host ∷ port ∷ []) w in
      let target = connect_if host (parse_int port) in
      (one.settings.role ≡ slave)
      × (one.connects_to ≡ target)
      × (two.settings.role ≡ slave)
      × (two.connects_to ≡ target)
unfolding start master_to_connect
start-replicaof cwd host port before w no_flag a_host a_port =
    let found = detect_server_role-replicaof cwd host port before no_flag a_host a_port in
    let (role, its_host, its_port, role', its_host', its_port') = found in
    (
      role,
      rw (role, its_host, its_port, a_host.some_unit) refl,
      role',
      rw (role', its_host', its_port', a_host.some_unit) refl,
    )
