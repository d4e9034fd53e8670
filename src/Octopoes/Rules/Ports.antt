-- ===== src/Octopoes/Rules/Ports.antt =====
-- octopoes/bits/port_classification_ip/port_classification_ip.py. A list of ports in a configuration
-- is given by the numbers that its text names.
use nl_kat_coordination.Prelude.{
  ℕ, String, List, [], ◌∷◌, ◌++◌, any_of, Option, none, some, Bool, true, false, ◌&&◌, ◌||◌, not,
  ◌==◌, if◌then◌else◌,
}
use nl_kat_coordination.Octopoes.Rules.{Yield, finding_type, finding}

pub data Protocol : Type 0 where
  tcp udp : Protocol

pub record IpPort : Type 0 where
  pub reference : String
  pub protocol : Protocol
  pub port : ℕ

pub record Config : Type 0 where
  pub aggregate_findings : Bool
  pub common_tcp_ports : Option (List ℕ)
  pub common_udp_ports : Option (List ℕ)
  pub sa_tcp_ports : Option (List ℕ)
  pub db_tcp_ports : Option (List ℕ)
  pub microsoft_rdp_ports : Option (List ℕ)

abbrev pub common_tcp : List ℕ
common_tcp = 25 ∷ 53 ∷ 80 ∷ 110 ∷ 143 ∷ 443 ∷ 465 ∷ 587 ∷ 993 ∷ 995 ∷ []

abbrev pub common_udp : List ℕ
common_udp = 53 ∷ []

abbrev pub sa_tcp : List ℕ
sa_tcp = 21 ∷ 22 ∷ 23 ∷ 5900 ∷ []

abbrev pub db_tcp : List ℕ
db_tcp = 1433 ∷ 1434 ∷ 3050 ∷ 3306 ∷ 5432 ∷ []

abbrev pub microsoft_rdp : List ℕ
microsoft_rdp = 3389 ∷ []

-- No configuration
abbrev pub no_config : Config
no_config = record {
  aggregate_findings = false;
  common_tcp_ports = none;
  common_udp_ports = none;
  sa_tcp_ports = none;
  db_tcp_ports = none;
  microsoft_rdp_ports = none;
}

abbrev pub get_ports_from_config : Option (List ℕ) → List ℕ → List ℕ
get_ports_from_config none default = default
get_ports_from_config (some ports) default = ports

abbrev pub is_tcp : Protocol → Bool
is_tcp tcp = true
is_tcp udp = false

abbrev pub is_among : ℕ → List ℕ → Bool
is_among port ports = any_of (λ p. port == p) ports

-- The type of the finding for one port, by the chain of tests in the loop
unfoldable pub classify : Config → IpPort → Option String
classify c p =
    if is_tcp p.protocol && is_among p.port (get_ports_from_config c.sa_tcp_ports sa_tcp)
    then some "KAT-OPEN-SYSADMIN-PORT"
    else if is_tcp p.protocol && is_among p.port (get_ports_from_config c.db_tcp_ports db_tcp)
    then some "KAT-OPEN-DATABASE-PORT"
    else if is_among p.port (get_ports_from_config c.microsoft_rdp_ports microsoft_rdp)
    then some "KAT-REMOTE-DESKTOP-PORT"
    else if is_tcp p.protocol
          && not (is_among p.port (get_ports_from_config c.common_tcp_ports common_tcp))
        || (not (is_tcp p.protocol)
            && not (is_among p.port (get_ports_from_config c.common_udp_ports common_udp)))
    then some "KAT-UNCOMMON-OPEN-PORT"
    else none

-- The loop over additional_oois: what it yields, and open_ports
unfoldable pub each_port : Config → List IpPort → List Yield × List ℕ
unfolding classify
each_port c [] = ([], [])
each_port c (p ∷ ps) =
    let (yields, open_ports) = each_port c ps in
    elim (classify c p) [
      | none ↦ (yields, open_ports)
      | some id ↦
          if c.aggregate_findings
          then (yields, p.port ∷ open_ports)
          else (finding_type id ∷ finding id p.reference (p.port ∷ []) ∷ yields, open_ports)
    ]

-- "KAT-UNCOMMON-OPEN-PORT" for all of them
unfoldable pub aggregate : String → List ℕ → List Yield
aggregate ip_address [] = []
aggregate ip_address (port ∷ ports) =
    finding_type "KAT-UNCOMMON-OPEN-PORT"
    ∷ finding "KAT-UNCOMMON-OPEN-PORT" ip_address (port ∷ ports)
    ∷ []

-- `run` of port_classification_ip, on an IP address and its ports
unfoldable pub port_classification_ip : String → List IpPort → Config → List Yield
unfolding each_port aggregate
port_classification_ip ip_address ps c =
    let (yields, open_ports) = each_port c ps in
    if c.aggregate_findings then yields ++ aggregate ip_address open_ports else yields
