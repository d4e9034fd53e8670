-- ===== src/Octopoes/Rules/PortCommon.antt =====
-- octopoes/bits/port_common/port_common.py
use nl_kat_coordination.Prelude.{ℕ, List, [], ◌∷◌, ◌&&◌, ◌||◌, not, if◌then◌else◌}
use nl_kat_coordination.Octopoes.Rules.{Yield, finding_type, finding}
use nl_kat_coordination.Octopoes.Rules.Ports.{IpPort, is_tcp, is_among}

abbrev common_tcp : List ℕ
common_tcp = 25 ∷ 53 ∷ 80 ∷ 110 ∷ 143 ∷ 443 ∷ 465 ∷ 587 ∷ 993 ∷ 995 ∷ []

abbrev common_udp : List ℕ
common_udp = 53 ∷ []

-- `run` of port_common
unfoldable pub port_common : IpPort → List Yield
port_common p =
    if is_tcp p.protocol && is_among p.port common_tcp
      || (not (is_tcp p.protocol) && is_among p.port common_udp)
    then finding_type "KAT-OPEN-COMMON-PORT"
      ∷ finding "KAT-OPEN-COMMON-PORT" p.reference (p.port ∷ [])
      ∷ []
    else []
