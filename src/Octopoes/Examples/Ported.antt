-- ===== src/Octopoes/Examples/Ported.antt =====
-- A few open ports of an IP address.
use nl_kat_coordination.Prelude.{◌∷◌, [], true, false, not, ◌≡◌, refl}
use nl_kat_coordination.Octopoes.Rules.{named_ports}
use nl_kat_coordination.Octopoes.Rules.Ports.{
  Protocol, IpPort, no_config, port_classification_ip, each_port, classify,
}
use nl_kat_coordination.Octopoes.Rules.PortCommon.{port_common}
use nl_kat_coordination.Octopoes.Rules.Reported.{
  names, port_classification_ip-same_ports, port_common-port_classification_ip,
}

abbrev ssh : IpPort
ssh = record { reference = "IPPort|a|tcp|22"; protocol = Protocol.tcp; port = 22 }

abbrev https : IpPort
https = record { reference = "IPPort|a|tcp|443"; protocol = Protocol.tcp; port = 443 }

abbrev quic : IpPort
quic = record { reference = "IPPort|a|udp|443"; protocol = Protocol.udp; port = 443 }

named_test :
    named_ports (port_classification_ip "IPAddressV4|a" (ssh ∷ https ∷ quic ∷ []) no_config)
    ≡ 22 ∷ 443 ∷ []
unfolding named_ports port_classification_ip each_port classify
named_test = refl

port_classification_ip-same_ports_example :
    named_ports (
      port_classification_ip "IPAddressV4|a"
        (ssh ∷ https ∷ quic ∷ [])
        (record no_config { aggregate_findings = true }))
    ≡ named_ports (
        port_classification_ip "IPAddressV4|a"
          (ssh ∷ https ∷ quic ∷ [])
          (record no_config { aggregate_findings = false }))
port_classification_ip-same_ports_example =
    port_classification_ip-same_ports "IPAddressV4|a" (ssh ∷ https ∷ quic ∷ []) no_config

port_common-port_classification_ip_example :
    names 443 (port_common https)
    ≡ not (names 443 (port_classification_ip "IPAddressV4|a" (https ∷ []) no_config))
port_common-port_classification_ip_example =
    port_common-port_classification_ip "IPAddressV4|a" https
