-- ===== src/Octopoes/Rules/Reported.antt =====
-- Which ports the rules about ports report.
use nl_kat_coordination.Prelude.{
  ℕ, String, List, [], ◌∷◌, ◌++◌, Bool, true, false, not, ◌≡◌, refl, ap, sym, ◌∙◌, arith, inl, inr,
  Option-cases, is_some, if◌then◌else◌,
}
use nl_kat_coordination.Octopoes.Rules.{Yield, named_ports}
use nl_kat_coordination.Octopoes.Rules.PortCommon.{port_common}
use nl_kat_coordination.Octopoes.Rules.Ports.{
  IpPort, Config, no_config, classify, each_port, aggregate, port_classification_ip, is_among,
}

-- The ports that a configuration makes reportable, in their order
unfoldable pub reportable : Config → List IpPort → List ℕ
reportable c [] = []
reportable c (p ∷ ps) =
    let rest = reportable c ps in if is_some (classify c p) then p.port ∷ rest else rest

separate_ports :
    (c : Config) (ps : List IpPort)
    → c.aggregate_findings ≡ false
    → named_ports (each_port c ps).0 ≡ reportable c ps
unfolding each_port named_ports reportable
separate_ports c [] h = refl
separate_ports c (p ∷ ps) h = elim (Option-cases (classify c p)) [
  | inl n ↦ rw (each_port, n) (separate_ports c ps h)
  | inr (id, n) ↦ rw (each_port, n, h) (ap (λ z. p.port ∷ z) (separate_ports c ps h))
]

aggregated_ports :
    (c : Config) (ps : List IpPort)
    → c.aggregate_findings ≡ true
    → each_port c ps ≡ ([], reportable c ps)
unfolding each_port reportable
aggregated_ports c [] h = refl
aggregated_ports c (p ∷ ps) h = elim (Option-cases (classify c p)) [
  | inl n ↦ rw (each_port, n, aggregated_ports c ps h) refl
  | inr (id, n) ↦ rw (each_port, n, h, aggregated_ports c ps h) refl
]

named_ports-aggregate :
    (ip_address : String) (ports : List ℕ) → named_ports (aggregate ip_address ports) ≡ ports
unfolding aggregate named_ports
named_ports-aggregate ip_address [] = refl
named_ports-aggregate ip_address (port ∷ ports) = ap (λ z. port ∷ z) (append_nil ports)
  where
    append_nil : (xs : List ℕ) → xs ++ [] ≡ xs
    append_nil [] = refl
    append_nil (x ∷ xs) = ap (λ z. x ∷ z) (append_nil xs)

abbrev aggregating : Config → Config
aggregating c = record c { aggregate_findings = true }

abbrev separating : Config → Config
separating c = record c { aggregate_findings = false }

same_reportable :
    (c : Config) (ps : List IpPort) → reportable (aggregating c) ps ≡ reportable (separating c) ps
unfolding reportable classify
same_reportable c [] = refl
same_reportable c (p ∷ ps) = rw (same_reportable c ps) refl

-- With aggregated findings and without them, port_classification_ip names the same ports in the same
-- order, whatever the configuration.
pub port_classification_ip-same_ports :
    (ip_address : String) (ps : List IpPort) (c : Config)
    → named_ports (port_classification_ip ip_address ps (record c { aggregate_findings = true }))
      ≡ named_ports (port_classification_ip ip_address ps (record c { aggregate_findings = false }))
unfolding port_classification_ip
port_classification_ip-same_ports ip_address ps c =
    rw (aggregated_ports (aggregating c) ps refl)
      (named_ports-aggregate ip_address (reportable (aggregating c) ps))
    ∙ same_reportable c ps
    ∙ sym (separate_ports (separating c) ps refl)

abbrev pub names : ℕ → List Yield → Bool
names port ys = is_among port (named_ports ys)

-- Without a configuration, each port is named by exactly one of the two rules port_common and
-- port_classification_ip.
pub port_common-port_classification_ip :
    (ip_address : String) (p : IpPort)
    → names p.port (port_common p)
      ≡ not (names p.port (port_classification_ip ip_address (p ∷ []) no_config))
unfolding port_common port_classification_ip each_port classify names named_ports
port_common-port_classification_ip ip_address p = ground (arith, p.protocol)
