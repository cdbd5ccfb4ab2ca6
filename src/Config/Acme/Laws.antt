-- ===== src/Config/Acme/Laws.antt =====
-- src/config/mod.rs: what a validated section `acme` guarantees to the certificate manager.
use edge_gateway.Prelude.{
  ◌*◌, ◌≤◌, ◌<◌, ◌≡◌, true, [], ok, arith, All, is_empty, Result-cases, inl, inr, is_some,
}
use edge_gateway.Prelude.Text.{Text}
use edge_gateway.Prelude.Text.Order.{IsUnique}
use edge_gateway.Config.Acme.{AcmeConfig, FileAcmeConfig, add_certificates, validate_acme, false}
use edge_gateway.Config.Acme.Domains.{
  IsCanonical, all_domains, all_ids, add_certificates-AreManaged, add_certificates-is_empty,
}

-- No id and no domain stands twice in all certificates; every domain is a host in the form in which
-- the route tables keep it; each certificate has a domain; where ACME is on there is an email and a
-- certificate; and the times are of at most 90 days and a week, and not zero.
pub record IsManageable (c : AcmeConfig) : Type 0 where
  pub unique_ids : IsUnique (all_ids c.certificates)
  pub unique_domains : IsUnique (all_domains c.certificates)
  pub canonical : All (λ a. All IsCanonical a.domains) c.certificates
  pub some_domain : All (λ a. is_empty a.domains ≡ false) c.certificates
  pub email_when_enabled : c.enabled ≡ true → is_some c.email ≡ true
  pub certificate_when_enabled : c.enabled ≡ true → is_empty c.certificates ≡ false
  pub renew_before : (0 < c.fallback_renew_before) × (c.fallback_renew_before ≤ 90 * 24 * 60 * 60)
  pub check_interval : (0 < c.check_interval) × (c.check_interval ≤ 7 * 24 * 60 * 60)

-- A section `acme` that is accepted is manageable.
pub validate_acme-IsManageable :
    (directory : Text) (f : FileAcmeConfig) (c : AcmeConfig)
    → validate_acme directory f ≡ ok c
    → IsManageable c
unfolding validate_acme
validate_acme-IsManageable directory f c h =
    elim (Result-cases (add_certificates 0 [] [] f.certificates)) [
      | inr (e, bad) ↦ absurd (ground arith)
      | inl (certificates, added) ↦
          let m = add_certificates-AreManaged 0 [] [] f.certificates certificates added in
          let same : c.certificates ≡ certificates = ground arith in
          record {
            unique_ids = rw same m.unique_ids;
            unique_domains = rw same m.unique_domains;
            canonical = rw same m.canonical;
            some_domain = rw same m.some_domain;
            email_when_enabled = λ on. ground arith;
            certificate_when_enabled = λ on.
                ground (
                  arith,
                  same,
                  add_certificates-is_empty 0 [] [] f.certificates certificates added,
                );
            renew_before = ground arith;
            check_interval = ground arith;
          }
    ]
