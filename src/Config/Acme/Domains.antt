-- ===== src/Config/Acme/Domains.antt =====
-- src/config/mod.rs: the domains that the loops of the section `acme` collect.
use edge_gateway.Prelude.{
  ℕ, ◌+◌, ◌≡◌, refl, true, false, ◌||◌, List, [], ◌∷◌, ◌++◌, map, ok, Result-cases, inl, inr, All,
  is_empty, contains, ==_iff, nat_eq, list_eq, arith, length-pos_iff, ◌∙◌,
}
use edge_gateway.Prelude.Text.{Text, to_lower}
use edge_gateway.Prelude.Text.Trim.{trim}
use edge_gateway.Prelude.Text.Order.{
  sort, IsUnique, contains-sort, sort-IsUnique, contains-append, append-IsUnique, insert_sorted,
}
use edge_gateway.Net.Endpoint.{trim_end}
use edge_gateway.Routing.{normalize_dns_host, label_refused}
use edge_gateway.Routing.Names.{IsLabel, IsDnsName, label_refused-IsLabel}
use edge_gateway.Routing.Canonical.{lower-canonical}
use edge_gateway.Config.Acme.{
  AcmeCertificateConfig, FileAcmeCertificateConfig, check_domain_labels, normalize_domain,
  add_domains, add_certificates,
}

-- A host as the route tables know it.
abbrev pub IsCanonical : Text → Type 0
IsCanonical domain = normalize_dns_host domain ≡ ok domain

check_domain_labels-IsLabel : (ls : List Text) → check_domain_labels ls ≡ ok tt → All IsLabel ls
unfolding check_domain_labels label_refused
check_domain_labels-IsLabel [] h = tt
check_domain_labels-IsLabel (l ∷ ls) h =
    let kept : label_refused l ≡ false = ground arith in
    ((label_refused-IsLabel l).0 kept, check_domain_labels-IsLabel ls (ground arith))

pub normalize_domain-IsCanonical : (v n : Text) → normalize_domain v ≡ ok n → IsCanonical n
unfolding normalize_domain
normalize_domain-IsCanonical v n h =
    let name = trim_end b'.' (trim v) in
    let same : n ≡ map to_lower name = ground arith in
    let valid : IsDnsName n = record {
      some_byte = (length-pos_iff n).0 (ground arith);
      bounded = ground arith;
      not_ip = ground arith;
      labels = check_domain_labels-IsLabel _ (ground arith);
    } in
    (lower-canonical n name valid same).1

module _ (index : ℕ) (id : Text) where
  -- What the loop over one certificate adds: new canonical names, each once.
  pub record Added (managed added managed' : List Text) : Type 0 where
    pub unique : IsUnique added
    pub fresh : All (λ d. contains d managed ≡ false) added
    pub canonical : All IsCanonical added
    pub known : (k : Text) → contains k managed' ≡ (contains k added || contains k managed)

  apart-cons :
      (d : Text) (managed added : List Text)
      → All (λ x. contains x (d ∷ managed) ≡ false) added
      → (contains d added ≡ false) × All (λ x. contains x managed ≡ false) added
  apart-cons d managed [] h = (refl, tt)
  apart-cons d managed (x ∷ added) h =
      ground (arith, apart-cons d managed added h.1, ==_iff d x, ==_iff x d)

  pub add_domains-Added :
      (local managed raws added managed' : List Text)
      → add_domains index id local managed raws ≡ ok (added, managed')
      → Added managed added managed'
  unfolding add_domains
  add_domains-Added local managed [] added managed' h =
      let none_added : added ≡ [] = ground arith in
      let same : managed' ≡ managed = ground arith in
      rw (none_added, same) (record { unique = tt; fresh = tt; canonical = tt; known = λ k. refl })
  add_domains-Added local managed (raw ∷ raws) added managed' h =
      elim (Result-cases (normalize_domain raw)) [
        | inr (e, bad) ↦ absurd (ground arith)
        | inl (d, named) ↦
            elim (Result-cases (add_domains index id (d ∷ local) (d ∷ managed) raws)) [
              | inr (e, bad) ↦ absurd (ground arith)
              | inl ((more, all_known), rest) ↦
                  let ih = add_domains-Added (d ∷ local) (d ∷ managed) raws more all_known rest in
                  let apart = apart-cons d managed more ih.fresh in
                  let list_is : added ≡ d ∷ more = ground arith in
                  let known_is : managed' ≡ all_known = ground arith in
                  let new : contains d managed ≡ false = ground arith in
                  rw (list_is, known_is)
                    (record {
                      unique = (apart.0, ih.unique);
                      fresh = (new, apart.1);
                      canonical = (normalize_domain-IsCanonical raw d named, ih.canonical);
                      known = λ k. ground (arith, ih.known k);
                    })
            ]
      ]

-- All domains, in the order of the certificates.
abbrev pub all_domains : List AcmeCertificateConfig → List Text
all_domains [] = []
all_domains (c ∷ cs) = c.domains ++ all_domains cs

abbrev pub all_ids : List AcmeCertificateConfig → List Text
all_ids = map (λ c. c.id)

-- No certificate stands twice, no domain does, each domain is canonical and each certificate has one.
pub record AreManaged (ids managed : List Text) (cs : List AcmeCertificateConfig) : Type 0 where
  pub unique_ids : IsUnique (all_ids cs)
  pub new_ids : (k : Text) → contains k (all_ids cs) ≡ true → contains k ids ≡ false
  pub unique_domains : IsUnique (all_domains cs)
  pub new_domains : (k : Text) → contains k (all_domains cs) ≡ true → contains k managed ≡ false
  pub canonical : All (λ c. All IsCanonical c.domains) cs
  pub some_domain : All (λ c. is_empty c.domains ≡ false) cs

All-insert :
    (P : Text → Type 0) (t : Text) (ss : List Text) → P t → All P ss → All P (insert_sorted t ss)
unfolding insert_sorted
All-insert P t [] p h = (p, tt)
All-insert P t (s ∷ ss) p h = ground (arith, All-insert P t ss p h.1)

All-sort : (P : Text → Type 0) (ts : List Text) → All P ts → All P (sort ts)
unfolding sort
All-sort P [] h = tt
All-sort P (t ∷ ts) h = All-insert P t (sort ts) h.0 (All-sort P ts h.1)

All-contains :
    (managed xs : List Text) (k : Text)
    → All (λ d. contains d managed ≡ false) xs
    → contains k xs ≡ true
    → contains k managed ≡ false
All-contains managed [] k h c = cc
All-contains managed (x ∷ xs) k h c = ground (arith, ==_iff x k, All-contains managed xs k h.1)

is_empty-insert_sorted : (t : Text) (ss : List Text) → is_empty (insert_sorted t ss) ≡ false
unfolding insert_sorted
is_empty-insert_sorted t [] = refl
is_empty-insert_sorted t (s ∷ ss) = ground arith

is_empty-sort : (ts : List Text) → is_empty (sort ts) ≡ is_empty ts
unfolding sort
is_empty-sort [] = refl
is_empty-sort (t ∷ ts) = is_empty-insert_sorted t (sort ts)

add_domains-is_empty :
    (index : ℕ) (id : Text) (local managed raws added managed' : List Text)
    → add_domains index id local managed raws ≡ ok (added, managed')
    → is_empty added ≡ is_empty raws
unfolding add_domains
add_domains-is_empty index id local managed [] added managed' h = ground arith
add_domains-is_empty index id local managed (raw ∷ raws) added managed' h = ground arith

AreManaged-cons :
    (index : ℕ) (id : Text) (ids managed added known : List Text)
    (rest : List AcmeCertificateConfig)
    → contains id ids ≡ false
    → is_empty added ≡ false
    → Added index id managed added known
    → AreManaged (id ∷ ids) known rest
    → AreManaged ids managed (record { id = id; domains = sort added } ∷ rest)
AreManaged-cons index id ids managed added known rest new full a r = record {
  unique_ids = (ground (arith, r.new_ids id, ==_iff id id), r.unique_ids);
  new_ids = λ k g. ground (arith, r.new_ids k, ==_iff id k);
  unique_domains =
      append-IsUnique (sort added) (all_domains rest) (sort-IsUnique added a.unique)
        r.unique_domains (λ k g. ground (arith, r.new_domains k, a.known k, contains-sort k added));
  new_domains = λ k g. ground (
    arith,
    contains-append k (sort added) (all_domains rest),
    contains-sort k added,
    All-contains managed added k a.fresh,
    r.new_domains k,
    a.known k,
  );
  canonical = (All-sort IsCanonical added a.canonical, r.canonical);
  some_domain = (is_empty-sort added ∙ full, r.some_domain);
}

pub add_certificates-AreManaged :
    (index : ℕ) (ids managed : List Text) (files : List FileAcmeCertificateConfig)
    (cs : List AcmeCertificateConfig)
    → add_certificates index ids managed files ≡ ok cs
    → AreManaged ids managed cs
unfolding add_certificates
add_certificates-AreManaged index ids managed [] cs h =
    let nothing : cs ≡ [] = ground arith in
    rw nothing (record {
      unique_ids = tt;
      new_ids = λ k g. cc;
      unique_domains = tt;
      new_domains = λ k g. cc;
      canonical = tt;
      some_domain = tt;
    })
add_certificates-AreManaged index ids managed (f ∷ files) cs h =
    elim (Result-cases (add_domains index f.id [] managed f.domains)) [
      | inr (e, bad) ↦ absurd (ground arith)
      | inl ((added, known), done) ↦
          elim (Result-cases (add_certificates (index + 1) (f.id ∷ ids) known files)) [
            | inr (e, bad) ↦ absurd (ground arith)
            | inl (rest, more) ↦
                let list_is : cs ≡ record { id = f.id; domains = sort added } ∷ rest =
                  ground arith in
                let new : contains f.id ids ≡ false = ground arith in
                let full : is_empty f.domains ≡ false = ground arith in
                let kept = add_domains-is_empty index f.id [] managed f.domains added known done in
                rw list_is (
                  AreManaged-cons index f.id ids managed added known rest new (kept ∙ full)
                    (add_domains-Added index f.id [] managed f.domains added known done)
                    (add_certificates-AreManaged (index + 1) (f.id ∷ ids) known files rest more))
          ]
    ]

pub add_certificates-is_empty :
    (index : ℕ) (ids managed : List Text) (files : List FileAcmeCertificateConfig)
    (cs : List AcmeCertificateConfig)
    → add_certificates index ids managed files ≡ ok cs
    → is_empty cs ≡ is_empty files
unfolding add_certificates
add_certificates-is_empty index ids managed [] cs h = ground arith
add_certificates-is_empty index ids managed (f ∷ files) cs h = ground arith
