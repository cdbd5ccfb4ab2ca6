-- ===== src/Config/Tls/Laws.antt =====
-- src/config/mod.rs: the files of a certificate and of a key never meet.
use edge_gateway.Prelude.{
  ◌≡◌, ◌≢◌, ◌∙◌, sym, refl, inl, inr, Bool-cases, false, ◌++◌, ◌∷◌, [], ok, arith, is_empty, ◌||◌,
}
use edge_gateway.Prelude.Text.{Text, ends_with_byte}
use edge_gateway.Prelude.Text.Suffix.{ends_with, suffixes_overlap}
use edge_gateway.Proxy.Config.{join, is_absolute}
use edge_gateway.Config.Tls.{TlsConfig, FileTlsConfig, validate_tls, cert_path, key_path}

append_assoc : (a b c : Text) → (a ++ b) ++ c ≡ a ++ (b ++ c)
append_assoc [] b c = refl
append_assoc (x ∷ a) b c = rw (append_assoc a b c) refl

-- A joined path ends like its second part.
join-append :
    (directory name suffix : Text)
    → (front : Text) × (join directory (name ++ suffix) ≡ front ++ suffix)
unfolding join
join-append directory name suffix = elim (Bool-cases (is_absolute (name ++ suffix))) [
  | inl whole ↦ (name, rw whole refl)
  | inr below ↦ elim (Bool-cases (is_empty directory || ends_with_byte directory b'/')) [
    | inl slash ↦ (directory ++ name, rw (below, slash) (sym (append_assoc directory name suffix)))
    | inr none ↦ (
      directory ++ (b'/' ∷ name),
      rw (below, none) (sym (append_assoc directory (b'/' ∷ name) suffix)),
    )
  ]
]

pub validated_suffixes :
    (directory : Text) (f : FileTlsConfig) (c : TlsConfig)
    → validate_tls directory f ≡ ok c
    → (ends_with c.cert_suffix c.key_suffix ≡ false)
      × (ends_with c.key_suffix c.cert_suffix ≡ false)
unfolding validate_tls
validated_suffixes directory f c h = ground arith

-- Under a section that is accepted, the file of a certificate is never the file of a private key,
-- whatever their ids.
pub cert_path-key_path :
    (directory : Text) (f : FileTlsConfig) (c : TlsConfig) (id other : Text)
    → validate_tls directory f ≡ ok c
    → cert_path c id ≢ key_path c other
unfolding cert_path key_path
cert_path-key_path directory f c id other h same =
    let cert = join-append c.cert_dir id c.cert_suffix in
    let key = join-append c.cert_dir other c.key_suffix in
    let apart = validated_suffixes directory f c h in
    elim (suffixes_overlap cert.0 key.0 c.cert_suffix c.key_suffix (sym cert.1 ∙ same ∙ key.1)) [
      | inl one ↦ cc
      | inr two ↦ cc
    ]
