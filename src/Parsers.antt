-- ===== src/Parsers.antt =====
-- internal/infra/fetchers/sshparse and gpgparse: what is read off a public key. The hash, base64 and
-- OpenPGP are parameters.
pub mod Ssh
pub mod Gpg
