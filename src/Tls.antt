-- ===== src/Tls.antt =====
-- src/tls.rs: the certificate and the key of the TLS server. The PEM readers and the check of rustls
-- that a key fits a certificate chain are parameters; the readers give an item or an error for each
-- section of the kind asked for, in the file's order. What the files hold is the argument
-- `open_file`, which may be another at each load, but does not change within one.
pub mod Keys
mod Tests
use oxi_gate.Base.{
  Text, codes, Bool, true, false, Option, none, some, List, [], ◌∷◌, Result, ok, err, ◌>>=◌, ok_or,
  collect,
}

pub data TlsError : Type 0 where
  no_file bad_certificate bad_key no_key refused : TlsError

-- `certs(..).collect()`, and `iter.next().transpose()?`.
abbrev pub item {ℓ} : {A : Type ℓ} → TlsError → Option A → Result TlsError A
item e none = err e
item e (some a) = ok a

abbrev pub first {ℓ} : {A : Type ℓ} → List (Option A) → Result TlsError (Option A)
first [] = ok none
first (none ∷ rest) = err bad_key
first (some a ∷ rest) = ok (some a)

pub record Pem : Type 1 where
  pub File : Type 0
  pub Cert : Type 0
  pub Key : Type 0
  pub certs : File → List (Option Cert)
  pub pkcs8_private_keys : File → List (Option Key)
  pub rsa_private_keys : File → List (Option Key)
  pub fits : List Cert → Key → Bool

module _ (P : Pem) where
  open P use {File, Cert, Key, certs, pkcs8_private_keys, rsa_private_keys, fits}

  pub record ServerConfig : Type 0 where
    pub cert_chain : List Cert
    pub key : Key
    pub alpn_protocols : List Text

  unfoldable pub with_single_cert : List Cert → Key → Result TlsError ServerConfig
  with_single_cert cert_chain key = elim (fits cert_chain key) [
    | false ↦ err refused
    | true ↦ ok (record {
      cert_chain = cert_chain;
      key = key;
      alpn_protocols = codes "h2" ∷ codes "http/1.1" ∷ [];
    })
  ]

  module _ (open_file : Text → Option File) where
    -- The key file is opened again for the RSA keys.
    unfoldable pub rsa_key : Text → Result TlsError Key
    rsa_key key_path = do
      key_file ← ok_or (open_file key_path) no_file
      rsa ← first (rsa_private_keys key_file)
      ok_or rsa no_key

    unfoldable pub private_key : Text → File → Result TlsError Key
    unfolding rsa_key
    private_key key_path key_file = do
      pkcs8 ← first (pkcs8_private_keys key_file)
      elim pkcs8 [ some key ↦ ok key | none ↦ rsa_key key_path ]

    unfoldable pub load_server_config : Text → Text → Result TlsError ServerConfig
    unfolding private_key with_single_cert
    load_server_config cert_path key_path = do
      cert_file ← ok_or (open_file cert_path) no_file
      cert_chain ← collect (item bad_certificate) (certs cert_file)
      key_file ← ok_or (open_file key_path) no_file
      key ← private_key key_path key_file
      with_single_cert cert_chain key
