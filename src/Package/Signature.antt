-- ===== src/Package/Signature.antt =====
-- The signature file of an archive: `signaturePayload`, what `packAgent` writes beside the archive,
-- `verifySignatureFile` and `verifySignatureFileStrict` of sdk/src/package.ts. The functions of
-- sdk/src/crypto.ts call node:crypto and are parameters; an archive is a text of type `String`.
use open_agent_hub.Prelude.{
  String, Bool, true, false, ◌≡◌, ◌≢◌, ◌↔◌, arith, refl, ◌||◌, not, if◌then◌else◌, [], ◌∷◌, ℕ, eqb,
  str_eq, eq_iff, eq_refl, concat, Result, ok, thrown, throw_if, ◌>>◌,
}

pub record SignatureFile : Type 0 where
  pub schema_version : ℕ
  pub algorithm : String
  pub public_key : String
  pub public_key_id : String
  pub sha256 : String
  pub name : String
  pub version : String
  pub signature : String

unfoldable pub signature_payload : String → String → String → String
signature_payload name version sha256 =
    concat ("openagenthub-signature-v1:" ∷ name ∷ "@" ∷ version ∷ ":" ∷ sha256 ∷ [])

-- sdk/src/crypto.ts
pub record Crypto : Type 0 where
  pub sha256_hex : String → String
  pub fingerprint : String → String
  pub public_of : String → String
  pub sign_payload : String → String → String
  pub verify_payload : String → String → String → Bool

-- What `packAgent` puts into the signature file of the archive that it made.
unfoldable pub sign_archive : Crypto → String → String → String → String → SignatureFile
sign_archive crypto name version archive private_key =
    let sha = crypto.sha256_hex archive in
    record {
      schema_version = 1;
      algorithm = "ed25519";
      public_key = if not (str_eq private_key "") then crypto.public_of private_key else "";
      public_key_id = crypto.fingerprint (crypto.public_of private_key);
      sha256 = sha;
      name = name;
      version = version;
      signature = crypto.sign_payload (signature_payload name version sha) private_key;
    }

unfoldable pub verify_signature_file : Crypto → SignatureFile → String → Bool
verify_signature_file crypto sig archive =
    if not (str_eq (crypto.sha256_hex archive) sig.sha256)
    then false
    else crypto.verify_payload (signature_payload sig.name sig.version sig.sha256) sig.signature
        sig.public_key

unfoldable pub verify_signature_file_strict : Crypto → SignatureFile → String → Result (Unit {0})
verify_signature_file_strict crypto sig archive =
    throw_if (not (eqb sig.schema_version 1) || not (str_eq sig.algorithm "ed25519"))
      "unsupported signature scheme"
    >> throw_if (not (str_eq (crypto.sha256_hex archive) sig.sha256))
        "checksum mismatch: archive does not match signature"
    >> throw_if
        (not (
          crypto.verify_payload (signature_payload sig.name sig.version sig.sha256) sig.signature
            sig.public_key))
        "ed25519 signature verification failed"
    >> throw_if (not (str_eq sig.public_key_id (crypto.fingerprint sig.public_key)))
        "public key fingerprint mismatch"

-- The strict check passes exactly for a signature file of the known scheme that the plain check
-- accepts and whose key has the fingerprint it names.
pub verify_signature_file_strict_iff :
    (crypto : Crypto) (sig : SignatureFile) (archive : String)
    → (verify_signature_file_strict crypto sig archive ≡ ok tt) ↔ (
        (sig.schema_version ≡ 1)
        × (sig.algorithm ≡ "ed25519")
        × (verify_signature_file crypto sig archive ≡ true)
        × (sig.public_key_id ≡ crypto.fingerprint sig.public_key))
unfolding verify_signature_file_strict verify_signature_file
verify_signature_file_strict_iff crypto sig archive = ground (
  arith,
  eq_iff sig.algorithm "ed25519",
  eq_iff sig.public_key_id (crypto.fingerprint sig.public_key),
)

-- Where a signature made with a private key verifies with its public key, the file that is written
-- beside an archive passes the strict check for that archive, for every private key that is given.
-- An archive with another checksum fails both checks.
pub sign_archive-verify :
    (crypto : Crypto) (name version archive private_key : String)
    → ((payload : String)
        → crypto.verify_payload payload
            (crypto.sign_payload payload private_key)
            (crypto.public_of private_key)
          ≡ true)
    → private_key ≢ ""
    → (verify_signature_file_strict crypto
          (sign_archive crypto name version archive private_key)
          archive
        ≡ ok tt)
      × ((other : String)
          → crypto.sha256_hex other ≢ crypto.sha256_hex archive
          → (verify_signature_file crypto
                (sign_archive crypto name version archive private_key)
                other
              ≡ false)
            × (verify_signature_file_strict crypto
                  (sign_archive crypto name version archive private_key)
                  other
                ≡ thrown "checksum mismatch: archive does not match signature"))
unfolding verify_signature_file_strict verify_signature_file sign_archive
sign_archive-verify crypto name version archive key verifies given =
    let named : str_eq key "" ≡ false = ground (arith, eq_iff key "") in
    (
      rw
          (
            named,
            eq_refl (crypto.sha256_hex archive),
            eq_refl (crypto.fingerprint (crypto.public_of key)),
            verifies (signature_payload name version (crypto.sha256_hex archive)),
          )
          refl,
      (λ other differ.
          let changed : str_eq (crypto.sha256_hex other) (crypto.sha256_hex archive) ≡ false =
            ground (arith, eq_iff (crypto.sha256_hex other) (crypto.sha256_hex archive)) in
          rw changed (refl, refl)),
    )
