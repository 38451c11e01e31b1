-- ===== src/Findings/Names.antt =====
-- The texts of the enumerations (backend/api/models.py), which a query compares with.
use sih.Prelude.{String}
use sih.Model.Enums.{
  Family, rsa, dsa, dh, ecdh, ecdsa, ed25519, x25519, aes, chacha20, three_des, des, rc4, blowfish,
  md5, sha_1, sha_2, sha_3, hmac, ml_kem, ml_dsa, slh_dsa, RiskBand, critical, high, medium, low,
  Surface, source, binary, certificate, config, image, manifest, hardware_hsm, FindingSource, ast,
  ast_reference, ast_protocol_string, source_constant, binary_symbol, binary_constant, binary_oid,
  x509_parser, pem_parser, ssh_key_parser, config_parser, from_manifest,
}

unfoldable pub family_name : Family → String
family_name rsa = "RSA"
family_name dsa = "DSA"
family_name dh = "DH"
family_name ecdh = "ECDH"
family_name ecdsa = "ECDSA"
family_name ed25519 = "Ed25519"
family_name x25519 = "X25519"
family_name aes = "AES"
family_name chacha20 = "ChaCha20"
family_name three_des = "3DES"
family_name des = "DES"
family_name rc4 = "RC4"
family_name blowfish = "Blowfish"
family_name md5 = "MD5"
family_name sha_1 = "SHA-1"
family_name sha_2 = "SHA-2"
family_name sha_3 = "SHA-3"
family_name hmac = "HMAC"
family_name ml_kem = "ML-KEM"
family_name ml_dsa = "ML-DSA"
family_name slh_dsa = "SLH-DSA"

unfoldable pub band_name : RiskBand → String
band_name critical = "critical"
band_name high = "high"
band_name medium = "medium"
band_name low = "low"

unfoldable pub surface_name : Surface → String
surface_name source = "source"
surface_name binary = "binary"
surface_name certificate = "certificate"
surface_name config = "config"
surface_name image = "image"
surface_name manifest = "manifest"
surface_name hardware_hsm = "hardware-hsm"

unfoldable pub source_name : FindingSource → String
source_name ast = "ast"
source_name ast_reference = "ast-reference"
source_name ast_protocol_string = "ast-protocol-string"
source_name source_constant = "source-constant"
source_name binary_symbol = "binary-symbol"
source_name binary_constant = "binary-constant"
source_name binary_oid = "binary-oid"
source_name x509_parser = "x509-parser"
source_name pem_parser = "pem-parser"
source_name ssh_key_parser = "ssh-key-parser"
source_name config_parser = "config-parser"
source_name from_manifest = "manifest"
