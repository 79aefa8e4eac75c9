-- ===== src/Identity/Plc.antt =====
-- internal/plc/plc.go: did:plc operations. DAG-CBOR, signing, SHA-256, base32, base64 and the PLC directory
-- are parameters; the URL and the bodies of the directory's requests are not modelled.
use Prim.Native.String.{◌++◌ as append_text, slice}
use robby.Prelude.{
  ℕ, String, Option, none, some, List, [], ◌∷◌, ◌==◌, string_eq, leb, Result, ok, from_option,
}
use robby.Prelude.Results.{◌>>=◌, ◌>>◌, refuse_if}
use robby.Identity.Json.{
  Fields, Json, null, text, array, object, no_field, field, texts, with_field,
}

pub data PlcError : Type 0 where
  not_encoded not_signed no_public_key unreachable undecodable no_operations missing_cid : PlcError
  rejected : ℕ → PlcError

-- cbornode.DumpObject, HashAndSign, the did:key of a private key's public key, base64.RawURLEncoding,
-- and the lower-case base32 text of a SHA-256 digest.
pub record Signing (K : Type 0) : Type 0 where
  pub dump : Fields → Option (List ℕ)
  pub hash_and_sign : K → List ℕ → Option (List ℕ)
  pub public_did_key : K → Option String
  pub base64_url : List ℕ → String
  pub digest_base32 : List ℕ → String

pub record OpFields : Type 0 where
  pub rotation_keys : List String
  pub verification_methods : Fields
  pub also_known_as : List String
  pub services : Fields

abbrev pub prev_value : Option String → Json
prev_value none = null
prev_value (some c) = text c

unfoldable pub unsigned_op : Option String → OpFields → Fields
unsigned_op prev fields = field "type" (text "plc_operation") (
    field "rotationKeys" (array (texts fields.rotation_keys)) (
      field "verificationMethods" (object fields.verification_methods) (
        field "alsoKnownAs" (array (texts fields.also_known_as))
          (field "services" (object fields.services) (field "prev" (prev_value prev) no_field)))))

-- One entry of the directory's audit log.
pub record AuditLogEntry : Type 0 where
  pub cid : String
  pub operation : Fields

-- The PLC directory: the status that a POST of an operation gets, and the status and the decoded body of
-- a GET of the audit log. `none` is a failed request, or a body that does not decode.
pub record Directory : Type 0 where
  pub post : String → Fields → Option ℕ
  pub get_log : String → Option (ℕ × Option (List AuditLogEntry))

unfoldable pub submit : Directory → String → Fields → Result PlcError (Unit {0})
submit dir did op = do
  status ← from_option (dir.post did op) unreachable
  refuse_if (leb 300 status) (rejected status)

unfoldable pub last_entry : List AuditLogEntry → Option AuditLogEntry
last_entry [] = none
last_entry (e ∷ []) = some e
last_entry (e ∷ e' ∷ es) = last_entry (e' ∷ es)

unfoldable pub get_last_op : Directory → String → Result PlcError (String × Fields)
unfolding last_entry
get_last_op dir did = do
  answer ← from_option (dir.get_log did) unreachable
  refuse_if (leb 300 (answer.0)) (rejected (answer.0))
  entries ← from_option (answer.1) undecodable
  last ← from_option (last_entry entries) no_operations
  refuse_if (last.cid == "") missing_cid
  ok (last.cid, last.operation)

module _ {K : Type 0} (signing : Signing K) where
  unfoldable pub sign_op : K → Option String → OpFields → Result PlcError Fields
  sign_op rotation_key prev fields = do
    unsigned_bytes ← from_option (signing.dump (unsigned_op prev fields)) not_encoded
    sig ← from_option (signing.hash_and_sign rotation_key unsigned_bytes) not_signed
    ok (with_field (unsigned_op prev fields) "sig" (text (signing.base64_url sig)))

  unfoldable pub did_from_op : List ℕ → String
  did_from_op signed_cbor = append_text "did:plc:" (slice (signing.digest_base32 signed_cbor) 0 24)

  -- `signing_key` is the did:key of the account's public signing key.
  abbrev pub genesis_fields : String → String → String → String → OpFields
  genesis_fields rotation_pub signing_key handle pds_url = record {
    rotation_keys = rotation_pub ∷ [];
    verification_methods = field "atproto" (text signing_key) no_field;
    also_known_as = append_text "at://" handle ∷ [];
    services =
        field "atproto_pds"
          (object (
            field "type" (text "AtprotoPersonalDataServer")
              (field "endpoint" (text pds_url) no_field)))
          no_field;
  }

  unfoldable pub genesis : K → String → String → String → Result PlcError (String × Fields)
  genesis rotation_key signing_key handle pds_url = do
    rotation_pub ← from_option (signing.public_did_key rotation_key) no_public_key
    signed_op ← sign_op rotation_key none (genesis_fields rotation_pub signing_key handle pds_url)
    signed_bytes ← from_option (signing.dump signed_op) not_encoded
    ok (did_from_op signed_bytes, signed_op)
