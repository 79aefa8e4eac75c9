-- ===== src/Identity/Operation.antt =====
-- internal/plc/plc.go: the operation that SignOp gives, field by field.
use robby.Prelude.{
  String, ◌≡◌, ◌⊎◌, refl, sym, none, some, List, inl, inr, arith, ok, Option-cases, ok_injective, ℕ,
}
use robby.Identity.Json.{
  Json, Fields, text, array, object, field, no_field, texts, lookup, value_or_nil, with_field,
  pick_string_slice, pick_map, to_string_slice, to_map,
}
use robby.Identity.Plc.{PlcError, Signing, OpFields, sign_op, unsigned_op}

-- A did:plc operation after the one with the CID `prev`; `rest` is its last fields.
abbrev pub operation : String → OpFields → Fields → Fields
operation prev fields rest = field "type" (text "plc_operation") (
    field "rotationKeys" (array (texts fields.rotation_keys)) (
      field "verificationMethods" (object fields.verification_methods) (
        field "alsoKnownAs" (array (texts fields.also_known_as))
          (field "services" (object fields.services) (field "prev" (text prev) rest)))))

-- The signature is by the key, over the encoding of the operation without it.
pub record IsOperation {K : Type 0} (signing : Signing K) (key : K) (prev : String)
    (fields : OpFields) (signed : Fields) : Type 0 where
  pub bytes : List ℕ
  pub encoded : signing.dump (operation prev fields no_field) ≡ some bytes
  pub sig : List ℕ
  pub signature : signing.hash_and_sign key bytes ≡ some sig
  pub complete :
      signed ≡ operation prev fields (field "sig" (text (signing.base64_url sig)) no_field)

pub sign_op-IsOperation :
    {K : Type 0} (signing : Signing K) (key : K) (prev : String) (fields : OpFields)
    (signed : Fields)
    → sign_op signing key (some prev) fields ≡ ok signed
    → IsOperation signing key prev fields signed
unfolding sign_op unsigned_op with_field
sign_op-IsOperation signing key prev fields signed h =
    elim (Option-cases (signing.dump (operation prev fields no_field))) [
      | inl e ↦ absurd (ground (arith, h, e))
      | inr (bytes, e) ↦ elim (Option-cases (signing.hash_and_sign key bytes)) [
        | inl e' ↦ absurd (ground (arith, h, e, e'))
        | inr (sig, e') ↦ record {
          bytes = bytes;
          encoded = e;
          sig = sig;
          signature = e';
          complete = sym (ok_injective {E = PlcError} _ signed (ground (arith, h, e, e')));
        }
      ]
    ]

-- The value of a key: what the input says, and what the last operation says where it says nothing.
abbrev pub IsChosen : Fields → Fields → String → Json → Type 0
IsChosen input last key v =
    (lookup key input ≡ some v) ⊎ ((lookup key input ≡ none) × (value_or_nil (lookup key last) ≡ v))

pub strings-IsChosen :
    (input last : Fields) (key : String)
    → (v : Json) × IsChosen input last key v
      × (pick_string_slice input key (value_or_nil (lookup key last)) ≡ to_string_slice v)
unfolding pick_string_slice
strings-IsChosen input last key = elim (Option-cases (lookup key input)) [
  | inl e ↦ rw e (value_or_nil (lookup key last), inr (refl, refl), refl)
  | inr (v, e) ↦ rw e (v, inl refl, refl)
]

pub map-IsChosen :
    (input last : Fields) (key : String)
    → (v : Json) × IsChosen input last key v
      × (pick_map input key (value_or_nil (lookup key last)) ≡ to_map v)
unfolding pick_map
map-IsChosen input last key = elim (Option-cases (lookup key input)) [
  | inl e ↦ rw e (value_or_nil (lookup key last), inr (refl, refl), refl)
  | inr (v, e) ↦ rw e (v, inl refl, refl)
]
