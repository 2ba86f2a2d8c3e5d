-- ===== src/Views.antt =====
-- src/attestation-view.ts: what a caller is shown of an attestation. The decoding of a memo from hex is
-- a parameter.
pub mod Redaction
use text.Mathlib.Text.{starts_with}
use Prim.Native.String.{slice, len}
use xrplink.Keys.{api_key_lookup_id}
use xrplink.Store.{Attestation, AttestationStatus, ApiKey, ProofResponse, ResponseBody}
use xrplink.Prelude.{
  ℕ, ◌+◌, String, ◌++◌, Bool, false, not, ◌&&◌, Option, none, some, ◌==◌, if◌then◌else◌, truthy,
  length,
}

pub record PaymentView : Type 0 where
  pub source_address : String
  pub received_amount : String
  pub status : String
  pub memo : Option String
  pub destination_tag : Option String

pub record ProofSummary : Type 0 where
  pub voting_round : String
  pub merkle_proof_length : ℕ

pub record PublicView : Type 0 where
  pub id : String
  pub tx_hash : String
  pub round_id : Option ℕ
  pub status : AttestationStatus
  pub verified_tx_hash : Option String
  pub created_at : ℕ
  pub payment : Option PaymentView
  pub proof : Option ProofSummary

pub record OwnerView : Type 0 where
  pub id : String
  pub tx_hash : String
  pub round_id : Option ℕ
  pub status : AttestationStatus
  pub proof : Option ProofResponse
  pub verified_tx_hash : Option String
  pub error : Option String

pub data View : Type 0 where
  for_public : PublicView → View
  for_owner : OwnerView → View

-- What the MCP server keeps of a request: whether it came by HTTP, and the key that it presents.
pub record McpContext : Type 0 where
  pub http : Bool
  pub api_key_record : Option ApiKey
  pub api_key : Option String

-- `ctx.apiKeyRecord?.key || ctx.apiKey`
abbrev pub presented : McpContext → Option String
presented ctx = elim (truthy (elim ctx.api_key_record [ none ↦ none | some r ↦ some r.key ])) [
  | some key ↦ some key
  | none ↦ ctx.api_key
]

unfoldable pub owner_attestation_view : Attestation → OwnerView
owner_attestation_view a = record {
  id = a.id;
  tx_hash = a.tx_hash;
  round_id = a.round_id;
  status = a.status;
  proof = a.proof;
  verified_tx_hash = a.verified_tx_hash;
  error = a.error;
}

module _ (sha256 : String → String) where
  unfoldable pub caller_owns_attestation : Attestation → Option String → Bool
  caller_owns_attestation a presented_key = elim (truthy presented_key) [
    | none ↦ false
    | some key ↦ elim (truthy a.owner_key_id) [
      | none ↦ false
      | some owner ↦ owner == api_key_lookup_id sha256 key
    ]
  ]

module _ (utf8_of_hex : String → String) where
  abbrev memo_text : ResponseBody → String
  memo_text rb =
      if starts_with rb.first_memo_data "0x"
      then utf8_of_hex (slice rb.first_memo_data 2 (len rb.first_memo_data))
      else ""

  unfoldable pub payment_from_proof : Attestation → Option PaymentView
  payment_from_proof a = elim a.proof [
    | none ↦ none
    | some p ↦
        let rb = p.response_body in
        some (record {
          source_address = rb.source_address;
          received_amount = rb.received_amount;
          status = if rb.status == "0" then "success" else "failed (" ++ (rb.status ++ ")");
          memo = if rb.has_memo_data then truthy (some (memo_text rb)) else none;
          destination_tag =
              if rb.has_destination_tag && not (rb.destination_tag == "0")
              then some rb.destination_tag
              else none;
        })
  ]

  unfoldable pub public_attestation_view : Attestation → PublicView
  public_attestation_view a = record {
    id = a.id;
    tx_hash = a.tx_hash;
    round_id = a.round_id;
    status = a.status;
    verified_tx_hash = a.verified_tx_hash;
    created_at = a.created_at;
    payment = payment_from_proof a;
    proof = elim a.proof [
      | none ↦ none
      | some p ↦
          some (record { voting_round = p.voting_round; merkle_proof_length = length p.proof })
    ];
  }

module _ (sha256 utf8_of_hex : String → String) where
  unfoldable pub attestation_view_for_caller : Attestation → Option String → View
  attestation_view_for_caller a presented_key =
      if caller_owns_attestation sha256 a presented_key
      then for_owner (owner_attestation_view a)
      else for_public (public_attestation_view utf8_of_hex a)

  unfoldable pub attestation_view_for_mcp : McpContext → Attestation → View
  attestation_view_for_mcp ctx a =
      if not ctx.http
      then for_owner (owner_attestation_view a)
      else attestation_view_for_caller a (presented ctx)
