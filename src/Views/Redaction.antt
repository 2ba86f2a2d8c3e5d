-- ===== src/Views/Redaction.antt =====
-- src/attestation-view.ts: what a caller that does not own an attestation cannot learn of it.
use xrplink.Store.{Attestation, ProofResponse}
use xrplink.Views.{
  McpContext, presented, caller_owns_attestation, attestation_view_for_caller,
  attestation_view_for_mcp, public_attestation_view, payment_from_proof,
}
use xrplink.Prelude.{
  String, ◌≡◌, refl, inl, inr, true, false, Option, none, some, List, [], ◌∷◌, arith, Option-cases,
  length,
}

-- Each node of a Merkle path is blanked.
abbrev pub blank : List String → List String
blank [] = []
blank (node ∷ path) = "" ∷ blank path

abbrev pub redact_proof : Option ProofResponse → Option ProofResponse
redact_proof none = none
redact_proof (some p) = some (record p { proof = blank p.proof })

-- The attestation without its Merkle path, its encoded request and its error.
abbrev pub redact : Attestation → Attestation
redact a = record a { proof = redact_proof a.proof; abi_encoded_request = none; error = none }

length-blank : (path : List String) → length (blank path) ≡ length path
length-blank [] = refl
length-blank (node ∷ path) = omega (arith, length-blank path)

module _ (sha256 utf8_of_hex : String → String) where
  public_view-redact :
      (a : Attestation)
      → public_attestation_view utf8_of_hex (redact a) ≡ public_attestation_view utf8_of_hex a
  unfolding public_attestation_view payment_from_proof
  public_view-redact a = elim (Option-cases a.proof) [
    | inl e ↦ ground (arith)
    | inr (p, e) ↦ ground (arith, length-blank p.proof)
  ]

  -- An HTTP caller whose key does not own the attestation, or that presents no key, is shown the same
  -- by the MCP server whether or not the Merkle path is blanked and the encoded request and the error
  -- are removed: the view tells nothing of them.
  pub attestation_view_for_mcp-redact :
      (ctx : McpContext) (a : Attestation)
      → ctx.http ≡ true
      → caller_owns_attestation sha256 a (presented ctx) ≡ false
      → attestation_view_for_mcp sha256 utf8_of_hex ctx (redact a)
        ≡ attestation_view_for_mcp sha256 utf8_of_hex ctx a
  unfolding attestation_view_for_mcp attestation_view_for_caller caller_owns_attestation
  attestation_view_for_mcp-redact ctx a http foreign = ground (arith, public_view-redact a)
