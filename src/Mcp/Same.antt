-- ===== src/Mcp/Same.antt =====
-- src/mcp/tools.ts beside src/routes.ts: what a client sees by MCP is what it sees by HTTP.
use xrplink.Prelude.Text.{strip_0x, upper}
use xrplink.Store.{Store, ApiKey, Attestation}
use xrplink.Store.Attestations.{get_attestation, get_by_tx_hash}
use xrplink.Attest.Flow.{is_hex_tx_hash}
use xrplink.Views.{presented, View, attestation_view_for_mcp, attestation_view_for_caller}
use xrplink.Routes.{Answer, answer, refusal, invalid_url, failed, get_status, get_status_by_tx}
use xrplink.Mcp.{
  McpRequestContext, ToolResult, tool_ok, handle_get_attestation_status, handle_lookup_by_tx,
}
use xrplink.Prelude.{
  String, ◌≡◌, refl, ◌≢◌, inl, inr, true, Option, none, some, arith, Option-cases, truthy_of_ne,
}

-- The view in an answer of either kind.
abbrev pub seen : Answer View → Option View
seen (answer status v) = some v
seen (refusal status r) = none
seen (invalid_url e) = none
seen (failed m) = none

abbrev pub told : ToolResult View → Option View
told (tool_ok v) = some v
told r = none

module _ (sha256 utf8_of_hex : String → String) where
  presented_key :
      (ctx : McpRequestContext) (k : ApiKey)
      → ctx.api_key_record ≡ some k
      → k.key ≢ ""
      → presented ctx.auth ≡ some k.key
  presented_key ctx k present named = ground (arith, truthy_of_ne k.key named)

  view_of_key :
      (ctx : McpRequestContext) (k : ApiKey) (a : Attestation)
      → ctx.http ≡ true
      → ctx.api_key_record ≡ some k
      → k.key ≢ ""
      → attestation_view_for_mcp sha256 utf8_of_hex ctx.auth a
        ≡ attestation_view_for_caller sha256 utf8_of_hex a (some k.key)
  unfolding attestation_view_for_mcp
  view_of_key ctx k a http present named =
      rw (http, presented_key ctx k present named, attestation_view_for_mcp) refl

  -- A client with an API key that calls the tools over HTTP is shown of an attestation, by its id or by
  -- its transaction, given as a hash, what the status routes show to that key, and nothing where they
  -- show nothing.
  pub handle_lookup_by_tx-eq-get_status_by_tx :
      (ctx : McpRequestContext) (k : ApiKey) (id argument : String) (s : Store)
      → ctx.http ≡ true
      → ctx.api_key_record ≡ some k
      → k.key ≢ ""
      → is_hex_tx_hash (upper (strip_0x argument)) ≡ true
      → (told (handle_get_attestation_status sha256 utf8_of_hex ctx id s)
          ≡ seen (get_status sha256 utf8_of_hex id k s))
        × (told (handle_lookup_by_tx sha256 utf8_of_hex ctx argument s)
            ≡ seen (get_status_by_tx sha256 utf8_of_hex argument k s))
  unfolding handle_get_attestation_status handle_lookup_by_tx get_status get_status_by_tx
      attestation_view_for_mcp
  handle_lookup_by_tx-eq-get_status_by_tx ctx k id argument s http present named hex =
      let by_hash = get_by_tx_hash (upper (strip_0x argument)) s in
      (
        elim (Option-cases (get_attestation id s)) [
          | inl e ↦ rw (e, get_status, handle_get_attestation_status) refl
          | inr (a, e) ↦
              rw
                (
                  e,
                  view_of_key ctx k a http present named,
                  get_status,
                  handle_get_attestation_status,
                )
                refl
        ],
        elim (Option-cases by_hash) [
          | inl e ↦ rw (hex, e, get_status_by_tx, handle_lookup_by_tx) refl
          | inr (a, e) ↦
              rw
                (
                  hex,
                  e,
                  view_of_key ctx k a http present named,
                  get_status_by_tx,
                  handle_lookup_by_tx,
                )
                refl
        ],
      )
