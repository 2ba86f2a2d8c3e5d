-- ===== src/Mcp.antt =====
-- src/mcp/tools.ts, src/mcp/context.ts and the choice of resources in src/mcp/resources.ts: the tools of
-- the MCP server. Texts are left out: a result holds what its text is made of.
pub mod Same
use xrplink.Prelude.Text.{strip_0x, upper}
use xrplink.Store.{Store, ApiKey}
use xrplink.Store.Attestations.{get_attestation, get_by_tx_hash}
use xrplink.Views.{McpContext, View, attestation_view_for_mcp}
use xrplink.RateLimit.{Limits, Windows, check_verify_rate_limit}
use xrplink.Attest.{
  World, Failure, Attempt, done, raised, Env, Request, AttestSuccess, AttestResult, ok,
  payment_required, error, Flow,
}
use xrplink.Attest.Flow.{attest_xrp_payment}
use xrplink.Prelude.{
  ℕ, zero, suc, ◌+◌, ◌-◌, ◌*◌, ◌/◌, ◌%◌, ◌^◌, ◌≤◌, ◌<◌, min, max, String, ◌++◌, ◌≡◌, refl, sym, ap,
  ◌∙◌, ◌≢◌, ◌↔◌, ◌⊎◌, inl, inr, Bool, true, false, not, ◌&&◌, ◌||◌, Option, none, some, List, [],
  ◌∷◌, arith, ◌==◌, eq_iff, eq_refl, ltb, leb, nat_eq, if◌then◌else◌, ltb→lt, lt→ltb, Bool-cases,
  Option-cases, is_some, get_or, or_else, truthy, truthy_of_ne, length, take, drop, take_last, keep,
  find, any, length-append, All, concat, newest_first,
}

-- `McpRequestContext`; a call by stdio has an empty one.
pub record McpRequestContext : Type 0 where
  pub auth : McpContext
  pub open auth use *
  pub payment_signature : Option String
  pub client_ip : Option String

pub data ToolResult {ℓ} (A : Type ℓ) : Type ℓ where
  tool_ok : A → ToolResult A
  not_found : String → ToolResult A
  limited : ℕ → ToolResult A
  refused : AttestResult → ToolResult A
  thrown : Failure → ToolResult A

abbrev of_attempt : Attempt AttestResult → ToolResult AttestSuccess
of_attempt (raised e) = thrown e
of_attempt (done (ok body)) = tool_ok body
of_attempt (done (payment_required quote over)) = refused (payment_required quote over)
of_attempt (done (error status e)) = refused (error status e)

-- `requestContext.apiKey || (typeof args.apiKey === "string" ? args.apiKey : undefined)`
abbrev key_of : McpRequestContext → Option String → Option String
key_of ctx argument = or_else (truthy ctx.api_key) argument

module _ (env : Env) (limits : Limits) where
  abbrev attest_for :
      McpRequestContext
      → String
      → Option String
      → World × Windows
      → ToolResult AttestSuccess × (World × Windows)
  attest_for ctx tx_hash key (w, ws) =
      let (r, v) =
        attest_xrp_payment env
          (record {
            tx_hash = tx_hash;
            api_key_header = key;
            api_key_record = ctx.api_key_record;
            payment_signature = ctx.payment_signature;
          })
          w in
      (of_attempt r, (v, ws))

  -- Only requests that came by HTTP, or with an address, are counted.
  unfoldable pub handle_verify_xrp_payment :
      McpRequestContext
      → String
      → Option String
      → ℕ
      → World × Windows
      → ToolResult AttestSuccess × (World × Windows)
  unfolding attest_xrp_payment check_verify_rate_limit
  handle_verify_xrp_payment ctx tx_hash argument now (w, ws) =
      let key = key_of ctx argument in
      if not (ctx.http || is_some (truthy ctx.client_ip))
      then attest_for ctx tx_hash key (w, ws)
      else let (hit, ws') =
          check_verify_rate_limit limits (get_or (truthy ctx.client_ip) "unknown") key now ws in
        if hit.allowed
        then attest_for ctx tx_hash key (w, ws')
        else (limited hit.retry_after_sec, (w, ws'))

module _ (sha256 utf8_of_hex : String → String) where
  unfoldable pub handle_get_attestation_status :
      McpRequestContext → String → Store → ToolResult View
  handle_get_attestation_status ctx id s = elim (get_attestation id s) [
    | none ↦ not_found id
    | some a ↦ tool_ok (attestation_view_for_mcp sha256 utf8_of_hex ctx.auth a)
  ]

  unfoldable pub handle_lookup_by_tx : McpRequestContext → String → Store → ToolResult View
  handle_lookup_by_tx ctx argument s =
      let tx_hash = upper (strip_0x argument) in
      elim (get_by_tx_hash tx_hash s) [
        | none ↦ not_found tx_hash
        | some a ↦ tool_ok (attestation_view_for_mcp sha256 utf8_of_hex ctx.auth a)
      ]

abbrev pub network_status_uri : String
network_status_uri = "xrplink://network/status"

-- The resources that a client is shown, by their addresses: the status of the network only for a key.
unfoldable pub get_resources : Option Bool → McpRequestContext → List String → List String
get_resources include_private ctx templates =
    let all = get_or include_private (is_some ctx.api_key_record) in
    keep (λ uri. all || not (uri == network_status_uri)) templates

-- `none` where the answer is `null`.
unfoldable pub read_resource :
    McpRequestContext → (String → String) → List String → String → Option String
read_resource ctx handler templates uri =
    if (uri == network_status_uri) && not (is_some ctx.api_key_record)
    then none
    else (elim (find (λ t. t == uri) templates) [ none ↦ none | some t ↦ some (handler t) ])
