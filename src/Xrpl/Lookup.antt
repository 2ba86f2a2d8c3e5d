-- ===== src/Xrpl/Lookup.antt =====
-- src/xrpl-tx.ts: what the loop over the endpoints decides.
use xrplink.Prelude.{
  ◌≡◌, refl, Bool, true, false, ◌||◌, Option, none, some, List, [], ◌∷◌, arith, if◌then◌else◌, any,
}
use xrplink.Xrpl.{
  TxResult, XrplLookup, found, not_found, unavailable, EndpointAnswer, has_account, txn_not_found,
  other_body, fails, lookup_from, lookup_xrpl_tx,
}

-- The first endpoint that has the transaction, if one has.
abbrev pub first_found : List EndpointAnswer → Option TxResult
first_found [] = none
first_found (has_account tx ∷ rest) = some tx
first_found (_ ∷ rest) = first_found rest

abbrev is_not_found : EndpointAnswer → Bool
is_not_found txn_not_found = true
is_not_found _ = false

abbrev is_failure : EndpointAnswer → Bool
is_failure fails = true
is_failure _ = false

-- The answer as the reader of the source's comment would put it: a transaction if an endpoint has
-- it; else "unavailable" only if one failed and none said that the transaction is not there.
abbrev pub verdict : List EndpointAnswer → XrplLookup
verdict answers = elim (first_found answers) [
  | some tx ↦ found tx
  | none ↦
      if any is_not_found answers
      then not_found
      else if any is_failure answers
      then unavailable
      else not_found
]

lookup_from_lem :
    (answers : List EndpointAnswer) (saw err : Bool)
    → lookup_from answers saw err ≡ (elim (first_found answers) [
      | some tx ↦ found tx
      | none ↦
          if saw || any is_not_found answers
          then not_found
          else if err || any is_failure answers
          then unavailable
          else not_found
    ])
unfolding lookup_from
lookup_from_lem [] saw err = ground arith
lookup_from_lem (has_account tx ∷ rest) saw err = refl
lookup_from_lem (txn_not_found ∷ rest) saw err = ground (arith, lookup_from_lem rest true err)
lookup_from_lem (other_body ∷ rest) saw err = lookup_from_lem rest saw err
lookup_from_lem (fails ∷ rest) saw err = ground (arith, lookup_from_lem rest saw true)

-- The loop gives the verdict: the first endpoint that has the transaction decides, whatever the ones
-- before it did; if none has it, the result is "unavailable" exactly if some endpoint failed and none
-- answered `txnNotFound`, and "not found" otherwise.
pub lookup_xrpl_tx-eq-verdict :
    (answers : List EndpointAnswer) → lookup_xrpl_tx answers ≡ verdict answers
unfolding lookup_xrpl_tx
lookup_xrpl_tx-eq-verdict answers = lookup_from_lem answers false false
